-- ===== src/EventBus/Delivery.antt =====
-- internal/apiserver/eventbus.go: what a subscriber gets of the events that are published.
use schedulator.Prelude.{
  ℕ, ltb, Bool, true, false, List, [], ◌∷◌, ◌++◌, some, length, if◌then◌else◌, ◌≡◌, refl, ◌⊎◌, inl,
  inr, ◌<◌, ◌≤◌, ◌+◌, arith, Bool-cases, Option-cases, subst, sym, ap, length-append, ap₂, ◌∙◌,
  or_else,
}
use mathlib.Core.List.{append-nil}
use schedulator.EventBus.{
  Event, EventBus, capacity, is_same, channel_of, put, remove, offer, offer_all, Step, subscribing,
  unsubscribing, publishing, receiving, drop_first, first, taken, take_step, run, waiting_events,
  received, published, Stays,
}

is_same→eq : (i j : ℕ) → is_same i j ≡ true → i ≡ j
is_same→eq i j h = ground arith

module _ {D : Type 0} where
  channel_of-put :
      (i j : ℕ) (ch : List (Event D)) (m : List (ℕ × List (Event D)))
      → channel_of j (put i ch m) ≡ (if is_same i j then some ch else channel_of j m)
  channel_of-put i j ch [] = refl
  channel_of-put i j ch ((k, old) ∷ m) = ground (arith, channel_of-put i j ch m)

  channel_of-remove :
      (i j : ℕ) (m : List (ℕ × List (Event D)))
      → is_same i j ≡ false
      → channel_of j (remove i m) ≡ channel_of j m
  channel_of-remove i j [] h = refl
  channel_of-remove i j ((k, old) ∷ m) h = ground (arith, channel_of-remove i j m h)

  channel_of-offer_all :
      (e : Event D) (j : ℕ) (ch : List (Event D)) (m : List (ℕ × List (Event D)))
      → channel_of j m ≡ some ch
      → channel_of j (offer_all e m) ≡ some (offer e ch)
  channel_of-offer_all e j ch [] h = cc
  channel_of-offer_all e j ch ((k, old) ∷ m) h = elim (Bool-cases (is_same k j)) [
    | inl hit ↦ ground (arith, hit)
    | inr miss ↦ ground (arith, miss, channel_of-offer_all e j ch m)
  ]

  channel_of_same :
      (i j : ℕ) (m : List (ℕ × List (Event D)))
      → is_same i j ≡ true
      → channel_of i m ≡ channel_of j m
  channel_of_same i j m h = ap (λ k. channel_of k m) (is_same→eq i j h)

  -- A sequence is a part of another when it comes of it by leaving out some entries.
  abbrev pub IsPart : List (Event D) → List (Event D) → Type 0
  IsPart [] ys = Unit
  IsPart (x ∷ xs) [] = ⊥
  IsPart (x ∷ xs) (y ∷ ys) = ((x ≡ y) × IsPart xs ys) ⊎ IsPart (x ∷ xs) ys

  IsPart-skip :
      (xs : List (Event D)) (e : Event D) (p : List (Event D)) → IsPart xs p → IsPart xs (e ∷ p)
  IsPart-skip [] e p h = tt
  IsPart-skip (x ∷ xs) e p h = inr h

  IsPart-middle :
      (xs q : List (Event D)) (e : Event D) (p : List (Event D))
      → IsPart xs (q ++ p)
      → IsPart xs (q ++ e ∷ p)
  IsPart-middle xs [] e p h = IsPart-skip xs e p h
  IsPart-middle [] (y ∷ q) e p h = tt
  IsPart-middle (x ∷ xs) (y ∷ q) e p (inl h) = inl (h.0, IsPart-middle xs q e p h.1)
  IsPart-middle (x ∷ xs) (y ∷ q) e p (inr h) = inr (IsPart-middle (x ∷ xs) q e p h)

  IsPart-self : (q : List (Event D)) → IsPart q (q ++ [])
  IsPart-self [] = tt
  IsPart-self (x ∷ q) = inl (refl, IsPart-self q)

  append-shift :
      (q : List (Event D)) (e : Event D) (p : List (Event D)) → (q ++ e ∷ []) ++ p ≡ q ++ e ∷ p
  append-shift [] e p = refl
  append-shift (x ∷ q) e p = ground (arith, append-shift q e p)

  IsPart-offer :
      (xs : List (Event D)) (e : Event D) (ch p : List (Event D))
      → IsPart xs (offer e ch ++ p)
      → IsPart xs (ch ++ e ∷ p)
  IsPart-offer xs e ch p h = elim (Bool-cases (ltb (length ch) capacity)) [
    | inl room ↦ subst (IsPart xs) (ground (arith, room, append-shift ch e p)) h
    | inr full ↦ IsPart-middle xs ch e p (subst (λ c. IsPart xs (c ++ p)) (ground (arith, full)) h)
  ]

  IsPart-first :
      (rs : List (Event D)) (ws : List (Event D)) (ch p : List (Event D))
      → IsPart (rs ++ ws) (drop_first ch ++ p)
      → IsPart ((first ch ++ rs) ++ ws) (ch ++ p)
  IsPart-first rs ws [] p h = h
  IsPart-first rs ws (e ∷ ch) p h = inl (refl, h)

  -- A step, seen by a subscriber that stays.
  abbrev view : ℕ → Step D → List (Event D) → List (Event D)
  view id subscribing ch = ch
  view id (unsubscribing i) ch = ch
  view id (publishing e) ch = offer e ch
  view id (receiving i) ch = if is_same i id then drop_first ch else ch

  abbrev got : ℕ → Step D → List (Event D) → List (Event D)
  got id subscribing ch = []
  got id (unsubscribing i) ch = []
  got id (publishing e) ch = []
  got id (receiving i) ch = if is_same i id then first ch else []

  -- What a subscriber that stays reads, and what waits in its channel in the end.
  abbrev reads : ℕ → List (Step D) → List (Event D) → List (Event D) × List (Event D)
  reads id [] ch = ([], ch)
  reads id (s ∷ steps) ch =
      let rest = reads id steps (view id s ch) in (got id s ch ++ rest.0, rest.1)

  reads-IsPart :
      (id : ℕ) (steps : List (Step D)) (ch : List (Event D))
      → IsPart ((reads id steps ch).0 ++ (reads id steps ch).1) (ch ++ published steps)
  reads-IsPart id [] ch = IsPart-self ch
  reads-IsPart id (subscribing ∷ steps) ch = reads-IsPart id steps ch
  reads-IsPart id (unsubscribing i ∷ steps) ch = reads-IsPart id steps ch
  reads-IsPart id (publishing e ∷ steps) ch =
      IsPart-offer _ e ch (published steps) (reads-IsPart id steps (offer e ch))
  reads-IsPart id (receiving i ∷ steps) ch =
      pick (is_same i id) (reads-IsPart id steps (view id (receiving i) ch))
    where
      after : Bool → List (Event D) × List (Event D)
      after b = reads id steps (if b then drop_first ch else ch)

      pick :
          (b : Bool)
          → IsPart
              ((after b).0 ++ (after b).1)
              ((if b then drop_first ch else ch) ++ published steps)
          → IsPart
              (((if b then first ch else []) ++ (after b).0) ++ (after b).1)
              (ch ++ published steps)
      pick true h = IsPart-first (after true).0 (after true).1 ch (published steps) h
      pick false h = h

  view-le :
      (id : ℕ) (s : Step D) (ch : List (Event D))
      → length ch ≤ capacity
      → length (view id s ch) ≤ capacity
  view-le id subscribing ch h = h
  view-le id (unsubscribing i) ch h = h
  view-le id (publishing e) ch h = ground (arith, length-append ch (e ∷ []))
  view-le id (receiving i) [] h = ground arith
  view-le id (receiving i) (x ∷ ch) h = ground arith

  reads-le :
      (id : ℕ) (steps : List (Step D)) (ch : List (Event D))
      → length ch ≤ capacity
      → length (reads id steps ch).1 ≤ capacity
  reads-le id [] ch h = h
  reads-le id (s ∷ steps) ch h = reads-le id steps (view id s ch) (view-le id s ch h)

  take_step-view :
      (id : ℕ) (s : Step D) (b after : EventBus D) (ch : List (Event D))
      → channel_of id b.subscribers ≡ some ch
      → id < b.next_id
      → Stays id (s ∷ [])
      → take_step s b ≡ some after
      → (channel_of id after.subscribers ≡ some (view id s ch)) × (id < after.next_id)
  take_step-view id subscribing b after ch h fresh stays e =
      ground (arith, channel_of-put b.next_id id [] b.subscribers)
  take_step-view id (unsubscribing i) b after ch h fresh stays e =
      ground
        (arith, Option-cases (channel_of i b.subscribers), channel_of-remove i id b.subscribers)
  take_step-view id (publishing x) b after ch h fresh stays e =
      ground (arith, channel_of-offer_all x id ch b.subscribers h)
  take_step-view id (receiving i) b after ch h fresh stays e =
      elim (Option-cases (channel_of i b.subscribers)) [
        | inl gone ↦ ground (arith, gone, channel_of_same i id b.subscribers)
        | inr (old, found) ↦ ground (
          arith,
          found,
          channel_of_same i id b.subscribers,
          channel_of-put i id (drop_first old) b.subscribers,
        )
      ]

  reads_complete :
      (id : ℕ) (steps : List (Step D)) (ch : List (Event D))
      → length ch + length (published steps) ≤ capacity
      → (reads id steps ch).0 ++ (reads id steps ch).1 ≡ ch ++ published steps
  reads_complete id [] ch h = sym (append-nil ch)
  reads_complete id (subscribing ∷ steps) ch h = reads_complete id steps ch h
  reads_complete id (unsubscribing i ∷ steps) ch h = reads_complete id steps ch h
  reads_complete id (publishing e ∷ steps) ch h = ground (
    arith,
    length-append ch (e ∷ []),
    append-shift ch e (published steps),
    reads_complete id steps (ch ++ e ∷ []),
  )
  reads_complete id (receiving i ∷ steps) [] h = elim (Bool-cases (is_same i id)) [
    | inl mine ↦ ground (arith, mine, reads_complete id steps [] h)
    | inr other ↦ ground (arith, other, reads_complete id steps [] h)
  ]
  reads_complete id (receiving i ∷ steps) (x ∷ ch) h = elim (Bool-cases (is_same i id)) [
    | inl mine ↦ ground (arith, mine, reads_complete id steps ch)
    | inr other ↦ ground (arith, other, reads_complete id steps (x ∷ ch) h)
  ]

  taken-got :
      (id : ℕ) (s : Step D) (b : EventBus D) (ch : List (Event D))
      → channel_of id b.subscribers ≡ some ch
      → taken id s b ≡ got id s ch
  taken-got id subscribing b ch h = refl
  taken-got id (unsubscribing i) b ch h = refl
  taken-got id (publishing e) b ch h = refl
  taken-got id (receiving i) b ch h = ap (λ o. if is_same i id then first (or_else o []) else []) h

  Stays-first :
      (id : ℕ) (s : Step D) (steps : List (Step D)) → Stays id (s ∷ steps) → Stays id (s ∷ [])
  Stays-first id subscribing steps h = tt
  Stays-first id (unsubscribing i) steps h = (h.0, tt)
  Stays-first id (publishing e) steps h = tt
  Stays-first id (receiving i) steps h = tt

  Stays-rest : (id : ℕ) (s : Step D) (steps : List (Step D)) → Stays id (s ∷ steps) → Stays id steps
  Stays-rest id subscribing steps h = h
  Stays-rest id (unsubscribing i) steps h = h.1
  Stays-rest id (publishing e) steps h = h
  Stays-rest id (receiving i) steps h = h

  run-reads :
      (id : ℕ) (steps : List (Step D)) (b last : EventBus D) (ch : List (Event D))
      → channel_of id b.subscribers ≡ some ch
      → id < b.next_id
      → Stays id steps
      → run steps b ≡ some last
      → (received id steps b ≡ (reads id steps ch).0)
        × (waiting_events id last ≡ (reads id steps ch).1)
  unfolding run received
  run-reads id [] b last ch h fresh stays e = ground arith
  run-reads id (s ∷ steps) b last ch h fresh stays e = elim (Option-cases (take_step s b)) [
    | inl stuck ↦ ground (arith, stuck, e)
    | inr (after, taken_lem) ↦
        let seen =
          take_step-view id s b after ch h fresh (Stays-first id s steps stays) taken_lem in
        let rest =
          run-reads id steps after last (view id s ch) seen.0 seen.1 (Stays-rest id s steps stays)
            (ground (arith, taken_lem, e)) in
        (ground (arith, taken_lem, rest, taken-got id s b ch h), rest.1)
  ]

  -- While a subscriber with at most 32 events in its channel does not unsubscribe, and if nobody
  -- unsubscribes twice: what it reads and what waits for it in the end is, in this order, a part of
  -- what waited for it at first and was published since, and at most 32 events wait.
  pub run-IsPart :
      (id : ℕ) (steps : List (Step D)) (b last : EventBus D) (ch : List (Event D))
      → channel_of id b.subscribers ≡ some ch
      → id < b.next_id
      → length ch ≤ capacity
      → Stays id steps
      → run steps b ≡ some last
      → IsPart (received id steps b ++ waiting_events id last) (ch ++ published steps)
        × (length (waiting_events id last) ≤ capacity)
  run-IsPart id steps b last ch h fresh room stays e =
      let lem = run-reads id steps b last ch h fresh stays e in
      (
        subst (λ xs. IsPart xs (ch ++ published steps))
            (ap₂ (λ r w. r ++ w) (sym lem.0) (sym lem.1)) (reads-IsPart id steps ch),
        subst (λ w. length w ≤ capacity) (sym lem.1) (reads-le id steps ch room),
      )

  -- If what waits for a subscriber and all that is published later are at most 32 events, it loses
  -- none: what it reads and what waits for it in the end are these, in the order of publishing,
  -- while it does not unsubscribe and nobody unsubscribes twice.
  pub run-published :
      (id : ℕ) (steps : List (Step D)) (b last : EventBus D) (ch : List (Event D))
      → channel_of id b.subscribers ≡ some ch
      → id < b.next_id
      → length ch + length (published steps) ≤ capacity
      → Stays id steps
      → run steps b ≡ some last
      → received id steps b ++ waiting_events id last ≡ ch ++ published steps
  run-published id steps b last ch h fresh room stays e =
      let lem = run-reads id steps b last ch h fresh stays e in
      ap₂ (λ r w. r ++ w) lem.0 lem.1 ∙ reads_complete id steps ch room
