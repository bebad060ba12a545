-- ===== src/Ingestion/Batches.antt =====
-- internal/ingestion/debounce.go: what every state of the loop keeps.
use schedulator.Prelude.{
  String, ◌==◌, eq_iff, Bool, true, false, not, ◌&&◌, List, [], ◌∷◌, ◌++◌, none, Map, lookup,
  insert, lookup-insert, values, last_of, is_empty, All, All-append, ◌≡◌, refl, sym, ap, ◌∙◌, subst,
  arith, Bool-cases, inl, inr, ◌⊎◌,
}
use schedulator.Ingestion.{
  EventKind, Event, same_kind, is_mergeable, merge_key, key_of, build_batch, Debouncer, waiting,
  collect, flush, fire, discard, final_flush, Debounced, begun, arrived, fired, cancelled,
  discarded, finished,
}
use schedulator.Ingestion.Keys.{key_of_eq}

module _ {F : Type 0} where
  -- Events of a kind for an application.
  abbrev pub is_about : EventKind → String → Event F → Bool
  is_about kind app e = same_kind e.kind kind && e.app_id == app

  -- A map in which mergeable events stand under their keys, each key once.
  abbrev pub IsKeyed : Map (Event F) → Type 0
  IsKeyed [] = Unit
  IsKeyed ((k, e) ∷ m) =
      (k ≡ key_of e.kind e.app_id) × (is_mergeable e ≡ true) × (lookup k m ≡ none) × IsKeyed m

  insert-IsKeyed :
      (e : Event F) (m : Map (Event F))
      → is_mergeable e ≡ true
      → IsKeyed m
      → IsKeyed (insert (key_of e.kind e.app_id) e m)
  insert-IsKeyed e [] h k = (refl, h, refl, tt)
  insert-IsKeyed e ((i, f) ∷ m) h k = ground (
    arith,
    eq_iff i (key_of e.kind e.app_id),
    eq_iff (key_of e.kind e.app_id) i,
    lookup-insert (key_of e.kind e.app_id) i e m,
    insert-IsKeyed e m h,
  )

  pub is_about-key :
      (kind : EventKind) (app k : String) (e : Event F)
      → k ≡ key_of e.kind e.app_id
      → (k == key_of kind app) ≡ is_about kind app e
  is_about-key kind app k e h =
      subst (λ j. (j == key_of kind app) ≡ is_about kind app e) (sym h)
        (key_of_eq e.kind kind e.app_id app)

  pub missing :
      (kind : EventKind) (app : String) (m : Map (Event F))
      → IsKeyed m
      → lookup (key_of kind app) m ≡ none
      → last_of (is_about kind app) (values m) ≡ none
  missing kind app [] k h = refl
  missing kind app ((i, e) ∷ m) k h =
      ground (arith, is_about-key kind app i e k.0, missing kind app m k.3)

  -- At most one event of a kind for an application waits in the map.
  pub last_of-values :
      (kind : EventKind) (app : String) (m : Map (Event F))
      → IsKeyed m
      → last_of (is_about kind app) (values m) ≡ lookup (key_of kind app) m
  last_of-values kind app [] k = refl
  last_of-values kind app ((i, e) ∷ m) k = elim (Bool-cases (i == key_of kind app)) [
    | inr miss ↦ ground (arith, miss, is_about-key kind app i e k.0, last_of-values kind app m k.3)
    | inl hit ↦
        let same = (eq_iff i (key_of kind app)).0 hit in
        let none_left = missing kind app m k.3 (subst (λ j. lookup j m ≡ none) same k.2) in
        ground (arith, hit, none_left, is_about-key kind app i e k.0)
  ]

  -- A batch of the loop.
  abbrev pub IsBatch : List (Event F) → Type 0
  IsBatch b =
      (m : Map (Event F)) × (es : List (Event F)) × (b ≡ build_batch m es)
      × IsKeyed m
      × All (λ e. is_mergeable e ≡ false) es

  -- What every state of the loop keeps: the two collections.
  pub record IsKept (d : Debouncer F) : Type 0 where
    pub keyed : IsKeyed d.merged
    pub plain : All (λ e. is_mergeable e ≡ false) d.non_mergeable
    pub filled : All (λ b. is_empty b ≡ false) d.sent
    pub formed : All IsBatch d.sent

  is_empty-append_last :
      (xs : List (Event F)) (ys : List (Event F)) (e : Event F)
      → is_empty (xs ++ (ys ++ e ∷ [])) ≡ false
  is_empty-append_last [] [] e = refl
  is_empty-append_last [] (y ∷ ys) e = refl
  is_empty-append_last (x ∷ xs) ys e = refl

  is_empty-insert :
      (k : String) (e : Event F) (m : Map (Event F)) (ys : List (Event F))
      → is_empty (build_batch (insert k e m) ys) ≡ false
  is_empty-insert k e [] ys = refl
  is_empty-insert k e ((i, f) ∷ m) ys = ground arith

  pub flush-IsKept :
      (d : Debouncer F) → IsKept d → IsKept (flush d) × (is_empty (waiting (flush d)) ≡ true)
  unfolding flush
  flush-IsKept d h = elim (Bool-cases (is_empty (waiting d))) [
    | inl bare ↦ rw bare (h, bare)
    | inr full ↦ rw full (
      record {
        keyed = tt;
        plain = tt;
        filled = All-append (λ b. is_empty b ≡ false) d.sent (waiting d ∷ []) h.filled (full, tt);
        formed =
            All-append IsBatch d.sent (waiting d ∷ []) h.formed
              ((d.merged, d.non_mergeable, refl, h.keyed, h.plain), tt);
      },
      refl,
    )
  ]

  pub collect-IsKept : (e : Event F) (d : Debouncer F) → IsKept d → IsKept (collect e d)
  unfolding collect
  collect-IsKept e d h = elim (Bool-cases (is_mergeable e)) [
    | inl merges ↦
        rw (merges, collect)
          record {
            keyed = insert-IsKeyed e d.merged merges h.keyed;
            plain = h.plain;
            filled = h.filled;
            formed = h.formed;
          }
    | inr single ↦
        rw (single, collect)
          record {
            keyed = h.keyed;
            plain =
                All-append (λ x. is_mergeable x ≡ false) d.non_mergeable (e ∷ []) h.plain
                  (single, tt);
            filled = h.filled;
            formed = h.formed;
          }
  ]

  pub Debounced-IsKept :
      {es : List (Event F)} {done : Bool} {d : Debouncer F} → Debounced es done d → IsKept d
  unfolding fire discard final_flush
  Debounced-IsKept begun = record { keyed = tt; plain = tt; filled = tt; formed = tt }
  Debounced-IsKept (arrived {d = d} r go e) = collect-IsKept e d (Debounced-IsKept r)
  Debounced-IsKept (fired {d = d} r go on) =
      let h = (flush-IsKept d (Debounced-IsKept r)).0 in
      record { keyed = h.keyed; plain = h.plain; filled = h.filled; formed = h.formed }
  Debounced-IsKept (cancelled r) = Debounced-IsKept r
  Debounced-IsKept (discarded {d = d} r go on) =
      let h = Debounced-IsKept r in
      record { keyed = tt; plain = tt; filled = h.filled; formed = h.formed }
  Debounced-IsKept (finished {d = d} r go) =
      let h = (flush-IsKept d (Debounced-IsKept r)).0 in
      record { keyed = h.keyed; plain = h.plain; filled = h.filled; formed = h.formed }

  collect-waits : (e : Event F) (d : Debouncer F) → is_empty (waiting (collect e d)) ≡ false
  unfolding collect
  collect-waits e d = ground (
    arith,
    is_empty-insert (merge_key e) e d.merged d.non_mergeable,
    is_empty-append_last (values d.merged) d.non_mergeable e,
  )

  collect_lem :
      (e : Event F) (d : Debouncer F)
      → ((collect e d).armed ≡ true)
        × ((collect e d).stopped ≡ d.stopped)
        × ((collect e d).sent ≡ d.sent)
  unfolding collect
  collect_lem e d = ground arith

  flush_stopped : (d : Debouncer F) → (flush d).stopped ≡ d.stopped
  unfolding flush
  flush_stopped d = ground arith

  -- In every state that the loop reaches before it returns, its timer runs exactly while some event
  -- waits; when it has returned nothing waits; and no batch that it has sent is empty.
  pub Debounced-armed :
      {es : List (Event F)} {done : Bool} {d : Debouncer F}
      → Debounced es done d
      → ((d.armed ≡ not (is_empty (waiting d))) ⊎ (d.stopped ≡ true))
        × ((d.stopped ≡ false) ⊎ (is_empty (waiting d) ≡ true))
        × All (λ b. is_empty b ≡ false) d.sent
  unfolding fire discard final_flush
  Debounced-armed begun = (inl refl, inl refl, tt)
  Debounced-armed (arrived {d = d} r go e) =
      let waits = collect-waits e d in
      let (on, running, same) = collect_lem e d in
      (
        inl (on ∙ sym (ap not waits)),
        inl (running ∙ go),
        (collect-IsKept e d (Debounced-IsKept r)).filled,
      )
  Debounced-armed (fired {d = d} r go on) =
      let (kept, bare) = flush-IsKept d (Debounced-IsKept r) in
      (inl (sym (ap not bare)), inr bare, kept.filled)
  Debounced-armed (cancelled r) = Debounced-armed r
  Debounced-armed (discarded {d = d} r go on) = (inl refl, inr refl, (Debounced-IsKept r).filled)
  Debounced-armed (finished {d = d} r go) =
      let (kept, bare) = flush-IsKept d (Debounced-IsKept r) in (inr refl, inr bare, kept.filled)
