-- ===== src/Ingestion/Latest.antt =====
-- internal/ingestion/debounce.go: what the batches hold of the events that arrived.
use schedulator.Prelude.{
  ◌≤◌, String, ◌==◌, eq_iff, Bool, true, false, not, List, [], ◌∷◌, ◌++◌, none, Map, lookup,
  lookup-insert, values, select, concat, concat-append, last_of, later, last_of-append,
  select-append, count, count-append, All-map, is_empty, All, ◌≡◌, refl, sym, ap, ◌∙◌, subst, arith,
  Bool-cases, inl, inr,
}
use mathlib.Core.List.{append_assoc, append-nil}
use schedulator.Ingestion.{
  EventKind, Event, same_kind, is_mergeable_kind, is_mergeable, key_of, Debouncer, waiting, collect,
  flush, fire, final_flush, Debounced, begun, arrived, fired, cancelled, discarded, finished,
}
use schedulator.Ingestion.Batches.{
  IsKeyed, IsKept, is_about-key, is_about, last_of-values, collect-IsKept, Debounced-IsKept,
}
use schedulator.Ingestion.Keys.{key_of_eq, same_kind_eq}

module _ {F : Type 0} where
  -- What has been sent and what waits, in this order.
  abbrev pub accepted : Debouncer F → List (Event F)
  accepted d = concat d.sent ++ waiting d

  pub flush-accepted : (d : Debouncer F) → accepted (flush d) ≡ accepted d
  unfolding flush
  flush-accepted d = elim (Bool-cases (is_empty (waiting d))) [
    | inl bare ↦ rw bare refl
    | inr full ↦
        rw full (append-nil (concat (d.sent ++ waiting d ∷ [])) ∙ concat-append d.sent (waiting d))
  ]

  abbrev pub is_plain : Event F → Bool
  is_plain e = not (is_mergeable e)

  select-IsKeyed : (m : Map (Event F)) → IsKeyed m → select is_plain (values m) ≡ []
  select-IsKeyed [] k = refl
  select-IsKeyed ((i, e) ∷ m) k = ground (arith, k.1, select-IsKeyed m k.3)

  -- The plain events of a state.
  select-accepted :
      (d : Debouncer F)
      → IsKept d
      → select is_plain (accepted d)
        ≡ select is_plain (concat d.sent) ++ select is_plain d.non_mergeable
  select-accepted d h =
      select-append is_plain (concat d.sent) (waiting d)
      ∙ ap (λ l. select is_plain (concat d.sent) ++ l)
          (select-append is_plain (values d.merged) d.non_mergeable
            ∙ ap (λ l. l ++ select is_plain d.non_mergeable) (select-IsKeyed d.merged h.keyed))

  collect-tail :
      (e : Event F) (d : Debouncer F)
      → select is_plain (concat (collect e d).sent) ++ select is_plain (collect e d).non_mergeable
        ≡ (select is_plain (concat d.sent) ++ select is_plain d.non_mergeable)
          ++ select is_plain (e ∷ [])
  unfolding collect
  collect-tail e d = elim (Bool-cases (is_mergeable e)) [
    | inl merges ↦ rw (merges, collect) (sym (append-nil _))
    | inr single ↦
        rw (single, collect, select-append is_plain d.non_mergeable (e ∷ []), single)
          (sym (
            append_assoc (select is_plain (concat d.sent)) (select is_plain d.non_mergeable)
              (e ∷ [])))
  ]

  collect-select :
      (e : Event F) (d : Debouncer F)
      → IsKept d
      → select is_plain (accepted (collect e d)) ≡ select is_plain (accepted d ++ e ∷ [])
  collect-select e d h =
      let before = select-accepted d h in
      let after = select-accepted (collect e d) (collect-IsKept e d h) in
      after
      ∙ collect-tail e d
      ∙ sym (
          select-append is_plain (accepted d) (e ∷ [])
          ∙ ap (λ l. l ++ select is_plain (e ∷ [])) before)

  -- A mergeable kind is not that of a plain event.
  plain_not_about :
      (kind : EventKind) (app : String) (e : Event F)
      → is_mergeable_kind kind ≡ true
      → is_mergeable e ≡ false
      → is_about kind app e ≡ false
  plain_not_about kind app e merges single = elim (Bool-cases (same_kind e.kind kind)) [
    | inr other ↦ ground (arith, other)
    | inl same ↦
        let k = same_kind_eq e.kind kind same in
        absurd (ground (arith, single, subst (λ i. is_mergeable_kind i ≡ true) (sym k) merges))
  ]

  last_of-plain :
      (kind : EventKind) (app : String) (es : List (Event F))
      → is_mergeable_kind kind ≡ true
      → All (λ e. is_mergeable e ≡ false) es
      → last_of (is_about kind app) es ≡ none
  last_of-plain kind app [] merges h = refl
  last_of-plain kind app (e ∷ es) merges h =
      ground (arith, plain_not_about kind app e merges h.0, last_of-plain kind app es merges h.1)

  -- The latest event of a state.
  last_of-accepted :
      (kind : EventKind) (app : String) (d : Debouncer F)
      → is_mergeable_kind kind ≡ true
      → IsKept d
      → last_of (is_about kind app) (accepted d)
        ≡ later (lookup (key_of kind app) d.merged) (last_of (is_about kind app) (concat d.sent))
  last_of-accepted kind app d merges h =
      let p = is_about kind app in
      let whole = last_of-append p (concat d.sent) (waiting d) in
      let pending = last_of-append p (values d.merged) d.non_mergeable in
      ground (
        arith,
        whole,
        pending,
        last_of-plain kind app d.non_mergeable merges h.plain,
        last_of-values kind app d.merged h.keyed,
      )

  collect-lookup :
      (kind : EventKind) (app : String) (e : Event F) (d : Debouncer F)
      → is_mergeable_kind kind ≡ true
      → later
          (lookup (key_of kind app) (collect e d).merged)
          (last_of (is_about kind app) (concat (collect e d).sent))
        ≡ later (last_of (is_about kind app) (e ∷ [])) (
            later (lookup (key_of kind app) d.merged) (last_of (is_about kind app) (concat d.sent)))
  unfolding collect
  collect-lookup kind app e d merges = elim (Bool-cases (is_mergeable e)) [
    | inl merged ↦
        rw (merged, collect)
          (ground (
            arith,
            lookup-insert (key_of e.kind e.app_id) (key_of kind app) e d.merged,
            key_of_eq e.kind kind e.app_id app,
          ))
    | inr single ↦ rw (single, collect) (ground (arith, plain_not_about kind app e merges single))
  ]

  collect-last_of :
      (kind : EventKind) (app : String) (e : Event F) (d : Debouncer F)
      → is_mergeable_kind kind ≡ true
      → IsKept d
      → last_of (is_about kind app) (accepted (collect e d))
        ≡ last_of (is_about kind app) (accepted d ++ e ∷ [])
  collect-last_of kind app e d merges h =
      let before = last_of-accepted kind app d merges h in
      let after = last_of-accepted kind app (collect e d) merges (collect-IsKept e d h) in
      let appended = last_of-append (is_about kind app) (accepted d) (e ∷ []) in
      after
      ∙ collect-lookup kind app e d merges
      ∙ sym (appended ∙ ap (later (last_of (is_about kind app) (e ∷ []))) before)

  -- A view of lists of events that sees the loop take each event, up to the end of the context.
  Debounced-view {κ} :
      {X : Type κ} (v : List (Event F) → X)
      → ((e : Event F) (d : Debouncer F)
          → IsKept d
          → v (accepted (collect e d)) ≡ v (accepted d ++ e ∷ []))
      → ((xs ys : List (Event F)) (e : Event F) → v xs ≡ v ys → v (xs ++ e ∷ []) ≡ v (ys ++ e ∷ []))
      → {es : List (Event F)} {done : Bool} {d : Debouncer F} → Debounced es done d
      → done ≡ false
      → v (accepted d) ≡ v es
  unfolding fire final_flush
  Debounced-view v takes extends begun live = refl
  Debounced-view v takes extends (arrived {es = es} {d = d} r go e) live =
      takes e d (Debounced-IsKept r)
      ∙ extends (accepted d) es e (Debounced-view v takes extends r live)
  Debounced-view v takes extends (fired {d = d} r go on) live =
      ap v (flush-accepted d) ∙ Debounced-view v takes extends r live
  Debounced-view v takes extends (cancelled r) live = absurd (ground (arith, live))
  Debounced-view v takes extends (discarded r go on) live = absurd (ground (arith, live))
  Debounced-view v takes extends (finished {d = d} r go) live =
      ap v (flush-accepted d) ∙ Debounced-view v takes extends r live

  -- While the context is not done, events that are not merged are neither lost nor repeated and keep
  -- their order: those in the batches sent and those that wait are the ones that have arrived.
  pub Debounced-select :
      {es : List (Event F)} {d : Debouncer F}
      → Debounced es false d
      → select is_plain (accepted d) ≡ select is_plain es
  Debounced-select r =
      Debounced-view (select is_plain) collect-select
        (λ xs ys e same.
          select-append is_plain xs (e ∷ [])
          ∙ ap (λ l. l ++ select is_plain (e ∷ [])) same
          ∙ sym (select-append is_plain ys (e ∷ [])))
        r refl

  -- While the context is not done, the latest event of a mergeable kind for an application among those
  -- sent and waiting is the latest that has arrived.
  pub Debounced-last_of :
      {es : List (Event F)} {d : Debouncer F} (kind : EventKind) (app : String)
      → is_mergeable_kind kind ≡ true
      → Debounced es false d
      → last_of (is_about kind app) (accepted d) ≡ last_of (is_about kind app) es
  Debounced-last_of kind app merges r =
      let p = is_about kind app in
      Debounced-view (last_of p) (λ e d h. collect-last_of kind app e d merges h)
        (λ xs ys e same.
          last_of-append p xs (e ∷ [])
          ∙ ap (later (last_of p (e ∷ []))) same
          ∙ sym (last_of-append p ys (e ∷ [])))
        r refl

  count-missing :
      (kind : EventKind) (app : String) (m : Map (Event F))
      → IsKeyed m
      → lookup (key_of kind app) m ≡ none
      → count (is_about kind app) (values m) ≡ 0
  count-missing kind app [] k h = refl
  count-missing kind app ((i, e) ∷ m) k h =
      ground (arith, is_about-key kind app i e k.0, count-missing kind app m k.3)

  count-values :
      (kind : EventKind) (app : String) (m : Map (Event F))
      → IsKeyed m
      → count (is_about kind app) (values m) ≤ 1
  count-values kind app [] k = omega arith
  count-values kind app ((i, e) ∷ m) k = elim (Bool-cases (i == key_of kind app)) [
    | inr miss ↦ ground (arith, miss, is_about-key kind app i e k.0, count-values kind app m k.3)
    | inl hit ↦
        let same = (eq_iff i (key_of kind app)).0 hit in
        let gone = count-missing kind app m k.3 (subst (λ j. lookup j m ≡ none) same k.2) in
        ground (arith, hit, gone, is_about-key kind app i e k.0)
  ]

  count-plain :
      (kind : EventKind) (app : String) (es : List (Event F))
      → is_mergeable_kind kind ≡ true
      → All (λ e. is_mergeable e ≡ false) es
      → count (is_about kind app) es ≡ 0
  count-plain kind app [] merges h = refl
  count-plain kind app (e ∷ es) merges h =
      ground (arith, plain_not_about kind app e merges h.0, count-plain kind app es merges h.1)

  -- Whatever has arrived and whether or not the context is done, no batch holds two events of one
  -- mergeable kind for one application.
  pub Debounced-count :
      {es : List (Event F)} {done : Bool} {d : Debouncer F} (kind : EventKind) (app : String)
      → is_mergeable_kind kind ≡ true
      → Debounced es done d
      → All (λ b. count (is_about kind app) b ≤ 1) d.sent
  Debounced-count {d = d} kind app merges r =
      All-map
        (λ b h.
          let (m, es, made, keyed, plain) = h in
          subst (λ l. count (is_about kind app) l ≤ 1) (sym made)
            (omega (
              arith,
              count-append (is_about kind app) (values m) es,
              count-values kind app m keyed,
              count-plain kind app es merges plain,
            )))
        d.sent (Debounced-IsKept r).formed
