-- ===== src/Ingestion/Keys.antt =====
-- internal/ingestion/event.go: when two events have the same key.
use Prim.Native.Char.{code}
use Prim.Native.String.{◌++◌ as append}
use Prim.Native.String.append
use text.Mathlib.TextLemmas.{append_cancel_left}
use schedulator.Prelude.{
  ℕ, ltb, String, ◌==◌, eq_iff, true, ◌&&◌, ◌≡◌, refl, sym, ap, ◌∙◌, subst, if◌then◌else◌, arith,
  Bool-cases, inl, inr,
}
use schedulator.Ingestion.{EventKind, kind_text, key_of, same_kind}

initial : String → ℕ
initial String.[] = 0
initial (String.◌∷◌ c s) = code c

-- The kinds have different initials.
letter : EventKind → ℕ
letter EventKind.metrics_update = b'M'
letter EventKind.cluster_event = b'C'
letter EventKind.sla_breach = b'S'
letter EventKind.periodic_eval = b'P'
letter EventKind.app_config_update = b'A'

kind_from : ℕ → EventKind
kind_from n =
    if ltb n b'C'
    then EventKind.app_config_update
    else if ltb n b'M'
    then EventKind.cluster_event
    else if ltb n b'P'
    then EventKind.metrics_update
    else if ltb n b'S'
    then EventKind.periodic_eval
    else EventKind.sla_breach

kind_from-letter : (k : EventKind) → kind_from (letter k) ≡ k
unfolding letter kind_from
kind_from-letter EventKind.metrics_update = refl
kind_from-letter EventKind.cluster_event = refl
kind_from-letter EventKind.sla_breach = refl
kind_from-letter EventKind.periodic_eval = refl
kind_from-letter EventKind.app_config_update = refl

initial-key_of : (k : EventKind) (app : String) → initial (key_of k app) ≡ letter k
unfolding initial letter
initial-key_of EventKind.metrics_update app =
    ap initial (append.cons "M" "etricsUpdate" (append ":" app))
initial-key_of EventKind.cluster_event app =
    ap initial (append.cons "C" "lusterEvent" (append ":" app))
initial-key_of EventKind.sla_breach app = ap initial (append.cons "S" "LABreach" (append ":" app))
initial-key_of EventKind.periodic_eval app =
    ap initial (append.cons "P" "eriodicEval" (append ":" app))
initial-key_of EventKind.app_config_update app =
    ap initial (append.cons "A" "ppConfigUpdate" (append ":" app))

key_of-kind : (j k : EventKind) (a b : String) → key_of j a ≡ key_of k b → j ≡ k
key_of-kind j k a b e =
    let letters : letter j ≡ letter k =
      sym (initial-key_of j a) ∙ ap initial e ∙ initial-key_of k b in
    sym (kind_from-letter j) ∙ ap kind_from letters ∙ kind_from-letter k

key_of-app : (k : EventKind) (a b : String) → key_of k a ≡ key_of k b → a ≡ b
key_of-app k a b e =
    append_cancel_left ":" a b (append_cancel_left (kind_text k) (append ":" a) (append ":" b) e)

pub same_kind_eq : (j k : EventKind) → same_kind j k ≡ true → j ≡ k
same_kind_eq EventKind.metrics_update k h = ground (arith, h)
same_kind_eq EventKind.cluster_event k h = ground (arith, h)
same_kind_eq EventKind.sla_breach k h = ground (arith, h)
same_kind_eq EventKind.periodic_eval k h = ground (arith, h)
same_kind_eq EventKind.app_config_update k h = ground (arith, h)

same_kind_refl : (k : EventKind) → same_kind k k ≡ true
same_kind_refl EventKind.metrics_update = refl
same_kind_refl EventKind.cluster_event = refl
same_kind_refl EventKind.sla_breach = refl
same_kind_refl EventKind.periodic_eval = refl
same_kind_refl EventKind.app_config_update = refl

-- Two keys are equal exactly when the kinds and the applications are.
pub key_of_eq :
    (j k : EventKind) (a b : String) → (key_of j a == key_of k b) ≡ (same_kind j k && a == b)
key_of_eq j k a b = elim (Bool-cases (key_of j a == key_of k b)) [
  | inl same ↦
      let e = (eq_iff (key_of j a) (key_of k b)).0 same in
      let kinds = key_of-kind j k a b e in
      let apps = key_of-app k a b (subst (λ i. key_of i a ≡ key_of k b) kinds e) in
      let alike : same_kind j k ≡ true =
        subst (λ i. same_kind j i ≡ true) kinds (same_kind_refl j) in
      ground (arith, alike, same, eq_iff a b, apps)
  | inr other ↦ elim (Bool-cases (same_kind j k && a == b)) [
    | inr different ↦ other ∙ sym different
    | inl both ↦
        let kinds = same_kind_eq j k (ground (arith, both)) in
        let apps : a ≡ b = ground (arith, both, eq_iff a b) in
        let keys : key_of j a ≡ key_of k b = ap (λ i. key_of i a) kinds ∙ ap (key_of k) apps in
        absurd (ground (arith, other, (eq_iff (key_of j a) (key_of k b)).1 keys))
  ]
]
