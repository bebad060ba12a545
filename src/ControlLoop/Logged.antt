-- ===== src/ControlLoop/Logged.antt =====
-- internal/controlloop/loop.go: which operations of a generated plan are logged.
use schedulator.Prelude.{
  ℕ, String, ◌==◌, Bool, true, false, List, [], ◌∷◌, ◌++◌, map, any, all, select, ◌≡◌, refl, arith,
}
use schedulator.Model.{Time}
use schedulator.Model.Plans.{
  PlacementDecisions, MigrateDecision, OperationType, scaling_up, scaling_down, preempting,
  unsupported, Operation,
}
use schedulator.PlanGen.{
  Draft, add_preemption, add_scale_down, add_scale_up, add_migration, phase, generate_plan,
}
use schedulator.ControlLoop.Summary.{record_of, records_of}

-- The text of a type, string(op.Type).
abbrev pub type_text : OperationType → String
type_text OperationType.preempt = "preempt"
type_text OperationType.scale_down = "scale_down"
type_text OperationType.scale_up = "scale_up"
type_text OperationType.migrate = "migrate"

-- The payload is of the operation's type.
abbrev fits_type : Operation → Bool
fits_type op = elim op.payload [
  | scaling_up su ↦ elim op.type [ OperationType.scale_up ↦ true | _ ↦ false ]
  | scaling_down sd ↦ elim op.type [ OperationType.scale_down ↦ true | _ ↦ false ]
  | preempting p ↦ elim op.type [ OperationType.preempt ↦ true | _ ↦ false ]
  | unsupported ↦ false
]

all-snoc :
    {A : Type 0} (p : A → Bool) (xs ys : List A)
    → all p xs ≡ true
    → all p ys ≡ true
    → all p (xs ++ ys) ≡ true
all-snoc p [] ys h k = k
all-snoc p (x ∷ xs) ys h k = ground (arith, h, k, all-snoc p xs ys)

phase-fits :
    {A : Type 0} (step : A → Draft → Draft)
    → ((x : A) (d : Draft)
        → all fits_type d.operations ≡ true
        → all fits_type (step x d).operations ≡ true)
    → (xs : List A) (d : Draft) → all fits_type d.operations ≡ true
    → all fits_type (phase step xs d).operations ≡ true
unfolding phase
phase-fits step keeps [] d h = h
phase-fits step keeps (x ∷ xs) d h = phase-fits step keeps xs (step x d) (keeps x d h)

generate_plan-fits :
    (uuid : ℕ → String) (drawn : ℕ) (decisions : PlacementDecisions)
    (migrations : List MigrateDecision)
    → all fits_type (generate_plan uuid drawn decisions migrations).operations ≡ true
unfolding generate_plan add_preemption add_scale_down add_scale_up add_migration
generate_plan-fits uuid drawn decisions migrations =
    phase-fits (add_migration uuid) (λ x d h. all-snoc fits_type d.operations _ h refl) migrations _
      (phase-fits (add_scale_up uuid) (λ x d h. all-snoc fits_type d.operations _ h refl)
        decisions.scale_ups _
        (phase-fits (add_scale_down uuid) (λ x d h. all-snoc fits_type d.operations _ h refl)
          decisions.scale_downs _
          (phase-fits (add_preemption uuid) (λ x d h. all-snoc fits_type d.operations _ h refl)
            decisions.preemptions _ refl)))

records_of-fits :
    (now : Time) (completed : List String) (ops : List Operation)
    → all fits_type ops ≡ true
    → map (λ r. r.type) (records_of now completed ops)
      ≡ map (λ op. type_text op.type) (select (λ op. any (λ id. id == op.id) completed) ops)
unfolding records_of record_of
records_of-fits now completed [] h = refl
records_of-fits now completed (op ∷ ops) h =
    ground (arith, h, records_of-fits now completed ops (ground (arith, h)))

-- For a generated plan the log has one record for each operation that completed, in the plan's
-- order, of the type of the operation: none is left out for its type or its payload.
pub records_of-generate_plan :
    (uuid : ℕ → String) (drawn : ℕ) (decisions : PlacementDecisions)
    (migrations : List MigrateDecision) (now : Time) (completed : List String)
    → map
        (λ r. r.type)
        (records_of now completed (generate_plan uuid drawn decisions migrations).operations)
      ≡ map
          (λ op. type_text op.type)
          (select
            (λ op. any (λ id. id == op.id) completed)
            (generate_plan uuid drawn decisions migrations).operations)
records_of-generate_plan uuid drawn decisions migrations now completed =
    records_of-fits now completed _ (generate_plan-fits uuid drawn decisions migrations)
