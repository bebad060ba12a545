-- ===== src/ControlLoop/Kept.antt =====
-- internal/controlloop/loop.go: what the steps of a cycle leave of the applications and the history.
use schedulator.Prelude.{
  eq_iff, List, [], ◌∷◌, Option, none, some, Map, insert, IsMap, insert-IsMap, ◌≡◌, refl, sym,
  subst, ◌⊎◌, ◌∙◌, arith, Option-cases, inl, inr,
}
use schedulator.Floats.{Float64}
use schedulator.Model.{Application, GpuReservation}
use schedulator.Model.Plans.{ClusterEvent, Operation, MigrateDecision}
use schedulator.WorldState.{
  WorldState, upsert_node, remove_node, upsert_replica, delete_replica, update_vllm_metrics,
  upsert_application, create_reservation, close_reservation, fulfill_reservation,
  expire_reservation, record_scale_event, increment_scale_down_signal,
}
use schedulator.WorldState.Snapshot.{Snapshot}
use schedulator.Scaling.{ScalingDecision}
use schedulator.Scaling.Stability.{AreKeyed}
use schedulator.Ingestion.{Event}
use schedulator.ControlLoop.Validation.{Violation, validate_plan}
use schedulator.ControlLoop.Events.{
  apply_cluster_event, apply_event, apply_events, apply_scaling_decision, apply_scaling_decisions,
}
use schedulator.Executor.Operations.{Closing, fulfills, expires, close, close_all}
use schedulator.ControlLoop.Cycle.{
  Engines, Execution, create_reservations, Planned, Placed, Loop, conclude, settle, finish,
}

-- The parts of the state that the scaling engine reads besides metrics and replicas.
pub record IsKept {F : Type 0} (v w : WorldState F) : Type 0 where
  pub history : v.scaling_history ≡ w.scaling_history
  pub applications : v.applications ≡ w.applications

-- Each application stands once, and under its own identifier.
abbrev pub AreListed : Map Application → Type 0
AreListed apps = IsMap apps × AreKeyed apps

insert-AreKeyed :
    (app : Application) (m : Map Application) → AreKeyed m → AreKeyed (insert app.app_id app m)
insert-AreKeyed app [] k = (refl, tt)
insert-AreKeyed app ((i, a) ∷ m) k = ground (arith, eq_iff i app.app_id, insert-AreKeyed app m k.1)

IsKept-trans : {F : Type 0} {u v w : WorldState F} → IsKept u v → IsKept v w → IsKept u w
IsKept-trans a b = record {
  history = a.history ∙ b.history;
  applications = a.applications ∙ b.applications;
}

IsKept-refl : {F : Type 0} (v : WorldState F) → IsKept v v
IsKept-refl v = record { history = refl; applications = refl }

module _ {F : Type 0} ⦃fl : Float64 F⦄ where
  apply_cluster_event-IsKept :
      (ce : ClusterEvent) (ws : WorldState F) → IsKept (apply_cluster_event ce ws) ws
  unfolding apply_cluster_event upsert_node remove_node upsert_replica delete_replica
  apply_cluster_event-IsKept ce ws = record { history = ground arith; applications = ground arith }

  apply_event-history :
      (e : Event F) (ws : WorldState F) → (apply_event e ws).scaling_history ≡ ws.scaling_history
  unfolding apply_event update_vllm_metrics upsert_application
  apply_event-history e ws = elim (Option-cases e.cluster_event) [
    | inl nothing ↦ ground (arith, nothing)
    | inr (ce, given) ↦ ground (arith, given, (apply_cluster_event-IsKept ce ws).history)
  ]

  apply_event-unlisted :
      (e : Event F) (ws : WorldState F)
      → e.application ≡ none
      → (apply_event e ws).applications ≡ ws.applications
  unfolding apply_event update_vllm_metrics upsert_application
  apply_event-unlisted e ws nothing = elim (Option-cases e.cluster_event) [
    | inl still ↦ ground (arith, nothing, still)
    | inr (ce, given) ↦
        ground (arith, nothing, given, (apply_cluster_event-IsKept ce ws).applications)
  ]

  apply_event-listed :
      (e : Event F) (app : Application) (ws : WorldState F)
      → e.application ≡ some app
      → ((apply_event e ws).applications ≡ ws.applications)
        ⊎ ((apply_event e ws).applications ≡ insert app.app_id app ws.applications)
  unfolding apply_event update_vllm_metrics upsert_application
  apply_event-listed e app ws config = elim (Option-cases e.cluster_event) [
    | inl still ↦ ground (arith, config, still)
    | inr (ce, given) ↦
        ground (arith, config, given, (apply_cluster_event-IsKept ce ws).applications)
  ]

  apply_event-kept :
      (e : Event F) (ws : WorldState F)
      → AreListed ws.applications
      → ((apply_event e ws).scaling_history ≡ ws.scaling_history)
        × AreListed (apply_event e ws).applications
  apply_event-kept e ws h = (
    apply_event-history e ws,
    elim (Option-cases e.application) [
      | inl nothing ↦ subst AreListed (sym (apply_event-unlisted e ws nothing)) h
      | inr (app, config) ↦ elim (apply_event-listed e app ws config) [
        | inl same ↦ subst AreListed (sym same) h
        | inr put ↦ subst AreListed (sym put) (
          insert-IsMap app.app_id app ws.applications h.0,
          insert-AreKeyed app ws.applications h.1,
        )
      ]
    ],
  )

  pub apply_events-kept :
      (es : List (Event F)) (ws : WorldState F)
      → AreListed ws.applications
      → ((apply_events es ws).scaling_history ≡ ws.scaling_history)
        × AreListed (apply_events es ws).applications
  unfolding apply_events
  apply_events-kept [] ws h = (refl, h)
  apply_events-kept (e ∷ es) ws h =
      let (same, listed) = apply_event-kept e ws h in
      let (all_same, all_listed) = apply_events-kept es (apply_event e ws) listed in
      (all_same ∙ same, all_listed)

module _ {F : Type 0} where
  pub apply_scaling_decisions-applications :
      (m : Map ScalingDecision) (ws : WorldState F)
      → (apply_scaling_decisions m ws).applications ≡ ws.applications
  unfolding apply_scaling_decisions apply_scaling_decision record_scale_event
      increment_scale_down_signal
  apply_scaling_decisions-applications [] ws = refl
  apply_scaling_decisions-applications ((id, d) ∷ m) ws =
      apply_scaling_decisions-applications m (apply_scaling_decision id d ws) ∙ ground arith

  pub create_reservations-IsKept :
      (rs : List GpuReservation) (ws : WorldState F) → IsKept (create_reservations rs ws) ws
  unfolding create_reservations create_reservation
  create_reservations-IsKept [] ws = IsKept-refl ws
  create_reservations-IsKept (r ∷ rs) ws =
      IsKept-trans (create_reservations-IsKept rs (create_reservation r ws).0)
        (record { history = ground arith; applications = ground arith })

  close-IsKept : (c : Closing) (ws : WorldState F) → IsKept (close c ws) ws
  unfolding fulfill_reservation expire_reservation close_reservation
  close-IsKept (fulfills id) ws = record { history = ground arith; applications = ground arith }
  close-IsKept (expires id) ws = record { history = ground arith; applications = ground arith }

  pub close_all-IsKept : (cs : List Closing) (ws : WorldState F) → IsKept (close_all cs ws) ws
  unfolding close_all
  close_all-IsKept [] ws = IsKept-refl ws
  close_all-IsKept (c ∷ cs) ws = IsKept-trans (close_all-IsKept cs (close c ws)) (close-IsKept c ws)

  finish-IsKept :
      {E : Type 0} (execute : List Operation → Snapshot F → Execution E)
      (planned : Loop F × Option (Planned F))
      → IsKept (finish execute planned).0.world planned.0.world
  finish-IsKept execute (l, none) = IsKept-refl l.world
  finish-IsKept execute (l, some p) = go (validate_plan p.plan p.snap)
    where
      go : (vs : List Violation) → IsKept (settle execute l p vs).0.world l.world
      go [] = close_all-IsKept (execute p.plan p.snap).closings l.world
      go (x ∷ xs) = IsKept-refl l.world

  -- After the reservations of a cycle only reservations change.
  pub conclude-IsKept :
      {E : Type 0} ⦃fl : Float64 F⦄ (engines : Engines F)
      (execute : List Operation → Snapshot F → Execution E) (b : Placed F)
      (ms : Option (List MigrateDecision))
      → IsKept (finish execute (conclude engines b ms)).0.world b.world
  unfolding conclude
  conclude-IsKept engines execute b none = IsKept-refl b.world
  conclude-IsKept engines execute b (some ms) = finish-IsKept execute (conclude engines b (some ms))
