-- ===== src/ControlLoop/Consistent.antt =====
-- internal/controlloop/loop.go: the bookkeeping of the world state over the turns of the loop.
use schedulator.Prelude.{
  int_laws, String, ◌==◌, Bool, true, false, List, [], ◌∷◌, Option, none, some, ◌≡◌, refl, sym,
  subst, if◌then◌else◌,
}
use schedulator.Floats.{Float64}
use schedulator.Model.{Time, GpuReservation}
use schedulator.Model.Plans.{ClusterEvent, ClusterEventKind, Operation, MigrateDecision}
use schedulator.WorldState.{WorldState}
use schedulator.WorldState.Snapshot.{Snapshot}
use schedulator.WorldState.Calls.{
  IsConsistent, apply, upserts_node, removes_node, upserts_application, upserts_replica,
  deletes_replica, updates_metrics, creates_reservation, fulfills_reservation, expires_reservation,
  records_scale_event, increments_signal, expires_stale,
}
use schedulator.WorldState.Calls.Consistent.{apply-IsConsistent}
use schedulator.Scaling.{ScalingDecision, direction_text}
use schedulator.Rebalancing.{find_rebalancing_opportunities}
use schedulator.Ingestion.{Event, EventKind}
use schedulator.ControlLoop.Validation.{Violation, validate_plan}
use schedulator.ControlLoop.Events.{
  apply_cluster_event, apply_event, apply_scaling_decision, node_of, replica_of,
}
use schedulator.Executor.Operations.{Closing, fulfills, expires, close}
use schedulator.ControlLoop.Cycle.{Engines, Execution, Planned, Loop, conclude, Placed}
use schedulator.ControlLoop.Turns.{
  expire_ticks, among, decide, book, Ticks, place_among, settle_among, finish_among,
  run_cycle_among, Turn, batch, tick, take_turn, take_turns,
}

module _ {F : Type 0} where
  either-IsConsistent :
      (b : Bool) (x y : WorldState F)
      → IsConsistent x
      → IsConsistent y
      → IsConsistent (if b then x else y)
  either-IsConsistent true x y v w = v
  either-IsConsistent false x y v w = w

  maybe-IsConsistent :
      {A : Type 0} (o : Option A) (f : A → WorldState F) (x : WorldState F)
      → ((a : A) → IsConsistent (f a))
      → IsConsistent x
      → IsConsistent (elim o [ none ↦ x | some a ↦ f a ])
  maybe-IsConsistent none f x h v = v
  maybe-IsConsistent (some a) f x h v = h a

module _ {F : Type 0} ⦃fl : Float64 F⦄ where
  apply_cluster_event-IsConsistent :
      (ce : ClusterEvent) (ws : WorldState F)
      → IsConsistent ws
      → IsConsistent (apply_cluster_event ce ws)
  unfolding apply_cluster_event apply
  apply_cluster_event-IsConsistent ce ws v = go ce.kind
    where
      go :
          (k : ClusterEventKind)
          → IsConsistent (elim k [
            | ClusterEventKind.node_up ↦ apply (upserts_node (node_of ce)) ws
            | ClusterEventKind.node_down ↦ apply (removes_node ce.cluster_id ce.node_id) ws
            | ClusterEventKind.pod_running ↦
                if ce.replica_id == "" then ws else apply (upserts_replica (replica_of ce)) ws
            | ClusterEventKind.pod_terminated ↦
                if ce.replica_id == "" then ws else apply (deletes_replica ce.replica_id) ws
          ])
      go ClusterEventKind.node_up =
          apply-IsConsistent (upserts_node (node_of ce)) ws (omega int_laws) v
      go ClusterEventKind.node_down =
          apply-IsConsistent (removes_node ce.cluster_id ce.node_id) ws tt v
      go ClusterEventKind.pod_running =
          either-IsConsistent (ce.replica_id == "") ws _ v
            (apply-IsConsistent (upserts_replica (replica_of ce)) ws tt v)
      go ClusterEventKind.pod_terminated =
          either-IsConsistent (ce.replica_id == "") ws _ v
            (apply-IsConsistent (deletes_replica ce.replica_id) ws tt v)

  apply_event-IsConsistent :
      (e : Event F) (ws : WorldState F) → IsConsistent ws → IsConsistent (apply_event e ws)
  unfolding apply_event apply
  apply_event-IsConsistent e ws v = go e.kind
    where
      go :
          (k : EventKind)
          → IsConsistent (elim k [
            | EventKind.metrics_update ↦ elim e.vllm_metrics [
              | none ↦ ws
              | some m ↦ apply (updates_metrics m) ws
            ]
            | EventKind.cluster_event ↦ elim e.cluster_event [
              | none ↦ ws
              | some ce ↦ apply_cluster_event ce ws
            ]
            | EventKind.app_config_update ↦ elim e.application [
              | none ↦ ws
              | some app ↦ apply (upserts_application app) ws
            ]
            | EventKind.periodic_eval ↦ ws
            | EventKind.sla_breach ↦ ws
          ])
      go EventKind.metrics_update =
          maybe-IsConsistent e.vllm_metrics _ ws
            (λ m. apply-IsConsistent (updates_metrics m) ws tt v) v
      go EventKind.cluster_event =
          maybe-IsConsistent e.cluster_event _ ws (λ ce. apply_cluster_event-IsConsistent ce ws v) v
      go EventKind.app_config_update =
          maybe-IsConsistent e.application _ ws
            (λ app. apply-IsConsistent (upserts_application app) ws tt v) v
      go EventKind.periodic_eval = v
      go EventKind.sla_breach = v

  apply_scaling_decision-IsConsistent :
      (id : String) (d : ScalingDecision) (ws : WorldState F)
      → IsConsistent ws
      → IsConsistent (apply_scaling_decision id d ws)
  unfolding apply_scaling_decision apply
  apply_scaling_decision-IsConsistent id d ws v =
      either-IsConsistent d.scale_action_approved _ _
        (apply-IsConsistent (records_scale_event id (direction_text d.direction) d.action_at) ws tt
          v)
        (either-IsConsistent d.scale_down_signal_observed _ ws
          (apply-IsConsistent (increments_signal id) ws tt v) v)

  decide-IsConsistent :
      (d : String × ScalingDecision) (ws : WorldState F)
      → IsConsistent ws
      → IsConsistent (decide d ws)
  decide-IsConsistent (id, d) = apply_scaling_decision-IsConsistent id d

  book-IsConsistent :
      (r : GpuReservation) (ws : WorldState F) → IsConsistent ws → IsConsistent (book r ws)
  book-IsConsistent r ws v = unfold apply in apply-IsConsistent (creates_reservation r) ws tt v

  close-IsConsistent :
      (c : Closing) (ws : WorldState F) → IsConsistent ws → IsConsistent (close c ws)
  unfolding apply
  close-IsConsistent (fulfills id) ws v = apply-IsConsistent (fulfills_reservation id) ws tt v
  close-IsConsistent (expires id) ws v = apply-IsConsistent (expires_reservation id) ws tt v

  expire_ticks-IsConsistent :
      (ticks : List Time) (ws : WorldState F)
      → IsConsistent ws
      → IsConsistent (expire_ticks ticks ws)
  unfolding expire_ticks apply
  expire_ticks-IsConsistent [] ws v = v
  expire_ticks-IsConsistent (now ∷ ticks) ws v =
      expire_ticks-IsConsistent ticks _ (apply-IsConsistent (expires_stale now) ws tt v)

  -- What each call keeps, all of them keep, whatever ticks come among them.
  among-IsConsistent :
      {A : Type 0} (f : A → WorldState F → WorldState F)
      → ((x : A) (ws : WorldState F) → IsConsistent ws → IsConsistent (f x ws))
      → (ticks : List (List Time)) (xs : List A) (ws : WorldState F) → IsConsistent ws
      → IsConsistent (among f ticks xs ws)
  unfolding among
  among-IsConsistent f keeps [] [] ws v = v
  among-IsConsistent f keeps [] (x ∷ xs) ws v =
      among-IsConsistent f keeps [] xs (f x ws) (keeps x ws v)
  among-IsConsistent f keeps (ticks ∷ more) [] ws v =
      among-IsConsistent f keeps more [] _ (expire_ticks-IsConsistent ticks ws v)
  among-IsConsistent f keeps (ticks ∷ more) (x ∷ xs) ws v =
      among-IsConsistent f keeps more xs _ (keeps x _ (expire_ticks-IsConsistent ticks ws v))

  place_among-IsConsistent :
      (engines : Engines F) (ticks : Ticks) (events : List (Event F)) (now : Time) (l : Loop F)
      → IsConsistent l.world
      → IsConsistent (place_among engines ticks events now l).world
  unfolding place_among
  place_among-IsConsistent engines ticks events now l v =
      let b = place_among engines ticks events now l in
      among-IsConsistent book book-IsConsistent ticks.among_reservations
        b.placements.decisions.reservations _
        (among-IsConsistent decide decide-IsConsistent ticks.among_decisions b.scaling_decisions _ (
          among-IsConsistent apply_event apply_event-IsConsistent ticks.among_events events l.world
            v))

  conclude-world :
      (engines : Engines F) (b : Placed F) (ms : Option (List MigrateDecision))
      → (conclude engines b ms).0.world ≡ b.world
  unfolding conclude
  conclude-world engines b none = refl
  conclude-world engines b (some ms) = refl

  finish_among-IsConsistent :
      {E : Type 0} (execute : List Operation → Snapshot F → Execution E) (ticks : Ticks)
      (planned : Loop F × Option (Planned F))
      → IsConsistent planned.0.world
      → IsConsistent (finish_among execute ticks planned).0.world
  finish_among-IsConsistent execute ticks (l, none) v = v
  finish_among-IsConsistent execute ticks (l, some p) v = go (validate_plan p.plan p.snap)
    where
      go : (vs : List Violation) → IsConsistent (settle_among execute ticks l p vs).0.world
      go [] =
          among-IsConsistent close close-IsConsistent ticks.among_closings
            (execute p.plan p.snap).closings l.world v
      go (x ∷ xs) = v

  take_turn-IsConsistent :
      {E : Type 0} (engines : Engines F) (t : Turn F E) (l : Loop F)
      → IsConsistent l.world
      → IsConsistent (take_turn engines t l).world
  unfolding take_turn run_cycle_among
  take_turn-IsConsistent engines (tick now) l v = expire_ticks-IsConsistent (now ∷ []) l.world v
  take_turn-IsConsistent engines (batch events is_leader now execute ticks) l v = go is_leader
    where
      b : Placed F
      b = place_among engines ticks events now l

      go :
          (lead : Bool)
          → IsConsistent
              (if lead then (run_cycle_among execute ticks engines events now l).0 else l).world
      go false = v
      go true = finish_among-IsConsistent execute ticks _ (
          subst IsConsistent
            (sym (
              conclude-world engines b (find_rebalancing_opportunities engines.rebalancing b.snap)))
            (place_among-IsConsistent engines ticks events now l v))

  -- Whatever batches arrive, whether or not this instance leads, however plans are executed and
  -- whenever the sweep ticks, between cycles, among the calls of a cycle and of an execution: a
  -- consistent world state stays consistent, that is, no key stands twice among replicas and
  -- reservations, the gauges of clusters, of active reservations and of replicas by status count what
  -- the maps hold, and free and allocated GPUs of every node add up to its total.
  pub take_turns-IsConsistent :
      {E : Type 0} (engines : Engines F) (ts : List (Turn F E)) (l : Loop F)
      → IsConsistent l.world
      → IsConsistent (take_turns engines ts l).world
  unfolding take_turns
  take_turns-IsConsistent engines [] l v = v
  take_turns-IsConsistent engines (t ∷ ts) l v =
      take_turns-IsConsistent engines ts (take_turn engines t l)
        (take_turn-IsConsistent engines t l v)
