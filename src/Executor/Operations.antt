-- ===== src/Executor/Operations.antt =====
-- internal/executor/operations.go: what a dispatched operation does on its cluster, and to its
-- reservation. The cluster client, an interface of pkg/ports, comes in as a record over a type of
-- states of the clusters. Spans, metrics and logs are not modelled.
pub mod Effects
pub mod Closings
use schedulator.Prelude.{
  ℕ, suc, pos, negsuc, 0ℤ, ◌+ℤ◌, ltb_ℤ, String, Bool, true, false, List, [], ◌∷◌, Option, none,
  some, Map, lookup, if◌then◌else◌,
}
use Prim.Native.Nat.{◌/◌}
use schedulator.Model.{Duration, seconds, ReplicaStatus, status_eq}
use schedulator.Model.Plans.{
  SchedulingConstraints, ScaleUpDecision, ScaleDownDecision, PreemptionDecision, scaling_up,
  scaling_down, preempting, unsupported, Operation,
}
use schedulator.WorldState.{WorldState, fulfill_reservation, expire_reservation}
use schedulator.WorldState.Snapshot.{Snapshot}

-- internal/executor/config.go
pub record ExecutorConfig : Type 0 where
  pub poll_interval : Duration
  pub wait_for_deletion_timeout : Duration
  pub default_reservation_ttl : Duration

unfoldable pub default_executor_config : ExecutorConfig
default_executor_config = record {
  poll_interval = seconds (pos 5);
  wait_for_deletion_timeout = seconds (pos 120);
  default_reservation_ttl = seconds (pos 300);
}

-- What a client answers: a value or an error.
pub data Answer (A : Type 0) (E : Type 0) : Type 0 where
  value : A → Answer A E
  error : E → Answer A E

-- A cluster client. `pause` is the wait between two polls: false if the context is done before the
-- timer.
pub record Client (S : Type 0) (E : Type 0) : Type 0 where
  pub create_replica : String → SchedulingConstraints → S → Answer String E × S
  pub delete_replica : String → S → Option E × S
  pub get_replica_status : String → S → Answer ReplicaStatus E × S
  pub label_replica : String → Map String → S → Option E × S
  pub pause : S → Bool × S

pub data WaitError (E : Type 0) : Type 0 where
  status_failed : E → WaitError E
  terminated_unexpectedly : WaitError E
  context_done : WaitError E

pub data OpError (E : Type 0) : Type 0 where
  no_cluster_client : String → OpError E
  not_in_snapshot : String → OpError E
  unsupported_payload : OpError E
  create_failed label_failed delete_failed : E → OpError E
  wait_failed : WaitError E → OpError E

-- What an operation asks of the world state.
pub data Closing : Type 0 where
  fulfills expires : String → Closing

module _ {F : Type 0} where
  -- An error is only logged.
  abbrev pub close : Closing → WorldState F → WorldState F
  close (fulfills id) ws = (fulfill_reservation id ws).0
  close (expires id) ws = (expire_reservation id ws).0

  unfoldable pub close_all : List Closing → WorldState F → WorldState F
  close_all [] ws = ws
  close_all (c ∷ cs) ws = close_all cs (close c ws)

-- The clusters after an operation, the reservations it closed, each with the clusters as they were
-- at that moment, and its error.
pub record Dispatched (S : Type 0) (E : Type 0) : Type 0 where
  pub clusters : S
  pub closings : List (Closing × S)
  pub failure : Option (OpError E)

abbrev pub fails : {S E : Type 0} → S → OpError E → Dispatched S E
fails s e = record { clusters = s; closings = []; failure = some e }

abbrev pub succeeds : {S E : Type 0} → S → Dispatched S E
succeeds s = record { clusters = s; closings = []; failure = none }

-- What follows a call of the client that may fail.
abbrev pub and_then :
    {S E : Type 0} → (E → OpError E) → Option E × S → (S → Dispatched S E) → Dispatched S E
and_then wrap (some e, s) act = fails s (wrap e)
and_then wrap (none, s) act = act s

abbrev pub and_then_with :
    {S E : Type 0}
    → (E → OpError E)
    → Answer String E × S
    → (String → S → Dispatched S E)
    → Dispatched S E
and_then_with wrap (error e, s) act = fails s (wrap e)
and_then_with wrap (value id, s) act = act id s

-- How often the timer between two polls can fire before a timeout is over. A timeout that is not
-- positive is over at once; the timer of a poll interval that is not positive is not modelled.
abbrev pub polls : Duration → Duration → ℕ
polls (pos timeout) (pos interval) = suc (timeout / interval)
polls (pos timeout) (negsuc interval) = 0
polls (negsuc timeout) interval = 0

module _ {E : Type 0} where
  -- What a poll means to the two waits: a result, or none to wait on. An error of the status check
  -- ends the wait for a deletion without an error.
  abbrev pub is_running_yet : Answer ReplicaStatus E → Option (Option (WaitError E))
  is_running_yet (error e) = some (some (status_failed e))
  is_running_yet (value status) =
      if status_eq status ReplicaStatus.running
      then some none
      else if status_eq status ReplicaStatus.terminated
      then some (some terminated_unexpectedly)
      else none

  abbrev pub is_deleted_yet : Answer ReplicaStatus E → Option (Option (WaitError E))
  is_deleted_yet (error e) = some none
  is_deleted_yet (value status) =
      if status_eq status ReplicaStatus.terminated then some none else none

module _ {S E : Type 0} (client : Client S E) where
  -- The loop of both waits, on how often the timer can still fire before the context is done.
  unfoldable pub poll_until :
      (Answer ReplicaStatus E → Option (Option (WaitError E)))
      → String
      → ℕ
      → S
      → Option (WaitError E) × S
  poll_until verdict id ℕ.zero s =
      let (answer, s1) = client.get_replica_status id s in
      elim (verdict answer) [ some r ↦ (r, s1) | none ↦ (some context_done, s1) ]
  poll_until verdict id (suc left) s =
      let (answer, s1) = client.get_replica_status id s in
      elim (verdict answer) [
        | some r ↦ (r, s1)
        | none ↦
            let (fired, s2) = client.pause s1 in
            elim fired [ true ↦ poll_until verdict id left s2 | false ↦ (some context_done, s2) ]
      ]

  unfoldable pub wait_for_running : String → ℕ → S → Option (WaitError E) × S
  unfolding poll_until
  wait_for_running = poll_until is_running_yet

  unfoldable pub wait_for_deletion : String → ℕ → S → Option (WaitError E) × S
  unfolding poll_until
  wait_for_deletion = poll_until is_deleted_yet

  -- The end of scaleUp after its wait. On a failure the reservation expires, and then the orphan is
  -- deleted, whatever comes of that.
  unfoldable pub end_scale_up : ScaleUpDecision → String → Option (WaitError E) × S → Dispatched S E
  end_scale_up d id (none, s) = record {
    clusters = s;
    closings = (fulfills d.reservation_id, s) ∷ [];
    failure = none;
  }
  end_scale_up d id (some e, s) = record {
    clusters = (client.delete_replica id s).1;
    closings = (expires d.reservation_id, s) ∷ [];
    failure = some (wait_failed e);
  }

  abbrev pub end_deletion : Option (WaitError E) × S → Dispatched S E
  end_deletion (none, s) = succeeds s
  end_deletion (some e, s) = fails s (wait_failed e)

  module _ (cfg : ExecutorConfig) where
    unfoldable pub scale_up : ScaleUpDecision → Duration → S → Dispatched S E
    unfolding wait_for_running end_scale_up
    scale_up d ttl s =
        and_then_with create_failed (client.create_replica d.app_id d.scheduling_constraints s)
          (λ id s1. end_scale_up d id (wait_for_running id (polls ttl cfg.poll_interval) s1))

    unfoldable pub preempt : PreemptionDecision → S → Dispatched S E
    unfolding wait_for_deletion
    preempt d s =
        let timeout = cfg.wait_for_deletion_timeout +ℤ seconds d.grace_period_seconds in
        and_then label_failed
          (client.label_replica d.victim_replica_id (("draining", "true") ∷ []) s)
          (λ s1. and_then delete_failed (client.delete_replica d.victim_replica_id s1) (λ s2.
            end_deletion
              (wait_for_deletion d.victim_replica_id (polls timeout cfg.poll_interval) s2)))

    unfoldable pub scale_down : ScaleDownDecision → S → Dispatched S E
    unfolding wait_for_deletion
    scale_down d s = and_then delete_failed (client.delete_replica d.replica_id s) (λ s1.
        end_deletion (
          wait_for_deletion d.replica_id (polls cfg.wait_for_deletion_timeout cfg.poll_interval)
            s1))

module _ {F S E : Type 0} (cfg : ExecutorConfig) (clients : String → Option (Client S E))
    (snap : Snapshot F) where
  unfoldable pub reservation_ttl : String → Duration
  reservation_ttl id = elim (lookup id snap.reservations) [
    | some r ↦ if ltb_ℤ 0ℤ r.ttl_seconds then seconds r.ttl_seconds else cfg.default_reservation_ttl
    | none ↦ cfg.default_reservation_ttl
  ]

  -- clusterClientFor, with what is done on the client.
  unfoldable pub with_client : String → (Client S E → S → Dispatched S E) → S → Dispatched S E
  with_client cluster_id act s = elim (clients cluster_id) [
    | none ↦ fails s (no_cluster_client cluster_id)
    | some client ↦ act client s
  ]

  unfoldable pub dispatch_op : Operation → S → Dispatched S E
  unfolding with_client reservation_ttl scale_up preempt scale_down
  dispatch_op op s = elim op.payload [
    | scaling_up d ↦
        with_client d.cluster_id
          (λ client. scale_up client cfg d (reservation_ttl d.reservation_id)) s
    | preempting d ↦ with_client d.cluster_id (λ client. preempt client cfg d) s
    | scaling_down d ↦ elim (lookup d.replica_id snap.replicas) [
      | none ↦ fails s (not_in_snapshot d.replica_id)
      | some r ↦ with_client r.cluster_id (λ client. scale_down client cfg d) s
    ]
    | unsupported ↦ fails s unsupported_payload
  ]
