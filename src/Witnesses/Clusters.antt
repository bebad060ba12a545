-- ===== src/Witnesses/Clusters.antt =====
-- The theorems on the operations of the executor, on a client whose replicas run one poll after they are
-- created.
use schedulator.Prelude.{
  inl, ◌≡◌, refl, pos, ℤ, String, true, [], ◌∷◌, Option, none, some, Map, lookup, insert, delete,
  arith, ◌*ℤ◌, subst,
}
use schedulator.Model.{ReplicaStatus, seconds}
use schedulator.Model.Plans.{OperationType, scaling_up, Operation}
use schedulator.WorldState.{WorldState, empty}
use schedulator.Executor.Operations.{
  Answer, value, error, Client, default_executor_config, poll_until, wait_for_running, end_scale_up,
  scale_up, with_client, reservation_ttl, dispatch_op,
}
use schedulator.Executor.Operations.Effects
use schedulator.Executor.Operations.Closings
use schedulator.Samples.{thousandths, snap_with, up_high, reservation_1}

-- The replicas of a cluster.
abbrev Replicas : Type 0
Replicas = Map ReplicaStatus

abbrev running_all : Replicas → Replicas
running_all [] = []
running_all ((id, s) ∷ m) = (id, ReplicaStatus.running) ∷ running_all m

abbrev answer_of : Option ReplicaStatus → Answer ReplicaStatus String
answer_of none = error "not found"
answer_of (some s) = value s

abbrev client : Client Replicas String
client = record {
  create_replica = λ app constraints s. (value "r9", insert "r9" ReplicaStatus.pending s);
  delete_replica = λ id s. (none, delete id s);
  get_replica_status = λ id s. (answer_of (lookup id s), s);
  label_replica = λ id labels s. (none, s);
  pause = λ s. (true, running_all s);
}

abbrev present : String → Replicas → Option ReplicaStatus
present id s = lookup id s

answer_of-value :
    (o : Option ReplicaStatus) (s : ReplicaStatus) → answer_of o ≡ value s → o ≡ some s
answer_of-value none s e = absurd (ground (arith, e))
answer_of-value (some t) s e = ground (arith, e)

client-Reports : Effects.Reports present client
client-Reports = record {
  value_reported = λ id s status e. inl (answer_of-value (lookup id s) status e);
}

abbrev clients : String → Option (Client Replicas String)
clients c = some client

clients-Reports :
    (c : String) (k : Client Replicas String) → clients c ≡ some k → Effects.Reports present k
clients-Reports c k e = subst (Effects.Reports present) (ground (arith, e)) client-Reports

abbrev operation_up : Operation
operation_up = record {
  id = "o2";
  type = OperationType.scale_up;
  payload = scaling_up up_high;
  depends_on = [];
}

dispatch_op-HasEffect_example :
    Effects.HasEffect default_executor_config clients
      (snap_with 6)
      present
      operation_up.payload
      []
      (dispatch_op default_executor_config clients (snap_with 6) operation_up []).clusters
unfolding dispatch_op with_client scale_up wait_for_running poll_until end_scale_up
    default_executor_config reservation_ttl seconds ◌*ℤ◌
dispatch_op-HasEffect_example =
    Effects.dispatch_op-HasEffect default_executor_config clients (snap_with 6) present
      clients-Reports operation_up [] refl

abbrev reserved_world : WorldState ℤ
reserved_world = record empty { reservations = ("v1", reservation_1) ∷ [] }

scale_up-IsAccounted_example :
    Closings.IsAccounted client up_high default_executor_config
      (seconds (pos 60))
      (client.create_replica up_high.app_id up_high.scheduling_constraints [])
      reservation_1
      reserved_world
      (scale_up client default_executor_config up_high (seconds (pos 60)) [])
scale_up-IsAccounted_example =
    Closings.scale_up-IsAccounted client up_high default_executor_config (seconds (pos 60)) []
      reservation_1 reserved_world refl refl
