-- ===== src/ControlLoop/Summary.antt =====
-- internal/controlloop/types.go and loop.go: the summary of a cycle and the records it logs.
-- encoding/json, which makes a text of the summary, is the parameter `marshal`. The texts that
-- fmt.Sprintf makes are the data that they are made from; an error of the logger is only logged.
use schedulator.Prelude.{
  ℕ, ℤ, String, ◌==◌, Bool, List, [], ◌∷◌, ◌++◌, map, Option, none, some, Map, any, length,
  if◌then◌else◌,
}
use schedulator.Model.{Time, VllmMetrics}
use schedulator.Model.Plans.{
  ScaleUpDecision, ScaleDownDecision, PreemptionDecision, PlacementDecisions, OperationType,
  scaling_up, scaling_down, preempting, unsupported, Operation, ExecutionResult,
}
use schedulator.WorldState.Snapshot.{Snapshot}
use schedulator.Scaling.{ScalingDecision}
use schedulator.Ingestion.{EventKind, Event, same_kind}

pub record FailedOpJson : Type 0 where
  pub operation_id : String
  pub type : OperationType
  pub err : String

pub record PlacementSummary : Type 0 where
  pub scale_up_count : ℕ
  pub scale_down_count : ℕ
  pub preemption_count : ℕ
  pub scale_ups : List ScaleUpDecision
  pub scale_downs : List ScaleDownDecision
  pub preemptions : List PreemptionDecision

pub record ExecutionSummary : Type 0 where
  pub completed_count : ℕ
  pub failed_count : ℕ
  pub aborted_count : ℕ
  pub completed : List String
  pub failed : List FailedOpJson
  pub aborted : List String

pub record CycleSummary (F : Type 0) : Type 0 where
  pub trigger_kinds : List EventKind
  pub scaling_decisions : Map ScalingDecision
  pub vllm_metrics : Map (VllmMetrics F)
  pub world_state : Snapshot F
  pub placement : PlacementSummary
  pub execution : ExecutionSummary
  pub cycle_duration_ms : ℤ

-- Each kind once. The source collects them in a map, in no order.
unfoldable pub kinds_of : {F : Type 0} → List (Event F) → List EventKind
kinds_of [] = []
kinds_of (ev ∷ evs) =
    let rest = kinds_of evs in if any (λ k. same_kind k ev.kind) rest then rest else ev.kind ∷ rest

-- `error_text` gives the empty text where the source finds no error.
unfoldable pub build_cycle_summary :
    {F E : Type 0}
    → (E → String)
    → List (Event F)
    → Map ScalingDecision
    → PlacementDecisions
    → ExecutionResult E
    → Snapshot F
    → ℤ
    → CycleSummary F
unfolding kinds_of
build_cycle_summary error_text events decisions placements result snap duration = record {
  trigger_kinds = kinds_of events;
  scaling_decisions = decisions;
  vllm_metrics = snap.vllm_metrics;
  world_state = snap;
  placement = record {
    scale_up_count = length placements.scale_ups;
    scale_down_count = length placements.scale_downs;
    preemption_count = length placements.preemptions;
    scale_ups = placements.scale_ups;
    scale_downs = placements.scale_downs;
    preemptions = placements.preemptions;
  };
  execution = record {
    completed_count = length result.completed;
    failed_count = length result.failed;
    aborted_count = length result.aborted;
    completed = result.completed;
    failed =
        map (λ f. record { operation_id = f.operation_id; type = f.type; err = error_text f.err })
          result.failed;
    aborted = result.aborted;
  };
  cycle_duration_ms = duration;
}

-- What the text of a record is made from.
pub data Note : Type 0 where
  scaled_up : (app cluster : String) → Note
  scaled_down : (replica app : String) → Note
  preempted : (replica cluster : String) → String × ℤ → Note
  cycled : (ups downs preemptions : ℕ) → Note

-- internal/eventlog/types.go: a record before the store gives it an identifier.
pub record EventRecord : Type 0 where
  pub timestamp : Time
  pub type : String
  pub app_id : String
  pub cluster_id : String
  pub summary : Note
  pub detail_json : String

-- The record of a completed operation; none where the source continues.
unfoldable pub record_of : Time → Operation → Option EventRecord
record_of now op = elim op.type [
  | OperationType.scale_up ↦ elim op.payload [
    | scaling_up su ↦ some record {
      timestamp = now;
      type = "scale_up";
      app_id = su.app_id;
      cluster_id = su.cluster_id;
      summary = scaled_up su.app_id su.cluster_id;
      detail_json = "";
    }
    | scaling_down sd ↦ none
    | preempting p ↦ none
    | unsupported ↦ none
  ]
  | OperationType.scale_down ↦ elim op.payload [
    | scaling_down sd ↦ some record {
      timestamp = now;
      type = "scale_down";
      app_id = sd.app_id;
      cluster_id = "";
      summary = scaled_down sd.replica_id sd.app_id;
      detail_json = "";
    }
    | scaling_up su ↦ none
    | preempting p ↦ none
    | unsupported ↦ none
  ]
  | OperationType.preempt ↦ elim op.payload [
    | preempting p ↦ some record {
      timestamp = now;
      type = "preempt";
      app_id = p.victim_app_id;
      cluster_id = p.cluster_id;
      summary = preempted p.victim_replica_id p.cluster_id p.reason;
      detail_json = "";
    }
    | scaling_up su ↦ none
    | scaling_down sd ↦ none
    | unsupported ↦ none
  ]
  | OperationType.migrate ↦ none
]

unfoldable pub records_of : Time → List String → List Operation → List EventRecord
unfolding record_of
records_of now completed [] = []
records_of now completed (op ∷ ops) =
    let rest = records_of now completed ops in
    if any (λ id. id == op.id) completed
    then elim (record_of now op) [ none ↦ rest | some r ↦ r ∷ rest ]
    else rest

-- The calls of the publisher and of the logger, each if there is one.
pub data Output (F : Type 0) : Type 0 where
  published : CycleSummary F → Output F
  logged : EventRecord → Output F

unfoldable pub publish_and_log :
    {F E : Type 0}
    → (publisher event_logger : Bool) → (CycleSummary F → String)
    → Time
    → CycleSummary F
    → List Operation
    → ExecutionResult E
    → PlacementDecisions
    → List (Output F)
unfolding records_of
publish_and_log publisher event_logger marshal now summary plan result placements =
    (if publisher then published summary ∷ [] else [])
    ++ (if event_logger
        then map (λ r. logged r) (records_of now result.completed plan)
          ++ logged record {
            timestamp = now;
            type = "cycle_complete";
            app_id = "";
            cluster_id = "";
            summary =
                cycled (length placements.scale_ups) (length placements.scale_downs)
                  (length placements.preemptions);
            detail_json = marshal summary;
          }
            ∷ []
        else [])
