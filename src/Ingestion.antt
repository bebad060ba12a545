-- ===== src/Ingestion.antt =====
-- internal/ingestion/event.go and debounce.go: events, and the loop that gathers them to batches.
pub mod Keys
pub mod Batches
pub mod Latest
pub mod Listeners
pub mod Breaches
use Prim.Native.String.{◌++◌ as append}
use schedulator.Prelude.{
  String, Bool, true, false, List, [], ◌∷◌, ◌++◌, Option, Map, insert, values, is_empty,
  if◌then◌else◌, ◌≡◌,
}
use schedulator.Model.{Time, Application, VllmMetrics}
use schedulator.Model.Plans.{ClusterEvent}

pub data EventKind : Type 0 where
  metrics_update cluster_event sla_breach periodic_eval app_config_update : EventKind

abbrev pub same_kind : EventKind → EventKind → Bool
same_kind EventKind.metrics_update EventKind.metrics_update = true
same_kind EventKind.cluster_event EventKind.cluster_event = true
same_kind EventKind.sla_breach EventKind.sla_breach = true
same_kind EventKind.periodic_eval EventKind.periodic_eval = true
same_kind EventKind.app_config_update EventKind.app_config_update = true
same_kind _ _ = false

-- The text of a kind.
abbrev pub kind_text : EventKind → String
kind_text EventKind.metrics_update = "MetricsUpdate"
kind_text EventKind.cluster_event = "ClusterEvent"
kind_text EventKind.sla_breach = "SLABreach"
kind_text EventKind.periodic_eval = "PeriodicEval"
kind_text EventKind.app_config_update = "AppConfigUpdate"

pub record Event (F : Type 0) : Type 0 where
  pub kind : EventKind
  pub timestamp : Time
  pub app_id : String
  pub vllm_metrics : Option (VllmMetrics F)
  pub cluster_event : Option ClusterEvent
  pub application : Option Application
  pub sla_metric : String
  pub sla_threshold : F
  pub sla_actual : F

abbrev pub is_mergeable_kind : EventKind → Bool
is_mergeable_kind EventKind.cluster_event = false
is_mergeable_kind _ = true

-- The key of a kind and an application: `fmt.Sprintf("%s:%s", kind, app)`.
abbrev pub key_of : EventKind → String → String
key_of kind app_id = append (kind_text kind) (append ":" app_id)

module _ {F : Type 0} where
  abbrev pub is_mergeable : Event F → Bool
  is_mergeable e = is_mergeable_kind e.kind

  abbrev pub merge_key : Event F → String
  merge_key e = if is_mergeable e then key_of e.kind e.app_id else ""

  abbrev pub build_batch : Map (Event F) → List (Event F) → List (Event F)
  build_batch merged non_mergeable = values merged ++ non_mergeable

-- The variables of the loop, whether its timer runs, the batches sent so far, oldest first, and
-- whether the loop has returned.
pub record Debouncer (F : Type 0) : Type 0 where
  pub merged : Map (Event F)
  pub non_mergeable : List (Event F)
  pub armed : Bool
  pub sent : List (List (Event F))
  pub stopped : Bool

abbrev pub idle : {F : Type 0} → Debouncer F
idle = record { merged = []; non_mergeable = []; armed = false; sent = []; stopped = false }

module _ {F : Type 0} where
  abbrev pub waiting : Debouncer F → List (Event F)
  waiting d = build_batch d.merged d.non_mergeable

  -- An event arrives; the timer is started unless it runs.
  unfoldable pub collect : Event F → Debouncer F → Debouncer F
  collect e d =
      if is_mergeable e
      then record d { merged = insert (merge_key e) e d.merged; armed = true }
      else record d { non_mergeable = d.non_mergeable ++ e ∷ []; armed = true }

  -- What is waiting is sent, if anything is.
  unfoldable pub flush : Debouncer F → Debouncer F
  flush d =
      if is_empty (waiting d)
      then d
      else record d { merged = []; non_mergeable = []; sent = d.sent ++ waiting d ∷ [] }

  -- The timer fires.
  unfoldable pub fire : Debouncer F → Debouncer F
  unfolding flush
  fire d = record (flush d) { armed = false }

  -- The timer fires and `emit` returns because the context is done: the batch is dropped.
  unfoldable pub discard : Debouncer F → Debouncer F
  discard d = record d { merged = []; non_mergeable = []; armed = false }

  -- The input is closed or the context is done.
  unfoldable pub final_flush : Debouncer F → Debouncer F
  unfolding flush
  final_flush d = record (flush d) { armed = false; stopped = true }

-- The states of the loop after the events that have arrived, with whether the context is done.
pub data Debounced {F : Type 0} : List (Event F) → Bool → Debouncer F → Type 0 where
  begun : Debounced [] false idle
  arrived :
      {es : List (Event F)} {done : Bool} {d : Debouncer F}
      → Debounced es done d
      → d.stopped ≡ false
      → (e : Event F) → Debounced (es ++ e ∷ []) done (collect e d)
  fired :
      {es : List (Event F)} {done : Bool} {d : Debouncer F}
      → Debounced es done d
      → d.stopped ≡ false
      → d.armed ≡ true
      → Debounced es done (fire d)
  cancelled :
      {es : List (Event F)} {done : Bool} {d : Debouncer F}
      → Debounced es done d
      → Debounced es true d
  discarded :
      {es : List (Event F)} {d : Debouncer F}
      → Debounced es true d
      → d.stopped ≡ false
      → d.armed ≡ true
      → Debounced es true (discard d)
  finished :
      {es : List (Event F)} {done : Bool} {d : Debouncer F}
      → Debounced es done d
      → d.stopped ≡ false
      → Debounced es done (final_flush d)
