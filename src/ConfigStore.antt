-- ===== src/ConfigStore.antt =====
-- internal/configstore/yamlstore.go: the applications and the metrics of a configuration file. The
-- parser and the watch of the file are libraries; a parsed file or an error comes in.
pub mod Channel
use schedulator.Prelude.{
  ℕ, suc, ℤ, 0ℤ, String, ◌==◌, List, [], ◌∷◌, map, Option, none, some, if◌then◌else◌, ◌⊎◌, inl, inr,
}
use schedulator.Model.{Time, FailureDomainRule, Application, VllmMetrics}

pub record YamlSla : Type 0 where
  pub max_p99_ttft_ms : ℤ
  pub max_p99_tps : ℤ

pub record YamlMetrics (F : Type 0) : Type 0 where
  pub avg_waiting_queue_depth : F
  pub max_waiting_queue_depth : F
  pub avg_running_queue_depth : F
  pub avg_batch_utilization : F
  pub avg_kv_cache_utilization : F
  pub max_kv_cache_utilization : F
  pub total_tokens_per_second : F
  pub avg_time_to_first_token_ms : F
  pub p99_time_to_first_token_ms : F

pub record YamlApp (F : Type 0) : Type 0 where
  pub app_id : String
  pub model_id : String
  pub gpus_per_replica : ℤ
  pub priority : ℤ
  pub min_replicas : ℤ
  pub failure_domain_rule : String
  pub sla : YamlSla
  pub metrics : YamlMetrics F

pub record YamlFile (F : Type 0) : Type 0 where
  pub applications : List (YamlApp F)

-- What readFile returns.
pub data ReadFile (F : Type 0) (E : Type 0) : Type 0 where
  unreadable : E → ReadFile F E
  contents : YamlFile F → ReadFile F E

module _ {F : Type 0} where
  abbrev pub convert_app : YamlApp F → Application
  convert_app a = record {
    app_id = a.app_id;
    model_id = a.model_id;
    gpus_per_replica = a.gpus_per_replica;
    priority = a.priority;
    min_replicas = a.min_replicas;
    failure_domain_rule =
        if a.failure_domain_rule == "spread_clusters"
        then FailureDomainRule.spread_clusters
        else FailureDomainRule.none_rule;
    sla = record {
      app_id = a.app_id;
      max_p99_ttft_ms = a.sla.max_p99_ttft_ms;
      max_p99_tps = a.sla.max_p99_tps;
    };
  }

  abbrev pub convert_apps : YamlFile F → List Application
  convert_apps f = map convert_app f.applications

  -- The metrics of an application, with the time that time.Now gives.
  abbrev pub metrics_of : Time → YamlApp F → VllmMetrics F
  metrics_of now a = record {
    app_id = a.app_id;
    aggregated_from = 0ℤ;
    avg_waiting_queue_depth = a.metrics.avg_waiting_queue_depth;
    max_waiting_queue_depth = a.metrics.max_waiting_queue_depth;
    avg_running_queue_depth = a.metrics.avg_running_queue_depth;
    avg_batch_utilization = a.metrics.avg_batch_utilization;
    avg_kv_cache_utilization = a.metrics.avg_kv_cache_utilization;
    max_kv_cache_utilization = a.metrics.max_kv_cache_utilization;
    total_tokens_per_second = a.metrics.total_tokens_per_second;
    avg_time_to_first_token_ms = a.metrics.avg_time_to_first_token_ms;
    p99_time_to_first_token_ms = a.metrics.p99_time_to_first_token_ms;
    measured_at = now;
  }

-- parseFile, which ListApplications calls; `wrap` is what fmt.Errorf puts around an error.
abbrev pub parse_file : {F E : Type 0} → (wrap : E → E) → ReadFile F E → E ⊎ List Application
parse_file wrap (unreadable e) = inl (wrap e)
parse_file wrap (contents f) = inr (convert_apps f)

-- The metrics of applications, where the n-th call of time.Now gives `clock n`.
abbrev pub metrics_from :
    {F : Type 0} → (clock : ℕ → Time) → ℕ → List (YamlApp F) → List (VllmMetrics F)
metrics_from clock n [] = []
metrics_from clock n (a ∷ apps) = metrics_of (clock n) a ∷ metrics_from clock (suc n) apps

-- Sends into a channel with room for some more values, which nobody reads yet: `none` is a send
-- that blocks for ever.
unfoldable pub send_all {ℓ} : {A : Type ℓ} → (room : ℕ) → List A → Option (List A)
send_all room [] = some []
send_all ℕ.zero (x ∷ xs) = none
send_all (suc room) (x ∷ xs) =
    let rest = send_all room xs in elim rest [ none ↦ none | some sent ↦ some (x ∷ sent) ]

abbrev pub channel_capacity : ℕ
channel_capacity = 16

module _ {F E : Type 0} where
  -- The channel that WatchMetrics returns holds the metrics of the file, if it is readable.
  unfoldable pub watch_metrics : (ℕ → Time) → ReadFile F E → Option (List (VllmMetrics F))
  unfolding send_all
  watch_metrics clock (unreadable e) = some []
  watch_metrics clock (contents f) = send_all channel_capacity (metrics_from clock 0 f.applications)
