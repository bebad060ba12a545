-- ===== src/Witnesses/Store.antt =====
-- The theorem on the configuration store, at a file of one application.
use schedulator.Prelude.{◌≡◌, ℤ, 0ℤ, pos, String, [], ◌∷◌, some, ◌+◌}
use schedulator.ConfigStore.{YamlFile, contents, metrics_from, watch_metrics}
use schedulator.ConfigStore.Channel

abbrev one_app : YamlFile ℤ
one_app = record {
  applications =
      record {
        app_id = "high";
        model_id = "llama";
        gpus_per_replica = pos 2;
        priority = 0ℤ;
        min_replicas = pos 1;
        failure_domain_rule = "spread_clusters";
        sla = record { max_p99_ttft_ms = pos 200; max_p99_tps = pos 50 };
        metrics = record {
          avg_waiting_queue_depth = pos 3;
          max_waiting_queue_depth = pos 9;
          avg_running_queue_depth = pos 4;
          avg_batch_utilization = pos 600;
          avg_kv_cache_utilization = pos 700;
          max_kv_cache_utilization = pos 800;
          total_tokens_per_second = pos 90;
          avg_time_to_first_token_ms = pos 120;
          p99_time_to_first_token_ms = pos 180;
        };
      }
      ∷ [];
}

watch_metrics_lem_example :
    watch_metrics {E = String} (λ n. n + 5) (contents one_app)
    ≡ some (metrics_from (λ n. n + 5) 0 one_app.applications)
watch_metrics_lem_example = Channel.watch_metrics_lem String (λ n. n + 5) one_app
