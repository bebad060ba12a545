-- ===== src/Ingestion/Breaches.antt =====
-- internal/ingestion/ingester.go with internal/engine/scaling: the two notions of a breach.
use schedulator.Prelude.{0ℤ, ◌≤ℤ◌, ◌==◌, any, ◌≡◌, arith}
use schedulator.Floats.{Float64}
use schedulator.Model.{Time, Application, VllmMetrics}
use schedulator.Scaling.{is_sla_breach}
use schedulator.Ingestion.Listeners.{check_sla_breach}

module _ {F : Type 0} ⦃fl : Float64 F⦄ where
  -- When the limit on the time to the first token is not negative, the ingester sends a breach of it
  -- exactly when the scaling engine sees an SLA breach in the same metrics.
  pub check_sla_breach-is_sla_breach :
      (at later : Time) (app : Application) (m : VllmMetrics F)
      → 0ℤ ≤ℤ app.sla.max_p99_ttft_ms
      → any (λ e. e.sla_metric == "P99TTFT") (check_sla_breach at later app m) ≡ is_sla_breach app m
  unfolding check_sla_breach is_sla_breach
  check_sla_breach-is_sla_breach at later app m h = ground (arith, h)
