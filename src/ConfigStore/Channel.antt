-- ===== src/ConfigStore/Channel.antt =====
-- internal/configstore/yamlstore.go: when WatchMetrics returns.
use schedulator.Prelude.{
  ℕ, suc, leb, List, [], ◌∷◌, none, some, length, ◌≡◌, refl, if◌then◌else◌, arith,
}
use schedulator.Model.{Time}
use schedulator.ConfigStore.{
  YamlApp, YamlFile, contents, metrics_from, send_all, channel_capacity, watch_metrics,
}

send_all_lem {ℓ} :
    {A : Type ℓ} (room : ℕ) (xs : List A)
    → send_all room xs ≡ (if leb (length xs) room then some xs else none)
unfolding send_all
send_all_lem ℕ.zero [] = refl
send_all_lem (suc room) [] = ground arith
send_all_lem ℕ.zero (x ∷ xs) = ground arith
send_all_lem (suc room) (x ∷ xs) = ground (arith, send_all_lem room xs)

length-metrics_from :
    {F : Type 0} (clock : ℕ → Time) (n : ℕ) (apps : List (YamlApp F))
    → length (metrics_from clock n apps) ≡ length apps
length-metrics_from clock n [] = refl
length-metrics_from clock n (a ∷ apps) = ground (arith, length-metrics_from clock (suc n) apps)

-- WatchMetrics returns exactly when a readable file has at most as many applications as its
-- channel holds values, and then the channel holds the metrics of each, in the order of the file;
-- with more it blocks.
pub watch_metrics_lem :
    {F : Type 0} (E : Type 0) (clock : ℕ → Time) (f : YamlFile F)
    → watch_metrics {E = E} clock (contents f) ≡ (
        if leb (length f.applications) channel_capacity
        then some (metrics_from clock 0 f.applications)
        else none)
unfolding watch_metrics
watch_metrics_lem E clock f = ground (
  arith,
  send_all_lem channel_capacity (metrics_from clock 0 f.applications),
  length-metrics_from clock 0 f.applications,
)
