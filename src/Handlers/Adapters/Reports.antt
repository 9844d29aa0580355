-- ===== src/Handlers/Adapters/Reports.antt =====
-- The adapter of a batch accepts what the agent reports.
use go_advanced.Base.{ℕ, suc, String, ◌≡◌, refl, false, List, [], ◌∷◌, ◌++◌, map, is_empty}
use go_advanced.Entities.{Gauge, Counter, Metric}
use go_advanced.Entities.Errors.{ok}
use go_advanced.GoMap.{GoMap}
use go_advanced.Http.{Request, get}
use go_advanced.Storage.Spec.{gauge_metric, counter_metric}
use go_advanced.Agent.Reporter.{report_metrics}
use go_advanced.Handlers.Adapters.{
  Formats, batch_loop, convert_metric_type, convert_metric_name, fill_batch,
  convert_batch_metric_from_update_from_json_request,
}
use go_advanced.Base.{All}

-- the metrics that two maps stand for
abbrev pub metrics_of : GoMap Gauge → GoMap Counter → List Metric
metrics_of gauge counter =
    map (λ e. gauge_metric e.0 e.1) gauge ++ map (λ e. counter_metric e.0 e.1) counter

-- No metric has the empty name.
abbrev pub AreNamed : GoMap ℕ → Type 0
AreNamed = All (λ (e : String × ℕ). is_empty e.0 ≡ false)

accepts_counters :
    (i : ℕ) (counter : GoMap Counter)
    → AreNamed counter
    → batch_loop i (report_metrics [] counter) ≡ ok (metrics_of [] counter)
unfolding batch_loop report_metrics convert_metric_type convert_metric_name fill_batch
accepts_counters i [] named = refl
accepts_counters i (e ∷ counter) named = rw (named.0, accepts_counters (suc i) counter named.1) refl

accepts_metrics :
    (i : ℕ) (gauge : GoMap Gauge) (counter : GoMap Counter)
    → AreNamed gauge
    → AreNamed counter
    → batch_loop i (report_metrics gauge counter) ≡ ok (metrics_of gauge counter)
unfolding batch_loop report_metrics convert_metric_type convert_metric_name fill_batch
accepts_metrics i [] counter named named' = accepts_counters i counter named'
accepts_metrics i (e ∷ gauge) counter named named' =
    rw (named.0, accepts_metrics (suc i) gauge counter named.1 named') refl

-- A request with the JSON of a report becomes the metrics that were reported, in their order.
pub convert_batch-report_metrics :
    (formats : Formats) (gauge : GoMap Gauge) (counter : GoMap Counter) (req : Request)
    → AreNamed gauge
    → AreNamed counter
    → get "Content-Type" req.header ≡ "application/json"
    → formats.decode_metrics req.body ≡ ok (report_metrics gauge counter)
    → convert_batch_metric_from_update_from_json_request formats req ≡ ok (metrics_of gauge counter)
unfolding convert_batch_metric_from_update_from_json_request
convert_batch-report_metrics formats gauge counter req named named' json decoded =
    rw (json, decoded, accepts_metrics 0 gauge counter named named') refl
