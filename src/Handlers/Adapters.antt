-- ===== src/Handlers/Adapters.antt =====
-- internal/handlers/adapters/metric.go: from requests to metrics, and from metrics to answers.
-- `encoding/json` and `strconv.ParseFloat` come in as `Formats`.
pub mod Admission
pub mod Answers
pub mod Reports
use go_advanced.Base.{
  ℕ, suc, String, Option, none, some, List, [], ◌∷◌, ◌++◌, str_eq, is_empty, not, ◌<>◌,
  if◌then◌else◌,
}
use go_advanced.Base.Decimal.{itoa}
use go_advanced.Base.Parse.{Parsed, parsed, failed, syntax, range, parse_int}
use go_advanced.Entities.{
  Gauge, MetricName, MetricType, undefined, gauge, counter, other, Metric, type_text,
}
use go_advanced.Entities.Errors.{
  Error, empty_metric_name, json_request_expected, missing_value, missing_delta,
  invalid_metric_type, metric_value_is_not_valid, json_request_decode, internal, context, library,
  Result, ok, err, ◌>>=◌, ◌>>◌,
}
use go_advanced.Http.{Request, get}
use go_advanced.Models

pub record Formats : Type 0 where
  -- `json.NewDecoder(body).Decode(&metric)` and `…(&metrics)`
  pub decode_metric : Result String → Result Models.Metric
  pub decode_metrics : Result String → Result (List Models.Metric)
  -- `json.NewEncoder(res).Encode(response)`: the text, or why there is none
  pub encode_metric : Models.Metric → Result String
  pub encode_metrics : List Models.Metric → Result String
  -- `strconv.ParseFloat(s, 64)` and `fmt.Sprint` of a `float64`
  pub parse_float : String → Result Gauge
  pub print_gauge : Gauge → String

unfoldable pub convert_metric_type : String → Result MetricType
convert_metric_type metric_type =
    if str_eq metric_type "gauge"
    then ok gauge
    else if str_eq metric_type "counter"
    then ok counter
    else err (invalid_metric_type metric_type)

unfoldable pub convert_metric_name : String → Result MetricName
convert_metric_name metric_name =
    if is_empty metric_name then err empty_metric_name else ok metric_name

-- the zero value of a metric, with the type and the name that were set
abbrev pub of_type : MetricType → MetricName → Metric
of_type t n = record { type = t; name = n; value = 0; delta = 0 }

abbrev wrap : (Error → Error) → {A : Type 0} → Result A → Result A
wrap f (ok a) = ok a
wrap f (err e) = err (f e)

abbrev required : Error → Option ℕ → Result ℕ
required e none = err e
required e (some v) = ok v

-- `req.Header.Get("Content-Type") != "application/json"`
abbrev json_expected : Request → Result (Unit {0})
json_expected req =
    if str_eq (get "Content-Type" req.header) "application/json"
    then ok tt
    else err json_request_expected

-- the `switch` on the type that fills in the value or the delta
fill_json : MetricType → Models.Metric → Metric → Result Metric
fill_json gauge metric result = do
  v ← required missing_value metric.value
  ok (record result { value = v })
fill_json counter metric result = do
  d ← required missing_delta metric.delta
  ok (record result { delta = d })
fill_json t metric result = err (internal ("unexpected internal metric type: " <> type_text t))

-- the error of `strconv.ParseInt`
abbrev parsed_or_invalid : Parsed → Result ℕ
parsed_or_invalid (parsed n) = ok n
parsed_or_invalid (failed syntax) =
    err (metric_value_is_not_valid (library "strconv.ParseInt: invalid syntax"))
parsed_or_invalid (failed range) =
    err (metric_value_is_not_valid (library "strconv.ParseInt: value out of range"))

-- the `switch` of `ConvertEntityMetric`
convert_by : MetricType → Metric → Result Models.Metric
convert_by gauge metric =
    ok (record { id = metric.name; m_type = "gauge"; delta = none; value = some metric.value })
convert_by counter metric =
    ok (record { id = metric.name; m_type = "counter"; delta = some metric.delta; value = none })
convert_by t metric = err (internal ("unexpected internal metric type: " <> type_text t))

unfoldable pub convert_entity_metric : Metric → Result Models.Metric
unfolding convert_by
convert_entity_metric metric = convert_by metric.type metric

-- `fmt.Errorf("metric[%v]: %w", i, err)`
abbrev pub at_index : ℕ → Error → Error
at_index i = context ("metric[" <> itoa i <> "]")

convert_entity_loop : ℕ → List Metric → Result (List Models.Metric)
convert_entity_loop i [] = ok []
convert_entity_loop i (m ∷ ms) = do
  metric ← wrap (at_index i) (convert_entity_metric m)
  rest ← convert_entity_loop (suc i) ms
  ok (metric ∷ rest)

unfoldable pub convert_entity_metrics : List Metric → Result (List Models.Metric)
unfolding convert_entity_loop convert_entity_metric
convert_entity_metrics = convert_entity_loop 0

-- one round of the loop of `ConvertBatchMetricFromUpdateFromJSONRequest`; the last `case` is an
-- internal error of its own
fill_batch : ℕ → MetricType → Models.Metric → Metric → Result Metric
fill_batch i gauge metric result = do
  v ← wrap (at_index i) (required missing_value metric.value)
  ok (record result { value = v })
fill_batch i counter metric result = do
  d ← wrap (at_index i) (required missing_delta metric.delta)
  ok (record result { delta = d })
fill_batch i t metric result =
    err (internal ("metric[" <> itoa i <> "]: unexpected internal metric type: " <> type_text t))

batch_loop : ℕ → List Models.Metric → Result (List Metric)
batch_loop i [] = ok []
batch_loop i (metric ∷ metrics) = do
  t ← wrap (at_index i) (convert_metric_type metric.m_type)
  n ← wrap (at_index i) (convert_metric_name metric.id)
  m ← fill_batch i t metric (of_type t n)
  rest ← batch_loop (suc i) metrics
  ok (m ∷ rest)

module _ (formats : Formats) where
  open formats use {decode_metric, decode_metrics, parse_float}

  unfoldable pub convert_metric_from_get_as_json_request : Request → Result Metric
  unfolding convert_metric_type convert_metric_name
  convert_metric_from_get_as_json_request req = do
    json_expected req
    metric ← wrap json_request_decode (decode_metric req.body)
    t ← convert_metric_type metric.m_type
    n ← convert_metric_name metric.id
    ok (of_type t n)

  unfoldable pub convert_metric_from_update_from_json_request : Request → Result Metric
  unfolding convert_metric_type convert_metric_name fill_json
  convert_metric_from_update_from_json_request req = do
    json_expected req
    metric ← wrap json_request_decode (decode_metric req.body)
    t ← convert_metric_type metric.m_type
    n ← convert_metric_name metric.id
    fill_json t metric (of_type t n)

  unfoldable pub convert_batch_metric_from_update_from_json_request : Request → Result (List Metric)
  unfolding batch_loop convert_metric_type convert_metric_name fill_batch
  convert_batch_metric_from_update_from_json_request req = do
    json_expected req
    metrics ← wrap json_request_decode (decode_metrics req.body)
    batch_loop 0 metrics

  -- the `switch` of `ConvertMetricFromUpdateFromURLRequest`
  fill_url : MetricType → String → Metric → Result Metric
  fill_url gauge metric_value result = do
    v ← wrap metric_value_is_not_valid (parse_float metric_value)
    ok (record result { value = v })
  fill_url counter metric_value result = do
    d ← parsed_or_invalid (parse_int metric_value)
    ok (record result { delta = d })
  fill_url t metric_value result =
      err (internal ("unexpected internal metric type: " <> type_text t))

  unfoldable pub convert_metric_from_update_from_url_request : Request → Result Metric
  unfolding convert_metric_type convert_metric_name fill_url
  convert_metric_from_update_from_url_request req = do
    t ← convert_metric_type (get "type" req.url_params)
    n ← convert_metric_name (get "name" req.url_params)
    if is_empty (get "value" req.url_params)
        then err missing_value
        else fill_url t (get "value" req.url_params) (of_type t n)

unfoldable pub convert_metric_from_get_as_text_request : Request → Result Metric
unfolding convert_metric_type convert_metric_name
convert_metric_from_get_as_text_request req = do
  t ← convert_metric_type (get "type" req.url_params)
  n ← convert_metric_name (get "name" req.url_params)
  ok (of_type t n)
