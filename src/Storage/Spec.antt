-- ===== src/Storage/Spec.antt =====
-- What a storage shows, as two partial functions from names to values, and what reading and
-- updating mean on it. This is the specification; it models no code.
pub mod Reads
pub mod Batches
use go_advanced.Base.{
  ℕ, suc, String, ◌≡◌, refl, Option, none, some, List, [], ◌∷◌, str_eq, fun_ext, ◌<>◌,
  if◌then◌else◌,
}
use go_advanced.Base.Word.{add_int64}
use go_advanced.Base.Decimal.{itoa}
use go_advanced.Entities.{
  Gauge, Counter, MetricName, MetricType, undefined, gauge, counter, other, Metric, type_text,
}
use go_advanced.Entities.Errors.{Error, metric_name_not_found, internal, Result, ok, err, ◌>>=◌}
use go_advanced.GoMap.{GoMap, lookup, IsMap}

pub record View : Type 0 where
  pub gauges : MetricName → Option Gauge
  pub counters : MetricName → Option Counter

pub View-ext :
    (a b : View)
    → ((k : String) → a.gauges k ≡ b.gauges k)
    → ((k : String) → a.counters k ≡ b.counters k)
    → a ≡ b
View-ext a b p q = λ i. record { gauges = λ k. p k i; counters = λ k. q k i }

-- The two maps that the storages in memory hold.
pub record Tables : Type 0 where
  pub gauge_map : GoMap Gauge
  pub counter_map : GoMap Counter

abbrev pub empty_tables : Tables
empty_tables = record { gauge_map = []; counter_map = [] }

pub record IsTables (t : Tables) : Type 0 where
  pub gauge_keys : IsMap t.gauge_map
  pub counter_keys : IsMap t.counter_map

abbrev pub view_of : Tables → View
view_of t = record { gauges = λ k. lookup k t.gauge_map; counters = λ k. lookup k t.counter_map }

-- The metric that answers a read or an update.
abbrev pub gauge_metric : MetricName → Gauge → Metric
gauge_metric n v = record { type = gauge; name = n; value = v; delta = 0 }

abbrev pub counter_metric : MetricName → Counter → Metric
counter_metric n d = record { type = counter; name = n; value = 0; delta = d }

abbrev pub unexpected : MetricType → Error
unexpected t = internal ("unexpected internal metric type: " <> type_text t)

abbrev pub found : MetricName → (ℕ → Metric) → Option ℕ → Result Metric
found n answer none = err (metric_name_not_found n)
found n answer (some v) = ok (answer v)

abbrev pub get_by : MetricType → Metric → View → Result Metric
get_by gauge m v = found m.name (gauge_metric m.name) (v.gauges m.name)
get_by counter m v = found m.name (counter_metric m.name) (v.counters m.name)
get_by undefined m v = err (unexpected undefined)
get_by (other n) m v = err (unexpected (other n))

-- A read finds the value of the name among the metrics of the type.
abbrev pub get_spec : Metric → View → Result Metric
get_spec m v = get_by m.type m v

abbrev pub put : MetricName → ℕ → (MetricName → Option ℕ) → MetricName → Option ℕ
put n v f k = if str_eq n k then some v else f k

-- the value that a counter starts from
abbrev pub or_zero : Option ℕ → ℕ
or_zero none = 0
or_zero (some v) = v

abbrev pub set_gauge : MetricName → Gauge → View → View × Metric
set_gauge n x v = (record v { gauges = put n x v.gauges }, gauge_metric n x)

abbrev pub add_counter : MetricName → Counter → View → View × Metric
add_counter n d v =
    let sum = add_int64 (or_zero (v.counters n)) d in
    (record v { counters = put n sum v.counters }, counter_metric n sum)

abbrev pub update_by : MetricType → Error → Metric → View → Result (View × Metric)
update_by gauge e m v = ok (set_gauge m.name m.value v)
update_by counter e m v = ok (add_counter m.name m.delta v)
update_by undefined e m v = err e
update_by (other n) e m v = err e

-- A gauge is replaced, a counter grows by the delta; any other type is refused.
abbrev pub update_spec : Metric → View → Result (View × Metric)
update_spec m v = update_by m.type (unexpected m.type) m v

abbrev pub unexpected_at : ℕ → MetricType → Error
unexpected_at i t =
    internal ("metric[" <> itoa i <> "]: unexpected internal metric type: " <> type_text t)

-- Updates in order, all of them or none; the answers stand in the same order.
unfoldable pub update_all_spec : ℕ → List Metric → View → Result (View × List Metric)
update_all_spec i [] v = ok (v, [])
update_all_spec i (m ∷ ms) v = do
  first ← update_by m.type (unexpected_at i m.type) m v
  rest ← update_all_spec (suc i) ms first.0
  ok (rest.0, first.1 ∷ rest.1)

abbrev pub reply {ℓ} : {A : Type ℓ} → Result (View × A) → Result A
reply (ok (v, a)) = ok a
reply (err e) = err e

-- what the storage shows after the call
abbrev pub next {ℓ} : {A : Type ℓ} → View → Result (View × A) → View
next v (ok (v', a)) = v'
next v (err e) = v
