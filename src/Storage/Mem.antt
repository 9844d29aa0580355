-- ===== src/Storage/Mem.antt =====
-- internal/storage/memstorage/memstorage.go: the storage in two maps behind a lock.
pub mod Lawful
pub mod Singles
pub mod Writes
pub mod Batch
pub mod Threads
use go_advanced.Base.{ℕ, suc, Option, none, some, List, [], ◌∷◌, ◌++◌, ◌<>◌}
use go_advanced.Base.Decimal.{itoa}
use go_advanced.Base.Exec.{Call, returned, Guarded, unlocked, with_lock, with_r_lock}
use go_advanced.Base.Word.{add_int64}
use go_advanced.Entities.{
  MetricName, MetricType, undefined, gauge, counter, other, Metric, type_text,
}
use go_advanced.Entities.Errors.{Error, metric_name_not_found, internal, Result, ok, err, ◌>>=◌}
use go_advanced.GoMap.{lookup, insert, get_or, copy}
use go_advanced.Storage.Spec.{Tables, empty_tables}

abbrev pub MemStorage : Type 0
MemStorage = Guarded Tables

unfoldable pub new : MemStorage
new = record { mutex = unlocked; value = empty_tables }

-- `value, exists := m[name]`, the error if it does not exist, and the answer otherwise
abbrev or_not_found : MetricName → (ℕ → Metric) → Option ℕ → Result Metric
or_not_found n answer none = err (metric_name_not_found n)
or_not_found n answer (some v) = ok (answer v)

-- the `switch` of `GetMetric`
unfoldable pub get_switch : MetricType → Metric → Tables → Result Metric
get_switch gauge metric s =
    or_not_found metric.name
      (λ v. record { type = metric.type; name = metric.name; value = v; delta = 0 })
      (lookup metric.name s.gauge_map)
get_switch counter metric s =
    or_not_found metric.name
      (λ v. record { type = metric.type; name = metric.name; value = 0; delta = v })
      (lookup metric.name s.counter_map)
get_switch _ metric s =
    err (internal ("unexpected internal metric type: " <> type_text metric.type))

unfoldable pub get_metric : Metric → Call MemStorage (Result Metric)
unfolding get_switch
get_metric metric = with_r_lock (λ g. returned (get_switch metric.type metric g.value) g)

-- the `switch` of `UpdateMetric`: the maps after it, and what it returns
unfoldable pub update_switch : MetricType → Metric → Tables → Tables × Result Metric
update_switch gauge metric s =
    let t : Tables = record s { gauge_map = insert metric.name metric.value s.gauge_map } in
    (
      t,
      ok (record {
        type = metric.type;
        name = metric.name;
        value = get_or 0 metric.name t.gauge_map;
        delta = 0;
      }),
    )
update_switch counter metric s =
    let sum = add_int64 (get_or 0 metric.name s.counter_map) metric.delta in
    let t : Tables = record s { counter_map = insert metric.name sum s.counter_map } in
    (
      t,
      ok (record {
        type = metric.type;
        name = metric.name;
        value = 0;
        delta = get_or 0 metric.name t.counter_map;
      }),
    )
update_switch _ metric s =
    (s, err (internal ("unexpected internal metric type: " <> type_text metric.type)))

unfoldable pub update_metric : Metric → Call MemStorage (Result Metric)
unfolding update_switch
update_metric metric = with_lock (λ g.
    let (t, result) = update_switch metric.type metric g.value in
    returned result (record g { value = t }))

-- one round of the loop of `UpdateMetrics`: the new maps, and the metric to append
unfoldable pub batch_switch : MetricType → ℕ → Metric → Tables → Result (Tables × Metric)
batch_switch gauge i metric maps =
    let t : Tables = record maps { gauge_map = insert metric.name metric.value maps.gauge_map } in
    ok (
      t,
      record {
        type = metric.type;
        name = metric.name;
        value = get_or 0 metric.name t.gauge_map;
        delta = 0;
      },
    )
batch_switch counter i metric maps =
    let sum = add_int64 (get_or 0 metric.name maps.counter_map) metric.delta in
    let t : Tables = record maps { counter_map = insert metric.name sum maps.counter_map } in
    ok (
      t,
      record {
        type = metric.type;
        name = metric.name;
        value = 0;
        delta = get_or 0 metric.name t.counter_map;
      },
    )
batch_switch _ i metric maps = err (
    internal
      ("metric[" <> itoa i <> "]: unexpected internal metric type: " <> type_text metric.type))

-- the loop of `UpdateMetrics`, over the new maps and the result so far
unfoldable pub batch_loop : ℕ → List Metric → Tables → List Metric → Result (Tables × List Metric)
batch_loop i [] maps result = ok (maps, result)
batch_loop i (metric ∷ metrics) maps result = do
  step ← batch_switch metric.type i metric maps
  batch_loop (suc i) metrics step.0 (result ++ step.1 ∷ [])

-- the maps are replaced only after the loop
unfoldable pub commit_batch : Tables → Result (Tables × List Metric) → Tables × Result (List Metric)
commit_batch old (ok (maps, result)) = (maps, ok result)
commit_batch old (err e) = (old, err e)

-- `NewGaugeMap` and `NewCounterMap` before the loop
unfoldable pub copied : Tables → Tables
copied s = record { gauge_map = copy [] s.gauge_map; counter_map = copy [] s.counter_map }

unfoldable pub update_metrics : List Metric → Call MemStorage (Result (List Metric))
unfolding commit_batch batch_loop batch_switch copied
update_metrics metrics = with_lock (λ g.
    let (t, result) = commit_batch g.value (batch_loop 0 metrics (copied g.value) []) in
    returned result (record g { value = t }))

unfoldable pub get_metrics_by_types : Tables → Call MemStorage (Tables × Option Error)
get_metrics_by_types maps = with_r_lock (λ g.
    returned
      (
        record {
          gauge_map = copy maps.gauge_map g.value.gauge_map;
          counter_map = copy maps.counter_map g.value.counter_map;
        },
        none,
      )
      g)

unfoldable pub ping : Call MemStorage (Option Error)
ping g = returned none g

unfoldable pub close : Call MemStorage (Option Error)
close g = returned none g
