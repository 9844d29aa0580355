-- ===== src/Storage/File.antt =====
-- internal/storage/filestorage/filestorage.go: the two maps behind a lock, kept in a file too.
-- The disk and the JSON codec (`encoding/json`) come in as `Disk` and `Codec`.
pub mod Devices
pub mod Same
pub mod Preserver
pub mod OnChange
pub mod Lawful
use go_advanced.Base.{
  ℕ, suc, String, Bool, Option, none, some, List, [], ◌∷◌, ◌++◌, ◌<>◌, if◌then◌else◌,
}
use go_advanced.Base.Decimal.{itoa}
use go_advanced.Base.Int.{ℤ, is_positive}
use go_advanced.Base.Exec.{
  Call, returned, pure, ◌>>=◌, ◌>>◌, Guarded, unlocked, with_lock, with_r_lock,
}
use go_advanced.Base.Word.{add_int64}
use go_advanced.Entities.{MetricName, MetricType, gauge, counter, Metric, type_text}
use go_advanced.Entities.Errors.{Error, metric_name_not_found, internal, Result, ok, err}
use go_advanced.GoMap.{lookup, insert, get_or, copy}
use go_advanced.Storage.Spec.{Tables, empty_tables}
use Devices.{Disk, Codec, read_file, write_file}

-- The fields of `FileStorage` behind its mutex, and the disk.
pub record FileState : Type 0 where
  pub tables : Tables
  pub store_interval : ℤ
  pub file_storage_path : String
  pub restore : Bool
  pub disk : Disk

abbrev pub FileStorage : Type 0
FileStorage = Guarded FileState

unfoldable pub new : ℤ → String → Bool → Disk → FileStorage
new store_interval file_storage_path restore disk = record {
  mutex = unlocked;
  value = record {
    tables = empty_tables;
    store_interval = store_interval;
    file_storage_path = file_storage_path;
    restore = restore;
    disk = disk;
  };
}

abbrev pub set_tables : Tables → FileStorage → FileStorage
set_tables t g = record g { value = record g.value { tables = t } }

-- `value, exists := m[name]`, the error if it does not exist, and the answer otherwise
abbrev or_not_found : MetricName → (ℕ → Metric) → Option ℕ → Result Metric
or_not_found n answer none = err (metric_name_not_found n)
or_not_found n answer (some v) = ok (answer v)

-- the `switch` of `GetMetric`
pub get_switch : MetricType → Metric → Tables → Result Metric
get_switch gauge metric s =
    or_not_found metric.name
      (λ v. record { type = metric.type; name = metric.name; value = v; delta = 0 })
      (lookup metric.name s.gauge_map)
get_switch counter metric s =
    or_not_found metric.name
      (λ v. record { type = metric.type; name = metric.name; value = 0; delta = v })
      (lookup metric.name s.counter_map)
get_switch _ metric s =
    err (internal ("unexpected internal metric type: " <> type_text metric.type))

unfoldable pub get_metric : Metric → Call FileStorage (Result Metric)
unfolding get_switch
get_metric metric = with_r_lock (λ g. returned (get_switch metric.type metric g.value.tables) g)

-- one round of the loop of `UpdateMetrics`: the new maps, and the metric to append
pub batch_switch : MetricType → ℕ → Metric → Tables → Result (Tables × Metric)
batch_switch gauge i metric maps =
    let t : Tables = record maps { gauge_map = insert metric.name metric.value maps.gauge_map } in
    ok (
      t,
      record {
        type = metric.type;
        name = metric.name;
        value = get_or 0 metric.name t.gauge_map;
        delta = 0;
      },
    )
batch_switch counter i metric maps =
    let sum = add_int64 (get_or 0 metric.name maps.counter_map) metric.delta in
    let t : Tables = record maps { counter_map = insert metric.name sum maps.counter_map } in
    ok (
      t,
      record {
        type = metric.type;
        name = metric.name;
        value = 0;
        delta = get_or 0 metric.name t.counter_map;
      },
    )
batch_switch _ i metric maps = err (
    internal
      ("metric[" <> itoa i <> "]: unexpected internal metric type: " <> type_text metric.type))

abbrev or_fail :
    Result (Tables × Metric)
    → (Tables → Metric → Result (Tables × List Metric))
    → Result (Tables × List Metric)
or_fail (ok (maps, updated)) continue = continue maps updated
or_fail (err e) continue = err e

-- the loop of `UpdateMetrics`, over the new maps and the result so far
pub batch_loop : ℕ → List Metric → Tables → List Metric → Result (Tables × List Metric)
batch_loop i [] maps result = ok (maps, result)
batch_loop i (metric ∷ metrics) maps result =
    or_fail (batch_switch metric.type i metric maps)
      λ maps' updated. batch_loop (suc i) metrics maps' (result ++ updated ∷ [])

-- `NewGaugeMap` and `NewCounterMap` before the loop
pub copied : Tables → Tables
copied s = record { gauge_map = copy [] s.gauge_map; counter_map = copy [] s.counter_map }

unfoldable pub get_metrics_by_types : Tables → Call FileStorage (Tables × Option Error)
get_metrics_by_types maps = with_r_lock (λ g.
    returned
      (
        record {
          gauge_map = copy maps.gauge_map g.value.tables.gauge_map;
          counter_map = copy maps.counter_map g.value.tables.counter_map;
        },
        none,
      )
      g)

unfoldable pub ping : Call FileStorage (Option Error)
ping g = returned none g

unfoldable pub close : Call FileStorage (Option Error)
close g = returned none g

module _ (json : Codec) where
  -- `os.Create` empties the file; `Encode` writes to it only what it could encode
  unfoldable pub stored : FileState → FileState
  stored s = elim (json.encode s.tables) [
    | ok text ↦ record s { disk = write_file s.file_storage_path text s.disk }
    | err e ↦ record s { disk = write_file s.file_storage_path "" s.disk }
  ]

  unfoldable pub store_metrics : Call FileStorage (Unit {0})
  unfolding stored
  store_metrics = with_r_lock (λ g. returned tt (record g { value = stored g.value }))

  -- `storeMetricsOnChangeIfRequired`
  unfoldable pub store_metrics_on_change : Call FileStorage (Unit {0})
  unfolding store_metrics
  store_metrics_on_change g =
      if is_positive g.value.store_interval then returned tt g else store_metrics g

  -- the `switch` of `UpdateMetric`
  pub update_switch : MetricType → Metric → Call FileStorage (Result Metric)
  update_switch gauge metric g =
      let maps = g.value.tables in
      let t : Tables = record maps { gauge_map = insert metric.name metric.value maps.gauge_map } in
      (store_metrics_on_change >> λ g'.
      returned
        (ok (record {
          type = metric.type;
          name = metric.name;
          value = get_or 0 metric.name g'.value.tables.gauge_map;
          delta = 0;
        }))
        g')
        (set_tables t g)
  update_switch counter metric g =
      let maps = g.value.tables in
      let sum = add_int64 (get_or 0 metric.name maps.counter_map) metric.delta in
      let t : Tables = record maps { counter_map = insert metric.name sum maps.counter_map } in
      (store_metrics_on_change >> λ g'.
      returned
        (ok (record {
          type = metric.type;
          name = metric.name;
          value = 0;
          delta = get_or 0 metric.name g'.value.tables.counter_map;
        }))
        g')
        (set_tables t g)
  update_switch _ metric g =
      returned (err (internal ("unexpected internal metric type: " <> type_text metric.type))) g

  unfoldable pub update_metric : Metric → Call FileStorage (Result Metric)
  unfolding update_switch store_metrics_on_change
  update_metric metric = with_lock (update_switch metric.type metric)

  -- after the loop: the maps are replaced and stored
  pub commit_batch : Result (Tables × List Metric) → Call FileStorage (Result (List Metric))
  commit_batch (ok (maps, result)) g =
      (store_metrics_on_change >> λ g'. returned (ok result) g') (set_tables maps g)
  commit_batch (err e) g = returned (err e) g

  unfoldable pub update_metrics : List Metric → Call FileStorage (Result (List Metric))
  unfolding commit_batch batch_loop batch_switch copied store_metrics_on_change
  update_metrics metrics =
      with_lock (λ g. commit_batch (batch_loop 0 metrics (copied g.value.tables) []) g)

  -- `Decode` fills the two maps, as far as it gets
  pub loaded : Option String → FileState → FileState
  loaded none s = s
  loaded (some text) s = record s { tables = (json.decode text s.tables).0 }

  unfoldable pub load_metrics : Call FileStorage (Unit {0})
  unfolding loaded
  load_metrics = with_lock (λ g.
      let file = read_file g.value.file_storage_path g.value.disk in
      returned tt (record g { value = loaded file g.value }))

  unfoldable pub init : Call FileStorage (Unit {0})
  unfolding load_metrics
  init g = if g.value.restore then load_metrics g else returned tt g
