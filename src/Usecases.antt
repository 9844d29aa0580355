-- ===== src/Usecases.antt =====
-- internal/usecases/metrics.go: the use cases hand on to the storage; the dump lists all metrics by
-- type and name.
pub mod Sorting
use text.Mathlib.Text.{is_le}
use Prim.Native.String.{compare}
use go_advanced.Base.{
  ℕ, ◌+◌, String, Option, none, some, List, [], ◌∷◌, ◌++◌, map, length, get_elem?, ltb,
  if◌then◌else◌,
}
use go_advanced.Base.Decimal.{itoa}
use go_advanced.Base.Exec.{Call, pure, ◌>>=◌}
use go_advanced.Entities.{Gauge, Counter, Metric}
use go_advanced.Entities.Errors.{Error, Result, ok, err}
use go_advanced.GoMap.{GoMap, get_or, keys}
use go_advanced.Storage.Spec.{Tables, empty_tables}
use go_advanced.Storage.{Storage}

pub record DumpRow : Type 0 where
  pub type : String
  pub name : String
  pub value : String

pub record IteratableDump : Type 0 where
  pub rows : List DumpRow
  pub index : ℕ

-- `sort.Strings`: by the order of the bytes
abbrev pub insert_sorted : String → List String → List String
insert_sorted k [] = k ∷ []
insert_sorted k (j ∷ js) = if is_le (compare k j) then k ∷ j ∷ js else j ∷ insert_sorted k js

unfoldable pub sort_strings : List String → List String
sort_strings [] = []
sort_strings (k ∷ ks) = insert_sorted k (sort_strings ks)

-- the two loops over the sorted keys
abbrev pub gauge_rows : (Gauge → String) → GoMap Gauge → List String → List DumpRow
gauge_rows print m = map (λ k. record { type = "gauge"; name = k; value = print (get_or 0 k m) })

abbrev pub counter_rows : GoMap Counter → List String → List DumpRow
counter_rows m = map (λ k. record { type = "counter"; name = k; value = itoa (get_or 0 k m) })

unfoldable pub new_iteratable_dump : (Gauge → String) → Tables → IteratableDump
new_iteratable_dump print maps = record {
  rows =
      gauge_rows print maps.gauge_map (sort_strings (keys maps.gauge_map))
      ++ counter_rows maps.counter_map (sort_strings (keys maps.counter_map));
  index = 0;
}

-- `none` is `exists == false`
unfoldable pub next_metric : IteratableDump → Option DumpRow × IteratableDump
next_metric d =
    if ltb d.index (length d.rows)
    then (get_elem? d.rows d.index, record d { index = d.index + 1 })
    else (none, d)

module _ (st : Storage) where
  unfoldable pub get_metric : Metric → Call st.State (Result Metric)
  get_metric metric = st.get_metric metric

  unfoldable pub update_metric : Metric → Call st.State (Result Metric)
  update_metric metric = st.update_metric metric

  unfoldable pub update_metrics : List Metric → Call st.State (Result (List Metric))
  update_metrics metrics = st.update_metrics metrics

  abbrev dump_or_fail : (Gauge → String) → Tables × Option Error → Result IteratableDump
  dump_or_fail print (maps, none) = ok (new_iteratable_dump print maps)
  dump_or_fail print (maps, some e) = err e

  unfoldable pub dump_iterator : (Gauge → String) → Call st.State (Result IteratableDump)
  dump_iterator print = do
    filled ← st.get_metrics_by_types empty_tables
    pure (dump_or_fail print filled)

  unfoldable pub ping : Call st.State (Option Error)
  ping = st.ping
