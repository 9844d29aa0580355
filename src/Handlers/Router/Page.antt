-- ===== src/Handlers/Router/Page.antt =====
-- The page of all metrics on a storage that keeps its promise.
use mathlib.Core.List.{Perm}
use go_advanced.Base.{ℕ, String, ◌≡◌, List, [], ◌∷◌, ◌++◌, ◌<>◌}
use go_advanced.GoMap.{keys}
use go_advanced.Storage.{Storage}
use go_advanced.Storage.Spec.{Tables}
use go_advanced.Usecases.{DumpRow, gauge_rows, counter_rows}
use go_advanced.Usecases.Sorting.{IsSorted}
use go_advanced.Handlers.Router.{row_text}

-- the rows of the page one after the other, behind some text
abbrev pub rows_after : String → List DumpRow → String
rows_after text [] = text
rows_after text (r ∷ rs) = rows_after (text <> row_text r) rs

-- The rows of a dump: the gauges and then the counters, each by their sorted names.
pub record IsDump (print : ℕ → String) (t : Tables) (rows : List DumpRow) : Type 0 where
  pub gauge_names : List String
  pub counter_names : List String
  pub listed :
      rows ≡ gauge_rows print t.gauge_map gauge_names ++ counter_rows t.counter_map counter_names
  pub all_gauges : Perm gauge_names (keys t.gauge_map)
  pub all_counters : Perm counter_names (keys t.counter_map)
  pub gauges_sorted : IsSorted gauge_names
  pub counters_sorted : IsSorted counter_names
