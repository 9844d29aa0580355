-- ===== src/Storage.antt =====
-- The interface that internal/usecases/metrics.go asks of a storage (`storage`), and what it
-- promises. The storages are modelled in the children.
pub mod Spec
pub mod Mem
pub mod File
pub mod Pg
use go_advanced.Base.{String, Option, List, none, ◌≡◌}
use go_advanced.Base.Exec.{Call, returned}
use go_advanced.Entities.{Gauge, Counter, Metric}
use go_advanced.Entities.Errors.{Error, Result}
use go_advanced.GoMap.{GoMap}
use Spec.{
  View, Tables, IsTables, view_of, empty_tables, get_spec, update_spec, update_all_spec, reply,
  next,
}

-- The `context.Context` argument is left out: the storages in memory do not read it.
pub record Storage : Type 1 where
  pub State : Type 0
  pub get_metric : Metric → Call State (Result Metric)
  pub update_metric : Metric → Call State (Result Metric)
  pub update_metrics : List Metric → Call State (Result (List Metric))
  -- fills the two maps that the caller passes in
  pub get_metrics_by_types : Tables → Call State (Tables × Option Error)
  pub ping : Call State (Option Error)

-- A storage keeps its promise if its calls, from a state that is ready, return what the
-- specification returns on what the state shows, and leave a ready state that shows the result.
pub record IsLawful (st : Storage) (IsReady : st.State → Type 0) (view : st.State → View)
    : Type 0 where
  pub get_law :
      (m : Metric) (s : st.State)
      → IsReady s
      → (s' : st.State) × (st.get_metric m s ≡ returned (get_spec m (view s)) s')
        × IsReady s'
        × (view s' ≡ view s)
  pub update_law :
      (m : Metric) (s : st.State)
      → IsReady s
      → (s' : st.State) × (st.update_metric m s ≡ returned (reply (update_spec m (view s))) s')
        × IsReady s'
        × (view s' ≡ next (view s) (update_spec m (view s)))
  pub update_all_law :
      (ms : List Metric) (s : st.State)
      → IsReady s
      → (s' : st.State) × (st.update_metrics ms s
          ≡ returned (reply (update_all_spec 0 ms (view s))) s')
        × IsReady s'
        × (view s' ≡ next (view s) (update_all_spec 0 ms (view s)))
  pub dump_law :
      (s : st.State)
      → IsReady s
      → (s' : st.State) × (t : Tables) × (st.get_metrics_by_types empty_tables s
          ≡ returned (t, none) s')
        × IsTables t
        × (view_of t ≡ view s)
        × IsReady s'
        × (view s' ≡ view s)
