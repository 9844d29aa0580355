-- ===== src/Storage/File/Lawful.antt =====
-- With a positive store interval `FileStorage` keeps the promise of `Storage`.
use go_advanced.Base.{◌≡◌, refl, ap, ◌∙◌, none, true, List, []}
use go_advanced.Base.Exec.{unlocked, returned}
use go_advanced.Base.Exec.Locks.{with_r_lock_free}
use go_advanced.Base.Int.{is_positive}
use go_advanced.Entities.{Metric}
use go_advanced.Storage.{Storage, IsLawful}
use go_advanced.Storage.Mem
use go_advanced.Storage.Mem.Lawful.{mem_commit_lem, copied-IsTables, view_of-copied}
use go_advanced.Storage.Mem.Writes.{get_switch-eq-get_by, update_switch_lem, update_switch-IsTables}
use go_advanced.Storage.Spec.{
  View, Tables, IsTables, view_of, empty_tables, get_spec, update_spec, update_all_spec, reply,
  next,
}
use go_advanced.Storage.File.Devices.{Codec}
use go_advanced.Storage.File.Same.{get_switch-eq_mem, update_metric-eq_mem, update_metrics-eq_mem}
use go_advanced.Storage.File.{
  FileStorage, get_switch, copied, set_tables, get_metric, update_metric, update_metrics,
  get_metrics_by_types, ping,
}

abbrev pub file_storage : Codec → Storage
file_storage json = record {
  State = FileStorage;
  get_metric = get_metric;
  update_metric = update_metric json;
  update_metrics = update_metrics json;
  get_metrics_by_types = get_metrics_by_types;
  ping = ping;
}

-- The mutex is free, no key stands twice, and metrics are stored later, not on change.
pub record IsReady (s : FileStorage) : Type 0 where
  pub free : s.mutex ≡ unlocked
  pub later : is_positive s.value.store_interval ≡ true
  pub tables : IsTables s.value.tables

abbrev pub file_view : FileStorage → View
file_view s = view_of s.value.tables

module _ (json : Codec) where
  file_get_law :
      (m : Metric) (s : FileStorage)
      → IsReady s
      → (s' : FileStorage) × (get_metric m s ≡ returned (get_spec m (file_view s)) s')
        × IsReady s'
        × (file_view s' ≡ file_view s)
  unfolding get_metric
  file_get_law m s h = (
    s,
    with_r_lock_free s h.free (λ d. get_switch m.type m d.tables)
        ∙ ap (λ r. returned r s)
            (get_switch-eq_mem m.type m s.value.tables
              ∙ get_switch-eq-get_by m.type m s.value.tables refl),
    h,
    refl,
  )

  file_update_law :
      (m : Metric) (s : FileStorage)
      → IsReady s
      → (s' : FileStorage) × (update_metric json m s
          ≡ returned (reply (update_spec m (file_view s))) s')
        × IsReady s'
        × (file_view s' ≡ next (file_view s) (update_spec m (file_view s)))
  file_update_law m s h =
      let t = s.value.tables in
      let s' = set_tables (Mem.update_switch m.type m t).0 s in
      let (answer, shows) = update_switch_lem m.type m t refl in
      (
        s',
        update_metric-eq_mem json m s h.free h.later ∙ ap (λ r. returned r s') answer,
        record {
          free = h.free;
          later = h.later;
          tables = update_switch-IsTables m.type m t h.tables;
        },
        shows,
      )

  file_update_all_law :
      (ms : List Metric) (s : FileStorage)
      → IsReady s
      → (s' : FileStorage) × (update_metrics json ms s
          ≡ returned (reply (update_all_spec 0 ms (file_view s))) s')
        × IsReady s'
        × (file_view s' ≡ next (file_view s) (update_all_spec 0 ms (file_view s)))
  file_update_all_law ms s h =
      let t = s.value.tables in
      let c = Mem.commit_batch t (Mem.batch_loop 0 ms (Mem.copied t) []) in
      let (answer, tables, shows) = mem_commit_lem ms t h.tables in
      let s' = set_tables c.0 s in
      (
        s',
        update_metrics-eq_mem json ms s h.free h.later ∙ ap (λ r. returned r s') answer,
        record { free = h.free; later = h.later; tables = tables },
        shows,
      )

file_dump_law :
    (s : FileStorage)
    → IsReady s
    → (s' : FileStorage) × (t : Tables) × (get_metrics_by_types empty_tables s
        ≡ returned (t, none) s')
      × IsTables t
      × (view_of t ≡ file_view s)
      × IsReady s'
      × (file_view s' ≡ file_view s)
unfolding get_metrics_by_types copied Mem.copied
file_dump_law s h = (
  s,
  Mem.copied s.value.tables,
  with_r_lock_free s h.free (λ d. (copied d.tables, none)),
  copied-IsTables s.value.tables,
  view_of-copied s.value.tables h.tables,
  h,
  refl,
)

-- With a positive store interval, from a state with the mutex free and no key twice, every call of
-- a `FileStorage` returns what the specification returns on what the maps show, and leaves such a
-- state, which shows the result.
pub file_storage-IsLawful : (json : Codec) → IsLawful (file_storage json) IsReady file_view
file_storage-IsLawful json = record {
  get_law = file_get_law json;
  update_law = file_update_law json;
  update_all_law = file_update_all_law json;
  dump_law = file_dump_law;
}
