-- ===== src/Storage/Mem/Lawful.antt =====
-- `MemStorage` keeps the promise of `Storage`.
use go_advanced.Base.{◌≡◌, refl, ap, ◌∙◌, none, List, []}
use go_advanced.Base.Exec.{unlocked, returned}
use go_advanced.Base.Exec.Locks.{with_lock_free, with_r_lock_free}
use go_advanced.Entities.{Metric}
use go_advanced.Entities.Errors.{Result, ok, err, OnOk}
use go_advanced.GoMap.Laws.{lookup-copy_nil, copy-IsMap}
use go_advanced.Storage.{Storage, IsLawful}
use go_advanced.Storage.Spec.{
  View, View-ext, Tables, IsTables, view_of, empty_tables, get_spec, update_spec, update_all_spec,
  reply, next,
}
use go_advanced.Storage.Mem.Batch.{project, after, batch_loop_lem, batch_loop-IsTables}
use go_advanced.Storage.Mem.Writes.{get_switch-eq-get_by, update_switch_lem, update_switch-IsTables}
use go_advanced.Storage.Mem.{
  MemStorage, new, get_switch, get_metric, update_switch, update_metric, batch_loop, commit_batch,
  copied, update_metrics, get_metrics_by_types, ping,
}

abbrev pub mem_storage : Storage
mem_storage = record {
  State = MemStorage;
  get_metric = get_metric;
  update_metric = update_metric;
  update_metrics = update_metrics;
  get_metrics_by_types = get_metrics_by_types;
  ping = ping;
}

abbrev pub mem_view : MemStorage → View
mem_view s = view_of s.value

pub record IsReady (s : MemStorage) : Type 0 where
  pub free : s.mutex ≡ unlocked
  pub tables : IsTables s.value

-- The copies show what the maps show.
pub view_of-copied : (t : Tables) → IsTables t → view_of (copied t) ≡ view_of t
unfolding copied
view_of-copied t h =
    View-ext _ _ (λ k. lookup-copy_nil k t.gauge_map h.gauge_keys)
      (λ k. lookup-copy_nil k t.counter_map h.counter_keys)

pub copied-IsTables : (t : Tables) → IsTables (copied t)
unfolding copied
copied-IsTables t = record { gauge_keys = copy-IsMap _ _ tt; counter_keys = copy-IsMap _ _ tt }

mem_get_law :
    (m : Metric) (s : MemStorage)
    → IsReady s
    → (s' : MemStorage) × (get_metric m s ≡ returned (get_spec m (view_of s.value)) s')
      × IsReady s'
      × (view_of s'.value ≡ view_of s.value)
unfolding get_metric
mem_get_law m s h = (
  s,
  with_r_lock_free s h.free (get_switch m.type m)
      ∙ ap (λ r. returned r s) (get_switch-eq-get_by m.type m s.value refl),
  h,
  refl,
)

mem_update_law :
    (m : Metric) (s : MemStorage)
    → IsReady s
    → (s' : MemStorage) × (update_metric m s
        ≡ returned (reply (update_spec m (view_of s.value))) s')
      × IsReady s'
      × (view_of s'.value ≡ next (view_of s.value) (update_spec m (view_of s.value)))
unfolding update_metric
mem_update_law m s h = (
  record s { value = (update_switch m.type m s.value).0 },
  with_lock_free s h.free (update_switch m.type m)
      ∙ ap (λ r. returned r (record s { value = (update_switch m.type m s.value).0 }))
          (update_switch_lem m.type m s.value refl).0,
  record { free = h.free; tables = update_switch-IsTables m.type m s.value h.tables },
  (update_switch_lem m.type m s.value refl).1,
)

mem_dump_law :
    (s : MemStorage)
    → IsReady s
    → (s' : MemStorage) × (t : Tables) × (get_metrics_by_types empty_tables s
        ≡ returned (t, none) s')
      × IsTables t
      × (view_of t ≡ view_of s.value)
      × IsReady s'
      × (view_of s'.value ≡ view_of s.value)
unfolding get_metrics_by_types copied
mem_dump_law s h = (
  s,
  copied s.value,
  with_r_lock_free s h.free (λ t. (copied t, none)),
  copied-IsTables s.value,
  view_of-copied s.value h.tables,
  h,
  refl,
)

commit_batch_lem :
    (t : Tables) (r : Result (Tables × List Metric)) (q : Result (View × List Metric))
    → project r ≡ after [] q
    → OnOk (λ (s : Tables × List Metric). IsTables s.0) r
    → IsTables t
    → ((commit_batch t r).1 ≡ reply q)
      × IsTables (commit_batch t r).0
      × (view_of (commit_batch t r).0 ≡ next (view_of t) q)
unfolding commit_batch
commit_batch_lem t (ok (u, l)) (ok (v, l')) e h ht = (cc, h, cc)
commit_batch_lem t (ok (u, l)) (err x) e h ht = cc
commit_batch_lem t (err y) (ok (v, l')) e h ht = cc
commit_batch_lem t (err y) (err x) e h ht = (cc, ht, refl)

-- the maps that `UpdateMetrics` leaves, and its answers, as the specification has them
pub mem_commit_lem :
    (ms : List Metric) (t : Tables)
    → IsTables t
    → let c = commit_batch t (batch_loop 0 ms (copied t) []) in
      (c.1 ≡ reply (update_all_spec 0 ms (view_of t)))
      × IsTables c.0
      × (view_of c.0 ≡ next (view_of t) (update_all_spec 0 ms (view_of t)))
mem_commit_lem ms t h =
    commit_batch_lem t (batch_loop 0 ms (copied t) []) (update_all_spec 0 ms (view_of t))
      (batch_loop_lem 0 ms (copied t) []
        ∙ ap (λ v. after [] (update_all_spec 0 ms v)) (view_of-copied t h))
      (batch_loop-IsTables 0 ms (copied t) [] (copied-IsTables t)) h

mem_update_all_law :
    (ms : List Metric) (s : MemStorage)
    → IsReady s
    → (s' : MemStorage) × (update_metrics ms s
        ≡ returned (reply (update_all_spec 0 ms (view_of s.value))) s')
      × IsReady s'
      × (view_of s'.value ≡ next (view_of s.value) (update_all_spec 0 ms (view_of s.value)))
unfolding update_metrics
mem_update_all_law ms s h =
    let run = λ (t : Tables). commit_batch t (batch_loop 0 ms (copied t) []) in
    let (answer, tables, shows) = mem_commit_lem ms s.value h.tables in
    let s' : MemStorage = record s { value = (run s.value).0 } in
    (
      s',
      with_lock_free s h.free run ∙ ap (λ r. returned r s') answer,
      record { free = h.free; tables = tables },
      shows,
    )

-- From a state with the mutex free and no key twice, every call of a `MemStorage` returns what the
-- specification returns on what the maps show, and leaves such a state, which shows the result.
pub mem_storage-IsLawful : IsLawful mem_storage IsReady mem_view
mem_storage-IsLawful = record {
  get_law = mem_get_law;
  update_law = mem_update_law;
  update_all_law = mem_update_all_law;
  dump_law = mem_dump_law;
}

-- A new storage is ready, and shows nothing.
pub new-IsReady : IsReady new
unfolding new
new-IsReady = record { free = refl; tables = record { gauge_keys = tt; counter_keys = tt } }
