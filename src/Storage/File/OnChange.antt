-- ===== src/Storage/File/OnChange.antt =====
-- With a store interval of zero or less an update stores at once, while it holds the write lock:
-- `storeMetrics` then waits for a read lock that is never given.
use go_advanced.Base.{◌≡◌, refl, true, false, ◌⊎◌, List, [], arith}
use go_advanced.Base.Exec.{blocked, unlocked, with_lock, with_r_lock}
use go_advanced.Base.Int.{is_positive}
use go_advanced.Entities.{MetricType, undefined, gauge, counter, other, Metric}
use go_advanced.Entities.Errors.{ok}
use go_advanced.GoMap.{insert, get_or}
use go_advanced.Base.Word.{add_int64}
use go_advanced.Storage.Spec.{Tables}
use go_advanced.Storage.File.Devices.{Codec}
use go_advanced.Storage.File.{
  FileStorage, set_tables, batch_loop, copied, get_metric, store_metrics_on_change, update_switch,
  update_metric, update_metrics, get_metrics_by_types,
}

-- the types that the storages know
abbrev pub IsKnown : MetricType → Type 0
IsKnown k = (k ≡ gauge) ⊎ (k ≡ counter)

module _ (json : Codec) where
  store_metrics_on_change_blocks :
      (g : FileStorage)
      → is_positive g.value.store_interval ≡ false
      → g.mutex.writer ≡ true
      → store_metrics_on_change json g ≡ blocked g
  unfolding store_metrics_on_change with_r_lock
  store_metrics_on_change_blocks g now held = ground arith

  -- Nobody gets an answer any more.
  abbrev pub IsDead : FileStorage → Type 0
  IsDead s =
      ((m : Metric) → get_metric m s ≡ blocked s)
      × ((m : Metric) → update_metric json m s ≡ blocked s)
      × ((ms : List Metric) → update_metrics json ms s ≡ blocked s)
      × ((maps : Tables) → get_metrics_by_types maps s ≡ blocked s)

  held-IsDead : (s : FileStorage) → s.mutex.writer ≡ true → IsDead s
  unfolding get_metric update_metric update_metrics get_metrics_by_types with_lock with_r_lock
  held-IsDead s held =
      (λ m. ground arith, λ m. ground arith, λ ms. ground arith, λ maps. ground arith)

  update_switch_blocks :
      (k : MetricType) (m : Metric) (g : FileStorage)
      → IsKnown k
      → is_positive g.value.store_interval ≡ false
      → g.mutex.writer ≡ true
      → (s : FileStorage) × (update_switch json k m g ≡ blocked s)
        × (s.mutex.writer ≡ true)
        × (s.value.disk ≡ g.value.disk)
  unfolding update_switch
  update_switch_blocks undefined m g known now held = absurd (ground arith)
  update_switch_blocks gauge m g known now held =
      let t = g.value.tables in
      let s = set_tables (record t { gauge_map = insert m.name m.value t.gauge_map }) g in
      (s, ground (arith, store_metrics_on_change_blocks s now held), held, refl)
  update_switch_blocks counter m g known now held =
      let t = g.value.tables in
      let sum = add_int64 (get_or 0 m.name t.counter_map) m.delta in
      let s = set_tables (record t { counter_map = insert m.name sum t.counter_map }) g in
      (s, ground (arith, store_metrics_on_change_blocks s now held), held, refl)
  update_switch_blocks (other n) m g known now held = absurd (ground arith)

  -- With a store interval of zero or less, the first update of a gauge or a counter never returns:
  -- the file is as it was, and from then on no call of the storage returns, not even a read.
  pub update_metric_deadlock :
      (m : Metric) (s : FileStorage)
      → s.mutex ≡ unlocked
      → is_positive s.value.store_interval ≡ false
      → IsKnown m.type
      → (s' : FileStorage) × (update_metric json m s ≡ blocked s')
        × (s'.value.disk ≡ s.value.disk)
        × IsDead s'
  unfolding update_metric with_lock
  update_metric_deadlock m s free now known =
      let g : FileStorage = record s { mutex = record s.mutex { writer = true } } in
      let (s', e, held, same) = update_switch_blocks m.type m g known now refl in
      (s', ground arith, same, held-IsDead s' held)

  -- With a store interval of zero or less, the first batch that its loop accepts, which may be empty,
  -- never returns: the file is as it was, and from then on no call of the storage returns, not even a
  -- read.
  pub update_metrics_deadlock :
      (ms : List Metric) (s : FileStorage) {done : Tables × List Metric}
      → s.mutex ≡ unlocked
      → is_positive s.value.store_interval ≡ false
      → batch_loop 0 ms (copied s.value.tables) [] ≡ ok done
      → (s' : FileStorage) × (update_metrics json ms s ≡ blocked s')
        × (s'.value.disk ≡ s.value.disk)
        × IsDead s'
  unfolding update_metrics with_lock
  update_metrics_deadlock ms s {done} free now passed =
      let g : FileStorage = record s { mutex = record s.mutex { writer = true } } in
      let s' = set_tables done.0 g in
      (s', ground (arith, store_metrics_on_change_blocks s' now refl), refl, held-IsDead s' refl)
