-- ===== src/Storage/File/Same.antt =====
-- The code of the two storages in memory is the same on the maps: `FileStorage` repeats `MemStorage`.
use go_advanced.Base.{ℕ, suc, ◌≡◌, refl, true, inl, inr, List, [], ◌∷◌, ◌++◌, arith}
use go_advanced.Base.Int.{is_positive}
use go_advanced.Base.Exec.{unlocked, returned, with_lock}
use go_advanced.Entities.{MetricType, undefined, gauge, counter, other, Metric}
use go_advanced.Entities.Errors.{Result, ok, err, Result-cases}
use go_advanced.Storage.Spec.{Tables}
use go_advanced.Storage.Mem
use go_advanced.Storage.File.Devices.{Codec}
use go_advanced.Storage.File.{
  FileStorage, get_switch, batch_switch, batch_loop, copied, set_tables, store_metrics_on_change,
  update_switch, update_metric, commit_batch, update_metrics,
}

pub get_switch-eq_mem :
    (k : MetricType) (m : Metric) (t : Tables) → get_switch k m t ≡ Mem.get_switch k m t
unfolding get_switch Mem.get_switch
get_switch-eq_mem undefined m t = refl
get_switch-eq_mem gauge m t = refl
get_switch-eq_mem counter m t = refl
get_switch-eq_mem (other n) m t = refl

batch_switch-eq_mem :
    (k : MetricType) (i : ℕ) (m : Metric) (t : Tables)
    → batch_switch k i m t ≡ Mem.batch_switch k i m t
unfolding batch_switch Mem.batch_switch
batch_switch-eq_mem undefined i m t = refl
batch_switch-eq_mem gauge i m t = refl
batch_switch-eq_mem counter i m t = refl
batch_switch-eq_mem (other n) i m t = refl

pub batch_loop-eq_mem :
    (i : ℕ) (ms : List Metric) (t : Tables) (before : List Metric)
    → batch_loop i ms t before ≡ Mem.batch_loop i ms t before
unfolding batch_loop Mem.batch_loop
batch_loop-eq_mem i [] t before = refl
batch_loop-eq_mem i (m ∷ ms) t before = elim (Result-cases (Mem.batch_switch m.type i m t)) [
  | inl (p, e) ↦ rw (batch_switch-eq_mem, e) (batch_loop-eq_mem (suc i) ms p.0 (before ++ p.1 ∷ []))
  | inr (x, e) ↦ rw (batch_switch-eq_mem, e)
]

pub copied-eq_mem : (t : Tables) → copied t ≡ Mem.copied t
unfolding copied Mem.copied
copied-eq_mem t = refl

module _ (json : Codec) where
  pub store_metrics_on_change_later :
      (g : FileStorage)
      → is_positive g.value.store_interval ≡ true
      → store_metrics_on_change json g ≡ returned tt g
  unfolding store_metrics_on_change
  store_metrics_on_change_later g later = ground arith

  pub update_switch-eq_mem :
      (k : MetricType) (m : Metric) (g : FileStorage)
      → is_positive g.value.store_interval ≡ true
      → let c = Mem.update_switch k m g.value.tables in
        update_switch json k m g ≡ returned c.1 (set_tables c.0 g)
  unfolding update_switch Mem.update_switch
  update_switch-eq_mem undefined m g later = refl
  update_switch-eq_mem gauge m g later = ground (
    arith,
    store_metrics_on_change_later (set_tables (Mem.update_switch gauge m g.value.tables).0 g) later,
  )
  update_switch-eq_mem counter m g later = ground (
    arith,
    store_metrics_on_change_later (set_tables (Mem.update_switch counter m g.value.tables).0 g)
        later,
  )
  update_switch-eq_mem (other n) m g later = refl

  -- `s` is the state before the lock is taken
  pub update_metric-eq_mem :
      (m : Metric) (s : FileStorage)
      → s.mutex ≡ unlocked
      → is_positive s.value.store_interval ≡ true
      → let c = Mem.update_switch m.type m s.value.tables in
        update_metric json m s ≡ returned c.1 (set_tables c.0 s)
  unfolding update_metric with_lock
  update_metric-eq_mem m s free later = ground (
    arith,
    update_switch-eq_mem m.type m (record s { mutex = record s.mutex { writer = true } }) later,
  )

  commit_batch-eq_mem :
      (r : Result (Tables × List Metric)) (g : FileStorage)
      → is_positive g.value.store_interval ≡ true
      → let c = Mem.commit_batch g.value.tables r in
        commit_batch json r g ≡ returned c.1 (set_tables c.0 g)
  unfolding commit_batch Mem.commit_batch
  commit_batch-eq_mem (ok (t, answers)) g later =
      ground (arith, store_metrics_on_change_later (set_tables t g) later)
  commit_batch-eq_mem (err e) g later = refl

  pub update_metrics-eq_mem :
      (ms : List Metric) (s : FileStorage)
      → s.mutex ≡ unlocked
      → is_positive s.value.store_interval ≡ true
      → let c =
          Mem.commit_batch s.value.tables (Mem.batch_loop 0 ms (Mem.copied s.value.tables) []) in
        update_metrics json ms s ≡ returned c.1 (set_tables c.0 s)
  unfolding update_metrics with_lock copied Mem.copied
  update_metrics-eq_mem ms s free later = ground (
    arith,
    batch_loop-eq_mem 0 ms (Mem.copied s.value.tables) [],
    commit_batch-eq_mem (Mem.batch_loop 0 ms (Mem.copied s.value.tables) [])
        (record s { mutex = record s.mutex { writer = true } }) later,
  )
