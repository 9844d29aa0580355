-- ===== src/Storage/Mem/Singles.antt =====
-- A batch and the same updates one by one.
use go_advanced.Base.{ℕ, suc, ◌≡◌, refl, sym, ap, ◌∙◌, List, [], ◌∷◌, arith}
use go_advanced.Base.Exec.{Call, returned, ◌>>◌}
use go_advanced.Entities.{Metric}
use go_advanced.Entities.Errors.{ok}
use go_advanced.Storage.Spec.{update_all_spec, next, reply}
use go_advanced.Storage.Mem.{MemStorage, update_metric, update_metrics}
use go_advanced.Storage.Mem.Lawful.{mem_view, IsReady, mem_storage-IsLawful}
use go_advanced.Base.{All}
use go_advanced.Storage.Spec.Batches.{IsTyped, update_all_spec-IsTyped, next-update_all_spec}

-- the updates one by one
abbrev pub one_by_one : List Metric → Call MemStorage (Unit {0})
one_by_one [] = λ s. returned tt s
one_by_one (m ∷ ms) = update_metric m >> one_by_one ms

one_by_one_lem :
    (i : ℕ) (ms : List Metric) (s : MemStorage)
    → IsReady s
    → All IsTyped ms
    → (s' : MemStorage) × (one_by_one ms s ≡ returned tt s')
      × (mem_view s' ≡ next (mem_view s) (update_all_spec i ms (mem_view s)))
unfolding update_all_spec
one_by_one_lem i [] s h typed = (s, refl, refl)
one_by_one_lem i (m ∷ ms) s h typed =
    let (s1, run, ready, shows) = mem_storage-IsLawful.update_law m s h in
    let (s2, run', shows') = one_by_one_lem (suc i) ms s1 ready typed.1 in
    (
      s2,
      ground (arith, run, run'),
      shows'
          ∙ ap (λ v. next v (update_all_spec (suc i) ms v)) shows
          ∙ sym (next-update_all_spec i m ms (mem_view s) typed.0 typed.1),
    )

-- From a ready storage in memory, a batch of gauges and counters succeeds as a whole, and the storage
-- then shows what it shows after the same updates one by one, in the same order.
pub update_metrics-one_by_one :
    (ms : List Metric) (s : MemStorage)
    → IsReady s
    → All IsTyped ms
    → (s1 : MemStorage) × (s2 : MemStorage) × (answers : List Metric) × (update_metrics ms s
        ≡ returned (ok answers) s1)
      × (one_by_one ms s ≡ returned tt s2)
      × (mem_view s1 ≡ mem_view s2)
update_metrics-one_by_one ms s h typed =
    let (s1, run, _, shows) = mem_storage-IsLawful.update_all_law ms s h in
    let (s2, run', shows') = one_by_one_lem 0 ms s h typed in
    let (done, q, _) = update_all_spec-IsTyped 0 ms (mem_view s) typed in
    (s1, s2, done.1, run ∙ ap (λ r. returned (reply r) s1) q, run', shows ∙ sym shows')
