-- ===== src/Agent/Poller/Totals.antt =====
-- The counter `PollCount` that a snapshot of the poller holds.
use go_advanced.Base.{ℕ, zero, suc, ◌+◌, ◌%◌, ◌≡◌, refl, subst, true, ◌∙◌, ap, [], arith, String}
use go_advanced.Base.Exec.{Call, returned, unlocked, ◌>>◌}
use go_advanced.Base.Exec.Locks.{with_lock_free, with_r_lock_free}
use go_advanced.Base.Word.{int64_mod, add_int64}
use go_advanced.Entities.{Gauge}
use go_advanced.GoMap.{lookup, or_zero, get_or, copy, IsMap}
use go_advanced.GoMap.Laws.{get_or-insert_self, insert-IsMap, lookup-copy_nil}
use go_advanced.Agent.Poller.{
  Metrics, PollFunc, PollerState, Poller, new_poller, poll, get, poll_runtime_metrics,
}

-- some polls in a row
abbrev pub polls : PollFunc → ℕ → Call Poller (Unit {0})
polls f zero p = returned tt p
polls f (suc n) p = (poll f >> polls f n) p

one_more : (n : ℕ) → add_int64 (n % int64_mod) 1 ≡ suc n % int64_mod
unfolding add_int64
one_more n = omega arith

module _ (mem_stats : String → Gauge) (random_value : Gauge) where
  abbrev poll_func : PollFunc
  poll_func = poll_runtime_metrics mem_stats random_value

  abbrev polled : PollerState → PollerState
  polled d = record {
    metrics = poll_func d.metrics;
    ready_read = true;
    poll_count = add_int64 d.poll_count 1;
  }

  -- A poller after `n` polls.
  record IsPolled (n : ℕ) (p : Poller) : Type 0 where
    free : p.mutex ≡ unlocked
    count : p.value.poll_count ≡ n % int64_mod
    total : get_or 0 "PollCount" p.value.metrics.counter ≡ n % int64_mod
    keys : IsMap p.value.metrics.counter

  poll-IsPolled :
      (n : ℕ) (p : Poller)
      → IsPolled n p
      → (p' : Poller) × (poll poll_func p ≡ returned p'.value.poll_count p') × IsPolled (suc n) p'
  unfolding poll poll_runtime_metrics
  poll-IsPolled n p h =
      let next : Poller = record p { value = polled p.value } in
      let total = add_int64 (get_or 0 "PollCount" p.value.metrics.counter) 1 in
      (
        next,
        with_lock_free p h.free (λ d. (polled d, add_int64 d.poll_count 1)),
        record {
          free = h.free;
          count = ap (λ c. add_int64 c 1) h.count ∙ one_more n;
          total =
              get_or-insert_self 0 total "PollCount" p.value.metrics.counter
              ∙ ap (λ c. add_int64 c 1) h.total
              ∙ one_more n;
          keys = insert-IsMap "PollCount" total p.value.metrics.counter h.keys;
        },
      )

  polls-IsPolled :
      (n m : ℕ) (p : Poller)
      → IsPolled m p
      → (p' : Poller) × (polls poll_func n p ≡ returned tt p') × IsPolled (n + m) p'
  polls-IsPolled zero m p h = (p, refl, subst (λ k. IsPolled k p) (omega arith) h)
  polls-IsPolled (suc n) m p h =
      let (p1, run, h1) = poll-IsPolled m p h in
      let (p2, run', h2) = polls-IsPolled n (suc m) p1 h1 in
      (p2, ground (arith, run, run'), subst (λ k. IsPolled k p2) (omega arith) h2)

  new-IsPolled : IsPolled 0 new_poller
  unfolding new_poller get_or lookup
  new-IsPolled = record { free = refl; count = refl; total = refl; keys = tt }

  -- Any number of polls of a new poller returns, and so does `Get` after them: the snapshot holds the
  -- number of polls since the start in `PollCount`, modulo 2 ^ 64.
  pub get-polls :
      (n : ℕ)
      → (p : Poller) × (m : Metrics) × (polls poll_func n new_poller ≡ returned tt p)
        × (get p ≡ returned (n % int64_mod, m) p)
        × (get_or 0 "PollCount" m.counter ≡ n % int64_mod)
  unfolding get get_or
  get-polls n =
      let (p, run, h) = polls-IsPolled n 0 new_poller new-IsPolled in
      let h' : IsPolled n p = subst (λ k. IsPolled k p) (omega arith) h in
      let m : Metrics = record {
        gauge = copy [] p.value.metrics.gauge;
        counter = copy [] p.value.metrics.counter;
      } in
      (
        p,
        m,
        run,
        with_r_lock_free p h'.free (λ d. (
          d.poll_count,
          record { gauge = copy [] d.metrics.gauge; counter = copy [] d.metrics.counter },
        ))
            ∙ ap (λ c. returned (c, m) p) h'.count,
        ap (or_zero 0) (lookup-copy_nil "PollCount" p.value.metrics.counter h'.keys) ∙ h'.total,
      )
