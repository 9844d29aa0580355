-- ===== src/Agent/Workers/Weights.antt =====
-- The moves that are left to the goroutines, and what a step does to them.
use go_advanced.Base.{
  ℕ, zero, suc, ◌+◌, ◌-◌, ◌*◌, ◌<◌, ◌≡◌, refl, sym, subst, Bool, true, false, length, arith,
}
use go_advanced.Agent.Workers.{
  PollerWorker, ticking, poller_stopped, SchedulerPoint, waiting, scheduling, offering, resting,
  scheduler_stopped, ReporterPoint, receiving, reporting, reporter_stopped, Workers, can_stop, Step,
  poller_polls, poller_stops, first_poll_seen, all_polled, gets, sends, all_scheduled, ticks,
  scheduler_stops, reports, reporter_stops, interrupt, by_poller, by_scheduler, by_reporter,
}
use go_advanced.Agent.Workers.Rounds.{IsAt, IsOrdered, indices, length-middle, length_lt}
use go_advanced.Base.Counts.{count, count-middle}
use go_advanced.Agent.Workers.Counting.{poller_runs, reporter_runs, can_poll-runs}

-- A tick starts another round of the scheduler. A poll, or one more signal, leaves the goroutines where
-- they stand. All other steps are moves.
pub data Kind : Type 0 where
  tick idle move : Kind

abbrev pub kind : {s u : Workers} → Step s u → Kind
kind (interrupt e) = idle
kind (by_poller (poller_polls l r w f n p at can run e)) = idle
kind (by_poller (poller_stops l r w at cancel run e)) = move
kind (by_scheduler (first_poll_seen l r w at point ready e)) = move
kind (by_scheduler (all_polled point e)) = move
kind (by_scheduler (gets l r w n m p at point run e)) = move
kind (by_scheduler (sends l r i m point at e)) = move
kind (by_scheduler (all_scheduled point e)) = move
kind (by_scheduler (ticks point e)) = tick
kind (by_scheduler (scheduler_stops cancel can e)) = move
kind (by_reporter (reports l r x outcome at e)) = move
kind (by_reporter (reporter_stops l r at over e)) = move

-- Some steps in a row without a tick, `k` of them moves.
pub data Run (s : Workers) : ℕ → Workers → Type 0 where
  stay : Run s zero s
  idles : {k : ℕ} {t u : Workers} → Run s k t → (step : Step t u) → kind step ≡ idle → Run s k u
  moves :
      {k : ℕ} {t u : Workers} → Run s k t → (step : Step t u) → kind step ≡ move → Run s (suc k) u

abbrev pub scheduler_weight : ℕ → SchedulerPoint → ℕ
scheduler_weight n (waiting i) = 4 + 3 * n + (n - i)
scheduler_weight n (scheduling i) = 3 + 3 * (n - i)
scheduler_weight n (offering i m) = 2 + 3 * (n - i)
scheduler_weight n resting = 2
scheduler_weight n scheduler_stopped = 0

abbrev pub is_busy : ReporterPoint → Bool
is_busy (reporting x) = true
is_busy _ = false

-- a bound on the moves that are left
abbrev pub weight : Workers → ℕ
weight s =
    count poller_runs s.pollers
    + scheduler_weight (length s.pollers) s.scheduler
    + (count reporter_runs s.reporters + count is_busy s.reporters)

-- what a step does to the weight
abbrev pub Weighs : Kind → ℕ → ℕ → Type 0
Weighs tick before after = Unit
Weighs idle before after = after ≡ before
Weighs move before after = after < before

weighed :
    (k : Kind) (s u v : Workers)
    → u ≡ v
    → Weighs k (weight s) (weight v)
    → Weighs k (weight s) (weight u)
weighed k s u v e h = subst (λ w. Weighs k (weight s) (weight w)) (sym e) h

stop_lt : (n : ℕ) (k : SchedulerPoint) → can_stop k ≡ true → 0 < scheduler_weight n k
stop_lt n (waiting i) can = omega arith
stop_lt n (scheduling i) can = absurd cc
stop_lt n (offering i m) can = omega arith
stop_lt n resting can = omega arith
stop_lt n scheduler_stopped can = absurd cc

-- the weight falls in every move, and stays in an idle step
pub Step-Weighs :
    {s u : Workers} (step : Step s u) → IsOrdered s → Weighs (kind step) (weight s) (weight u)
Step-Weighs {s} {u} (interrupt e) h = weighed idle s u _ e refl
Step-Weighs {s} {u} (by_poller (poller_polls l r w f n p at can run e)) h =
    let w' : PollerWorker = record { point = ticking; poller = p } in
    let runs = can_poll-runs s.cancelled w.point can in
    weighed idle s u _ e (
      ground (
        arith,
        at,
        runs,
        count-middle poller_runs l r w,
        count-middle poller_runs l r w',
        length-middle l r w w',
      ))
Step-Weighs {s} {u} (by_poller (poller_stops l r w at cancel run e)) h =
    let w' : PollerWorker = record w { point = poller_stopped } in
    weighed move s u _ e (
      ground (
        arith,
        at,
        run,
        count-middle poller_runs l r w,
        count-middle poller_runs l r w',
        length-middle l r w w',
      ))
Step-Weighs {s} {u} (by_scheduler (first_poll_seen l r w at point ready e)) h =
    weighed move s u _ e (ground (arith, at, point, length_lt l r w))
Step-Weighs {s} {u} (by_scheduler (all_polled point e)) h =
    weighed move s u _ e (ground (arith, point))
Step-Weighs {s} {u} (by_scheduler (gets l r w n m p at point run e)) h =
    let w' : PollerWorker = record w { poller = p } in
    weighed move s u _ e (
      ground (
        arith,
        at,
        point,
        count-middle poller_runs l r w,
        count-middle poller_runs l r w',
        length-middle l r w w',
      ))
Step-Weighs {s} {u} (by_scheduler (sends l r i m point at e)) h =
    let (_, less) = subst (IsAt (length s.pollers) (indices s.sent)) point h in
    weighed move s u _ e (
      ground (
        arith,
        at,
        point,
        less,
        count-middle reporter_runs l r receiving,
        count-middle reporter_runs l r (reporting (i, m)),
        count-middle is_busy l r receiving,
        count-middle is_busy l r (reporting (i, m)),
      ))
Step-Weighs {s} {u} (by_scheduler (all_scheduled point e)) h =
    weighed move s u _ e (ground (arith, point))
Step-Weighs (by_scheduler (ticks point e)) h = tt
Step-Weighs {s} {u} (by_scheduler (scheduler_stops cancel can e)) h =
    weighed move s u _ e (let more = stop_lt (length s.pollers) s.scheduler can in omega arith)
Step-Weighs {s} {u} (by_reporter (reports l r x outcome at e)) h = weighed move s u _ e (
    ground (
      arith,
      at,
      count-middle reporter_runs l r receiving,
      count-middle reporter_runs l r (reporting x),
      count-middle is_busy l r receiving,
      count-middle is_busy l r (reporting x),
    ))
Step-Weighs {s} {u} (by_reporter (reporter_stops l r at over e)) h = weighed move s u _ e (
    ground (
      arith,
      at,
      count-middle reporter_runs l r receiving,
      count-middle reporter_runs l r reporter_stopped,
      count-middle is_busy l r receiving,
      count-middle is_busy l r reporter_stopped,
    ))
