-- ===== src/Agent/Workers/Shutdown.antt =====
-- The goroutines once the context is cancelled.
use native.Mathlib.Decide.{dec_lt}
use go_advanced.Base.{
  none, ℕ, zero, suc, ◌+◌, ◌≤◌, ◌<◌, ◌≡◌, refl, ap, ◌∙◌, subst, ◌⊎◌, inl, inr, true, false, Option,
  List, [], ◌∷◌, ◌++◌, length, arith, All,
}
use go_advanced.Base.Int.{ℤ}
use go_advanced.Base.Exec.{returned, unlocked}
use go_advanced.Base.Exec.Locks.{with_r_lock_free}
use go_advanced.Entities.Errors.{Error}
use go_advanced.GoMap.{copy}
use go_advanced.Agent.Poller.{Metrics, Poller, PollerState, get}
use go_advanced.Agent.Workers.{
  PollerWorker, SchedulerPoint, waiting, scheduling, offering, resting, scheduler_stopped,
  ReporterPoint, receiving, reporting, reporter_stopped, Workers, start_workers, Step, poller_polls,
  poller_stops, first_poll_seen, all_polled, gets, sends, all_scheduled, ticks, scheduler_stops,
  reports, reporter_stops, interrupt, by_poller, by_scheduler, by_reporter, Reach, next,
}
use go_advanced.Agent.Workers.FirstPoll.{Free, Reach-Ready}
use go_advanced.Agent.Workers.Rounds.{IsAt, IsOrdered, Reach-IsOrdered, indices}
use go_advanced.Base.Counts.{count-cases, All-middle}
use go_advanced.Agent.Workers.Counting.{
  poller_runs, reporter_runs, scheduler_runs, running, Reach-IsCounted,
}
use go_advanced.Agent.Workers.Weights.{
  move, kind, Run, stay, idles, moves, weight, Weighs, Step-Weighs,
}

split_at :
    (i : ℕ) (l : List PollerWorker)
    → i < length l
    → (a b : List PollerWorker) × (w : PollerWorker) × (l ≡ a ++ w ∷ b) × (length a ≡ i)
split_at i [] less = absurd (omega arith)
split_at zero (w ∷ l) less = ([], l, w, refl, refl)
split_at (suc i) (x ∷ l) less =
    let (a, b, w, e, n) = split_at i l (omega arith) in (x ∷ a, b, w, ap (λ t. x ∷ t) e, ap suc n)

-- a poller whose lock is free gives its metrics
get_free : (p : Poller) → p.mutex ≡ unlocked → (n : ℕ) × (m : Metrics) × (get p ≡ returned (n, m) p)
unfolding get
get_free p free =
    let snapshot : PollerState → ℕ × Metrics = λ d. (
      d.poll_count,
      record { gauge = copy [] d.metrics.gauge; counter = copy [] d.metrics.counter },
    ) in
    ((snapshot p.value).0, (snapshot p.value).1, with_r_lock_free p free snapshot)

kept : (u v : Workers) → u ≡ v → v.cancelled ≡ true → u.cancelled ≡ true
kept u v e cancel = ap (λ (w : Workers). w.cancelled) e ∙ cancel

Step-cancelled : {s u : Workers} → Step s u → s.cancelled ≡ true → u.cancelled ≡ true
Step-cancelled {s} {u} (interrupt e) cancel = kept u _ e refl
Step-cancelled {s} {u} (by_poller (poller_polls l r w f n p at can run e)) cancel =
    kept u _ e cancel
Step-cancelled {s} {u} (by_poller (poller_stops l r w at c run e)) cancel = kept u _ e cancel
Step-cancelled {s} {u} (by_scheduler (first_poll_seen l r w at point ready e)) cancel =
    kept u _ e cancel
Step-cancelled {s} {u} (by_scheduler (all_polled point e)) cancel = kept u _ e cancel
Step-cancelled {s} {u} (by_scheduler (gets l r w n m p at point run e)) cancel = kept u _ e cancel
Step-cancelled {s} {u} (by_scheduler (sends l r i m point at e)) cancel = kept u _ e cancel
Step-cancelled {s} {u} (by_scheduler (all_scheduled point e)) cancel = kept u _ e cancel
Step-cancelled {s} {u} (by_scheduler (ticks point e)) cancel = kept u _ e cancel
Step-cancelled {s} {u} (by_scheduler (scheduler_stops c can e)) cancel = kept u _ e cancel
Step-cancelled {s} {u} (by_reporter (reports l r x outcome at e)) cancel = kept u _ e cancel
Step-cancelled {s} {u} (by_reporter (reporter_stops l r at over e)) cancel = kept u _ e cancel

Run-cancelled :
    {s : Workers} {k : ℕ} {t : Workers} → Run s k t → s.cancelled ≡ true → t.cancelled ≡ true
Run-cancelled stay cancel = cancel
Run-cancelled (idles r step e) cancel = Step-cancelled step (Run-cancelled r cancel)
Run-cancelled (moves r step e) cancel = Step-cancelled step (Run-cancelled r cancel)

Reach-Run : {s t : Workers} {k : ℕ} {u : Workers} → Reach s t → Run t k u → Reach s u
Reach-Run r stay = r
Reach-Run r (idles run step e) = next (Reach-Run r run) step
Reach-Run r (moves run step e) = next (Reach-Run r run) step

-- A step that is a move.
abbrev pub Moves : Workers → Type 0
Moves t = (u : Workers) × (step : Step t u) × (kind step ≡ move)

move_scheduler :
    (k : SchedulerPoint) (s : Workers)
    → s.scheduler ≡ k
    → s.cancelled ≡ true
    → All Free s.pollers
    → IsAt (length s.pollers) (indices s.sent) k
    → (scheduler_runs k ≡ false) ⊎ Moves s
move_scheduler (waiting i) s point cancel free at =
    inr (_, by_scheduler (scheduler_stops cancel (rw point refl) refl), refl)
move_scheduler (offering i m) s point cancel free at =
    inr (_, by_scheduler (scheduler_stops cancel (rw point refl) refl), refl)
move_scheduler resting s point cancel free at =
    inr (_, by_scheduler (scheduler_stops cancel (rw point refl) refl), refl)
move_scheduler scheduler_stopped s point cancel free at = inl refl
move_scheduler (scheduling i) s point cancel free (k, e, most) =
    elim (dec_lt i (length s.pollers)) [
      | yes less ↦
          let (a, b, w, at, n) = split_at i s.pollers less in
          let (_, free_w, _) = All-middle Free a b w (subst (All Free) at free) in
          let (c, m, run) = get_free w.poller free_w in
          inr (_, by_scheduler (gets a b w c m w.poller at (rw n point) run refl), refl)
      | no over ↦
          let all : s.scheduler ≡ scheduling (length s.pollers) =
            point ∙ ap scheduling (omega arith) in
          inr (_, by_scheduler (all_scheduled all refl), refl)
    ]

move_reporter :
    (a b : List ReporterPoint) (p : ReporterPoint) (s : Workers)
    → s.reporters ≡ a ++ p ∷ b
    → reporter_runs p ≡ true
    → s.cancelled ≡ true
    → Moves s
move_reporter a b receiving s at run cancel =
    (_, by_reporter (reporter_stops a b at (rw cancel refl) refl), refl)
move_reporter a b (reporting x) s at run cancel =
    (_, by_reporter (reports a b x none at refl), refl)
move_reporter a b reporter_stopped s at run cancel = absurd cc

-- once the context is cancelled, a goroutine can move unless all have returned
goes_on :
    (s : Workers)
    → s.cancelled ≡ true
    → All Free s.pollers
    → IsOrdered s
    → (running s.pollers s.scheduler s.reporters ≡ 0) ⊎ Moves s
goes_on s cancel free ordered = elim (move_scheduler s.scheduler s refl cancel free ordered) [
  | inr step ↦ inr step
  | inl scheduler_done ↦ elim (count-cases poller_runs s.pollers) [
    | inr (a, b, w, at, run) ↦ inr (_, by_poller (poller_stops a b w at cancel run refl), refl)
    | inl pollers_done ↦ elim (count-cases reporter_runs s.reporters) [
      | inr (a, b, p, at, run) ↦ inr (move_reporter a b p s at run cancel)
      | inl reporters_done ↦ inl (ground (arith, scheduler_done, pollers_done, reporters_done))
    ]
  ]
]

Run-weight :
    (n : ℤ) (encoder : Option Error) {s : Workers} {k : ℕ} {t : Workers}
    → Reach (start_workers n encoder).1 s
    → Run s k t
    → k + weight t ≤ weight s
Run-weight n encoder r stay = omega arith
Run-weight n encoder {s = s} r (idles {t = t} {u = u} run step e) =
    let less = Run-weight n encoder r run in
    let same =
      subst (λ k. Weighs k (weight t) (weight u)) e
        (Step-Weighs step (Reach-IsOrdered n encoder (Reach-Run r run))) in
    omega arith
Run-weight n encoder {s = s} r (moves {t = t} {u = u} run step e) =
    let less = Run-weight n encoder r run in
    let falls =
      subst (λ k. Weighs k (weight t) (weight u)) e
        (Step-Weighs step (Reach-IsOrdered n encoder (Reach-Run r run))) in
    omega arith

-- From a state of the agent in which the context is cancelled, however the goroutines took turns
-- until then and take them from then on: before the next tick of the scheduler's ticker they make
-- no more moves than the `weight` of that state, and as long as not all have returned, with the
-- wait group at zero, one of them can move.
pub Reach-shutdown :
    (n : ℤ) (encoder : Option Error) (k : ℕ) {s t : Workers}
    → Reach (start_workers n encoder).1 s
    → s.cancelled ≡ true
    → Run s k t
    → (k ≤ weight s) × ((t.wait_group ≡ 0) ⊎ Moves t)
Reach-shutdown n encoder k {s} {t} r cancel run =
    let reached = Reach-Run r run in
    let less = Run-weight n encoder r run in
    let (_, free) = Reach-Ready n encoder reached in
    let counted = Reach-IsCounted n encoder reached in
    (
      omega arith,
      elim (goes_on t (Run-cancelled run cancel) free (Reach-IsOrdered n encoder reached)) [
        | inl stopped ↦ inl (counted.wait ∙ stopped)
        | inr step ↦ inr step
      ],
    )
