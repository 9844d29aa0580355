-- ===== src/Agent/Workers/Counting.antt =====
-- The wait group and the closing of the channel.
use go_advanced.Base.{
  ℕ, zero, suc, ◌+◌, ◌≡◌, refl, sym, subst, Bool, true, false, ◌&&◌, ◌||◌, not, Option, none, some,
  List, [], ◌∷◌, ◌++◌, arith, All, if◌then◌else◌,
}
use go_advanced.Base.Int.{ℤ, pos, negsuc}
use go_advanced.Entities.Errors.{Error}
use go_advanced.Agent.Workers.{
  PollerWorker, PollerPoint, first_poll, poller_stopped, ticking, SchedulerPoint, waiting,
  scheduling, offering, resting, scheduler_stopped, ReporterPoint, receiving, reporting,
  reporter_stopped, Workers, is_running, start_workers, start_each, start_reporter, start_reporters,
  Step, interrupt, poller_polls, poller_stops, first_poll_seen, all_polled, gets, sends,
  all_scheduled, ticks, scheduler_stops, reports, reporter_stops, can_stop, can_poll, by_poller,
  by_scheduler, by_reporter, Reach, here, next,
}
use go_advanced.Agent.Poller.{Metrics}
use go_advanced.Base.Counts.{count, count-middle, All-middle, All-replace, All-mono}

abbrev pub poller_runs : PollerWorker → Bool
poller_runs w = is_running w.point

abbrev pub scheduler_runs : SchedulerPoint → Bool
scheduler_runs scheduler_stopped = false
scheduler_runs _ = true

abbrev pub reporter_runs : ReporterPoint → Bool
reporter_runs reporter_stopped = false
reporter_runs _ = true

-- the number of the goroutines that have not returned
abbrev pub running : List PollerWorker → SchedulerPoint → List ReporterPoint → ℕ
running pollers scheduler reporters =
    count poller_runs pollers
    + (if scheduler_runs scheduler then 1 else 0)
    + count reporter_runs reporters

-- The wait group counts the goroutines that have not returned, the channel is closed as soon as the
-- scheduler has returned and not before, and the channel is not closed, and no reporter has
-- returned, before the context is cancelled.
pub record IsCounted (s : Workers) : Type 0 where
  pub wait : s.wait_group ≡ running s.pollers s.scheduler s.reporters
  pub closes : s.closed ≡ not (scheduler_runs s.scheduler)
  pub after_cancel : s.closed && not s.cancelled ≡ false
  pub stops_after_cancel : All (λ r. not (reporter_runs r) && not s.cancelled ≡ false) s.reporters

-- the reporters that have returned did so once the context was cancelled
abbrev Stopped : Bool → ReporterPoint → Type 0
Stopped cancelled r = not (reporter_runs r) && not cancelled ≡ false

after_all : (b : Bool) → b && not true ≡ false
after_all true = refl
after_all false = refl

-- the scheduler steps from one point to another
moved :
    (s : Workers) (point : SchedulerPoint)
    → scheduler_runs s.scheduler ≡ true
    → scheduler_runs point ≡ true
    → IsCounted s
    → IsCounted (record s { scheduler = point })
moved s point before after h = record {
  wait = ground (arith, h.wait, before, after);
  closes = ground (arith, h.closes, before, after);
  after_cancel = h.after_cancel;
  stops_after_cancel = h.stops_after_cancel;
}

-- a poller steps, and runs on
polled :
    (l r : List PollerWorker) (w w' : PollerWorker) (s : Workers)
    → s.pollers ≡ l ++ w ∷ r
    → poller_runs w ≡ poller_runs w'
    → IsCounted s
    → IsCounted (record s { pollers = l ++ w' ∷ r })
polled l r w w' s at same h = record {
  wait =
      ground
        (arith, h.wait, at, same, count-middle poller_runs l r w, count-middle poller_runs l r w');
  closes = h.closes;
  after_cancel = h.after_cancel;
  stops_after_cancel = h.stops_after_cancel;
}

-- a reporter steps, and runs on
reported_on :
    (l r : List ReporterPoint) (x x' : ReporterPoint) (s : Workers)
    (sent reported dropped : List (ℕ × Metrics))
    → s.reporters ≡ l ++ x ∷ r
    → reporter_runs x ≡ true
    → reporter_runs x' ≡ true
    → IsCounted s
    → IsCounted
        (record s { reporters = l ++ x' ∷ r; sent = sent; reported = reported; dropped = dropped })
reported_on l r x x' s sent reported dropped at before after h =
    let (hl, hx, hr) =
      All-middle (Stopped s.cancelled) l r x
        (subst (All (Stopped s.cancelled)) at h.stops_after_cancel) in
    record {
      wait = ground (
        arith,
        h.wait,
        at,
        before,
        after,
        count-middle reporter_runs l r x,
        count-middle reporter_runs l r x',
      );
      closes = h.closes;
      after_cancel = h.after_cancel;
      stops_after_cancel = All-replace (Stopped s.cancelled) l r x' (hl, rw after refl, hr);
    }

pub can_poll-runs : (c : Bool) (p : PollerPoint) → can_poll c p ≡ true → is_running p ≡ true
can_poll-runs c first_poll can = refl
can_poll-runs c ticking can = refl
can_poll-runs true poller_stopped can = absurd cc
can_poll-runs false poller_stopped can = absurd cc

can_stop-runs : (p : SchedulerPoint) → can_stop p ≡ true → scheduler_runs p ≡ true
can_stop-runs (waiting i) can = refl
can_stop-runs (scheduling i) can = absurd cc
can_stop-runs (offering i m) can = refl
can_stop-runs resting can = refl
can_stop-runs scheduler_stopped can = absurd cc

ended :
    (cancelled closed : Bool)
    → closed && not cancelled ≡ false
    → cancelled || closed ≡ true
    → not cancelled ≡ false
ended true closed h e = refl
ended false true h e = h
ended false false h e = absurd cc

-- Every step keeps the counts.
pub Step-IsCounted : {s u : Workers} → Step s u → IsCounted s → IsCounted u
Step-IsCounted {s} (interrupt e) h = subst IsCounted (sym e) (record {
  wait = h.wait;
  closes = h.closes;
  after_cancel = after_all s.closed;
  stops_after_cancel =
      All-mono (Stopped s.cancelled) (Stopped true) s.reporters
        (λ r x. after_all (not (reporter_runs r))) h.stops_after_cancel;
})
Step-IsCounted {s} (by_poller (poller_polls l r w f n p at can run e)) h =
    subst IsCounted (sym e) (polled l r w _ s at (can_poll-runs s.cancelled w.point can) h)
Step-IsCounted {s} (by_poller (poller_stops l r w at cancel run e)) h =
    subst IsCounted (sym e) (record {
      wait = ground (
        arith,
        at,
        run,
        h.wait,
        count-middle poller_runs l r w,
        count-middle poller_runs l r (record w { point = poller_stopped }),
      );
      closes = h.closes;
      after_cancel = h.after_cancel;
      stops_after_cancel = h.stops_after_cancel;
    })
Step-IsCounted {s} (by_scheduler (first_poll_seen l r w at point ready e)) h =
    subst IsCounted (sym e) (moved s _ (rw point refl) refl h)
Step-IsCounted {s} (by_scheduler (all_polled point e)) h =
    subst IsCounted (sym e) (moved s _ (rw point refl) refl h)
Step-IsCounted {s} (by_scheduler (gets l r w n m p at point run e)) h = subst IsCounted (sym e) (
    moved (record s { pollers = l ++ record w { poller = p } ∷ r }) _ (rw point refl) refl
      (polled l r w (record w { poller = p }) s at refl h))
Step-IsCounted {s} (by_scheduler (sends l r i m point at e)) h = subst IsCounted (sym e) (
    moved (record s { reporters = l ++ reporting (i, m) ∷ r; sent = s.sent ++ (i, m) ∷ [] }) _
      (rw point refl) refl
      (reported_on l r receiving (reporting (i, m)) s _ s.reported s.dropped at refl refl h))
Step-IsCounted {s} (by_scheduler (all_scheduled point e)) h =
    subst IsCounted (sym e) (moved s _ (rw point refl) refl h)
Step-IsCounted {s} (by_scheduler (ticks point e)) h =
    subst IsCounted (sym e) (moved s _ (rw point refl) refl h)
Step-IsCounted {s} (by_scheduler (scheduler_stops cancel can e)) h =
    subst IsCounted (sym e) (record {
      wait = ground (arith, h.wait, can_stop-runs s.scheduler can);
      closes = refl;
      after_cancel = ground (arith, cancel);
      stops_after_cancel = h.stops_after_cancel;
    })
Step-IsCounted {s} (by_reporter (reports l r x outcome at e)) h =
    subst IsCounted (sym e) (reported_on l r (reporting x) receiving s s.sent _ _ at refl refl h)
Step-IsCounted {s} (by_reporter (reporter_stops l r at over e)) h =
    let (hl, hx, hr) =
      All-middle (Stopped s.cancelled) l r receiving
        (subst (All (Stopped s.cancelled)) at h.stops_after_cancel) in
    subst IsCounted (sym e) (record {
      wait = ground (
        arith,
        h.wait,
        at,
        count-middle reporter_runs l r receiving,
        count-middle reporter_runs l r reporter_stopped,
      );
      closes = h.closes;
      after_cancel = h.after_cancel;
      stops_after_cancel =
          All-replace (Stopped s.cancelled) l r reporter_stopped
            (hl, ended s.cancelled s.closed h.after_cancel over, hr);
    })

start_each-IsCounted : (n : ℕ) (s : Workers) → IsCounted s → IsCounted (start_each n s)
unfolding count
start_each-IsCounted zero s h = h
start_each-IsCounted (suc n) s h = start_each-IsCounted n (start_reporter s) (record {
  wait = ground (arith, h.wait);
  closes = h.closes;
  after_cancel = h.after_cancel;
  stops_after_cancel = (refl, h.stops_after_cancel);
})

-- whether or not the reporters could be started
start_workers-IsCounted : (n : ℤ) (encoder : Option Error) → IsCounted (start_workers n encoder).1
unfolding start_workers start_reporters count
start_workers-IsCounted (pos (suc n)) none =
    start_each-IsCounted (suc n) _
      (record { wait = refl; closes = refl; after_cancel = refl; stops_after_cancel = tt })
start_workers-IsCounted (pos (suc n)) (some e) = record {
  wait = refl;
  closes = refl;
  after_cancel = refl;
  stops_after_cancel = tt;
}
start_workers-IsCounted (pos zero) encoder = record {
  wait = refl;
  closes = refl;
  after_cancel = refl;
  stops_after_cancel = (refl, tt);
}
start_workers-IsCounted (negsuc n) encoder = record {
  wait = refl;
  closes = refl;
  after_cancel = refl;
  stops_after_cancel = (refl, tt);
}

-- However the goroutines of the agent take turns, the wait group counts those that have not returned,
-- the channel is closed as soon as the scheduler has returned and not before, and the channel is not
-- closed, and no reporter has returned, before the context is cancelled.
pub Reach-IsCounted :
    (n : ℤ) (encoder : Option Error) {s : Workers}
    → Reach (start_workers n encoder).1 s
    → IsCounted s
Reach-IsCounted n encoder here = start_workers-IsCounted n encoder
Reach-IsCounted n encoder (next r step) = Step-IsCounted step (Reach-IsCounted n encoder r)
