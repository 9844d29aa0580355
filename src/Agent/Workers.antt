-- ===== src/Agent/Workers.antt =====
-- internal/app/agent/agent.go and internal/app/agent/workers: the goroutines of the agent, their
-- context, the channel between them and their wait group. A step is what one goroutine does up to its
-- next `select`; any goroutine may step next. What a poll function reads comes in with the step.
pub mod Counting
pub mod FirstPoll
pub mod Conserved
pub mod Rounds
pub mod Weights
pub mod Shutdown
use go_advanced.Base.{
  ℕ, zero, suc, ◌+◌, ◌-◌, String, ◌≡◌, Bool, true, false, ◌||◌, Option, none, some, List, [], ◌∷◌,
  ◌++◌, length,
}
use go_advanced.Base.Int.{ℤ, pos, negsuc}
use go_advanced.Base.Exec.{returned}
use go_advanced.Entities.Errors.{Error, context}
use go_advanced.Agent.Poller.{Metrics, PollFunc, Poller, new_poller, poll, get}

-- where the goroutine of a poller stands: at its first `select`, in its loop, or returned
pub data PollerPoint : Type 0 where
  first_poll ticking poller_stopped : PollerPoint

pub record PollerWorker : Type 0 where
  pub point : PollerPoint
  pub poller : Poller

-- The scheduler waits for the first poll of the poller of that index, is about to schedule the poller
-- of that index, offers its metrics to the channel, waits for its ticker, or has returned.
pub data SchedulerPoint : Type 0 where
  waiting scheduling : ℕ → SchedulerPoint
  offering : ℕ → Metrics → SchedulerPoint
  resting scheduler_stopped : SchedulerPoint

-- a reporter or the flusher: at its `select`, with metrics in hand, or returned
pub data ReporterPoint : Type 0 where
  receiving reporter_stopped : ReporterPoint
  reporting : ℕ × Metrics → ReporterPoint

-- `sent` records the metrics that went through the channel, each with the index of its poller,
-- `reported` those whose report has succeeded, and `dropped` those whose report has failed, or that
-- the flusher has taken. `flushing` tells that the flusher runs in place of the reporters.
-- `wait_group` is the counter of the wait group.
pub record Workers : Type 0 where
  pub cancelled : Bool
  pub pollers : List PollerWorker
  pub scheduler : SchedulerPoint
  pub closed : Bool
  pub reporters : List ReporterPoint
  pub flushing : Bool
  pub wait_group : ℕ
  pub sent : List (ℕ × Metrics)
  pub reported : List (ℕ × Metrics)
  pub dropped : List (ℕ × Metrics)

-- `startPoll`
abbrev pub start_poll : Workers → Workers
start_poll s = record s {
  pollers = s.pollers ++ record { point = first_poll; poller = new_poller } ∷ [];
  wait_group = suc s.wait_group;
}

-- `StartScheduler`
abbrev pub start_scheduler : Workers → Workers
start_scheduler s = record s {
  scheduler = waiting 0;
  closed = false;
  wait_group = suc s.wait_group;
}

-- `Reporter.Start`
abbrev pub start_reporter : Workers → Workers
start_reporter s = record s { reporters = receiving ∷ s.reporters; wait_group = suc s.wait_group }

-- `Flusher.Start`; its goroutine takes the same steps
abbrev pub start_flusher : Workers → Workers
start_flusher s = record s {
  reporters = receiving ∷ s.reporters;
  flushing = true;
  wait_group = suc s.wait_group;
}

-- the loop of `StartReporters`
abbrev pub start_each : ℕ → Workers → Workers
start_each zero s = s
start_each (suc n) s = start_each n (start_reporter s)

-- `StartReporters` with a rate limit of one or more
abbrev pub start_pool : ℕ → Option Error → Workers → Option Error × Workers
start_pool n (none) s = (none, start_each n s)
start_pool n (some e) s = (some (context "rsaencoder" e), s)

-- `StartReporters`; `encoder` is what loading the key of the encoder gives, where there is one
unfoldable pub start_reporters : ℤ → Option Error → Workers → Option Error × Workers
start_reporters (pos (suc n)) encoder s = start_pool (suc n) encoder s
start_reporters (pos zero) encoder s = (none, start_flusher s)
start_reporters (negsuc n) encoder s = (none, start_flusher s)

abbrev pub nothing : Workers
nothing = record {
  cancelled = false;
  pollers = [];
  scheduler = scheduler_stopped;
  closed = true;
  reporters = [];
  flushing = false;
  wait_group = 0;
  sent = [];
  reported = [];
  dropped = [];
}

-- `startWorkers` up to its `wg.Wait()`
unfoldable pub start_workers : ℤ → Option Error → Option Error × Workers
unfolding start_reporters
start_workers rate_limit encoder =
    let s = start_scheduler (start_poll (start_poll nothing)) in
    let (e, s') = start_reporters rate_limit encoder s in
    elim e [ none ↦ (none, s') | some e ↦ (some (context "start reporters" e), s') ]

-- `Run`, once `startWorkers` has returned with that error, or with none after its `wg.Wait()`
abbrev pub run : Option Error → Bool
run (some e) = false
run none = true

-- The first `select` polls unless the context is done; the loop may choose either.
abbrev pub can_poll : Bool → PollerPoint → Bool
can_poll false first_poll = true
can_poll true first_poll = false
can_poll cancelled ticking = true
can_poll cancelled poller_stopped = false

abbrev pub is_running : PollerPoint → Bool
is_running poller_stopped = false
is_running _ = true

-- the points at which the scheduler selects on the context
abbrev pub can_stop : SchedulerPoint → Bool
can_stop (waiting i) = true
can_stop (offering i m) = true
can_stop resting = true
can_stop _ = false

abbrev pub ready_read : PollerWorker → Bool
ready_read w = w.poller.value.ready_read

-- A step of the goroutine of `startPoll`.
pub data PollerStep (s u : Workers) : Type 0 where
  poller_polls :
      (l r : List PollerWorker) (w : PollerWorker) (poll_func : PollFunc) (n : ℕ) (p : Poller)
      → s.pollers ≡ l ++ w ∷ r
      → can_poll s.cancelled w.point ≡ true
      → poll poll_func w.poller ≡ returned n p
      → u ≡ record s { pollers = l ++ record { point = ticking; poller = p } ∷ r }
      → PollerStep s u
  poller_stops :
      (l r : List PollerWorker) (w : PollerWorker)
      → s.pollers ≡ l ++ w ∷ r
      → s.cancelled ≡ true
      → is_running w.point ≡ true
      → u ≡ record s {
        pollers = l ++ record w { point = poller_stopped } ∷ r;
        wait_group = s.wait_group - 1;
      }
      → PollerStep s u

-- A step of the goroutine of `StartScheduler`.
pub data SchedulerStep (s u : Workers) : Type 0 where
  -- `<-pollerMetrics.ReadyRead()`
  first_poll_seen :
      (l r : List PollerWorker) (w : PollerWorker)
      → s.pollers ≡ l ++ w ∷ r
      → s.scheduler ≡ waiting (length l)
      → ready_read w ≡ true
      → u ≡ record s { scheduler = waiting (suc (length l)) }
      → SchedulerStep s u
  all_polled :
      s.scheduler ≡ waiting (length s.pollers)
      → u ≡ record s { scheduler = scheduling 0 }
      → SchedulerStep s u
  -- `poller.Get()`
  gets :
      (l r : List PollerWorker) (w : PollerWorker) (n : ℕ) (m : Metrics) (p : Poller)
      → s.pollers ≡ l ++ w ∷ r
      → s.scheduler ≡ scheduling (length l)
      → get w.poller ≡ returned (n, m) p
      → u
        ≡ record s { pollers = l ++ record w { poller = p } ∷ r; scheduler = offering (length l) m }
      → SchedulerStep s u
  -- the scheduler sends and a reporter receives; the step does not ask whether the channel is closed,
  -- where Go would panic
  sends :
      (l r : List ReporterPoint) (i : ℕ) (m : Metrics)
      → s.scheduler ≡ offering i m
      → s.reporters ≡ l ++ receiving ∷ r
      → u ≡ record s {
        scheduler = scheduling (suc i);
        reporters = l ++ reporting (i, m) ∷ r;
        sent = s.sent ++ (i, m) ∷ [];
      }
      → SchedulerStep s u
  all_scheduled :
      s.scheduler ≡ scheduling (length s.pollers)
      → u ≡ record s { scheduler = resting }
      → SchedulerStep s u
  ticks : s.scheduler ≡ resting → u ≡ record s { scheduler = scheduling 0 } → SchedulerStep s u
  scheduler_stops :
      s.cancelled ≡ true
      → can_stop s.scheduler ≡ true
      → u ≡ record s { scheduler = scheduler_stopped; closed = true; wait_group = s.wait_group - 1 }
      → SchedulerStep s u

-- what the outcome of `report` does to the two records; the flusher does not report
abbrev pub reported_by : Bool → Option Error → ℕ × Metrics → List (ℕ × Metrics) → List (ℕ × Metrics)
reported_by false none x l = x ∷ l
reported_by false (some e) x l = l
reported_by true outcome x l = l

abbrev pub dropped_by : Bool → Option Error → ℕ × Metrics → List (ℕ × Metrics) → List (ℕ × Metrics)
dropped_by false none x l = l
dropped_by false (some e) x l = x ∷ l
dropped_by true outcome x l = x ∷ l

-- A step of the goroutine of a reporter or of the flusher.
pub data ReporterStep (s u : Workers) : Type 0 where
  -- `report` returns: its error is logged, and the metrics are not sent again. The flusher
  -- logs them and drops them, whatever `outcome` is.
  reports :
      (l r : List ReporterPoint) (x : ℕ × Metrics) (outcome : Option Error)
      → s.reporters ≡ l ++ reporting x ∷ r
      → u ≡ record s {
        reporters = l ++ receiving ∷ r;
        reported = reported_by s.flushing outcome x s.reported;
        dropped = dropped_by s.flushing outcome x s.dropped;
      }
      → ReporterStep s u
  reporter_stops :
      (l r : List ReporterPoint)
      → s.reporters ≡ l ++ receiving ∷ r
      → (s.cancelled || s.closed) ≡ true
      → u ≡ record s { reporters = l ++ reporter_stopped ∷ r; wait_group = s.wait_group - 1 }
      → ReporterStep s u

-- One step of one goroutine.
pub data Step (s u : Workers) : Type 0 where
  -- the signal handler calls `cancel`
  interrupt : u ≡ record s { cancelled = true } → Step s u
  by_poller : PollerStep s u → Step s u
  by_scheduler : SchedulerStep s u → Step s u
  by_reporter : ReporterStep s u → Step s u

-- Some steps in a row.
pub data Reach (s : Workers) : Workers → Type 0 where
  here : Reach s s
  next : {t u : Workers} → Reach s t → Step t u → Reach s u
