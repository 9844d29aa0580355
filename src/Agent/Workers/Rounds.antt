-- ===== src/Agent/Workers/Rounds.antt =====
-- The order in which the scheduler sends.
use mathlib.Core.List.{append_assoc, append-nil}
use go_advanced.Base.{
  ℕ, zero, suc, ◌≤◌, ◌<◌, ◌≡◌, refl, sym, ap, ◌∙◌, subst, true, Option, none, some, List, [], ◌∷◌,
  ◌++◌, map, length, length-append, arith,
}
use go_advanced.Base.Int.{ℤ, pos, negsuc}
use go_advanced.Entities.Errors.{Error}
use go_advanced.Agent.Poller.{Metrics}
use go_advanced.Agent.Workers.{
  PollerWorker, SchedulerPoint, waiting, scheduling, offering, resting, scheduler_stopped, Workers,
  start_workers, start_each, start_reporter, start_reporters, Step, interrupt, poller_polls,
  poller_stops, first_poll_seen, all_polled, gets, sends, all_scheduled, ticks, scheduler_stops,
  reports, reporter_stops, can_stop, by_poller, by_scheduler, by_reporter, Reach, here, next,
}

-- `0, 1, …, n - 1`
abbrev pub upto : ℕ → List ℕ
upto zero = []
upto (suc n) = upto n ++ n ∷ []

-- `k` rounds over `n` pollers
abbrev pub rounds : ℕ → ℕ → List ℕ
rounds n zero = []
rounds n (suc k) = rounds n k ++ upto n

-- some rounds, and the next one up to a poller
abbrev pub IsRounds : ℕ → List ℕ → ℕ → Type 0
IsRounds n sent i = (k : ℕ) × (sent ≡ rounds n k ++ upto i) × (i ≤ n)

abbrev pub IsAt : ℕ → List ℕ → SchedulerPoint → Type 0
IsAt n sent (waiting i) = (sent ≡ []) × (i ≤ n)
IsAt n sent (scheduling i) = IsRounds n sent i
IsAt n sent (offering i m) = IsRounds n sent i × (i < n)
IsAt n sent resting = IsRounds n sent 0
IsAt n sent scheduler_stopped = (i : ℕ) × IsRounds n sent i

abbrev pub indices : List (ℕ × Metrics) → List ℕ
indices = map λ x. x.0

-- The scheduler stands where what it has sent says.
abbrev pub IsOrdered : Workers → Type 0
IsOrdered s = IsAt (length s.pollers) (indices s.sent) s.scheduler

pub length-middle :
    (l r : List PollerWorker) (w w' : PollerWorker) → length (l ++ w ∷ r) ≡ length (l ++ w' ∷ r)
length-middle l r w w' = ground (arith, length-append l (w ∷ r), length-append l (w' ∷ r))

pub length_lt : (l r : List PollerWorker) (w : PollerWorker) → length l < length (l ++ w ∷ r)
length_lt l r w = ground (arith, length-append l (w ∷ r))

indices-append :
    (l : List (ℕ × Metrics)) (x : ℕ × Metrics) → indices (l ++ x ∷ []) ≡ indices l ++ x.0 ∷ []
indices-append [] x = refl
indices-append (y ∷ l) x = ap (λ t. y.0 ∷ t) (indices-append l x)

-- a poller steps
replaced :
    (l r : List PollerWorker) (w w' : PollerWorker) (s : Workers)
    → s.pollers ≡ l ++ w ∷ r
    → IsOrdered s
    → IsAt (length (l ++ w' ∷ r)) (indices s.sent) s.scheduler
replaced l r w w' s at h =
    subst (λ n. IsAt n (indices s.sent) s.scheduler) (ap length at ∙ length-middle l r w w') h

stopped :
    (n : ℕ) (sent : List ℕ) (k : SchedulerPoint)
    → can_stop k ≡ true
    → IsAt n sent k
    → IsAt n sent scheduler_stopped
stopped n sent (waiting i) can h = (0, (0, h.0, omega arith))
stopped n sent (scheduling i) can h = (i, h)
stopped n sent (offering i m) can h = (i, h.0)
stopped n sent resting can h = (0, h)
stopped n sent scheduler_stopped can h = h

sent_next :
    (n i : ℕ) (sent : List ℕ) → IsRounds n sent i → i < n → IsRounds n (sent ++ i ∷ []) (suc i)
sent_next n i sent (k, e, most) less =
    (k, ap (λ l. l ++ i ∷ []) e ∙ append_assoc (rounds n k) (upto i) (i ∷ []), omega arith)

round_over : (n : ℕ) (sent : List ℕ) → IsRounds n sent n → IsRounds n sent 0
round_over n sent (k, e, most) = (suc k, e ∙ sym (append-nil (rounds n k ++ upto n)), omega arith)

Step-IsOrdered : {s u : Workers} → Step s u → IsOrdered s → IsOrdered u
Step-IsOrdered {s} (interrupt e) h = subst IsOrdered (sym e) h
Step-IsOrdered {s} (by_poller (poller_polls l r w f n p at can run e)) h =
    subst IsOrdered (sym e) (replaced l r w _ s at h)
Step-IsOrdered {s} (by_poller (poller_stops l r w at cancel run e)) h =
    subst IsOrdered (sym e) (replaced l r w _ s at h)
Step-IsOrdered {s} (by_scheduler (first_poll_seen l r w at point ready e)) h =
    let (none_sent, _) = subst (IsAt (length s.pollers) (indices s.sent)) point h in
    subst IsOrdered (sym e) (none_sent, rw at (length_lt l r w))
Step-IsOrdered {s} (by_scheduler (all_polled point e)) h =
    let (none_sent, _) = subst (IsAt (length s.pollers) (indices s.sent)) point h in
    subst IsOrdered (sym e) (0, none_sent, omega arith)
Step-IsOrdered {s} (by_scheduler (gets l r w n m p at point run e)) h =
    let rounds_sent =
      subst (IsAt (length (l ++ record w { poller = p } ∷ r)) (indices s.sent)) point
        (replaced l r w _ s at h) in
    subst IsOrdered (sym e) (rounds_sent, length_lt l r (record w { poller = p }))
Step-IsOrdered {s} (by_scheduler (sends l r i m point at e)) h =
    let (rounds_sent, less) = subst (IsAt (length s.pollers) (indices s.sent)) point h in
    subst IsOrdered (sym e) (
      rw (indices-append s.sent (i, m))
        (sent_next (length s.pollers) i (indices s.sent) rounds_sent less))
Step-IsOrdered {s} (by_scheduler (all_scheduled point e)) h = subst IsOrdered (sym e) (
    round_over (length s.pollers) (indices s.sent)
      (subst (IsAt (length s.pollers) (indices s.sent)) point h))
Step-IsOrdered {s} (by_scheduler (ticks point e)) h =
    subst IsOrdered (sym e) (subst (IsAt (length s.pollers) (indices s.sent)) point h)
Step-IsOrdered {s} (by_scheduler (scheduler_stops cancel can e)) h =
    subst IsOrdered (sym e) (stopped (length s.pollers) (indices s.sent) s.scheduler can h)
Step-IsOrdered {s} (by_reporter (reports l r x outcome at e)) h = subst IsOrdered (sym e) h
Step-IsOrdered {s} (by_reporter (reporter_stops l r at over e)) h = subst IsOrdered (sym e) h

start_each-IsOrdered : (n : ℕ) (s : Workers) → IsOrdered s → IsOrdered (start_each n s)
start_each-IsOrdered zero s h = h
start_each-IsOrdered (suc n) s h = start_each-IsOrdered n (start_reporter s) h

start_workers-IsOrdered : (n : ℤ) (encoder : Option Error) → IsOrdered (start_workers n encoder).1
unfolding start_workers start_reporters
start_workers-IsOrdered (pos (suc n)) none = start_each-IsOrdered (suc n) _ (refl, omega arith)
start_workers-IsOrdered (pos (suc n)) (some e) = (refl, omega arith)
start_workers-IsOrdered (pos zero) encoder = (refl, omega arith)
start_workers-IsOrdered (negsuc n) encoder = (refl, omega arith)

pub Reach-IsOrdered :
    (n : ℤ) (encoder : Option Error) {s : Workers}
    → Reach (start_workers n encoder).1 s
    → IsOrdered s
Reach-IsOrdered n encoder here = start_workers-IsOrdered n encoder
Reach-IsOrdered n encoder (next r step) = Step-IsOrdered step (Reach-IsOrdered n encoder r)

any_point :
    (n : ℕ) (sent : List ℕ) (k : SchedulerPoint) → IsAt n sent k → (i : ℕ) × IsRounds n sent i
any_point n sent (waiting i) h = (0, (0, h.0, omega arith))
any_point n sent (scheduling i) h = (i, h)
any_point n sent (offering i m) h = (i, h.0)
any_point n sent resting h = (0, h)
any_point n sent scheduler_stopped h = h

-- However the goroutines of the agent take turns, what was sent came from the pollers in rounds, each
-- poller once in a round and in their order, the last round possibly unfinished.
pub Reach-IsRounds :
    (n : ℤ) (encoder : Option Error) {s : Workers}
    → Reach (start_workers n encoder).1 s
    → (i : ℕ) × IsRounds (length s.pollers) (indices s.sent) i
Reach-IsRounds n encoder {s} r =
    any_point (length s.pollers) (indices s.sent) s.scheduler (Reach-IsOrdered n encoder r)
