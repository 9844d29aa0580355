-- ===== src/Agent/Workers/FirstPoll.antt =====
-- The scheduler and the first poll of each poller.
use go_advanced.Base.{
  ℕ, zero, suc, ◌≡◌, refl, sym, ap, ◌∙◌, subst, ◌⊎◌, inl, inr, true, Option, none, some, List, [],
  ◌∷◌, ◌++◌, All, length,
}
use go_advanced.Base.Int.{ℤ, pos, negsuc}
use go_advanced.Base.Exec.{returned, unlocked}
use go_advanced.Base.Exec.Locks.{with_lock_free, with_r_lock_free}
use go_advanced.Base.Word.{add_int64}
use go_advanced.Entities.Errors.{Error}
use go_advanced.GoMap.{copy}
use go_advanced.Agent.Poller.{Metrics, PollFunc, PollerState, Poller, new_poller, poll, get}
use go_advanced.Agent.Workers.{
  PollerWorker, poller_stopped, SchedulerPoint, waiting, scheduling, offering, resting,
  scheduler_stopped, Workers, ready_read, start_workers, start_each, start_reporters,
  start_reporter, Step, interrupt, poller_polls, poller_stops, first_poll_seen, all_polled, gets,
  sends, all_scheduled, ticks, scheduler_stops, reports, reporter_stops, by_poller, by_scheduler,
  by_reporter, Reach, here, next,
}
use go_advanced.Base.Counts.{All-middle, All-replace}

-- the lock of the poller is free between the steps
abbrev pub Free : PollerWorker → Type 0
Free w = w.poller.mutex ≡ unlocked

-- The poller has polled.
abbrev pub Ready : PollerWorker → Type 0
Ready w = ready_read w ≡ true

abbrev ReadyTo : ℕ → List PollerWorker → Type 0
ReadyTo zero l = Unit
ReadyTo (suc i) [] = Unit
ReadyTo (suc i) (w ∷ l) = Ready w × ReadyTo i l

abbrev Seen : SchedulerPoint → List PollerWorker → Type 0
Seen (waiting i) l = ReadyTo i l
Seen (scheduling i) l = All Ready l
Seen (offering i m) l = All Ready l
Seen resting l = All Ready l
Seen scheduler_stopped l = Unit

record IsPolled (s : Workers) : Type 0 where
  free : All Free s.pollers
  seen : Seen s.scheduler s.pollers
  all_before : (s.sent ≡ []) ⊎ All Ready s.pollers

poll-Ready :
    (f : PollFunc) (p p' : Poller) (n : ℕ)
    → p.mutex ≡ unlocked
    → poll f p ≡ returned n p'
    → (p'.mutex ≡ unlocked) × (p'.value.ready_read ≡ true)
unfolding poll
poll-Ready f p p' n free run =
    let polled : PollerState → PollerState × ℕ = λ d. (
      record { metrics = f d.metrics; ready_read = true; poll_count = add_int64 d.poll_count 1 },
      add_int64 d.poll_count 1,
    ) in
    let e = with_lock_free p free polled in
    let same : p' ≡ record p { value = (polled p.value).0 } = cc in
    (ap (λ (q : Poller). q.mutex) same ∙ free, ap (λ (q : Poller). q.value.ready_read) same)

get_same :
    (p p' : Poller) (n : ℕ) (m : Metrics) → p.mutex ≡ unlocked → get p ≡ returned (n, m) p' → p' ≡ p
unfolding get
get_same p p' n m free run =
    let snapshot : PollerState → ℕ × Metrics = λ d. (
      d.poll_count,
      record { gauge = copy [] d.metrics.gauge; counter = copy [] d.metrics.counter },
    ) in
    let e = with_r_lock_free p free snapshot in
    let both : returned (n, m) p' ≡ returned (snapshot p.value) p = sym run ∙ e in cc

-- the poller in the middle is ready if it was, and the others are as they were
ReadyTo-middle :
    (i : ℕ) (l r : List PollerWorker) (w w' : PollerWorker)
    → (Ready w → Ready w')
    → ReadyTo i (l ++ w ∷ r)
    → ReadyTo i (l ++ w' ∷ r)
ReadyTo-middle zero l r w w' f h = tt
ReadyTo-middle (suc i) [] r w w' f h = (f h.0, h.1)
ReadyTo-middle (suc i) (x ∷ l) r w w' f h = (h.0, ReadyTo-middle i l r w w' f h.1)

All-middle-Ready :
    (l r : List PollerWorker) (w w' : PollerWorker)
    → (Ready w → Ready w')
    → All Ready (l ++ w ∷ r)
    → All Ready (l ++ w' ∷ r)
All-middle-Ready l r w w' f h =
    let (a, b, c) = All-middle Ready l r w h in All-replace Ready l r w' (a, f b, c)

Seen-middle :
    (k : SchedulerPoint) (l r : List PollerWorker) (w w' : PollerWorker)
    → (Ready w → Ready w')
    → Seen k (l ++ w ∷ r)
    → Seen k (l ++ w' ∷ r)
Seen-middle (waiting i) l r w w' f h = ReadyTo-middle i l r w w' f h
Seen-middle (scheduling i) l r w w' f h = All-middle-Ready l r w w' f h
Seen-middle (offering i m) l r w w' f h = All-middle-Ready l r w w' f h
Seen-middle resting l r w w' f h = All-middle-Ready l r w w' f h
Seen-middle scheduler_stopped l r w w' f h = tt

ReadyTo-suc :
    (l r : List PollerWorker) (w : PollerWorker)
    → ReadyTo (length l) (l ++ w ∷ r)
    → Ready w
    → ReadyTo (suc (length l)) (l ++ w ∷ r)
ReadyTo-suc [] r w h ready = (ready, tt)
ReadyTo-suc (x ∷ l) r w h ready = (h.0, ReadyTo-suc l r w h.1 ready)

ReadyTo-All : (l : List PollerWorker) → ReadyTo (length l) l → All Ready l
ReadyTo-All [] h = tt
ReadyTo-All (x ∷ l) h = (h.0, ReadyTo-All l h.1)

-- one poller steps
polled :
    (l r : List PollerWorker) (w w' : PollerWorker) (s : Workers)
    → s.pollers ≡ l ++ w ∷ r
    → (Free w → Free w')
    → (Ready w → Ready w')
    → IsPolled s
    → IsPolled (record s { pollers = l ++ w' ∷ r })
polled l r w w' s at free ready h =
    let (a, b, c) = All-middle Free l r w (subst (All Free) at h.free) in
    record {
      free = All-replace Free l r w' (a, free b, c);
      seen = Seen-middle s.scheduler l r w w' ready (subst (Seen s.scheduler) at h.seen);
      all_before = elim h.all_before [
        | inl nothing ↦ inl nothing
        | inr all ↦ inr (All-middle-Ready l r w w' ready (subst (All Ready) at all))
      ];
    }

-- the scheduler steps
moved :
    (s : Workers) (k k' : SchedulerPoint)
    → s.scheduler ≡ k
    → (Seen k s.pollers → Seen k' s.pollers)
    → IsPolled s
    → IsPolled (record s { scheduler = k' })
moved s k k' at f h = record {
  free = h.free;
  seen = f (subst (λ k. Seen k s.pollers) at h.seen);
  all_before = h.all_before;
}

Free-of :
    (l r : List PollerWorker) (w : PollerWorker) (s : Workers)
    → s.pollers ≡ l ++ w ∷ r
    → IsPolled s
    → Free w
Free-of l r w s at h = let (_, b, _) = All-middle Free l r w (subst (All Free) at h.free) in b

Step-IsPolled : {s u : Workers} → Step s u → IsPolled s → IsPolled u
Step-IsPolled {s} (interrupt e) h =
    subst IsPolled (sym e) (record { free = h.free; seen = h.seen; all_before = h.all_before })
Step-IsPolled {s} (by_poller (poller_polls l r w f n p at can run e)) h =
    let (free, ready) = poll-Ready f w.poller p n (Free-of l r w s at h) run in
    subst IsPolled (sym e) (polled l r w _ s at (λ x. free) (λ x. ready) h)
Step-IsPolled {s} (by_poller (poller_stops l r w at cancel run e)) h =
    let same = polled l r w (record w { point = poller_stopped }) s at (λ x. x) (λ x. x) h in
    subst IsPolled (sym e)
      (record { free = same.free; seen = same.seen; all_before = same.all_before })
Step-IsPolled {s} (by_scheduler (first_poll_seen l r w at point ready e)) h =
    subst IsPolled (sym e) (
      moved s _ _ point
        (λ seen.
          subst (ReadyTo (suc (length l))) (sym at)
            (ReadyTo-suc l r w (subst (ReadyTo (length l)) at seen) ready))
        h)
Step-IsPolled {s} (by_scheduler (all_polled point e)) h =
    subst IsPolled (sym e) (moved s _ _ point (ReadyTo-All s.pollers) h)
Step-IsPolled {s} (by_scheduler (gets l r w n m p at point run e)) h =
    let same = get_same w.poller p n m (Free-of l r w s at h) run in
    let moved_on =
      polled l r w (record w { poller = p }) s at (λ x. ap (λ (q : Poller). q.mutex) same ∙ x)
        (λ x. ap (λ (q : Poller). q.value.ready_read) same ∙ x) h in
    subst IsPolled (sym e)
      (moved (record s { pollers = l ++ record w { poller = p } ∷ r }) _ _ point (λ x. x) moved_on)
Step-IsPolled {s} (by_scheduler (sends l r i m point at e)) h =
    let all : All Ready s.pollers = subst (λ k. Seen k s.pollers) point h.seen in
    subst IsPolled (sym e) (record { free = h.free; seen = all; all_before = inr all })
Step-IsPolled {s} (by_scheduler (all_scheduled point e)) h =
    subst IsPolled (sym e) (moved s _ _ point (λ x. x) h)
Step-IsPolled {s} (by_scheduler (ticks point e)) h =
    subst IsPolled (sym e) (moved s _ _ point (λ x. x) h)
Step-IsPolled {s} (by_scheduler (scheduler_stops cancel can e)) h =
    subst IsPolled (sym e) (record { free = h.free; seen = tt; all_before = h.all_before })
Step-IsPolled {s} (by_reporter (reports l r x outcome at e)) h =
    subst IsPolled (sym e) (record { free = h.free; seen = h.seen; all_before = h.all_before })
Step-IsPolled {s} (by_reporter (reporter_stops l r at over e)) h =
    subst IsPolled (sym e) (record { free = h.free; seen = h.seen; all_before = h.all_before })

start_each-IsPolled : (n : ℕ) (s : Workers) → IsPolled s → IsPolled (start_each n s)
start_each-IsPolled zero s h = h
start_each-IsPolled (suc n) s h =
    start_each-IsPolled n (start_reporter s)
      (record { free = h.free; seen = h.seen; all_before = h.all_before })

start_workers-IsPolled : (n : ℤ) (encoder : Option Error) → IsPolled (start_workers n encoder).1
unfolding start_workers start_reporters new_poller
start_workers-IsPolled (pos (suc n)) none =
    start_each-IsPolled (suc n) _
      (record { free = (refl, (refl, tt)); seen = tt; all_before = inl refl })
start_workers-IsPolled (pos (suc n)) (some e) = record {
  free = (refl, (refl, tt));
  seen = tt;
  all_before = inl refl;
}
start_workers-IsPolled (pos zero) encoder = record {
  free = (refl, (refl, tt));
  seen = tt;
  all_before = inl refl;
}
start_workers-IsPolled (negsuc n) encoder = record {
  free = (refl, (refl, tt));
  seen = tt;
  all_before = inl refl;
}

Reach-IsPolled :
    (n : ℤ) (encoder : Option Error) {s : Workers}
    → Reach (start_workers n encoder).1 s
    → IsPolled s
Reach-IsPolled n encoder here = start_workers-IsPolled n encoder
Reach-IsPolled n encoder (next r step) = Step-IsPolled step (Reach-IsPolled n encoder r)

-- However the goroutines of the agent take turns, no metrics are sent before every poller has polled,
-- and the lock of every poller is free between the steps.
pub Reach-Ready :
    (n : ℤ) (encoder : Option Error) {s : Workers}
    → Reach (start_workers n encoder).1 s
    → ((s.sent ≡ []) ⊎ All Ready s.pollers) × All Free s.pollers
Reach-Ready n encoder r = let h = Reach-IsPolled n encoder r in (h.all_before, h.free)
