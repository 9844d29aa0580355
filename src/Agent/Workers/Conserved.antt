-- ===== src/Agent/Workers/Conserved.antt =====
-- What happens to the metrics that are sent.
use mathlib.Core.List.{Perm, perm_middle, append-nil}
use mathlib.Core.List.Perm
use go_advanced.Base.{
  Bool, true, false, ℕ, zero, suc, ◌≡◌, refl, sym, ap, ◌∙◌, subst, Option, none, some, List, [],
  ◌∷◌, ◌++◌,
}
use go_advanced.Base.Int.{ℤ, pos, negsuc}
use go_advanced.Entities.Errors.{Error}
use go_advanced.Agent.Poller.{Metrics}
use go_advanced.Agent.Workers.{
  reported_by, dropped_by, ReporterPoint, receiving, reporting, reporter_stopped, Workers,
  start_workers, start_each, start_reporter, start_reporters, Step, interrupt, poller_polls,
  poller_stops, first_poll_seen, all_polled, gets, sends, all_scheduled, ticks, scheduler_stops,
  reports, reporter_stops, by_poller, by_scheduler, by_reporter, Reach, here, next,
}

-- the metrics that the reporters have in hand
pub in_hand : List ReporterPoint → List (ℕ × Metrics)
in_hand [] = []
in_hand (reporting x ∷ l) = x ∷ in_hand l
in_hand (receiving ∷ l) = in_hand l
in_hand (reporter_stopped ∷ l) = in_hand l

-- a goroutine without metrics in hand does not count
in_hand-skip :
    (l r : List ReporterPoint) (p p' : ReporterPoint)
    → in_hand (p ∷ []) ≡ []
    → in_hand (p' ∷ []) ≡ []
    → in_hand (l ++ p ∷ r) ≡ in_hand (l ++ p' ∷ r)
unfolding in_hand
in_hand-skip [] r receiving receiving e e' = refl
in_hand-skip [] r receiving reporter_stopped e e' = refl
in_hand-skip [] r reporter_stopped receiving e e' = refl
in_hand-skip [] r reporter_stopped reporter_stopped e e' = refl
in_hand-skip [] r (reporting x) p' e e' = absurd cc
in_hand-skip [] r receiving (reporting x) e e' = absurd cc
in_hand-skip [] r reporter_stopped (reporting x) e e' = absurd cc
in_hand-skip (reporting x ∷ l) r p p' e e' = ap (λ t. x ∷ t) (in_hand-skip l r p p' e e')
in_hand-skip (receiving ∷ l) r p p' e e' = in_hand-skip l r p p' e e'
in_hand-skip (reporter_stopped ∷ l) r p p' e e' = in_hand-skip l r p p' e e'

in_hand-Perm :
    (l r : List ReporterPoint) (x : ℕ × Metrics)
    → Perm (in_hand (l ++ reporting x ∷ r)) (x ∷ in_hand (l ++ receiving ∷ r))
unfolding in_hand
in_hand-Perm [] r x = Perm.refl _
in_hand-Perm (reporting y ∷ l) r x = Perm.trans (Perm.cons y (in_hand-Perm l r x)) (Perm.swap x y _)
in_hand-Perm (receiving ∷ l) r x = in_hand-Perm l r x
in_hand-Perm (reporter_stopped ∷ l) r x = in_hand-Perm l r x

-- What was sent has been reported, or dropped, or is in the hands of a reporter, each once.
abbrev pub IsConserved : Workers → Type 0
IsConserved s = Perm s.sent ((s.reported ++ s.dropped) ++ in_hand s.reporters)

-- a report that returns adds its metrics to one of the two records
outcome-Perm :
    (flushing : Bool) (outcome : Option Error) (x : ℕ × Metrics)
    (reported dropped : List (ℕ × Metrics))
    → Perm
        (x ∷ reported ++ dropped)
        (reported_by flushing outcome x reported ++ dropped_by flushing outcome x dropped)
outcome-Perm false none x reported dropped = Perm.refl _
outcome-Perm false (some e) x reported dropped = Perm.symm (perm_middle reported dropped)
outcome-Perm true outcome x reported dropped = Perm.symm (perm_middle reported dropped)

sent-Perm :
    {A : Type 0} (sent reported hand hand' : List A) (x : A)
    → Perm sent (reported ++ hand)
    → Perm hand' (x ∷ hand)
    → Perm (sent ++ x ∷ []) (reported ++ hand')
sent-Perm sent reported hand hand' x h more = Perm.trans (perm_middle sent []) (
    Perm.trans
      (Perm.cons x
        (Perm.trans (subst (λ l. Perm l sent) (sym (append-nil sent)) (Perm.refl sent)) h))
      (Perm.trans (Perm.symm (perm_middle reported hand))
        (Perm.append_left reported (Perm.symm more))))

reported-Perm :
    {A : Type 0} (sent reported hand hand' : List A) (x : A)
    → Perm sent (reported ++ hand)
    → Perm hand (x ∷ hand')
    → Perm sent (x ∷ reported ++ hand')
reported-Perm sent reported hand hand' x h less =
    Perm.trans h (Perm.trans (Perm.append_left reported less) (perm_middle reported hand'))

Step-IsConserved : {s u : Workers} → Step s u → IsConserved s → IsConserved u
unfolding in_hand
Step-IsConserved {s} (interrupt e) h = subst IsConserved (sym e) h
Step-IsConserved {s} (by_poller (poller_polls l r w f n p at can run e)) h =
    subst IsConserved (sym e) h
Step-IsConserved {s} (by_poller (poller_stops l r w at cancel run e)) h =
    subst IsConserved (sym e) h
Step-IsConserved {s} (by_scheduler (first_poll_seen l r w at point ready e)) h =
    subst IsConserved (sym e) h
Step-IsConserved {s} (by_scheduler (all_polled point e)) h = subst IsConserved (sym e) h
Step-IsConserved {s} (by_scheduler (gets l r w n m p at point run e)) h =
    subst IsConserved (sym e) h
Step-IsConserved {s} (by_scheduler (sends l r i m point at e)) h = subst IsConserved (sym e) (
    sent-Perm s.sent (s.reported ++ s.dropped) (in_hand (l ++ receiving ∷ r)) _ (i, m)
      (subst (λ p. Perm s.sent ((s.reported ++ s.dropped) ++ in_hand p)) at h)
      (in_hand-Perm l r (i, m)))
Step-IsConserved {s} (by_scheduler (all_scheduled point e)) h = subst IsConserved (sym e) h
Step-IsConserved {s} (by_scheduler (ticks point e)) h = subst IsConserved (sym e) h
Step-IsConserved {s} (by_scheduler (scheduler_stops cancel can e)) h = subst IsConserved (sym e) h
Step-IsConserved {s} (by_reporter (reports l r x outcome at e)) h = subst IsConserved (sym e) (
    Perm.trans
      (reported-Perm s.sent (s.reported ++ s.dropped) (in_hand (l ++ reporting x ∷ r)) _ x
        (subst (λ p. Perm s.sent ((s.reported ++ s.dropped) ++ in_hand p)) at h)
        (in_hand-Perm l r x))
      (Perm.append_right (in_hand (l ++ receiving ∷ r))
        (outcome-Perm s.flushing outcome x s.reported s.dropped)))
Step-IsConserved {s} (by_reporter (reporter_stops l r at over e)) h = subst IsConserved (sym e) (
    subst (λ k. Perm s.sent ((s.reported ++ s.dropped) ++ k))
      (ap in_hand at ∙ in_hand-skip l r receiving reporter_stopped refl refl) h)

start_each-IsConserved : (n : ℕ) (s : Workers) → IsConserved s → IsConserved (start_each n s)
unfolding in_hand
start_each-IsConserved zero s h = h
start_each-IsConserved (suc n) s h = start_each-IsConserved n (start_reporter s) h

start_workers-IsConserved :
    (n : ℤ) (encoder : Option Error) → IsConserved (start_workers n encoder).1
unfolding start_workers start_reporters in_hand
start_workers-IsConserved (pos (suc n)) none = start_each-IsConserved (suc n) _ Perm.nil
start_workers-IsConserved (pos (suc n)) (some e) = Perm.nil
start_workers-IsConserved (pos zero) encoder = Perm.nil
start_workers-IsConserved (negsuc n) encoder = Perm.nil

-- However the goroutines of the agent take turns, what was sent through the channel is, up to the
-- order and each as often as it was sent, what a report has delivered, what a failed report or the
-- flusher has dropped, and what the reporters have in hand.
pub Reach-IsConserved :
    (n : ℤ) (encoder : Option Error) {s : Workers}
    → Reach (start_workers n encoder).1 s
    → IsConserved s
Reach-IsConserved n encoder here = start_workers-IsConserved n encoder
Reach-IsConserved n encoder (next r step) = Step-IsConserved step (Reach-IsConserved n encoder r)
