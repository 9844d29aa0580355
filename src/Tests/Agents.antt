-- ===== src/Tests/Agents.antt =====
-- The workers of the agent, on a schedule in which each poller polls and the first metrics are sent.
use go_advanced.Base.{◌≡◌, refl, ◌⊎◌, ℕ, true, none, [], ◌∷◌, ◌≤◌, All, length}
use go_advanced.Base.Exec.{returned, with_lock, with_r_lock}
use go_advanced.Base.Int.{pos}
use go_advanced.Base.Word.{add_int64}
use go_advanced.GoMap.{insert, copy}
use go_advanced.Agent.Poller.{PollFunc, Metrics, Poller, new_poller, poll, get}
use go_advanced.Agent.Workers.{
  Workers, PollerWorker, first_poll, poller_stopped, poller_stops, reports, by_reporter, ticking,
  reporting, scheduling, receiving, start_workers, start_reporters, by_poller, by_scheduler, Reach,
  here, next, interrupt, poller_polls, first_poll_seen, all_polled, gets, sends,
}
use go_advanced.Agent.Workers.Counting.{IsCounted, Reach-IsCounted}
use go_advanced.Agent.Workers.FirstPoll.{Ready, Free, Reach-Ready}
use go_advanced.Agent.Workers.Conserved.{IsConserved, Reach-IsConserved}
use go_advanced.Agent.Workers.Rounds.{IsRounds, indices, Reach-IsRounds}
use go_advanced.Agent.Workers.Weights.{Run, stay, moves, weight}
use go_advanced.Agent.Workers.Shutdown.{Moves, Reach-shutdown}

-- a gauge at 7
abbrev polled_metrics : Metrics
polled_metrics = record { gauge = ("g", 7) ∷ []; counter = [] }

abbrev poll_func : PollFunc
poll_func m = polled_metrics

abbrev ready_poller : Poller
unfolding new_poller
ready_poller = record new_poller {
  value = record { metrics = polled_metrics; ready_read = true; poll_count = 1 };
}

abbrev ready : PollerWorker
ready = record { point = ticking; poller = ready_poller }

abbrev fresh : PollerWorker
fresh = record { point = first_poll; poller = new_poller }

abbrev started : Workers
started = (start_workers (pos 1) none).1

abbrev both_ready : Workers
both_ready = record started { pollers = ready ∷ ready ∷ [] }

abbrev one_sent : Workers
one_sent = record both_ready {
  scheduler = scheduling 1;
  reporters = reporting (0, polled_metrics) ∷ [];
  sent = (0, polled_metrics) ∷ [];
  cancelled = true;
}

poll_fresh : poll poll_func new_poller ≡ returned 1 ready_poller
unfolding poll new_poller with_lock add_int64
poll_fresh = refl

get_ready : get ready_poller ≡ returned (1, polled_metrics) ready_poller
unfolding get new_poller with_r_lock copy insert
get_ready = refl

polls_run : Reach started both_ready
unfolding start_workers start_reporters new_poller
polls_run =
    next
      (next here (
        by_poller
          (poller_polls [] (fresh ∷ []) fresh poll_func 1 ready_poller refl refl poll_fresh refl)))
      (by_poller
        (poller_polls (ready ∷ []) [] fresh poll_func 1 ready_poller refl refl poll_fresh refl))

sends_run : Reach started one_sent
unfolding start_workers start_reporters new_poller
sends_run =
    next
      (next
        (next
          (next
            (next
              (next polls_run
                (by_scheduler (first_poll_seen [] (ready ∷ []) ready refl refl refl refl)))
              (by_scheduler (first_poll_seen (ready ∷ []) [] ready refl refl refl refl)))
            (by_scheduler (all_polled refl refl)))
          (by_scheduler
            (gets [] (ready ∷ []) ready 1 polled_metrics ready_poller refl refl get_ready refl)))
        (by_scheduler (sends [] [] 0 polled_metrics refl refl refl)))
      (interrupt refl)

Reach-IsCounted_example : IsCounted one_sent
Reach-IsCounted_example = Reach-IsCounted (pos 1) none sends_run

Reach-Ready_example :
    ((one_sent.sent ≡ []) ⊎ All Ready one_sent.pollers) × All Free one_sent.pollers
Reach-Ready_example = Reach-Ready (pos 1) none sends_run

Reach-IsConserved_example : IsConserved one_sent
Reach-IsConserved_example = Reach-IsConserved (pos 1) none sends_run

Reach-IsRounds_example : (i : ℕ) × IsRounds (length one_sent.pollers) (indices one_sent.sent) i
Reach-IsRounds_example = Reach-IsRounds (pos 1) none sends_run

-- the reporter reports, and the pollers and the scheduler stop
abbrev two_moves : Workers
two_moves = record one_sent {
  reporters = receiving ∷ [];
  reported = (0, polled_metrics) ∷ [];
  pollers = record ready { point = poller_stopped } ∷ ready ∷ [];
  wait_group = 3;
}

quiet-Run : Run one_sent 2 two_moves
unfolding start_workers start_reporters new_poller
quiet-Run =
    moves (moves stay (by_reporter (reports [] [] (0, polled_metrics) none refl refl)) refl)
      (by_poller (poller_stops [] (ready ∷ []) ready refl refl refl refl)) refl

Reach-shutdown_example : (2 ≤ weight one_sent) × ((two_moves.wait_group ≡ 0) ⊎ Moves two_moves)
Reach-shutdown_example = Reach-shutdown (pos 1) none 2 sends_run refl quiet-Run
