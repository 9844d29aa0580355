-- ===== src/Server/Run/Ending.antt =====
-- How `Run` ends.
use go_advanced.Base.{
  ℕ, ◌+◌, ◌≤◌, ◌<◌, ◌≡◌, refl, sym, ap, ◌∙◌, subst, ◌⊎◌, inl, inr, Bool, true, not, Option, none,
  some, arith,
}
use go_advanced.Base.Int.{ℤ}
use go_advanced.Server.Run.{
  StorageKind, Listener, listening, listener_stopped, Watchdog, watching, shutting_down,
  watchdog_stopped, Preserver, no_preserver, preserving, preserver_stopped, Server, count_of, start,
  Step, interrupt, by_listener, by_watchdog, by_net, listen_fails, listen_ends, shutdown_begins,
  shutdown_ends, shutdown_times_out, request_arrives, request_ends, preserver_stops, run_returns,
  Reach,
}
use go_advanced.Server.Run.Sound.{
  listeners, watchdogs, is_closed, Drained, Ended, IsSound, Reach-IsSound,
}

no_watchdog :
    (w : Watchdog) (n requests : ℕ) (t : Bool)
    → 0 ≡ n + watchdogs w
    → Drained w requests t
    → (requests ≡ 0) ⊎ (t ≡ true)
no_watchdog watching n requests t e h = absurd (omega arith)
no_watchdog shutting_down n requests t e h = absurd (omega arith)
no_watchdog watchdog_stopped n requests t e h = h

drained_by :
    (s : Server) (o : Option Bool)
    → IsSound s
    → Ended o s.storage_open s.success s.wait_group
    → (s.storage_open ≡ true) ⊎ ((s.requests ≡ 0) ⊎ (s.timed_out ≡ true))
drained_by s none h ended = inl ended
drained_by s (some b) h ended = inr (
    no_watchdog s.watchdog (listeners s.listener + count_of s.preserver) s.requests s.timed_out
      (omega (arith, h.wait, ended.1)) h.drained)

-- However the goroutines of the server take turns, the storage is open, or no request is being served,
-- or the five seconds that `Shutdown` gives the requests have passed.
pub Reach-storage_open :
    (store_interval : ℤ) (kind : StorageKind) {s : Server}
    → Reach (start store_interval kind) s
    → (s.storage_open ≡ true) ⊎ ((s.requests ≡ 0) ⊎ (s.timed_out ≡ true))
Reach-storage_open store_interval kind {s} r =
    let h = Reach-IsSound store_interval kind r in drained_by s s.returned h h.ended

abbrev pub watch_weight : Watchdog → ℕ
watch_weight watching = 2
watch_weight shutting_down = 1
watch_weight watchdog_stopped = 0

abbrev pub unreturned : Option Bool → ℕ
unreturned none = 1
unreturned (some b) = 0

-- the steps that are left until `Run` has returned
abbrev pub weight : Server → ℕ
weight s =
    listeners s.listener + watch_weight s.watchdog + (count_of s.preserver + unreturned s.returned)

weighed : (s u v : Server) → u ≡ v → weight v ≤ weight s → weight u ≤ weight s
weighed s u v e h = subst (λ w. weight w ≤ weight s) (sym e) h

Step-weight : {s u : Server} → Step s u → weight u ≤ weight s
Step-weight {s} {u} (interrupt e) = weighed s u _ e (omega arith)
Step-weight {s} {u} (by_listener (listen_fails at e)) = weighed s u _ e (ground (arith, at))
Step-weight {s} {u} (by_listener (listen_ends at closed e)) = weighed s u _ e (ground (arith, at))
Step-weight {s} {u} (by_watchdog (shutdown_begins at cancel e)) =
    weighed s u _ e (ground (arith, at))
Step-weight {s} {u} (by_watchdog (shutdown_ends at quiet e)) = weighed s u _ e (ground (arith, at))
Step-weight {s} {u} (by_watchdog (shutdown_times_out at e)) = weighed s u _ e (ground (arith, at))
Step-weight {s} {u} (by_net (request_arrives at open_still e)) = weighed s u _ e (omega arith)
Step-weight {s} {u} (by_net (request_ends n at e)) = weighed s u _ e (omega arith)
Step-weight {s} {u} (preserver_stops at cancel e) = weighed s u _ e (ground (arith, at))
Step-weight {s} {u} (run_returns done first e) = weighed s u _ e (ground (arith, first))

weight_le :
    (l : Listener) (w : Watchdog) (p : Preserver) (o : Option Bool)
    → listeners l + watch_weight w + (count_of p + unreturned o) ≤ 5
weight_le l w p o = ground arith

-- A step after which fewer are left.
abbrev pub Moves : Server → Type 0
Moves s = (u : Server) × Step s u × (weight u < weight s)

abbrev Returned : Server → Type 0
Returned s = s.returned ≡ some (not s.listen_failed)

returns :
    (o : Option Bool) (s : Server)
    → s.returned ≡ o
    → IsSound s
    → Ended o s.storage_open s.success s.wait_group
    → s.wait_group ≡ 0
    → Returned s ⊎ Moves s
returns none s at h ended zero_left = inr (_, run_returns zero_left at refl, ground (arith, at))
returns (some b) s at h ended zero_left = inl (at ∙ ap some (ended.0 ∙ h.success_law))

stop_listener :
    (l : Listener) (s : Server)
    → s.listener ≡ l
    → s.watchdog ≡ watchdog_stopped
    → count_of s.preserver ≡ 0
    → IsSound s
    → Returned s ⊎ Moves s
stop_listener listening s at stopped none_left h =
    inr (_, by_listener (listen_ends at (h.closed ∙ ap is_closed stopped) refl), ground (arith, at))
stop_listener listener_stopped s at stopped none_left h =
    returns s.returned s refl h h.ended (ground (arith, h.wait, at, stopped, none_left))

stop_watchdog :
    (w : Watchdog) (s : Server)
    → s.watchdog ≡ w
    → count_of s.preserver ≡ 0
    → s.cancelled ≡ true
    → IsSound s
    → Returned s ⊎ Moves s
stop_watchdog watching s at none_left cancel h =
    inr (_, by_watchdog (shutdown_begins at cancel refl), ground (arith, at))
stop_watchdog shutting_down s at none_left cancel h =
    inr (_, by_watchdog (shutdown_times_out at refl), ground (arith, at))
stop_watchdog watchdog_stopped s at none_left cancel h =
    stop_listener s.listener s refl at none_left h

stop_preserver :
    (p : Preserver) (s : Server)
    → s.preserver ≡ p
    → s.cancelled ≡ true
    → IsSound s
    → Returned s ⊎ Moves s
stop_preserver preserving s at cancel h =
    inr (_, preserver_stops at cancel refl, ground (arith, at))
stop_preserver no_preserver s at cancel h = stop_watchdog s.watchdog s refl (rw at refl) cancel h
stop_preserver preserver_stopped s at cancel h =
    stop_watchdog s.watchdog s refl (rw at refl) cancel h

-- a listener that has failed has cancelled the context
cancelled_by :
    (s : Server) → (s.cancelled ≡ true) ⊎ (s.listen_failed ≡ true) → IsSound s → s.cancelled ≡ true
cancelled_by s (inl cancel) h = cancel
cancelled_by s (inr failed) h = ground (arith, h.failed)

-- In every state of the server in which a signal has come or the listener has failed, at most five
-- steps are left, as `weight` counts them, no step adds to them, and either `Run` has returned,
-- with whether the listener has not failed, or a step is possible after which fewer are left.
pub Reach-ending :
    (store_interval : ℤ) (kind : StorageKind) {s : Server}
    → Reach (start store_interval kind) s
    → (s.cancelled ≡ true) ⊎ (s.listen_failed ≡ true)
    → (weight s ≤ 5)
      × ((u : Server) → Step s u → weight u ≤ weight s)
      × ((s.returned ≡ some (not s.listen_failed)) ⊎ Moves s)
Reach-ending store_interval kind {s} r ends =
    let h = Reach-IsSound store_interval kind r in
    (
      weight_le s.listener s.watchdog s.preserver s.returned,
      λ u step. Step-weight step,
      stop_preserver s.preserver s refl (cancelled_by s ends h) h,
    )
