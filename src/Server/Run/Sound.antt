-- ===== src/Server/Run/Sound.antt =====
-- What holds of the server in all its states.
use go_advanced.Base.{
  ℕ, suc, ◌+◌, ◌<◌, ◌≡◌, refl, sym, subst, ◌⊎◌, inl, inr, Bool, true, false, not, Option, none,
  some, arith,
}
use go_advanced.Base.Int.{ℤ}
use go_advanced.Server.Run.{
  StorageKind, Listener, listening, listener_stopped, Watchdog, watching, shutting_down,
  watchdog_stopped, Server, count_of, start, Step, interrupt, by_listener, by_watchdog, by_net,
  listen_fails, listen_ends, shutdown_begins, shutdown_ends, shutdown_times_out, request_arrives,
  request_ends, preserver_stops, run_returns, Reach, here, next,
}

abbrev pub listeners : Listener → ℕ
listeners listening = 1
listeners listener_stopped = 0

abbrev pub watchdogs : Watchdog → ℕ
watchdogs watchdog_stopped = 0
watchdogs _ = 1

abbrev pub is_closed : Watchdog → Bool
is_closed watching = false
is_closed _ = true

-- the watchdog has let the requests end, or has given up
abbrev pub Drained : Watchdog → ℕ → Bool → Type 0
Drained watchdog_stopped requests timed_out = (requests ≡ 0) ⊎ (timed_out ≡ true)
Drained _ requests timed_out = Unit

-- the storage is open until `Run` returns, which it does with `success` after the last goroutine
abbrev pub Ended : Option Bool → Bool → Bool → ℕ → Type 0
Ended none storage_open success wait_group = storage_open ≡ true
Ended (some b) storage_open success wait_group = (b ≡ success) × (wait_group ≡ 0)

-- The wait group counts the goroutines that have not returned, the server is closed as soon as the
-- watchdog has left its wait, `success` says that the listener has not failed, a listener
-- that fails cancels the context, and the ends are as `Drained` and `Ended` say.
pub record IsSound (s : Server) : Type 0 where
  pub wait : s.wait_group ≡ listeners s.listener + watchdogs s.watchdog + count_of s.preserver
  pub closed : s.server_closed ≡ is_closed s.watchdog
  pub success_law : s.success ≡ not s.listen_failed
  pub failed : (s.listen_failed ≡ false) ⊎ (s.cancelled ≡ true)
  pub drained : Drained s.watchdog s.requests s.timed_out
  pub ended : Ended s.returned s.storage_open s.success s.wait_group

-- while a goroutine runs, `Run` has not returned
running_on :
    (o : Option Bool) (storage_open success success' : Bool) (n n' : ℕ)
    → 0 < n
    → Ended o storage_open success n
    → Ended o storage_open success' n'
running_on none storage_open success success' n n' more h = h
running_on (some b) storage_open success success' n n' more h = absurd (omega (arith, h.1))

-- no request arrives once the watchdog has left its wait
none_arrives :
    (w : Watchdog) (n : ℕ) (t closed : Bool)
    → closed ≡ false
    → closed ≡ is_closed w
    → Drained w (suc n) t
none_arrives watching n t closed e h = tt
none_arrives shutting_down n t closed e h = tt
none_arrives watchdog_stopped n t closed e h = absurd cc

fewer : (w : Watchdog) (m n : ℕ) (t : Bool) → m ≡ suc n → Drained w m t → Drained w n t
fewer watching m n t e h = tt
fewer shutting_down m n t e h = tt
fewer watchdog_stopped m n t e (inl none_left) = absurd (omega arith)
fewer watchdog_stopped m n t e (inr timed_out) = inr timed_out

Step-IsSound : {s u : Server} → Step s u → IsSound s → IsSound u
Step-IsSound {s} (interrupt e) h = subst IsSound (sym e) (record {
  wait = h.wait;
  closed = h.closed;
  success_law = h.success_law;
  failed = inr refl;
  drained = h.drained;
  ended = h.ended;
})
Step-IsSound {s} (by_listener (listen_fails at e)) h = subst IsSound (sym e) (record {
  wait = ground (arith, h.wait, at);
  closed = h.closed;
  success_law = refl;
  failed = inr refl;
  drained = h.drained;
  ended =
      running_on s.returned s.storage_open s.success _ s.wait_group _ (ground (arith, h.wait, at))
        h.ended;
})
Step-IsSound {s} (by_listener (listen_ends at closed e)) h = subst IsSound (sym e) (record {
  wait = ground (arith, h.wait, at);
  closed = h.closed;
  success_law = h.success_law;
  failed = h.failed;
  drained = h.drained;
  ended =
      running_on s.returned s.storage_open s.success _ s.wait_group _ (ground (arith, h.wait, at))
        h.ended;
})
Step-IsSound {s} (by_watchdog (shutdown_begins at cancel e)) h = subst IsSound (sym e) (record {
  wait = ground (arith, h.wait, at);
  closed = refl;
  success_law = h.success_law;
  failed = h.failed;
  drained = tt;
  ended = h.ended;
})
Step-IsSound {s} (by_watchdog (shutdown_ends at quiet e)) h = subst IsSound (sym e) (record {
  wait = ground (arith, h.wait, at);
  closed = ground (arith, h.closed, at);
  success_law = h.success_law;
  failed = h.failed;
  drained = inl quiet;
  ended =
      running_on s.returned s.storage_open s.success _ s.wait_group _ (ground (arith, h.wait, at))
        h.ended;
})
Step-IsSound {s} (by_watchdog (shutdown_times_out at e)) h = subst IsSound (sym e) (record {
  wait = ground (arith, h.wait, at);
  closed = ground (arith, h.closed, at);
  success_law = h.success_law;
  failed = h.failed;
  drained = inr refl;
  ended =
      running_on s.returned s.storage_open s.success _ s.wait_group _ (ground (arith, h.wait, at))
        h.ended;
})
Step-IsSound {s} (by_net (request_arrives at open_still e)) h = subst IsSound (sym e) (record {
  wait = h.wait;
  closed = h.closed;
  success_law = h.success_law;
  failed = h.failed;
  drained = none_arrives s.watchdog s.requests s.timed_out s.server_closed open_still h.closed;
  ended = h.ended;
})
Step-IsSound {s} (by_net (request_ends n at e)) h = subst IsSound (sym e) (record {
  wait = h.wait;
  closed = h.closed;
  success_law = h.success_law;
  failed = h.failed;
  drained = fewer s.watchdog s.requests n s.timed_out at h.drained;
  ended = h.ended;
})
Step-IsSound {s} (preserver_stops at cancel e) h = subst IsSound (sym e) (record {
  wait = ground (arith, h.wait, at);
  closed = h.closed;
  success_law = h.success_law;
  failed = h.failed;
  drained = h.drained;
  ended =
      running_on s.returned s.storage_open s.success _ s.wait_group _ (ground (arith, h.wait, at))
        h.ended;
})
Step-IsSound {s} (run_returns done first e) h = subst IsSound (sym e) (record {
  wait = h.wait;
  closed = h.closed;
  success_law = h.success_law;
  failed = inr refl;
  drained = h.drained;
  ended = (refl, done);
})

pub Reach-IsSound :
    (store_interval : ℤ) (kind : StorageKind) {s : Server}
    → Reach (start store_interval kind) s
    → IsSound s
Reach-IsSound store_interval kind here = record {
  wait = omega arith;
  closed = refl;
  success_law = refl;
  failed = inl refl;
  drained = tt;
  ended = refl;
}
Reach-IsSound store_interval kind (next r step) =
    Step-IsSound step (Reach-IsSound store_interval kind r)
