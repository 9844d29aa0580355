-- ===== src/Server/Run.antt =====
-- internal/app/server/server.go: `Run`, with the goroutines of the listener, the watchdog and the
-- preserver of the file storage. What runs between two waits of a goroutine is one step. In
-- `create_storage`, `pg` is the outcome of `pgstorage.New`.
pub mod Sound
pub mod Ending
use go_advanced.Base.{
  ℕ, suc, ◌-◌, String, ◌≡◌, Bool, true, false, Option, none, some, is_empty, if◌then◌else◌,
}
use go_advanced.Base.Int.{ℤ, is_positive}
use go_advanced.Entities.Errors.{Error}
use go_advanced.Server.Config.{Config}

-- which storage `createStorage` makes
pub data StorageKind : Type 0 where
  pg_storage file_storage mem_storage : StorageKind

-- `createStorage`; none where it returns nil
unfoldable pub create_storage : Option Error → Config → Option StorageKind
create_storage pg config =
    if is_empty config.database_dsn
    then (if is_empty config.file_storage_path then some mem_storage else some file_storage)
    else elim pg [ none ↦ some pg_storage | some e ↦ none ]

-- the listener is in `ListenAndServe` or has returned
pub data Listener : Type 0 where
  listening listener_stopped : Listener

-- the watchdog waits for the context, is in `Shutdown`, or has returned
pub data Watchdog : Type 0 where
  watching shutting_down watchdog_stopped : Watchdog

-- the preserver of the file storage: none, in its loop, or returned after its last store
pub data Preserver : Type 0 where
  no_preserver preserving preserver_stopped : Preserver

-- `server_closed` is true from the call of `Shutdown` on; `listen_failed` records that
-- `ListenAndServe` returned any other error than `ErrServerClosed`, and `timed_out` that `Shutdown`
-- gave up after its five seconds. `requests` are those that net/http has handed to the router and that
-- are not answered. `returned` is what `Run` has returned.
pub record Server : Type 0 where
  pub cancelled : Bool
  pub listener : Listener
  pub watchdog : Watchdog
  pub preserver : Preserver
  pub server_closed : Bool
  pub listen_failed : Bool
  pub timed_out : Bool
  pub requests : ℕ
  pub success : Bool
  pub wait_group : ℕ
  pub storage_open : Bool
  pub returned : Option Bool

-- `FileStorage.Start` starts a preserver if the interval is positive
abbrev pub preserver_of : ℤ → StorageKind → Preserver
preserver_of store_interval file_storage =
    if is_positive store_interval then preserving else no_preserver
preserver_of _ _ = no_preserver

abbrev pub count_of : Preserver → ℕ
count_of preserving = 1
count_of _ = 0

-- the goroutines that `Run` starts with a storage and a server that is not nil: the preserver of the storage, then
-- `startListener` and `startWatchdog`, each with its `wg.Add(1)`
abbrev pub start : ℤ → StorageKind → Server
start store_interval kind = record {
  cancelled = false;
  listener = listening;
  watchdog = watching;
  preserver = preserver_of store_interval kind;
  server_closed = false;
  listen_failed = false;
  timed_out = false;
  requests = 0;
  success = true;
  wait_group = suc (suc (count_of (preserver_of store_interval kind)));
  storage_open = true;
  returned = none;
}

-- How `Run` goes on once `startWorkers` has returned: it has returned false before, its goroutines
-- run, or they run on a server that is nil, on which the listener calls `ListenAndServe`: that
-- dereferences the nil pointer, and the panic ends the program.
pub data Begun : Type 0 where
  run_failed : Begun
  running : Server → Begun
  panicking : Begun

abbrev pub begun : {R : Type 0} → Option R → Server → Begun
begun none s = panicking
begun (some router) s = running s

-- `Run` up to its `wg.Wait()`; `served` is what `createServer` returns
unfoldable pub begin_run : {R : Type 0} → Option Error → Option R → Config → Begun
unfolding create_storage
begin_run pg served config = elim (create_storage pg config) [
  | none ↦ run_failed
  | some kind ↦ begun served (start config.store_interval kind)
]

-- A step of the goroutine of `startListener`.
pub data ListenerStep (s u : Server) : Type 0 where
  listen_fails :
      s.listener ≡ listening
      → u ≡ record s {
        listener = listener_stopped;
        listen_failed = true;
        success = false;
        cancelled = true;
        wait_group = s.wait_group - 1;
      }
      → ListenerStep s u
  -- `ListenAndServe` returns `ErrServerClosed`
  listen_ends :
      s.listener ≡ listening
      → s.server_closed ≡ true
      → u ≡ record s { listener = listener_stopped; wait_group = s.wait_group - 1 }
      → ListenerStep s u

-- A step of the goroutine of `startWatchdog`.
pub data WatchdogStep (s u : Server) : Type 0 where
  shutdown_begins :
      s.watchdog ≡ watching
      → s.cancelled ≡ true
      → u ≡ record s { watchdog = shutting_down; server_closed = true }
      → WatchdogStep s u
  -- `Shutdown` returns when no request is left
  shutdown_ends :
      s.watchdog ≡ shutting_down
      → s.requests ≡ 0
      → u ≡ record s { watchdog = watchdog_stopped; wait_group = s.wait_group - 1 }
      → WatchdogStep s u
  shutdown_times_out :
      s.watchdog ≡ shutting_down
      → u
        ≡ record s { watchdog = watchdog_stopped; timed_out = true; wait_group = s.wait_group - 1 }
      → WatchdogStep s u

-- What net/http does while it serves: it takes requests until it is closed.
pub data NetStep (s u : Server) : Type 0 where
  request_arrives :
      s.listener ≡ listening
      → s.server_closed ≡ false
      → u ≡ record s { requests = suc s.requests }
      → NetStep s u
  request_ends : (n : ℕ) → s.requests ≡ suc n → u ≡ record s { requests = n } → NetStep s u

-- One step of one goroutine.
pub data Step (s u : Server) : Type 0 where
  -- the signal handler
  interrupt : u ≡ record s { cancelled = true } → Step s u
  by_listener : ListenerStep s u → Step s u
  by_watchdog : WatchdogStep s u → Step s u
  by_net : NetStep s u → Step s u
  preserver_stops :
      s.preserver ≡ preserving
      → s.cancelled ≡ true
      → u ≡ record s { preserver = preserver_stopped; wait_group = s.wait_group - 1 }
      → Step s u
  -- `wg.Wait()` and what is deferred: the storage is closed and the context cancelled
  run_returns :
      s.wait_group ≡ 0
      → s.returned ≡ none
      → u ≡ record s { storage_open = false; cancelled = true; returned = some s.success }
      → Step s u

-- Some steps in a row.
pub data Reach (s : Server) : Server → Type 0 where
  here : Reach s s
  next : {t u : Server} → Reach s t → Step t u → Reach s u
