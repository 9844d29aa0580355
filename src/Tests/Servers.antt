-- ===== src/Tests/Servers.antt =====
-- The goroutines of the server, when the listener fails at once, and the ways `Run` begins.
use go_advanced.Base.{ℕ, none, ◌≡◌, ◌≤◌, ◌⊎◌, refl, inr, not, true, false, some}
use go_advanced.Base.Int.{pos}
use go_advanced.Entities.Errors.{library}
use go_advanced.Server.Config.{new_config}
use go_advanced.Server.Run.{
  Server, file_storage, start, Step, Reach, here, next, by_listener, listen_fails, listener_stopped,
  begin_run, create_storage, run_failed, running, panicking,
}
use go_advanced.Server.Run.Ending.{weight, Moves, Reach-ending, Reach-storage_open}

abbrev failed : Server
failed = record (start (pos 300) file_storage) {
  listener = listener_stopped;
  listen_failed = true;
  success = false;
  cancelled = true;
  wait_group = 2;
}

failed_run : Reach (start (pos 300) file_storage) failed
failed_run = next here (by_listener (listen_fails refl refl))

Reach-ending_example :
    (weight failed ≤ 5)
    × ((u : Server) → Step failed u → weight u ≤ weight failed)
    × ((failed.returned ≡ some (not failed.listen_failed)) ⊎ Moves failed)
Reach-ending_example = Reach-ending (pos 300) file_storage failed_run (inr refl)

Reach-storage_open_example :
    (failed.storage_open ≡ true) ⊎ ((failed.requests ≡ 0) ⊎ (failed.timed_out ≡ true))
Reach-storage_open_example = Reach-storage_open (pos 300) file_storage failed_run

-- without a storage, and with a storage but no server
begin_run_words :
    (begin_run {R = ℕ}
        (some (library "no database"))
        (some 0)
        (record new_config { database_dsn = "host=h" })
      ≡ run_failed)
    × (begin_run {R = ℕ} none none new_config ≡ panicking)
    × (begin_run {R = ℕ} none (some 0) new_config ≡ running (start (pos 300) file_storage))
unfolding begin_run create_storage
begin_run_words = (refl, refl, refl)
