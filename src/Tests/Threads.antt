-- ===== src/Tests/Threads.antt =====
-- Goroutines that call the storage in memory at once.
use mathlib.Core.List.{Perm}
use go_advanced.Base.{◌≤◌, ◌≡◌, refl, ◌⊎◌, true, false, [], ◌∷◌}
use go_advanced.Entities.{Metric}
use go_advanced.Entities.Errors.{ok}
use go_advanced.GoMap.{get_or, lookup, insert}
use go_advanced.Storage.Spec.{Tables, empty_tables}
use go_advanced.Base.Word.{add_int64}
use go_advanced.Storage.Mem.{get_switch}
use go_advanced.Storage.Mem.Threads.{
  get, update, one, find, write, add, read_counter, calling, unlocking, done, Threads, begin, calls,
  r_locks, locks, works, finishes, r_unlocks, unlocks, Reach, here, next, advance,
}
use go_advanced.Storage.Mem.Threads.Serial.{IsSerial, answers, Reach-IsSerial}
use go_advanced.Storage.Mem.Threads.Left.{all_left}
use go_advanced.Storage.Mem.Threads.Ending.{Run, rests, goes, Moves, is_pending, Reach-ends}
use go_advanced.Base.Counts.{count}
use go_advanced.Tests.Fixtures.{zero_counter}

abbrev two_more : Metric
two_more = record zero_counter { delta = 2 }

abbrev after : Tables
after = record empty_tables { counter_map = ("a", 2) ∷ [] }

-- a reader has its answer, while the writer is behind its lock
abbrev both : Threads
both = record {
  tables = after;
  writer = false;
  readers = 1;
  threads =
      unlocking (get zero_counter) (one (ok two_more))
      ∷ done (update two_more) (one (ok two_more))
      ∷ [];
  log = (get zero_counter, one (ok two_more)) ∷ (update two_more, one (ok two_more)) ∷ [];
}

-- the reader calls while the writer is between its accesses
run : Reach (begin empty_tables) both
unfolding advance get_or lookup insert get_switch add_int64
run =
    next
      (next
        (next
          (next
            (next
              (next
                (next
                  (next (next here (calls (update two_more) refl))
                    (locks [] [] (update two_more) refl refl refl refl refl))
                  (works [] [] (update two_more) (write two_more) (add two_more 0) _ refl refl
                    refl))
                (calls (get zero_counter) refl))
              (works (calling (get zero_counter) ∷ []) [] (update two_more) (add two_more 0)
                (read_counter two_more) _ refl refl refl))
            (finishes (calling (get zero_counter) ∷ []) [] (update two_more) (read_counter two_more)
              _ _ refl refl refl))
          (unlocks (calling (get zero_counter) ∷ []) [] (update two_more) _ refl refl refl))
        (r_locks [] _ (get zero_counter) refl refl refl refl))
      (finishes [] _ (get zero_counter) (find zero_counter) _ _ refl refl refl)

Reach-IsSerial_example :
    (past : Tables) × IsSerial empty_tables both.log past
    × Perm both.log (answers both.threads)
    × ((both.writer ≡ true) ⊎ (both.tables ≡ past))
Reach-IsSerial_example = Reach-IsSerial empty_tables run

-- the reader has left too
abbrev ended : Threads
ended = record both {
  readers = 0;
  threads =
      done (get zero_counter) (one (ok two_more)) ∷ done (update two_more) (one (ok two_more)) ∷ [];
}

last_step : Run both 1 ended
last_step = goes rests (r_unlocks [] _ (get zero_counter) _ refl refl refl) refl

Reach-ends_example :
    (1 ≤ all_left both.threads) × ((count is_pending ended.threads ≡ 0) ⊎ Moves ended)
Reach-ends_example = Reach-ends empty_tables run last_step
