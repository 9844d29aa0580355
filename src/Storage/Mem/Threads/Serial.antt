-- ===== src/Storage/Mem/Threads/Serial.antt =====
-- The methods of the storage one after the other, as the log of the calls has them.
use mathlib.Core.List.{Perm, perm_middle}
use mathlib.Core.List.Perm
use go_advanced.Base.{◌≡◌, refl, sym, ap, ◌∙◌, subst, ◌⊎◌, inl, inr, true, List, [], ◌∷◌, ◌++◌}
use go_advanced.Base.Exec.{Call, with_lock, with_r_lock, returned, unlocked, pure, ◌>>=◌}
use go_advanced.Storage.Spec.{Tables}
use go_advanced.Storage.Mem.{
  MemStorage, get_metric, update_metric, update_metrics, get_metrics_by_types,
}
use go_advanced.Storage.Mem.Threads.{
  Request, get, update, update_all, dump, Answer, one, many, dumped, Thread, calling, holding,
  unlocking, done, Threads, begin, Step, calls, r_locks, locks, works, finishes, r_unlocks, unlocks,
  Reach, here, next,
}
use go_advanced.Storage.Mem.Threads.Bodies.{finish, serve}
use go_advanced.Storage.Mem.Threads.Locked.{IsLocked, begin-IsLocked}
use go_advanced.Storage.Mem.Threads.Moves.{Tells, Step-IsLocked}

-- a method, called by one goroutine alone
pub call_method : Request → Call MemStorage Answer
call_method (get metric) = get_metric metric >>= λ r. pure (one r)
call_method (update metric) = update_metric metric >>= λ r. pure (one r)
call_method (update_all metrics) = update_metrics metrics >>= λ r. pure (many r)
call_method (dump maps) = get_metrics_by_types maps >>= λ r. pure (dumped r.0)

-- a storage that nobody uses
abbrev pub idle : Tables → MemStorage
idle t = record { mutex = unlocked; value = t }

call_method-idle :
    (req : Request) (t : Tables)
    → call_method req (idle t) ≡ returned (serve req t).1 (idle (serve req t).0)
unfolding call_method finish with_lock with_r_lock get_metric update_metric update_metrics
    get_metrics_by_types
call_method-idle (get m) t = refl
call_method-idle (update m) t = refl
call_method-idle (update_all ms) t = refl
call_method-idle (dump maps) t = refl

-- From the maps `t`, the calls of the log, the oldest first, give their answers and leave `t'`.
abbrev pub IsSerial : Tables → List (Request × Answer) → Tables → Type 0
IsSerial t [] t' = t' ≡ t
IsSerial t ((req, a) ∷ log) t' =
    (m : Tables) × IsSerial t log m × (call_method req (idle m) ≡ returned a (idle t'))

-- what the goroutines have got from their calls
pub answers : List Thread → List (Request × Answer)
answers [] = []
answers (unlocking req a ∷ l) = (req, a) ∷ answers l
answers (done req a ∷ l) = (req, a) ∷ answers l
answers (calling req ∷ l) = answers l
answers (holding req b ∷ l) = answers l

answers-append : (l r : List Thread) → answers (l ++ r) ≡ answers l ++ answers r
unfolding answers
answers-append [] r = refl
answers-append (unlocking req a ∷ l) r = ap (λ t. (req, a) ∷ t) (answers-append l r)
answers-append (done req a ∷ l) r = ap (λ t. (req, a) ∷ t) (answers-append l r)
answers-append (calling req ∷ l) r = answers-append l r
answers-append (holding req b ∷ l) r = answers-append l r

-- the log keeps to the answers while one goroutine changes from `x` to `y`
keeps-Perm :
    (log : List (Request × Answer)) (l r : List Thread) (x y : Thread)
    → answers (x ∷ []) ≡ answers (y ∷ [])
    → Perm log (answers (l ++ x ∷ r))
    → Perm log (answers (l ++ y ∷ r))
keeps-Perm log l r x y e h =
    subst (Perm log)
      (answers-append l (x ∷ r)
        ∙ ap (λ t. answers l ++ t)
            (answers-append (x ∷ []) r
              ∙ ap (λ t. t ++ answers r) e
              ∙ sym (answers-append (y ∷ []) r))
        ∙ sym (answers-append l (y ∷ r)))
      h

adds-Perm :
    (log : List (Request × Answer)) (l r : List Thread) (req : Request) (a : Answer) (x : Thread)
    → answers (x ∷ []) ≡ []
    → Perm log (answers (l ++ x ∷ r))
    → Perm ((req, a) ∷ log) (answers (l ++ unlocking req a ∷ r))
unfolding answers
adds-Perm log l r req a x e h =
    let rest : answers (l ++ x ∷ r) ≡ answers l ++ answers r =
      answers-append l (x ∷ r)
      ∙ ap (λ t. answers l ++ t) (answers-append (x ∷ []) r ∙ ap (λ t. t ++ answers r) e) in
    subst (Perm ((req, a) ∷ log)) (sym (answers-append l (unlocking req a ∷ r))) (
      Perm.trans (Perm.cons (req, a) (subst (Perm log) rest h))
        (Perm.symm (perm_middle (answers l) (answers r))))

-- the answers of the goroutines are those of the log, up to the order
abbrev pub IsLogged : Threads → Type 0
IsLogged s = Perm s.log (answers s.threads)

Step-IsLogged : {s u : Threads} → Step s u → IsLogged s → IsLogged u
unfolding answers
Step-IsLogged {s} (calls req e) h = subst IsLogged (sym e) h
Step-IsLogged {s} (r_locks l r req at reading free e) h =
    subst IsLogged (sym e)
      (keeps-Perm s.log l r _ _ refl (subst (λ k. Perm s.log (answers k)) at h))
Step-IsLogged {s} (locks l r req at writing free no_readers e) h =
    subst IsLogged (sym e)
      (keeps-Perm s.log l r _ _ refl (subst (λ k. Perm s.log (answers k)) at h))
Step-IsLogged {s} (works l r req b b' t at run e) h = subst IsLogged (sym e) (
    keeps-Perm s.log l r (holding req b) (holding req b') refl
      (subst (λ k. Perm s.log (answers k)) at h))
Step-IsLogged {s} (finishes l r req b t a at run e) h =
    subst IsLogged (sym e)
      (adds-Perm s.log l r req a (holding req b) refl (subst (λ k. Perm s.log (answers k)) at h))
Step-IsLogged {s} (r_unlocks l r req a at reading e) h = subst IsLogged (sym e) (
    keeps-Perm s.log l r (unlocking req a) (done req a) refl
      (subst (λ k. Perm s.log (answers k)) at h))
Step-IsLogged {s} (unlocks l r req a at writing e) h = subst IsLogged (sym e) (
    keeps-Perm s.log l r (unlocking req a) (done req a) refl
      (subst (λ k. Perm s.log (answers k)) at h))

Tells-IsSerial :
    (s u : Threads) (t past past' : Tables)
    → Tells past past' s u
    → IsSerial t s.log past
    → IsSerial t u.log past'
Tells-IsSerial s u t past past' (inl (same, e)) h = rw (same, e) h
Tells-IsSerial s u t past past' (inr (req, a, e, e')) h =
    let answer =
      call_method-idle req past ∙ ap (λ (p : Tables × Answer). returned p.1 (idle p.0)) e in
    subst (λ k. IsSerial t k past') (sym e') (past, h, answer)

-- what holds of the goroutines, from the maps `t` at the start
abbrev pub Explains : Tables → Threads → Tables → Type 0
Explains t s past = IsLocked past s × IsSerial t s.log past × IsLogged s

pub Reach-Explains :
    (t : Tables) {s : Threads} → Reach (begin t) s → (past : Tables) × Explains t s past
unfolding answers
Reach-Explains t here = (t, (begin-IsLocked t, refl, Perm.nil))
Reach-Explains t (next {t = s} {u} run step) =
    let (past, (locked, serial, logged)) = Reach-Explains t run in
    let (past', locked', tells) = Step-IsLocked step locked in
    (past', (locked', Tells-IsSerial s u t past past' tells serial, Step-IsLogged step logged))

-- However the goroutines that call the methods of the storage take turns, at each access of the maps:
-- there are maps `past` such that the answers so far, in the order of the log, are those of the
-- methods called one after the other by one goroutine, from the maps at the start to `past`. The log
-- holds, up to the order, exactly the calls that have their answer, and while no writer holds the
-- lock the maps are `past`.
pub Reach-IsSerial :
    (t : Tables) {s : Threads}
    → Reach (begin t) s
    → (past : Tables) × IsSerial t s.log past
      × Perm s.log (answers s.threads)
      × ((s.writer ≡ true) ⊎ (s.tables ≡ past))
Reach-IsSerial t run =
    let (past, (locked, serial, logged)) = Reach-Explains t run in
    (past, serial, logged, locked.still)
