-- ===== src/Storage/Mem/Threads/Ending.antt =====
-- How the calls end.
use go_advanced.Base.{
  ℕ, suc, ◌+◌, ◌≤◌, ◌<◌, ◌≡◌, refl, ap, ◌∙◌, subst, ◌⊎◌, inl, inr, Bool, true, false, Bool-cases,
  List, [], ◌∷◌, ◌++◌, arith,
}
use go_advanced.Base.Counts.{count, count-cases}
use go_advanced.Storage.Spec.{Tables}
use go_advanced.Storage.Mem.Threads.{
  Request, Body, Progress, going, finished, advance, reads, Thread, calling, holding, unlocking,
  done, Threads, begin, Step, calls, r_locks, locks, works, finishes, r_unlocks, unlocks, Reach,
  next,
}
use go_advanced.Storage.Mem.Threads.Locked.{r_holds, w_holds, IsLocked}
use go_advanced.Storage.Mem.Threads.Serial.{Reach-Explains}
use go_advanced.Storage.Mem.Threads.Left.{
  left, Within, advance-Within, steps_left, all_left, all_left-middle,
}

-- a step that is not a new call
abbrev pub is_own : {s u : Threads} → Step s u → Bool
is_own (calls req e) = false
is_own (r_locks l r req at reading free e) = true
is_own (locks l r req at writing free no_readers e) = true
is_own (works l r req b b' t at run e) = true
is_own (finishes l r req b t a at run e) = true
is_own (r_unlocks l r req a at reading e) = true
is_own (unlocks l r req a at writing e) = true

-- `k` steps in a row, and no new call
pub data Run (s : Threads) : ℕ → Threads → Type 0 where
  rests : Run s 0 s
  goes :
      {k : ℕ} {t u : Threads} → Run s k t → (step : Step t u) → is_own step ≡ true → Run s (suc k) u

-- some goroutine can go on
abbrev pub Moves : Threads → Type 0
Moves s = (u : Threads) × (step : Step s u) × (is_own step ≡ true)

-- one goroutine changes from `x` to `y`
changes :
    (old new l r : List Thread) (x y : Thread)
    → old ≡ l ++ x ∷ r
    → new ≡ l ++ y ∷ r
    → steps_left y < steps_left x
    → all_left new < all_left old
changes old new l r x y e e' less =
    omega (arith, ap all_left e, ap all_left e', all_left-middle l r x, all_left-middle l r y)

Step-all_left :
    {s u : Threads} (step : Step s u) → is_own step ≡ true → all_left u.threads < all_left s.threads
Step-all_left (calls req e) own = absurd cc
Step-all_left (r_locks l r req at reading free e) own =
    changes _ _ l r _ _ at (ap (λ (t : Threads). t.threads) e) (omega arith)
Step-all_left (locks l r req at writing free no_readers e) own =
    changes _ _ l r _ _ at (ap (λ (t : Threads). t.threads) e) (omega arith)
Step-all_left {s} (works l r req b b' t at run e) own =
    changes _ _ l r _ _ at (ap (λ (t : Threads). t.threads) e) (
      let less : left b' < left b =
        subst (λ (p : Tables × Progress). Within (left b) p.1) run (advance-Within b s.tables) in
      omega arith)
Step-all_left {s} (finishes l r req b t a at run e) own =
    changes _ _ l r _ _ at (ap (λ (t : Threads). t.threads) e) (
      let less : 0 < left b =
        subst (λ (p : Tables × Progress). Within (left b) p.1) run (advance-Within b s.tables) in
      omega arith)
Step-all_left (r_unlocks l r req a at reading e) own =
    changes _ _ l r _ _ at (ap (λ (t : Threads). t.threads) e) (omega arith)
Step-all_left (unlocks l r req a at writing e) own =
    changes _ _ l r _ _ at (ap (λ (t : Threads). t.threads) e) (omega arith)

-- a goroutine that is not through, and one under the lock
abbrev pub is_pending : Thread → Bool
is_pending (done req a) = false
is_pending _ = true

abbrev is_inside : Thread → Bool
is_inside (holding req b) = true
is_inside (unlocking req a) = true
is_inside (calling req) = false
is_inside (done req a) = false

outside : (l : List Thread) → count is_inside l ≡ 0 → (count r_holds l ≡ 0) × (count w_holds l ≡ 0)
unfolding count
outside [] e = (refl, refl)
outside (calling req ∷ l) e = outside l e
outside (done req a ∷ l) e = outside l e
outside (holding req b ∷ l) e = absurd cc
outside (unlocking req a ∷ l) e = absurd cc

advanced :
    (s : Threads) (l r : List Thread) (req : Request) (b : Body) (t : Tables) (p : Progress)
    → s.threads ≡ l ++ holding req b ∷ r
    → advance b s.tables ≡ (t, p)
    → Moves s
advanced s l r req b t (going b') at e = (_, works l r req b b' t at e refl, refl)
advanced s l r req b t (finished a) at e = (_, finishes l r req b t a at e refl, refl)

-- a goroutine under the lock waits for nobody
inside-Moves :
    (s : Threads) (l r : List Thread) (x : Thread)
    → s.threads ≡ l ++ x ∷ r
    → is_inside x ≡ true
    → Moves s
inside-Moves s l r (holding req b) at e =
    advanced s l r req b (advance b s.tables).0 (advance b s.tables).1 at refl
inside-Moves s l r (unlocking req a) at e = elim (Bool-cases (reads req)) [
  | inl reading ↦ (_, r_unlocks l r req a at reading refl, refl)
  | inr writing ↦ (_, unlocks l r req a at writing refl, refl)
]
inside-Moves s l r (calling req) at e = absurd cc
inside-Moves s l r (done req a) at e = absurd cc

-- a call that finds nobody under the lock takes it
calling-Moves :
    (s : Threads) (l r : List Thread) (req : Request)
    → s.threads ≡ l ++ calling req ∷ r
    → s.writer ≡ false
    → s.readers ≡ 0
    → Moves s
calling-Moves s l r req at free no_readers = elim (Bool-cases (reads req)) [
  | inl reading ↦ (_, r_locks l r req at reading free refl, refl)
  | inr writing ↦ (_, locks l r req at writing free no_readers refl, refl)
]

pending-Moves :
    {past : Tables} (s : Threads) (l r : List Thread) (x : Thread)
    → s.threads ≡ l ++ x ∷ r
    → is_pending x ≡ true
    → IsLocked past s
    → Moves s
pending-Moves s l r (holding req b) at e h = inside-Moves s l r (holding req b) at refl
pending-Moves s l r (unlocking req a) at e h = inside-Moves s l r (unlocking req a) at refl
pending-Moves s l r (done req a) at e h = absurd cc
pending-Moves s l r (calling req) at e h = elim (count-cases is_inside s.threads) [
  | inl none ↦
      let (readers, writers) = outside s.threads none in
      calling-Moves s l r req at (ground (arith, h.owned, writers)) (h.counted ∙ readers)
  | inr (a, b, x, at', inside) ↦ inside-Moves s a b x at' inside
]

Run-Reach :
    {s : Threads} (t : Tables) {k : ℕ} {u : Threads}
    → Run s k u
    → Reach (begin t) s
    → Reach (begin t) u
Run-Reach t rests run = run
Run-Reach t (goes more step own) run = next (Run-Reach t more run) step

Run-all_left :
    {s : Threads} {k : ℕ} {u : Threads} → Run s k u → k + all_left u.threads ≤ all_left s.threads
Run-all_left rests = omega arith
Run-all_left (goes more step own) = omega (arith, Run-all_left more, Step-all_left step own)

-- However the goroutines take turns, once no new call comes they take no more steps than
-- `all_left` counts for the calls under way, and as long as one of these has not returned, some
-- goroutine can go on: they never all wait for the lock.
pub Reach-ends :
    (t : Tables) {s u : Threads} {k : ℕ}
    → Reach (begin t) s
    → Run s k u
    → (k ≤ all_left s.threads) × ((count is_pending u.threads ≡ 0) ⊎ Moves u)
Reach-ends t {s} {u} run more =
    let bound = Run-all_left more in
    let (past, (locked, serial, logged)) = Reach-Explains t (Run-Reach t more run) in
    (
      omega arith,
      elim (count-cases is_pending u.threads) [
        | inl none ↦ inl none
        | inr (l, r, x, at, e) ↦ inr (pending-Moves u l r x at e locked)
      ],
    )
