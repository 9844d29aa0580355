-- ===== src/Storage/Mem/Threads/Locked.antt =====
-- Who holds the lock, and how far the work under it has come.
use go_advanced.Base.{
  ◌+◌, ◌≡◌, refl, ap, ◌∙◌, subst, ◌⊎◌, inl, inr, Bool, true, false, not, Bool-cases, List, [], ◌∷◌,
  ◌++◌, arith, All, if◌then◌else◌,
}
use go_advanced.Base.Counts.{count, count-middle, All-middle}
use go_advanced.Storage.Spec.{Tables}
use go_advanced.Storage.Mem.Threads.{
  reads, Thread, calling, holding, unlocking, done, Threads, begin,
}
use go_advanced.Storage.Mem.Threads.Bodies.{finish, serve, body_reads}

pub not-true : {b : Bool} → b ≡ false → not b ≡ true
not-true e = rw e refl

pub not-false : {b : Bool} → b ≡ true → not b ≡ false
not-false e = rw e refl

-- a goroutine that holds the lock for reading, and one that holds it for writing
abbrev pub r_holds : Thread → Bool
r_holds (holding req b) = reads req
r_holds (unlocking req a) = reads req
r_holds (calling req) = false
r_holds (done req a) = false

abbrev pub w_holds : Thread → Bool
w_holds (holding req b) = not (reads req)
w_holds (unlocking req a) = not (reads req)
w_holds (calling req) = false
w_holds (done req a) = false

-- What holds of one goroutine: `past` are the maps that the last method to finish has left, and
-- `shared` the maps as they are.
abbrev pub At : Tables → Tables → Thread → Type 0
At past shared (calling req) = Unit
At past shared (holding req b) = (finish b shared ≡ serve req past) × (body_reads b ≡ reads req)
At past shared (unlocking req a) = shared ≡ past
At past shared (done req a) = Unit

-- What holds of all: the lock says who holds it, a writer is alone, and without a writer the maps
-- are those that the last method has left.
pub record IsLocked (past : Tables) (s : Threads) : Type 0 where
  pub at : All (At past s.tables) s.threads
  pub counted : s.readers ≡ count r_holds s.threads
  pub owned : (if s.writer then 1 else 0) ≡ count w_holds s.threads
  pub alone : (s.writer ≡ false) ⊎ (s.readers ≡ 0)
  pub still : (s.writer ≡ true) ⊎ (s.tables ≡ past)

pub begin-IsLocked : (t : Tables) → IsLocked t (begin t)
unfolding count
begin-IsLocked t = record {
  at = tt;
  counted = refl;
  owned = refl;
  alone = inl refl;
  still = inr refl;
}

-- goroutines that do not hold the lock do not care about the maps
At-free :
    (past shared past' shared' : Tables) (l : List Thread)
    → count r_holds l ≡ 0
    → count w_holds l ≡ 0
    → All (At past shared) l
    → All (At past' shared') l
unfolding count
At-free p t p' t' [] er ew h = tt
At-free p t p' t' (calling req ∷ l) er ew h = (tt, At-free p t p' t' l er ew h.1)
At-free p t p' t' (done req a ∷ l) er ew h = (tt, At-free p t p' t' l er ew h.1)
At-free p t p' t' (holding req b ∷ l) er ew h =
    absurd (elim (Bool-cases (reads req)) [ inl e ↦ ground arith | inr e ↦ ground arith ])
At-free p t p' t' (unlocking req a ∷ l) er ew h =
    absurd (elim (Bool-cases (reads req)) [ inl e ↦ ground arith | inr e ↦ ground arith ])

-- The goroutine `x` among the others: what holds of it, and what of the rest.
module _ {past : Tables} {s : Threads} (l r : List Thread) (x : Thread) (h : IsLocked past s)
    (at_x : s.threads ≡ l ++ x ∷ r) where
  pub split : All (At past s.tables) l × At past s.tables x × All (At past s.tables) r
  split = All-middle (At past s.tables) l r x (subst (λ k. All (At past s.tables) k) at_x h.at)

  pub counts :
      (test : Thread → Bool)
      → count test s.threads ≡ (if test x then 1 else 0) + (count test l + count test r)
  counts test = ap (count test) at_x ∙ count-middle test l r x

  -- beside a writer nobody holds the lock
  pub writes_alone :
      w_holds x ≡ true
      → r_holds x ≡ false
      → (s.writer ≡ true)
        × (s.readers ≡ 0)
        × (count r_holds l ≡ 0)
        × (count r_holds r ≡ 0)
        × (count w_holds l ≡ 0)
        × (count w_holds r ≡ 0)
  writes_alone e e' = ground (arith, counts r_holds, counts w_holds, h.counted, h.owned, h.alone)

  pub reads_still : r_holds x ≡ true → (s.writer ≡ false) × (s.tables ≡ past)
  reads_still e = ground (arith, counts r_holds, h.counted, h.alone, h.still)

  -- after a step of a writer the rest is as it was, whatever the maps are
  pub others :
      (past' shared' : Tables)
      → w_holds x ≡ true
      → r_holds x ≡ false
      → All (At past' shared') l × All (At past' shared') r
  others p t e e' =
      let (w, n, rl, rr, wl, wr) = writes_alone e e' in
      let (a, b, c) = split in
      (At-free past s.tables p t l rl wl a, At-free past s.tables p t r rr wr c)
