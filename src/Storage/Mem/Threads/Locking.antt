-- ===== src/Storage/Mem/Threads/Locking.antt =====
-- The steps before and behind the work of a method, and the invariant.
use go_advanced.Base.{suc, ◌-◌, ◌≡◌, refl, ap, inl, inr, true, false, List, ◌∷◌, ◌++◌, arith}
use go_advanced.Base.Counts.{count, count-middle, All-replace}
use go_advanced.Storage.Spec.{Tables}
use go_advanced.Storage.Mem.Threads.{
  Request, Answer, entry, reads, Thread, calling, holding, unlocking, done, Threads,
}
use go_advanced.Storage.Mem.Threads.Bodies.{finish, entry-reads}
use go_advanced.Storage.Mem.Threads.Locked.{
  not-true, not-false, r_holds, w_holds, At, IsLocked, split, counts, writes_alone, reads_still,
}

pub calls-IsLocked :
    {past : Tables} (s : Threads) (req : Request)
    → IsLocked past s
    → IsLocked past (record s { threads = calling req ∷ s.threads })
unfolding count
calls-IsLocked s req h = record {
  at = (tt, h.at);
  counted = h.counted;
  owned = h.owned;
  alone = h.alone;
  still = h.still;
}

pub r_locks-IsLocked :
    {past : Tables} (s : Threads) (l r : List Thread) (req : Request)
    → s.threads ≡ l ++ calling req ∷ r
    → reads req ≡ true
    → s.writer ≡ false
    → IsLocked past s
    → IsLocked past
        (record s { readers = suc s.readers; threads = l ++ holding req (entry req) ∷ r })
r_locks-IsLocked {past} s l r req at e free h =
    let (a, b, c) = split l r _ h at in
    let same : s.tables ≡ past = ground (arith, h.still) in
    record {
      at =
          All-replace (At past s.tables) l r _
            (a, (ap (finish (entry req)) same, entry-reads req), c);
      counted = ground (
        arith,
        h.counted,
        counts l r _ h at r_holds,
        count-middle r_holds l r (holding req (entry req)),
      );
      owned = ground (
        arith,
        not-false e,
        h.owned,
        counts l r _ h at w_holds,
        count-middle w_holds l r (holding req (entry req)),
      );
      alone = inl free;
      still = inr same;
    }

pub locks-IsLocked :
    {past : Tables} (s : Threads) (l r : List Thread) (req : Request)
    → s.threads ≡ l ++ calling req ∷ r
    → reads req ≡ false
    → s.writer ≡ false
    → s.readers ≡ 0
    → IsLocked past s
    → IsLocked past (record s { writer = true; threads = l ++ holding req (entry req) ∷ r })
locks-IsLocked {past} s l r req at e free none h =
    let (a, b, c) = split l r _ h at in
    let same : s.tables ≡ past = ground (arith, h.still) in
    record {
      at =
          All-replace (At past s.tables) l r _
            (a, (ap (finish (entry req)) same, entry-reads req), c);
      counted = ground (
        arith,
        h.counted,
        counts l r _ h at r_holds,
        count-middle r_holds l r (holding req (entry req)),
      );
      owned = ground (
        arith,
        not-true e,
        h.owned,
        counts l r _ h at w_holds,
        count-middle w_holds l r (holding req (entry req)),
      );
      alone = inr none;
      still = inl refl;
    }

pub r_unlocks-IsLocked :
    {past : Tables} (s : Threads) (l r : List Thread) (req : Request) (a : Answer)
    → s.threads ≡ l ++ unlocking req a ∷ r
    → reads req ≡ true
    → IsLocked past s
    → IsLocked past (record s { readers = s.readers - 1; threads = l ++ done req a ∷ r })
r_unlocks-IsLocked {past} s l r req a at e h =
    let (x, y, z) = split l r _ h at in
    let (free, same) = reads_still l r _ h at e in
    record {
      at = All-replace (At past s.tables) l r _ (x, tt, z);
      counted =
          ground
            (arith, h.counted, counts l r _ h at r_holds, count-middle r_holds l r (done req a));
      owned = ground (
        arith,
        not-false e,
        h.owned,
        counts l r _ h at w_holds,
        count-middle w_holds l r (done req a),
      );
      alone = inl free;
      still = inr same;
    }

pub unlocks-IsLocked :
    {past : Tables} (s : Threads) (l r : List Thread) (req : Request) (a : Answer)
    → s.threads ≡ l ++ unlocking req a ∷ r
    → reads req ≡ false
    → IsLocked past s
    → IsLocked past (record s { writer = false; threads = l ++ done req a ∷ r })
unlocks-IsLocked {past} s l r req a at e h =
    let (x, y, z) = split l r _ h at in
    let (w, n, rl, rr, wl, wr) = writes_alone l r _ h at (not-true e) e in
    record {
      at = All-replace (At past s.tables) l r _ (x, tt, z);
      counted =
          ground
            (arith, h.counted, counts l r _ h at r_holds, count-middle r_holds l r (done req a));
      owned = ground (arith, count-middle w_holds l r (done req a), wl, wr);
      alone = inl refl;
      still = inr y;
    }
