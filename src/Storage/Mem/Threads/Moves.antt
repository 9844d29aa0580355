-- ===== src/Storage/Mem/Threads/Moves.antt =====
-- All steps, the invariant, and what a step tells the log.
use go_advanced.Base.{◌≡◌, refl, sym, ap, subst, ◌⊎◌, inl, inr, ◌∷◌}
use go_advanced.Storage.Spec.{Tables}
use go_advanced.Storage.Mem.Threads.{
  Request, Answer, Threads, Step, calls, r_locks, locks, works, finishes, r_unlocks, unlocks,
}
use go_advanced.Storage.Mem.Threads.Bodies.{serve}
use go_advanced.Storage.Mem.Threads.Locked.{IsLocked}
use go_advanced.Storage.Mem.Threads.Locking.{
  calls-IsLocked, r_locks-IsLocked, locks-IsLocked, r_unlocks-IsLocked, unlocks-IsLocked,
}
use go_advanced.Storage.Mem.Threads.Working.{works-IsLocked, finishes-IsLocked, served}

-- what a step tells the log: nothing, or the answer of the method that has just finished
abbrev pub Tells : Tables → Tables → Threads → Threads → Type 0
Tells past past' s u =
    ((past' ≡ past) × (u.log ≡ s.log))
    ⊎ ((req : Request) × (a : Answer) × (serve req past ≡ (past', a)) × (u.log ≡ (req, a) ∷ s.log))

pub Step-IsLocked :
    {past : Tables} {s u : Threads}
    → Step s u
    → IsLocked past s
    → (past' : Tables) × IsLocked past' u × Tells past past' s u
Step-IsLocked {past} {s} (calls req e) h = (
  past,
  subst (IsLocked past) (sym e) (calls-IsLocked s req h),
  inl (refl, ap (λ (t : Threads). t.log) e),
)
Step-IsLocked {past} {s} (r_locks l r req at reading free e) h = (
  past,
  subst (IsLocked past) (sym e) (r_locks-IsLocked s l r req at reading free h),
  inl (refl, ap (λ (t : Threads). t.log) e),
)
Step-IsLocked {past} {s} (locks l r req at writing free none e) h = (
  past,
  subst (IsLocked past) (sym e) (locks-IsLocked s l r req at writing free none h),
  inl (refl, ap (λ (t : Threads). t.log) e),
)
Step-IsLocked {past} {s} (works l r req b b' t at run e) h = (
  past,
  subst (IsLocked past) (sym e) (works-IsLocked s l r req b b' t at run h),
  inl (refl, ap (λ (t : Threads). t.log) e),
)
Step-IsLocked {past} {s} (finishes l r req b t a at run e) h = (
  t,
  subst (IsLocked t) (sym e) (finishes-IsLocked s l r req b t a at run h),
  inr (req, a, served l r req b t a at run h, ap (λ (t : Threads). t.log) e),
)
Step-IsLocked {past} {s} (r_unlocks l r req a at reading e) h = (
  past,
  subst (IsLocked past) (sym e) (r_unlocks-IsLocked s l r req a at reading h),
  inl (refl, ap (λ (t : Threads). t.log) e),
)
Step-IsLocked {past} {s} (unlocks l r req a at writing e) h = (
  past,
  subst (IsLocked past) (sym e) (unlocks-IsLocked s l r req a at writing h),
  inl (refl, ap (λ (t : Threads). t.log) e),
)
