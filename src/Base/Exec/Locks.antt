-- ===== src/Base/Exec/Locks.antt =====
-- A call that finds its mutex free returns what its body returns, and leaves the mutex free.
use go_advanced.Base.{◌≡◌, arith}
use go_advanced.Base.Exec.{Guarded, unlocked, returned, with_lock, with_r_lock}

module _ {D A : Type 0} (g : Guarded D) (free : g.mutex ≡ unlocked) where
  pub with_r_lock_free :
      (f : D → A)
      → with_r_lock (λ (g : Guarded D). returned (f g.value) g) g ≡ returned (f g.value) g
  unfolding with_r_lock
  with_r_lock_free f = ground arith

  pub with_lock_free :
      (f : D → D × A)
      → with_lock (λ (g : Guarded D). returned (f g.value).1 (record g { value = (f g.value).0 })) g
        ≡ returned (f g.value).1 (record g { value = (f g.value).0 })
  unfolding with_lock
  with_lock_free f = ground arith
