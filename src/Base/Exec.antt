-- ===== src/Base/Exec.antt =====
-- A call of a method that takes a lock: it returns a value and the next state, or it waits for
-- ever for a lock that nobody will release, which leaves the state as it is then. `RwMutex` is
-- `sync.RWMutex` of Go's standard library, seen by one goroutine at a time.
pub mod Locks
use go_advanced.Base.{ℕ, suc, ◌-◌, Bool, true, false, ◌||◌, ltb, if◌then◌else◌}

pub data Outcome (S A : Type 0) : Type 0 where
  returned : A → S → Outcome S A
  blocked : S → Outcome S A

abbrev pub Call : Type 0 → Type 0 → Type 0
Call S A = S → Outcome S A

module _ {S : Type 0} where
  abbrev pub pure : {A : Type 0} → A → Call S A
  pure a s = returned a s

  infixl 5 ◌>>=◌ ◌>>◌
  abbrev pub ◌>>=◌ : {A B : Type 0} → Call S A → (A → Call S B) → Call S B
  ◌>>=◌ m f s = elim (m s) [ returned a s' ↦ f a s' | blocked s' ↦ blocked s' ]

  abbrev pub ◌>>◌ : {A B : Type 0} → Call S A → Call S B → Call S B
  m >> k = m >>= λ _. k

pub record RwMutex : Type 0 where
  pub writer : Bool
  pub readers : ℕ

abbrev pub unlocked : RwMutex
unlocked = record { writer = false; readers = 0 }

-- A value and the mutex that guards it.
pub record Guarded (D : Type 0) : Type 0 where
  pub mutex : RwMutex
  pub value : D

module _ {D A : Type 0} where
  -- what the deferred `Unlock` does once the body has returned
  unlock : Outcome (Guarded D) A → Outcome (Guarded D) A
  unlock (returned a g) = returned a (record g { mutex = record g.mutex { writer = false } })
  unlock (blocked g) = blocked g

  -- what the deferred `RUnlock` does once the body has returned
  r_unlock : Outcome (Guarded D) A → Outcome (Guarded D) A
  r_unlock (returned a g) =
      returned a (record g { mutex = record g.mutex { readers = g.mutex.readers - 1 } })
  r_unlock (blocked g) = blocked g

  -- `mutex.Lock(); defer mutex.Unlock()` round a body
  unfoldable pub with_lock : Call (Guarded D) A → Call (Guarded D) A
  unfolding unlock
  with_lock body g =
      if g.mutex.writer || ltb 0 g.mutex.readers
      then blocked g
      else unlock (body (record g { mutex = record g.mutex { writer = true } }))

  -- `mutex.RLock(); defer mutex.RUnlock()` round a body
  unfoldable pub with_r_lock : Call (Guarded D) A → Call (Guarded D) A
  unfolding r_unlock
  with_r_lock body g =
      if g.mutex.writer
      then blocked g
      else r_unlock (body (record g { mutex = record g.mutex { readers = suc g.mutex.readers } }))
