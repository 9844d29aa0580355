-- ===== src/Retry/Runs.antt =====
-- What the retry loop returns, and how long it takes.
use go_advanced.Base.{
  ℕ, zero, suc, ◌+◌, ◌*◌, ◌≤◌, ◌<◌, ◌≡◌, refl, subst, ap, ◌⊎◌, inl, inr, Bool, true, false, arith,
  Bool-cases,
}
use native.Mathlib.Decide.{dec_lt}
use go_advanced.Retry.{backoff, retry_count, Retried, loop, with_retries, after}

square_le : (n : ℕ) → n ≤ 3 → n * n ≤ 9
square_le n h = grind arith

module _ {R S : Type 0} (should_retry : R → Bool) (attempt : S → R × S) (start : S) where
  -- What a run of the loop leaves, `n` repetitions from the start.
  abbrev pub IsRun : ℕ → Retried R S → Type 0
  IsRun most o =
      (o.retries ≤ most)
      × ((o.result, o.state) ≡ after attempt o.retries start)
      × (o.slept ≡ o.retries * o.retries)
      × ((o.retries ≡ most) ⊎ (should_retry o.result ≡ false))

  loop-IsRun :
      (left retries slept : ℕ) (r : R) (s : S)
      → (r, s) ≡ after attempt retries start
      → slept ≡ retries * retries
      → IsRun (retries + left) (loop should_retry attempt left retries slept r s)
  unfolding loop
  loop-IsRun zero retries slept r s e pause = (omega arith, e, pause, inl (omega arith))
  loop-IsRun (suc left) retries slept r s e pause = elim (Bool-cases (should_retry r)) [
    | inl again ↦ rw again (
        subst
          (λ most. IsRun most (
            loop should_retry attempt left (suc retries) (slept + backoff retries) (attempt s).0
              (attempt s).1))
          (omega arith)
          (loop-IsRun left (suc retries) (slept + backoff retries) (attempt s).0 (attempt s).1
            (ap (λ (p : R × S). attempt p.1) e) (grind arith)))
    | inr done ↦ rw done (omega arith, e, pause, inr done)
  ]

  -- The loop ends after three repetitions or fewer, with the result and the state of its last attempt;
  -- it stops early only at a result that asks for no more; `n` repetitions sleep `n * n` seconds.
  pub with_retries-IsRun : IsRun retry_count (with_retries should_retry attempt start)
  unfolding with_retries
  with_retries-IsRun = loop-IsRun retry_count 0 0 (attempt start).0 (attempt start).1 refl refl

  -- The pauses of the loop take nine seconds at most.
  pub with_retries_slept : (with_retries should_retry attempt start).slept ≤ 9
  with_retries_slept =
      let o = with_retries should_retry attempt start in
      let (most, _, pause, _) = with_retries-IsRun in rw pause (square_le o.retries most)

  loop_earlier :
      (left retries slept : ℕ) (r : R) (s : S) (i : ℕ)
      → (r, s) ≡ after attempt retries start
      → ((j : ℕ) → j < retries → should_retry (after attempt j start).0 ≡ true)
      → i < (loop should_retry attempt left retries slept r s).retries
      → should_retry (after attempt i start).0 ≡ true
  unfolding loop
  loop_earlier zero retries slept r s i e before h = before i h
  loop_earlier (suc left) retries slept r s i e before h = elim (Bool-cases (should_retry r)) [
    | inl again ↦
        loop_earlier left (suc retries) (slept + backoff retries) (attempt s).0 (attempt s).1 i
          (ap (λ (p : R × S). attempt p.1) e)
          (λ j below. elim (dec_lt j retries) [
            | yes p ↦ before j p
            | no p ↦ let same : j ≡ retries = omega arith in rw (same, ← e) again
          ])
          (rw again at h)
    | inr done ↦ before i (rw done at h)
  ]

  -- Every attempt but the last asked for another.
  pub with_retries_earlier :
      (i : ℕ)
      → i < (with_retries should_retry attempt start).retries
      → should_retry (after attempt i start).0 ≡ true
  unfolding with_retries
  with_retries_earlier i h =
      loop_earlier retry_count 0 0 (attempt start).0 (attempt start).1 i refl
        (λ j below. absurd (omega arith)) h

  -- either attempt `i` asked for another, or the loop made no repetition after it
  earlier :
      (i : ℕ)
      → ((with_retries should_retry attempt start).retries ≤ i)
        ⊎ (should_retry (after attempt i start).0 ≡ true)
  earlier i = elim (dec_lt i (with_retries should_retry attempt start).retries) [
    | yes p ↦ inr (with_retries_earlier i p)
    | no p ↦ inl (omega arith)
  ]

  -- The retry loop repeats its attempt three times or fewer, and returns the result and the state of the
  -- last attempt: every attempt before that asked for another, and the last does not, or is the third
  -- repetition. `n` repetitions sleep `n * n` seconds.
  pub with_retries_lem :
      (i : ℕ)
      → let o = with_retries should_retry attempt start in
        (o.retries ≤ 3)
        × ((o.result, o.state) ≡ after attempt o.retries start)
        × (o.slept ≡ o.retries * o.retries)
        × ((o.retries ≤ i) ⊎ (should_retry (after attempt i start).0 ≡ true))
        × ((o.retries ≡ 3) ⊎ (should_retry o.result ≡ false))
  with_retries_lem i =
      let (most, last, pause, why) = with_retries-IsRun in (most, last, pause, earlier i, why)
