-- ===== src/Retry.antt =====
-- The loop that internal/app/agent/workers/http_retry/retryable_transport.go and
-- internal/storage/pgstorage/transaction.go share: an attempt is repeated, with growing pauses, as
-- long as its result asks for it, three times at most.
pub mod Runs
use go_advanced.Base.{ℕ, zero, suc, ◌+◌, ◌*◌, Bool, if◌then◌else◌}

abbrev pub retry_count : ℕ
retry_count = 3

-- in seconds
abbrev pub backoff : ℕ → ℕ
backoff retries = 1 + 2 * retries

-- the last result, the state of the world, the repetitions and the seconds slept
pub record Retried (R S : Type 0) : Type 0 where
  pub result : R
  pub state : S
  pub retries : ℕ
  pub slept : ℕ

-- the result of attempt `n`, from 0, and the state after it
abbrev pub after : {R S : Type 0} → (S → R × S) → ℕ → S → R × S
after attempt zero s = attempt s
after attempt (suc n) s = attempt (after attempt n s).1

module _ {R S : Type 0} (should_retry : R → Bool) (attempt : S → R × S) where
  -- the loop; `left` is `retryCount - retries`
  unfoldable pub loop : ℕ → ℕ → ℕ → R → S → Retried R S
  loop zero retries slept r s = record { result = r; state = s; retries = retries; slept = slept }
  loop (suc left) retries slept r s =
      let again =
        let (r', s') = attempt s in loop left (suc retries) (slept + backoff retries) r' s' in
      if should_retry r
      then again
      else record { result = r; state = s; retries = retries; slept = slept }

  unfoldable pub with_retries : S → Retried R S
  unfolding loop
  with_retries s = let (r, s') = attempt s in loop retry_count 0 0 r s'
