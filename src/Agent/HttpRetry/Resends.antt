-- ===== src/Agent/HttpRetry/Resends.antt =====
-- Every repetition sends the whole body again, and the last answer is the one that is returned.
use go_advanced.Base.{
  ℕ, zero, suc, ◌≤◌, ◌≡◌, refl, ap, ◌∙◌, ◌⊎◌, String, false, Option, some, ◌∷◌, ◌++◌, replicate,
}
use go_advanced.Entities.Errors.{Result, ok}
use go_advanced.Retry.{with_retries, after}
use go_advanced.Retry.Runs.{with_retries-IsRun}
use go_advanced.Agent.HttpRetry.{Wire, should_retry, attempt, round_trip}

module _ {W : Type 0} (transport : Option String → W → Result ℕ × W) where
  after-sent :
      (body : Option String) (w : Wire W) (n : ℕ)
      → (after (attempt transport body) n w).1.sent ≡ replicate (suc n) body ++ w.sent
  unfolding attempt
  after-sent body w zero = refl
  after-sent body w (suc n) = ap (◌∷◌ body) (after-sent body w n)

  -- A request with a body is sent once and then three times more at most, each time with the whole
  -- body, until the answer is neither an error nor one of the statuses 502, 503 and 504; the answer to
  -- the last sending is returned.
  pub round_trip_lem :
      (body : String) (w : Wire W)
      → let send = attempt transport (some body) in
        let (res, w') = round_trip transport (some (ok body)) w in
        (n : ℕ) × (n ≤ 3)
        × ((res, w') ≡ after send n w)
        × (w'.sent ≡ replicate (suc n) (some body) ++ w.sent)
        × ((n ≡ 3) ⊎ (should_retry res ≡ false))
  unfolding round_trip
  round_trip_lem body w =
      let send = attempt transport (some body) in
      let o = with_retries should_retry send w in
      let (most, last, _, why) = with_retries-IsRun should_retry send w in
      (
        o.retries,
        most,
        last,
        ap (λ (p : Result ℕ × Wire W). p.1.sent) last ∙ after-sent (some body) w o.retries,
        why,
      )
