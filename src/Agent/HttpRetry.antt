-- ===== src/Agent/HttpRetry.antt =====
-- internal/app/agent/workers/http_retry/retryable_transport.go: a request is sent again while the
-- transport fails or the server is away. `transport` is `http.Transport`: a state that we do not see,
-- and the status of the response or an error.
pub mod Resends
pub mod Posts
use go_advanced.Base.{ℕ, String, Bool, true, List, ◌∷◌, ◌||◌, Option, none, some, ◌==◌}
use go_advanced.Entities.Errors.{Error, Result, ok, err}
use go_advanced.Retry.{Retried, with_retries}

unfoldable pub should_retry : Result ℕ → Bool
should_retry (err e) = true
should_retry (ok code) = code == 502 || code == 503 || code == 504

-- the world, and the bodies sent so far, the last first
pub record Wire (W : Type 0) : Type 0 where
  pub world : W
  pub sent : List (Option String)

module _ {W : Type 0} (transport : Option String → W → Result ℕ × W) where
  -- one attempt; the body is that of the request, rebuilt from `bodyBytes`
  unfoldable pub attempt : Option String → Wire W → Result ℕ × Wire W
  attempt body w =
      let (res, world) = transport body w.world in
      (res, record { world = world; sent = body ∷ w.sent })

  -- `RoundTrip`: reads the body, if there is one, and fails at once where that fails
  unfoldable pub round_trip : Option (Result String) → Wire W → Result ℕ × Wire W
  unfolding attempt
  round_trip none w = let o = with_retries should_retry (attempt none) w in (o.result, o.state)
  round_trip (some (err e)) w = (err e, w)
  round_trip (some (ok body_bytes)) w =
      let o = with_retries should_retry (attempt (some body_bytes)) w in (o.result, o.state)
