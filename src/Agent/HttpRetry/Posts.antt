-- ===== src/Agent/HttpRetry/Posts.antt =====
-- internal/app/agent/workers/http_retry/retryable_transport.go under the client of a reporter, which
-- internal/app/agent/workers/reporter.go makes: `httpClient.Do` on a request goes to `RoundTrip`. The
-- bodies of the requests of a reporter are in memory, and can be read.
use go_advanced.Base.{ℕ, String, Bool, false, ◌≡◌, refl, Option, none, some}
use go_advanced.Base.Exec.{Outcome, Call, returned, blocked}
use go_advanced.Entities.Errors.{Error, Result, ok, err}
use go_advanced.Http.{Request}
use go_advanced.Retry.{loop, with_retries}
use go_advanced.Agent.HttpRetry.{should_retry}

-- what is used of an `http.Response`; `drained` is the error of reading its body to the end
pub record HttpResponse : Type 0 where
  pub status_code : ℕ
  pub status : String
  pub drained : Option Error

-- `parse_url` is the test of the URL in `http.NewRequest`, and `transport` is what `http.Transport`
-- does with a request to a URL.
pub record Client (W : Type 0) : Type 0 where
  pub parse_url : String → Option Error
  pub transport : String → Request → Call W (Result HttpResponse)

-- what `shouldRetry` looks at
abbrev pub code_of : Result HttpResponse → Result ℕ
code_of (ok res) = ok res.status_code
code_of (err e) = err e

-- an attempt that never returns is not repeated
abbrev pub asks_again : Option (Result HttpResponse) → Bool
asks_again none = false
asks_again (some res) = should_retry (code_of res)

abbrev pub tried : {W A : Type 0} → Outcome W A → Option A × W
tried (returned a w) = (some a, w)
tried (blocked w) = (none, w)

abbrev pub outcome : {W A : Type 0} → Option A → W → Outcome W A
outcome (some a) w = returned a w
outcome none w = blocked w

module _ {W : Type 0} (client : Client W) where
  -- `httpClient.Do`, which sends the request by `RoundTrip`
  unfoldable pub post : String → Request → Call W (Result HttpResponse)
  post url req w =
      let o = with_retries asks_again (λ w'. tried (client.transport url req w')) w in
      outcome o.result o.state

  -- An answer that does not ask for another attempt is the answer of the post.
  pub post-transport :
      (url : String) (req : Request) (w w' : W) (res : Result HttpResponse)
      → client.transport url req w ≡ returned res w'
      → should_retry (code_of res) ≡ false
      → post url req w ≡ returned res w'
  unfolding post with_retries loop
  post-transport url req w w' res run enough = rw (run, enough) refl
