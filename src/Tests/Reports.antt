-- ===== src/Tests/Reports.antt =====
-- Reports of the agent.
use mathlib.Core.Option
use go_advanced.Base.{◌≤◌, ◌*◌, ◌⊎◌, true, false, ℕ, suc, ◌%◌, ◌≡◌, refl, Bool, some, [], ◌∷◌, ltb}
use go_advanced.Base.Exec.{returned}
use go_advanced.Base.Word.{int64_mod}
use go_advanced.Entities.Errors.{ok}
use go_advanced.GoMap.{insert, get_or}
use go_advanced.Http.{Request}
use go_advanced.Middleware.Rsa.{encrypt_body}
use go_advanced.Agent.Reporter.{build_request, with_sum}
use go_advanced.Agent.Poller.{Metrics, Poller, new_poller, get, poll_runtime_metrics}
use go_advanced.Agent.Poller.Totals.{polls, get-polls}
use go_advanced.Retry.{with_retries, after}
use go_advanced.Retry.Runs.{with_retries_lem}
use go_advanced.Agent.Reporter.{report_metrics}
use go_advanced.Tests.Fixtures.{marshal, gzip, cipher, hmac}

-- an attempt that fails twice
abbrev counted : ℕ → Bool × ℕ
counted n = (ltb n 2, suc n)

with_retries_lem_example :
    let o = with_retries (λ b. b) counted 0 in
    (o.retries ≤ 3)
    × ((o.result, o.state) ≡ after counted o.retries 0)
    × (o.slept ≡ o.retries * o.retries)
    × ((o.retries ≤ 1) ⊎ ((after counted 1 0).0 ≡ true))
    × ((o.retries ≡ 3) ⊎ (o.result ≡ false))
with_retries_lem_example = with_retries_lem (λ b. b) counted 0 1

get-polls_example :
    (p : Poller) × (m : Metrics) × (polls (poll_runtime_metrics (λ n. 1) 7) 2 new_poller
      ≡ returned tt p)
    × (get p ≡ returned (2 % int64_mod, m) p)
    × (get_or 0 "PollCount" m.counter ≡ 2 % int64_mod)
get-polls_example = get-polls (λ n. 1) 7 2

-- a report of one counter at 1, signed with "key" and encrypted
abbrev pub counter_request : Request
counter_request = record {
  header = insert "Content-Type" "application/octet-stream" (
      with_sum "key!PollCount"
        (insert "Content-Encoding" "gzip" (insert "Content-Type" "application/json" [])));
  body = ok "!!PollCount";
  url_params = [];
}

pub counter_built :
    build_request gzip hmac "key"
      (Option.map (λ c. encrypt_body c.encrypt) (some cipher))
      "PollCount"
    ≡ ok counter_request
unfolding build_request encrypt_body insert
counter_built = refl

pub counter_marshalled : marshal (report_metrics [] (("PollCount", 1) ∷ [])) ≡ ok "PollCount"
unfolding marshal report_metrics
counter_marshalled = refl
