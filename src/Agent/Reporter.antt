-- ===== src/Agent/Reporter.antt =====
-- internal/app/agent/workers/reporter.go: one report, from the polled metrics to the request. The
-- client posts it over the transport that retries.
pub mod Headers
pub mod Delivery
pub mod Arrival
pub mod Keys
pub mod Served
use go_advanced.Base.{
  ℕ, String, Option, none, some, List, [], ◌∷◌, ◌++◌, map, is_empty, ◌==◌, ◌≡◌, arith, ◌<>◌,
  if◌then◌else◌,
}
use go_advanced.Base.Exec.{Call, returned, blocked}
use go_advanced.Entities.{Gauge, Counter}
use go_advanced.Entities.Errors.{Error, context, library, Result, ok, err, ◌>>=◌}
use go_advanced.GoMap.{GoMap, insert}
use go_advanced.Http.{Request}
use go_advanced.Agent.HttpRetry.Posts.{HttpResponse, Client, post}
use go_advanced.Middleware.Encoding.{Gzip}
use go_advanced.Models

-- the two loops of `report`, in the order of `range`
unfoldable pub report_metrics : GoMap Gauge → GoMap Counter → List Models.Metric
report_metrics gauge counter =
    map (λ e. record { id = e.0; m_type = "gauge"; delta = none; value = some e.1 }) gauge
    ++ map (λ e. record { id = e.0; m_type = "counter"; delta = some e.1; value = none }) counter

-- the header `HashSHA256`, if there is a sum
abbrev pub with_sum : String → GoMap String → GoMap String
with_sum hex_sum header = if is_empty hex_sum then header else insert "HashSHA256" hex_sum header

abbrev context_of : String → {A : Type 0} → Result A → Result A
context_of message (ok a) = ok a
context_of message (err e) = err (context message e)

-- `r.encoder(req)`, where there is an encoder
abbrev encode_with : Option (Request → Result Request) → Request → Result Request
encode_with none req = ok req
encode_with (some encoder) req = context_of "rsa encode" (encoder req)

module _ (z : Gzip) (hmac : String → String → String) where
  -- the first half of `reportToURL`: the request
  unfoldable pub build_request :
      String → Option (Request → Result Request) → String → Result Request
  build_request key encoder body =
      let compressed_body = z.head <> z.rest body in
      let hex_sum = if is_empty key then "" else hmac key compressed_body in
      encode_with encoder (record {
        header =
            with_sum hex_sum
              (insert "Content-Encoding" "gzip" (insert "Content-Type" "application/json" []));
        body = ok compressed_body;
        url_params = [];
      })

-- the end of `reportToURL`: the status decides
abbrev pub checked_status : String → HttpResponse → Option Error
checked_status url res =
    if res.status_code == 200
    then none
    else some (library ("POST " <> url <> " returns " <> res.status))

abbrev pub checked : String → Result HttpResponse → Option Error
checked url (err e) = some (context "httpClient.Do()" e)
checked url (ok res) = elim res.drained [
  | none ↦ checked_status url res
  | some e ↦ some (context "io.Copy()" e)
]

-- the URL that `report` posts to
abbrev pub report_url : String → String
report_url server_address = "http://" <> server_address <> "/updates/"

module _ (z : Gzip) (hmac : String → String → String) {W : Type 0} (client : Client W) where
  abbrev sent : String → Result Request → Call W (Option Error)
  sent url (err e) w = returned (some e) w
  sent url (ok req) w = elim (post client url req w) [
    | returned res w' ↦ returned (checked url res) w'
    | blocked w' ↦ blocked w'
  ]

  -- `reportToURL`
  unfoldable pub report_to_url :
      String → String → Option (Request → Result Request) → String → Call W (Option Error)
  report_to_url url key encoder body w = elim (client.parse_url url) [
    | some e ↦ returned (some (context "http.NewRequest()" e)) w
    | none ↦ sent url (build_request z hmac key encoder body) w
  ]

  abbrev report_body :
      String → String → Option (Request → Result Request) → Result String → Call W (Option Error)
  report_body url key encoder (err e) w = returned (some e) w
  report_body url key encoder (ok body) w = report_to_url url key encoder body w

  -- `report`; `marshal` is `json.Marshal`
  unfoldable pub report :
      (List Models.Metric → Result String)
      → String
      → String
      → Option (Request → Result Request)
      → GoMap Gauge
      → GoMap Counter
      → Call W (Option Error)
  unfolding report_to_url
  report marshal server_address key encoder gauge counter =
      report_body (report_url server_address) key encoder (marshal (report_metrics gauge counter))

  post_report :
      (url key body : String) (encoder : Option (Request → Result Request)) (req : Request)
      (w w' : W) (res : Result HttpResponse)
      → client.parse_url url ≡ none
      → build_request z hmac key encoder body ≡ ok req
      → post client url req w ≡ returned res w'
      → report_to_url url key encoder body w ≡ returned (checked url res) w'
  unfolding report_to_url
  post_report url key body encoder req w w' res parsed built run =
      ground (arith, parsed, built, run)

  -- What comes of a report that can be encoded and sent.
  pub report_lem :
      (marshal : List Models.Metric → Result String) (server_address key body : String)
      (encoder : Option (Request → Result Request)) (gauge : GoMap Gauge) (counter : GoMap Counter)
      (req : Request) (w w' : W) (res : Result HttpResponse)
      → marshal (report_metrics gauge counter) ≡ ok body
      → client.parse_url (report_url server_address) ≡ none
      → build_request z hmac key encoder body ≡ ok req
      → post client (report_url server_address) req w ≡ returned res w'
      → report marshal server_address key encoder gauge counter w
        ≡ returned (checked (report_url server_address) res) w'
  unfolding report
  report_lem marshal address key body encoder gauge counter req w w' res text parsed built run =
      rw text (post_report (report_url address) key body encoder req w w' res parsed built run)
