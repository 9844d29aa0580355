-- ===== src/Agent/Reporter/Served.antt =====
-- A report from the agent to the storage, through the routes of the server.
use mathlib.Core.Option
use go_advanced.Base.{
  false, String, ◌≡◌, refl, sym, ap, ◌∙◌, subst, Option, none, some, List, [], ◌∷◌,
}
use go_advanced.Base.Exec.{returned}
use go_advanced.Entities.{Gauge, Counter}
use go_advanced.Entities.Errors.{Result, ok, ok_inj}
use go_advanced.GoMap.{GoMap}
use go_advanced.Models
use go_advanced.Http.{Request, Action, respond, blank, status}
use go_advanced.Http.Laws.{NoStatus, status-NoStatus}
use go_advanced.Storage.{Storage, IsLawful}
use go_advanced.Storage.Spec.{View, update_all_spec, next}
use go_advanced.Handlers.Adapters.{Formats}
use go_advanced.Handlers.Adapters.Reports.{metrics_of, AreNamed}
use go_advanced.Handlers.Router.{update_batch_from_json_handler}
use go_advanced.Handlers.Routes.{MetricsRouter, Chi, IsChi, post}
use go_advanced.Handlers.Routes.Dispatch.{with_all_handlers_lem}
use go_advanced.Middleware.Encoding.{Gzip, IsGzip}
use go_advanced.Middleware.Rsa.{encrypt_body}
use go_advanced.Middleware.Rsa.Keys.{Library}
use go_advanced.Server.Config.{Config}
use go_advanced.Server.Stack.{with_middlewares, create_server}
use go_advanced.Agent.HttpRetry.{should_retry}
use go_advanced.Agent.HttpRetry.Posts.{Client, post-transport}
use go_advanced.Agent.Reporter.{report_url, report_metrics, build_request, report, report_lem}
use go_advanced.Agent.Reporter.Headers.{transported}
use go_advanced.Agent.Reporter.Delivery.{Cipher, AreCiphers, Agree}
use go_advanced.Agent.Reporter.Arrival.{IsRead, IsWritten, report_arrives}
use go_advanced.Agent.Reporter.Keys.{
  reporter_encoder, Between, reporter_encoder_lem, router_of, create_server_lem,
  build_request-url_params,
}

should_retry-answered : should_retry (ok 200) ≡ false
unfolding should_retry
should_retry-answered = refl

module _ (z : Gzip) (hmac : String → String → String) where
  -- A post of the agent to the URL of its reports is a request to the path `/updates/` of the server; if
  -- that is answered with status 200, the answer arrives.
  pub record Reaches {S : Type 0} (client : Client S) (server_address : String) (chi : Chi S)
      (router : MetricsRouter S) : Type 0 where
    pub parsed : client.parse_url (report_url server_address) ≡ none
    pub arrives :
        (req : Request) (s s' : S) (answer : List Action)
        → chi router post ("updates" ∷ "" ∷ []) (transported req) s ≡ returned answer s'
        → status (respond answer blank) ≡ 200
        → client.transport (report_url server_address) req s
          ≡ returned (ok (record { status_code = 200; status = "200 OK"; drained = none })) s'

  module _ (st : Storage) (formats : Formats) (IsReady : st.State → Type 0) (view : st.State → View)
      (lawful : IsLawful st IsReady view) (marshal : List Models.Metric → Result String) where
    -- what the router of the server does with the request of a report
    served :
        (config : Config) (chi : Chi st.State) (s : st.State) (gauge : GoMap Gauge)
        (counter : GoMap Counter) (key body : String) (cipher : Option Cipher) (req : Request)
        → IsChi chi
        → IsReady s
        → IsGzip z
        → IsRead st formats IsReady view lawful z hmac marshal
        → IsWritten st formats IsReady view lawful z hmac marshal (view s) gauge counter
        → AreCiphers cipher
        → Agree key config.key
        → AreNamed gauge
        → AreNamed counter
        → marshal (report_metrics gauge counter) ≡ ok body
        → build_request z hmac key (Option.map (λ c. encrypt_body c.encrypt) cipher) body ≡ ok req
        → (s' : st.State) × (answer : List Action) × (chi
              (router_of z hmac config st formats cipher)
              post
              ("updates" ∷ "" ∷ [])
              (transported req)
              s
            ≡ returned answer s')
          × NoStatus answer
          × IsReady s'
          × (view s' ≡ next (view s) (update_all_spec 0 (metrics_of gauge counter) (view s)))
    served config chi s gauge counter key body cipher req chi_law h gzip read written ciphers agree
          named named' text built =
        let mws = with_middlewares z hmac config.key (Option.map (λ c. c.decrypt) cipher) in
        let (s', answer, run, quiet, ready, shows) =
          report_arrives st formats IsReady view lawful z hmac marshal s gauge counter key
            config.key body cipher req h gzip read written ciphers agree named named' text built in
        let params = build_request-url_params z hmac key body cipher req built in
        let as_routed = λ (p : GoMap String).
          mws (update_batch_from_json_handler st formats)
            (record (transported req) { url_params = p }) s in
        let there =
          with_all_handlers_lem st formats mws chi post ("updates" ∷ "" ∷ []) chi_law tt
            (transported req) s in
        (s', answer, there ∙ ap as_routed (sym params) ∙ run, quiet, ready, shows)

    -- The agent reports maps without empty names to a server that `create_server` has made, on a
    -- storage that keeps its promise. Let chi do as documented, the keys for the HMAC agree, neither
    -- side name a file with a key for the encryption, or both sides be able to load theirs, the agent be
    -- able to encode and encrypt the report, and the client reach the server; let gzip, the keys and the
    -- JSON decoder read back what was written, and the encoder write the answer to this report. Then the server is
    -- there, `report` returns no error, and the storage shows every gauge of the report, and every
    -- counter grown by that of the report.
    pub report_served :
        (lib : Library) (config : Config) (chi : Chi st.State) (client : Client st.State)
        (s : st.State) (gauge : GoMap Gauge) (counter : GoMap Counter)
        (server_address key path body : String) (cipher : Option Cipher)
        (encode : Option (Request → Result Request)) (req : Request)
        → IsChi chi
        → Reaches client server_address chi (router_of z hmac config st formats cipher)
        → IsReady s
        → IsGzip z
        → IsRead st formats IsReady view lawful z hmac marshal
        → IsWritten st formats IsReady view lawful z hmac marshal (view s) gauge counter
        → Between lib path config.crypto_key cipher
        → AreCiphers cipher
        → Agree key config.key
        → AreNamed gauge
        → AreNamed counter
        → marshal (report_metrics gauge counter) ≡ ok body
        → reporter_encoder lib path ≡ ok encode
        → build_request z hmac key encode body ≡ ok req
        → (create_server z hmac lib config st formats
            ≡ some (router_of z hmac config st formats cipher))
          × (s' : st.State) × (report z hmac client marshal server_address key encode gauge counter
                s
              ≡ returned none s')
          × IsReady s'
          × (view s' ≡ next (view s) (update_all_spec 0 (metrics_of gauge counter) (view s)))
    report_served lib config chi client s gauge counter server_address key path body cipher encode
          req chi_law reaches h gzip read written between ciphers agree named named' text loaded
          built =
        let same =
          ok_inj (sym loaded ∙ reporter_encoder_lem lib path config.crypto_key cipher between) in
        let built' = subst (λ e. build_request z hmac key e body ≡ ok req) same built in
        let (s', answer, run, quiet, ready, shows) =
          served config chi s gauge counter key body cipher req chi_law h gzip read written ciphers
            agree named named' text built' in
        let fine = status-NoStatus answer blank quiet refl in
        let arrived =
          post-transport client (report_url server_address) req s s' _
            (reaches.arrives req s s' answer run fine) should_retry-answered in
        (
          create_server_lem z hmac lib config path cipher st formats between,
          s',
          report_lem z hmac client marshal server_address key body encode gauge counter req s s' _
              text reaches.parsed built arrived,
          ready,
          shows,
        )
