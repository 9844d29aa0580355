-- ===== src/Agent/Reporter/Arrival.antt =====
-- A report from end to end: from the maps of the agent to the storage of the server.
use mathlib.Core.Option
use go_advanced.Base.{String, ◌≡◌, ap, ◌∙◌, Option, List, ◌∷◌}
use go_advanced.Base.Exec.{returned}
use go_advanced.Entities.{Gauge, Counter, Metric}
use go_advanced.Entities.Errors.{Result, ok, ◌>>=◌, OnOk}
use go_advanced.GoMap.{GoMap}
use go_advanced.Models
use go_advanced.Http.{Request, Action, set_header}
use go_advanced.Http.Laws.{NoStatus}
use go_advanced.Storage.{Storage, IsLawful}
use go_advanced.Storage.Spec.{View, update_all_spec, reply, next}
use go_advanced.Handlers.Adapters.{Formats, convert_entity_metrics}
use go_advanced.Handlers.Adapters.Reports.{metrics_of, AreNamed, convert_batch-report_metrics}
use go_advanced.Handlers.Router.{encoded, update_batch_from_json_handler}
use go_advanced.Handlers.Router.Updates.{update_batch_lem}
use go_advanced.Middleware.{finish}
use go_advanced.Middleware.Encoding.{Gzip, IsGzip}
use go_advanced.Middleware.Rsa.{encrypt_body}
use go_advanced.Server.Stack.{with_middlewares}
use go_advanced.Agent.Reporter.{report_metrics, build_request}
use go_advanced.Agent.Reporter.Headers.{transported}
use go_advanced.Agent.Reporter.Delivery.{Cipher, AreCiphers, Agree, build_request-IsDelivered}

module _ (st : Storage) (formats : Formats) (IsReady : st.State → Type 0) (view : st.State → View)
    (lawful : IsLawful st IsReady view) (z : Gzip) (hmac : String → String → String)
    (marshal : List Models.Metric → Result String) where
  -- The decoder of the server reads the JSON that the agent wrote.
  abbrev pub IsRead : Type 0
  IsRead =
      (ms : List Models.Metric) (text : String)
      → marshal ms ≡ ok text
      → formats.decode_metrics (ok text) ≡ ok ms

  -- The encoder of the server can write the answer to a report on a storage that shows `v`.
  abbrev pub IsWritten : View → GoMap Gauge → GoMap Counter → Type 0
  IsWritten v gauge counter =
      OnOk (λ response. (text : String) × (formats.encode_metrics response ≡ ok text))
        (reply (update_all_spec 0 (metrics_of gauge counter) v) >>= convert_entity_metrics)

  quiet_answer :
      (v : View) (gauge : GoMap Gauge) (counter : GoMap Counter) (answers : List Metric)
      (response : List Models.Metric)
      → IsWritten v gauge counter
      → reply (update_all_spec 0 (metrics_of gauge counter) v) ≡ ok answers
      → convert_entity_metrics answers ≡ ok response
      → NoStatus
          (set_header "Content-Type" "application/json" ∷ encoded (formats.encode_metrics response))
  quiet_answer v gauge counter answers response written q c =
      let (text, e) = rw (q, c) at written in rw e tt

  -- A report without empty names, which the agent could encode and encrypt, sent to a server whose key
  -- agrees, with a cipher on both sides or on none, on a storage that keeps its promise, where gzip,
  -- the cipher and the JSON decoder read back what was written: the server answers without a call of
  -- `WriteHeader`, and the storage shows every gauge of the report, and every counter grown by that of the report.
  pub report_arrives :
      (s : st.State) (gauge : GoMap Gauge) (counter : GoMap Counter) (key key' body : String)
      (cipher : Option Cipher) (req : Request)
      → IsReady s
      → IsGzip z
      → IsRead
      → IsWritten (view s) gauge counter
      → AreCiphers cipher
      → Agree key key'
      → AreNamed gauge
      → AreNamed counter
      → marshal (report_metrics gauge counter) ≡ ok body
      → build_request z hmac key (Option.map (λ c. encrypt_body c.encrypt) cipher) body ≡ ok req
      → (s' : st.State) × (answer : List Action) × (with_middlewares z hmac key'
            (Option.map (λ c. c.decrypt) cipher)
            (update_batch_from_json_handler st formats)
            (transported req)
            s
          ≡ returned answer s')
        × NoStatus answer
        × IsReady s'
        × (view s' ≡ next (view s) (update_all_spec 0 (metrics_of gauge counter) (view s)))
  report_arrives s gauge counter key key' body cipher req h gzip read written ciphers agree named
        named' text built =
      let d =
        build_request-IsDelivered z hmac (update_batch_from_json_handler st formats) s key key' body
          cipher req gzip ciphers agree built in
      let decoded = ap formats.decode_metrics d.same_body ∙ read _ body text in
      let accepted =
        convert_batch-report_metrics formats gauge counter d.request named named' d.in_json
          decoded in
      let (s', answers, response, run, q, c, ready, shows) =
        update_batch_lem st formats IsReady view lawful d.request (metrics_of gauge counter) s h
          accepted in
      (
        s',
        _,
        d.reached ∙ ap (finish d.answer) run,
        d.quiet _ (quiet_answer (view s) gauge counter answers response written q c),
        ready,
        shows,
      )
