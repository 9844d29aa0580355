-- ===== src/Handlers/Router/Updates.antt =====
-- Updates in JSON on a storage that keeps its promise: an accepted one is stored and answered in full,
-- a refused one leaves no trace.
use go_advanced.Base.{◌≡◌, ap, List, ◌∷◌, arith}
use go_advanced.Base.Exec.{returned}
use go_advanced.Entities.{Metric}
use go_advanced.Entities.Errors.{ok}
use go_advanced.Http.{Request, set_header}
use go_advanced.Models
use go_advanced.Storage.{Storage, IsLawful}
use go_advanced.Storage.Spec.{View, update_all_spec, reply, next}
use go_advanced.Handlers.Adapters.{
  Formats, convert_batch_metric_from_update_from_json_request, convert_entity_metrics,
}
use go_advanced.Handlers.Adapters.Admission.{converted-IsAdmitted}
use go_advanced.Storage.Spec.Batches.{update_all_spec-IsTyped}
use go_advanced.Handlers.Adapters.Answers.{admitted-IsTyped, convert_entity_metrics-IsTyped}
use go_advanced.Usecases.{update_metrics}
use go_advanced.Handlers.Router.{encoded, update_batch_response, update_batch_from_json_handler}

module _ (st : Storage) (formats : Formats) (IsReady : st.State → Type 0) (view : st.State → View)
    (lawful : IsLawful st IsReady view) where
  pub update_batch_lem :
      (req : Request) (ms : List Metric) (s : st.State)
      → IsReady s
      → convert_batch_metric_from_update_from_json_request formats req ≡ ok ms
      → (s' : st.State) × (answers : List Metric) × (response : List Models.Metric)
        × (update_batch_from_json_handler st formats req s
            ≡ returned
                (set_header "Content-Type" "application/json"
                  ∷ encoded (formats.encode_metrics response))
                s')
        × (reply (update_all_spec 0 ms (view s)) ≡ ok answers)
        × (convert_entity_metrics answers ≡ ok response)
        × IsReady s'
        × (view s' ≡ next (view s) (update_all_spec 0 ms (view s)))
  unfolding update_batch_from_json_handler update_batch_response update_metrics
  update_batch_lem req ms s h e =
      let admitted = rw e at (converted-IsAdmitted formats req).4 in
      let (s', run, ready, shows) = lawful.update_all_law ms s h in
      let (done, q, typed) = update_all_spec-IsTyped 0 ms (view s) (admitted-IsTyped ms admitted) in
      let (response, c) = convert_entity_metrics-IsTyped done.1 typed in
      (s', done.1, response, ground (arith, e, run, q, c), ap reply q, c, ready, shows)
