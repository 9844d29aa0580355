-- ===== src/Handlers/Router.antt =====
-- internal/handlers/metrics_router.go: one function for each endpoint. A handler reads a request,
-- calls the use cases, and gives the list of its calls on the response writer. The writer itself is
-- taken not to fail.
pub mod Reads
pub mod Updates
pub mod Page
use go_advanced.Base.{
  ℕ, zero, suc, String, Bool, true, false, Option, none, some, List, [], ◌∷◌, ◌++◌, length, ◌<>◌,
  if◌then◌else◌,
}
use go_advanced.Base.Decimal.{itoa}
use go_advanced.Base.Exec.{Call, returned, blocked, pure, ◌>>=◌}
use go_advanced.Entities.{MetricType, gauge, counter, Metric, type_text}
use go_advanced.Entities.Errors.{
  Error, internal, error_text, on_chain, is_empty_metric_name, is_json_request_expected,
  is_missing_value, is_missing_delta, is_invalid_metric_type, is_metric_name_not_found,
  is_metric_value_is_not_valid, is_json_request_decode, is_internal, Result, ok, err,
}
use go_advanced.Http.{Request, Action, set_header, write_header, write, http_error, not_found}
use go_advanced.Models
use go_advanced.Storage.{Storage}
use go_advanced.Usecases
use go_advanced.Usecases.{DumpRow, IteratableDump, next_metric}
use go_advanced.Handlers.Adapters.{
  Formats, convert_metric_from_get_as_json_request, convert_metric_from_get_as_text_request,
  convert_metric_from_update_from_json_request, convert_batch_metric_from_update_from_json_request,
  convert_metric_from_update_from_url_request, convert_entity_metric, convert_entity_metrics,
}

unfoldable pub handle_as_internal_server_error : Error → List Action
handle_as_internal_server_error e = http_error (error_text e) 500

unfoldable pub handle_getter_error : Error → List Action
handle_getter_error e =
    if on_chain is_json_request_expected e
    then http_error (error_text e) 400
    else if on_chain is_empty_metric_name e
    then not_found
    else if on_chain is_invalid_metric_type e
    then not_found
    else if on_chain is_metric_name_not_found e
    then not_found
    else if on_chain is_json_request_decode e
    then http_error (error_text e) 400
    else if on_chain is_internal e
    then http_error (error_text e) 500
    else http_error (error_text e) 500

unfoldable pub handle_update_error : Error → List Action
handle_update_error e =
    if on_chain is_json_request_expected e
    then http_error (error_text e) 400
    else if on_chain is_invalid_metric_type e
    then http_error (error_text e) 400
    else if on_chain is_empty_metric_name e
    then not_found
    else if on_chain is_metric_value_is_not_valid e
    then http_error (error_text e) 400
    else if on_chain is_missing_value e
    then http_error (error_text e) 400
    else if on_chain is_missing_delta e
    then http_error (error_text e) 400
    else if on_chain is_json_request_decode e
    then http_error (error_text e) 400
    else if on_chain is_internal e
    then http_error (error_text e) 500
    else http_error (error_text e) 500

-- `fmt.Sprintf(rowTemplate, type_, name, value)`
abbrev row_text : DumpRow → String
row_text r =
    "\n\t\t<tr>\n\t\t\t<td>" <> r.type <> "</td>\n\t\t\t<td>" <> r.name <> "</td>\n\t\t\t<td>"
    <> r.value <> "</td>\n\t\t</tr>"

-- `fmt.Sprintf(docTemplate, rows)`
abbrev pub doc_text : String → String
doc_text rows =
    "<!DOCTYPE html>\n<title>Metrics</title>\n<body>\n\t<table>\n\t\t<tr>\n\t\t\t<th>type</th>\n\t\t\t<th>key</th>\n\t\t\t<th>value</th>\n\t\t</tr>"
    <> rows <> "\n\t</table>\n</body>\n"

-- the loop over the iterator, with fuel
pub collect_rows : ℕ → IteratableDump → String → String
collect_rows zero d rows = rows
collect_rows (suc fuel) d rows =
    let (row, d') = next_metric d in
    elim row [ none ↦ rows | some r ↦ collect_rows fuel d' (rows <> row_text r) ]

-- `json.NewEncoder(res).Encode(response)` and what follows: nothing is written where the encoder fails
abbrev pub encoded : Result String → List Action
encoded (ok text) = write text ∷ []
encoded (err e) = handle_as_internal_server_error e

-- the body of the text answer, by the type of the metric
pub text_answer : MetricType → (ℕ → String) → Metric → Result String
text_answer gauge print m = ok (print m.value)
text_answer counter print m = ok (itoa m.delta)
text_answer t print m = err (internal ("unexpected internal metric type: " <> type_text t))

-- the end of `getAsTextHandler`; the header is set after the body is written
abbrev pub text_response : Result String → List Action
text_response (ok text) = write text ∷ set_header "Content-Type" "text/plain; charset=utf-8" ∷ []
text_response (err e) = handle_getter_error e

-- the end of `updateFromJSONHandler`: after an error the handler goes on, with a nil response
pub update_response : Formats → Result Models.Metric → List Action
update_response formats (ok response) =
    set_header "Content-Type" "application/json" ∷ encoded (formats.encode_metric response)
update_response formats (err e) =
    handle_update_error e ++ set_header "Content-Type" "application/json" ∷ write "null\n" ∷ []

-- the end of `updateBatchFromJSONHandler`, which goes on in the same way
pub update_batch_response : Formats → Result (List Models.Metric) → List Action
update_batch_response formats (ok response) =
    set_header "Content-Type" "application/json" ∷ encoded (formats.encode_metrics response)
update_batch_response formats (err e) =
    handle_update_error e ++ set_header "Content-Type" "application/json" ∷ write "null\n" ∷ []

-- the end of `getAsJSONHandler`
pub get_response : Formats → Result Models.Metric → List Action
get_response formats (ok response) =
    set_header "Content-Type" "application/json" ∷ encoded (formats.encode_metric response)
get_response formats (err e) = handle_getter_error e

-- the end of `mainPageHandler`; one round of the loop for each row, and one to see the end
pub main_page_response : Result IteratableDump → List Action
main_page_response (err e) = handle_as_internal_server_error e
main_page_response (ok d) =
    set_header "Content-Type" "text/html"
    ∷ write (doc_text (collect_rows (suc (length d.rows)) d ""))
    ∷ []

abbrev ping_response : Option Error → List Action
ping_response (some e) = handle_as_internal_server_error e
ping_response none = set_header "Content-Type" "text/plain; charset=utf-8" ∷ write_header 200 ∷ []

module _ (st : Storage) (formats : Formats) where
  unfoldable pub main_page_handler : Request → Call st.State (List Action)
  unfolding main_page_response Usecases.dump_iterator
  main_page_handler req = do
    dump ← Usecases.dump_iterator st formats.print_gauge
    pure (main_page_response dump)

  -- runs a use case on what an adapter made of the request
  abbrev with_valid :
      {M A : Type 0}
      → (Error → List Action)
      → (M → Call st.State (Result A))
      → (A → List Action)
      → Result M
      → Call st.State (List Action)
  with_valid handle_error usecase respond (err e) s = returned (handle_error e) s
  with_valid handle_error usecase respond (ok m) s = elim (usecase m s) [
    | returned (ok a) s' ↦ returned (respond a) s'
    | returned (err e) s' ↦ returned (handle_error e) s'
    | blocked s' ↦ blocked s'
  ]

  unfoldable pub get_as_json_handler : Request → Call st.State (List Action)
  unfolding get_response Usecases.get_metric
  get_as_json_handler req =
      with_valid handle_getter_error (Usecases.get_metric st)
        (λ m. get_response formats (convert_entity_metric m))
        (convert_metric_from_get_as_json_request formats req)

  unfoldable pub get_as_text_handler : Request → Call st.State (List Action)
  unfolding text_answer Usecases.get_metric
  get_as_text_handler req =
      with_valid handle_getter_error (Usecases.get_metric st)
        (λ m. text_response (text_answer m.type formats.print_gauge m))
        (convert_metric_from_get_as_text_request req)

  unfoldable pub update_from_json_handler : Request → Call st.State (List Action)
  unfolding update_response Usecases.update_metric
  update_from_json_handler req =
      with_valid handle_update_error (Usecases.update_metric st)
        (λ m. update_response formats (convert_entity_metric m))
        (convert_metric_from_update_from_json_request formats req)

  unfoldable pub update_batch_from_json_handler : Request → Call st.State (List Action)
  unfolding update_batch_response Usecases.update_metrics
  update_batch_from_json_handler req =
      with_valid handle_update_error (Usecases.update_metrics st)
        (λ ms. update_batch_response formats (convert_entity_metrics ms))
        (convert_batch_metric_from_update_from_json_request formats req)

  unfoldable pub update_from_url_handler : Request → Call st.State (List Action)
  unfolding Usecases.update_metric
  update_from_url_handler req =
      with_valid handle_update_error (Usecases.update_metric st)
        (λ m. set_header "Content-Type" "text/plain; charset=utf-8" ∷ [])
        (convert_metric_from_update_from_url_request formats req)

  unfoldable pub ping_handler : Request → Call st.State (List Action)
  unfolding Usecases.ping
  ping_handler req = do e ← Usecases.ping st; pure (ping_response e)
