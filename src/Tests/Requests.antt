-- ===== src/Tests/Requests.antt =====
-- Requests and responses of the server.
use go_advanced.Base.{◌≡◌, refl, ◌≢◌, inr, none, some, List, [], ◌∷◌, arith, str_eq_iff}
use go_advanced.Base.Exec.{returned}
use go_advanced.Entities.{counter, Metric}
use go_advanced.Entities.Errors.{ok, OnOk}
use go_advanced.GoMap.{lookup, get_or}
use go_advanced.Http.{Request, Action, set_header, write, respond, blank, http_error}
use go_advanced.Handlers.Adapters.{
  convert_metric_from_get_as_text_request, convert_metric_from_update_from_url_request,
  convert_metric_from_get_as_json_request, convert_metric_from_update_from_json_request,
  convert_batch_metric_from_update_from_json_request, convert_entity_metric,
}
use go_advanced.Base.{All}
use go_advanced.Handlers.Adapters.Admission.{
  IsAdmitted, converted-IsAdmitted, convert_update-convert_entity,
}
use go_advanced.Base.{String, ◌⊎◌, suc}
use go_advanced.Middleware.Integrity.Guards.{IsRefused, integrity_guards}
use go_advanced.Middleware.Integrity.{integrity, integrity_key, signed}
use go_advanced.Middleware.Integrity.Signatures.{signature, unsigned_response}
use go_advanced.Models
use go_advanced.Tests.Fixtures.{formats, hmac}

-- an update of a counter, and a read of it, through the URL
abbrev url_request : Request
url_request = record {
  header = [];
  body = ok "";
  url_params = ("type", "counter") ∷ ("name", "a") ∷ ("value", "5") ∷ [];
}

abbrev json_request : Request
json_request = record {
  header = ("Content-Type", "application/json") ∷ [];
  body = ok "{}";
  url_params = [];
}

abbrev five : Metric
five = record { type = counter; name = "a"; value = 0; delta = 5 }

abbrev asked : Metric
asked = record { type = counter; name = "a"; value = 0; delta = 0 }

abbrev three : Metric
three = record { type = counter; name = "a"; value = 0; delta = 3 }

converted-IsAdmitted_example :
    OnOk IsAdmitted (convert_metric_from_get_as_json_request formats url_request)
    × OnOk IsAdmitted (convert_metric_from_get_as_text_request url_request)
    × OnOk IsAdmitted (convert_metric_from_update_from_json_request formats url_request)
    × OnOk IsAdmitted (convert_metric_from_update_from_url_request formats url_request)
    × OnOk (All IsAdmitted) (convert_batch_metric_from_update_from_json_request formats url_request)
converted-IsAdmitted_example = converted-IsAdmitted formats url_request

three_body : formats.decode_metric json_request.body ≡ convert_entity_metric three
unfolding convert_entity_metric
three_body = refl

json_header : get_or "" "Content-Type" json_request.header ≡ "application/json"
unfolding get_or lookup
json_header = refl

convert_update-convert_entity_example :
    convert_metric_from_update_from_json_request formats json_request ≡ ok three
convert_update-convert_entity_example =
    convert_update-convert_entity formats json_request three (inr (refl, refl)) refl json_header
      three_body

abbrev page : List Action
page = set_header "Content-Type" "text/html" ∷ write "a" ∷ write "b" ∷ []

type_is_not_key : "Content-Type" ≢ integrity_key
type_is_not_key = ground (arith, str_eq_iff "Content-Type" integrity_key)

sniff_is_not_key : "X-Content-Type-Options" ≢ integrity_key
sniff_is_not_key = ground (arith, str_eq_iff "X-Content-Type-Options" integrity_key)

unsigned_response_example :
    signature (respond (signed hmac "key" (http_error "a" 404)) blank) ≡ none
unsigned_response_example =
    unsigned_response hmac "key" (http_error "a" 404) (type_is_not_key, (sniff_is_not_key, tt))

abbrev batch_request : Request
batch_request = record {
  header = ("Content-Type", "application/json") ∷ [];
  body = ok "a";
  url_params = [];
}

abbrev one : Metric
one = record { type = counter; name = "a"; value = 0; delta = 1 }

abbrev signed_request : Request
signed_request = record { header = ("HashSHA256", "sum") ∷ []; body = ok "[]"; url_params = [] }

signed_header : lookup integrity_key signed_request.header ≡ some "sum"
unfolding lookup
signed_header = refl

integrity_guards_example :
    ((text : String) × (signed_request.body ≡ ok text) × (hmac "key" text ≡ "sum"))
    ⊎ IsRefused 0 (integrity hmac "key" (λ req s. returned [] (suc s)) signed_request 0)
integrity_guards_example =
    integrity_guards hmac "key" (λ req s. returned [] (suc s)) signed_request 0 "sum" refl
      signed_header
