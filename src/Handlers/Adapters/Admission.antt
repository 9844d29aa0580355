-- ===== src/Handlers/Adapters/Admission.antt =====
-- What the adapters let through, and that an answer of a storage can be converted back.
use go_advanced.Base.{
  All, ℕ, suc, ◌≡◌, refl, ◌⊎◌, false, List, [], ◌∷◌, arith, is_empty, str_eq_iff, inl, inr,
}
use go_advanced.Entities.{MetricType, undefined, gauge, counter, other, Metric}
use go_advanced.Entities.Errors.{ok, OnOk, Result-cases}
use go_advanced.Http.{Request, get}
use go_advanced.Models
use go_advanced.Handlers.Adapters.{
  Formats, convert_metric_type, convert_metric_name, fill_batch, batch_loop,
  convert_metric_from_get_as_json_request, convert_metric_from_update_from_json_request,
  convert_batch_metric_from_update_from_json_request, convert_metric_from_update_from_url_request,
  convert_metric_from_get_as_text_request, convert_entity_metric,
}

-- A metric that the usecases can be given: of a known type, with a name.
pub record IsAdmitted (m : Metric) : Type 0 where
  pub known : (m.type ≡ gauge) ⊎ (m.type ≡ counter)
  pub named : is_empty m.name ≡ false

pub get_as_text-IsAdmitted :
    (req : Request) → OnOk IsAdmitted (convert_metric_from_get_as_text_request req)
unfolding convert_metric_from_get_as_text_request
get_as_text-IsAdmitted req = ground arith

get_as_json-IsAdmitted :
    (formats : Formats) (req : Request)
    → OnOk IsAdmitted (convert_metric_from_get_as_json_request formats req)
unfolding convert_metric_from_get_as_json_request
get_as_json-IsAdmitted formats req = ground arith

update_from_json-IsAdmitted :
    (formats : Formats) (req : Request)
    → OnOk IsAdmitted (convert_metric_from_update_from_json_request formats req)
unfolding convert_metric_from_update_from_json_request
update_from_json-IsAdmitted formats req = ground arith

update_from_url-IsAdmitted :
    (formats : Formats) (req : Request)
    → OnOk IsAdmitted (convert_metric_from_update_from_url_request formats req)
unfolding convert_metric_from_update_from_url_request
update_from_url-IsAdmitted formats req = ground arith

batch_loop-IsAdmitted :
    (i : ℕ) (metrics : List Models.Metric) → OnOk (All IsAdmitted) (batch_loop i metrics)
unfolding batch_loop convert_metric_type convert_metric_name fill_batch
batch_loop-IsAdmitted i [] = tt
batch_loop-IsAdmitted i (metric ∷ metrics) = ground (arith, batch_loop-IsAdmitted (suc i) metrics)

batch-IsAdmitted :
    (formats : Formats) (req : Request)
    → OnOk (All IsAdmitted) (convert_batch_metric_from_update_from_json_request formats req)
unfolding convert_batch_metric_from_update_from_json_request
batch-IsAdmitted formats req = elim (Result-cases (formats.decode_metrics req.body)) [
  | inl (metrics, e) ↦ ground (arith, batch_loop-IsAdmitted 0 metrics)
  | inr (x, e) ↦ ground arith
]

-- Every request that an adapter accepts, in JSON, in a batch, as text or in the URL, becomes a gauge
-- or a counter with a name that is not empty.
pub converted-IsAdmitted :
    (formats : Formats) (req : Request)
    → OnOk IsAdmitted (convert_metric_from_get_as_json_request formats req)
      × OnOk IsAdmitted (convert_metric_from_get_as_text_request req)
      × OnOk IsAdmitted (convert_metric_from_update_from_json_request formats req)
      × OnOk IsAdmitted (convert_metric_from_update_from_url_request formats req)
      × OnOk (All IsAdmitted) (convert_batch_metric_from_update_from_json_request formats req)
converted-IsAdmitted formats req = (
  get_as_json-IsAdmitted formats req,
  get_as_text-IsAdmitted req,
  update_from_json-IsAdmitted formats req,
  update_from_url-IsAdmitted formats req,
  batch-IsAdmitted formats req,
)

-- An answer of a storage: the field of the other type is zero.
abbrev pub IsAnswer : Metric → Type 0
IsAnswer m = ((m.type ≡ gauge) × (m.delta ≡ 0)) ⊎ ((m.type ≡ counter) × (m.value ≡ 0))

back_by_type :
    (k : MetricType) (formats : Formats) (req : Request) (m : Metric)
    → m.type ≡ k
    → IsAnswer m
    → is_empty m.name ≡ false
    → get "Content-Type" req.header ≡ "application/json"
    → formats.decode_metric req.body ≡ convert_entity_metric m
    → convert_metric_from_update_from_json_request formats req ≡ ok m
unfolding convert_entity_metric convert_metric_from_update_from_json_request
back_by_type undefined formats req m e answer named json body = absurd (ground arith)
back_by_type gauge formats req m e answer named json body =
    ground (arith, str_eq_iff (get "Content-Type" req.header) "application/json")
back_by_type counter formats req m e answer named json body =
    ground (arith, str_eq_iff (get "Content-Type" req.header) "application/json")
back_by_type (other n) formats req m e answer named json body = absurd (ground arith)

-- What the server answers in JSON for a metric with a name that is not empty, whose field of the other
-- type is zero, is accepted and read as the same metric when the body of an update with the JSON
-- content type decodes to it.
pub convert_update-convert_entity :
    (formats : Formats) (req : Request) (m : Metric)
    → IsAnswer m
    → is_empty m.name ≡ false
    → get "Content-Type" req.header ≡ "application/json"
    → formats.decode_metric req.body ≡ convert_entity_metric m
    → convert_metric_from_update_from_json_request formats req ≡ ok m
convert_update-convert_entity formats req m = back_by_type m.type formats req m refl
