-- ===== src/Handlers/Adapters/Answers.antt =====
-- The conversion of what a storage answers never fails, once its types are known.
use go_advanced.Base.{ℕ, suc, ◌≡◌, refl, ◌⊎◌, List, [], ◌∷◌, arith}
use go_advanced.Entities.{MetricType, undefined, gauge, counter, other, Metric}
use go_advanced.Entities.Errors.{ok}
use go_advanced.Models
use go_advanced.Storage.Spec.Batches.{IsTyped}
use go_advanced.Handlers.Adapters.{
  convert_by, convert_entity_metric, convert_entity_loop, convert_entity_metrics,
}
use go_advanced.Base.{All}
use go_advanced.Handlers.Adapters.Admission.{IsAdmitted}

convert_by-IsTyped :
    (k : MetricType) (m : Metric)
    → (k ≡ gauge) ⊎ (k ≡ counter)
    → (response : Models.Metric) × (convert_by k m ≡ ok response)
unfolding convert_by
convert_by-IsTyped gauge m typed = (_, refl)
convert_by-IsTyped counter m typed = (_, refl)
convert_by-IsTyped undefined m typed = absurd (ground arith)
convert_by-IsTyped (other n) m typed = absurd (ground arith)

pub convert_entity_metric-IsTyped :
    (m : Metric) → IsTyped m → (response : Models.Metric) × (convert_entity_metric m ≡ ok response)
unfolding convert_entity_metric
convert_entity_metric-IsTyped m = convert_by-IsTyped m.type m

loop-IsTyped :
    (i : ℕ) (ms : List Metric)
    → All IsTyped ms
    → (response : List Models.Metric) × (convert_entity_loop i ms ≡ ok response)
unfolding convert_entity_loop
loop-IsTyped i [] typed = ([], refl)
loop-IsTyped i (m ∷ ms) typed =
    let (first, e) = convert_entity_metric-IsTyped m typed.0 in
    let (rest, e') = loop-IsTyped (suc i) ms typed.1 in (first ∷ rest, rw (e, e') refl)

pub convert_entity_metrics-IsTyped :
    (ms : List Metric)
    → All IsTyped ms
    → (response : List Models.Metric) × (convert_entity_metrics ms ≡ ok response)
unfolding convert_entity_metrics
convert_entity_metrics-IsTyped = loop-IsTyped 0

pub admitted-IsTyped : (ms : List Metric) → All IsAdmitted ms → All IsTyped ms
admitted-IsTyped [] admitted = tt
admitted-IsTyped (m ∷ ms) admitted = (admitted.0.known, admitted-IsTyped ms admitted.1)
