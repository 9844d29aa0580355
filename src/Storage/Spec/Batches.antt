-- ===== src/Storage/Spec/Batches.antt =====
-- A batch of gauges and counters, in the specification of a storage.
use go_advanced.Base.{ℕ, suc, ◌≡◌, refl, ◌⊎◌, inl, inr, List, [], ◌∷◌, arith, All}
use go_advanced.Entities.{MetricType, undefined, gauge, counter, other, Metric}
use go_advanced.Entities.Errors.{Error, ok}
use go_advanced.Storage.Spec.{
  View, update_by, update_spec, update_all_spec, unexpected_at, unexpected, next,
}

-- a gauge or a counter
abbrev pub IsTyped : Metric → Type 0
IsTyped m = (m.type ≡ gauge) ⊎ (m.type ≡ counter)

-- an update of a known type succeeds, and its answer has that type
update_by-IsTyped :
    (k : MetricType) (e : Error) (m : Metric) (v : View)
    → (k ≡ gauge) ⊎ (k ≡ counter)
    → (done : View × Metric) × (update_by k e m v ≡ ok done) × IsTyped done.1
update_by-IsTyped gauge e m v typed = (_, refl, inl refl)
update_by-IsTyped counter e m v typed = (_, refl, inr refl)
update_by-IsTyped undefined e m v typed = absurd (ground arith)
update_by-IsTyped (other n) e m v typed = absurd (ground arith)

pub update_spec-IsTyped :
    (m : Metric) (v : View)
    → IsTyped m
    → (done : View × Metric) × (update_spec m v ≡ ok done) × IsTyped done.1
update_spec-IsTyped m = update_by-IsTyped m.type (unexpected m.type) m

-- The error that a wrong type would give does not matter to a known one.
pub update_by-same :
    (k : MetricType) (e e' : Error) (m : Metric) (v : View)
    → (k ≡ gauge) ⊎ (k ≡ counter)
    → update_by k e m v ≡ update_by k e' m v
update_by-same gauge e e' m v typed = refl
update_by-same counter e e' m v typed = refl
update_by-same undefined e e' m v typed = absurd (ground arith)
update_by-same (other n) e e' m v typed = absurd (ground arith)

-- a batch of known types succeeds
pub update_all_spec-IsTyped :
    (i : ℕ) (ms : List Metric) (v : View)
    → All IsTyped ms
    → (done : View × List Metric) × (update_all_spec i ms v ≡ ok done) × All IsTyped done.1
unfolding update_all_spec
update_all_spec-IsTyped i [] v typed = ((v, []), refl, tt)
update_all_spec-IsTyped i (m ∷ ms) v typed =
    let (first, e, typed_first) = update_by-IsTyped m.type (unexpected_at i m.type) m v typed.0 in
    let (rest, e', typed_rest) = update_all_spec-IsTyped (suc i) ms first.0 typed.1 in
    ((rest.0, first.1 ∷ rest.1), rw (e, e') refl, (typed_first, typed_rest))

-- A batch of known types does what its first update does, and then the rest.
pub next-update_all_spec :
    (i : ℕ) (m : Metric) (ms : List Metric) (v : View)
    → IsTyped m
    → All IsTyped ms
    → next v (update_all_spec i (m ∷ ms) v)
      ≡ (let v' = next v (update_spec m v) in next v' (update_all_spec (suc i) ms v'))
unfolding update_all_spec
next-update_all_spec i m ms v typed typed' =
    let (first, e, _) = update_by-IsTyped m.type (unexpected_at i m.type) m v typed in
    let same = update_by-same m.type (unexpected m.type) (unexpected_at i m.type) m v typed in
    let (rest, e', _) = update_all_spec-IsTyped (suc i) ms first.0 typed' in rw (same, e, e') refl
