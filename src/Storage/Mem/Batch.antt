-- ===== src/Storage/Mem/Batch.antt =====
-- The loop of `UpdateMetrics` on the copied maps does what the specification of a batch says.
use mathlib.Core.List.{append_assoc, append-nil}
use go_advanced.Base.{ℕ, suc, ◌≡◌, refl, ◌∙◌, inl, inr, List, [], ◌∷◌, ◌++◌, arith}
use go_advanced.Base.Word.{add_int64}
use go_advanced.Entities.{MetricType, undefined, gauge, counter, other, Metric}
use go_advanced.Entities.Errors.{Result, ok, err, ◌>>=◌, Result-cases, OnOk}
use go_advanced.GoMap.{get_or}
use go_advanced.GoMap.Laws.{get_or-insert_self, insert-IsMap}
use go_advanced.Storage.Spec.{
  View, Tables, IsTables, view_of, update_by, unexpected_at, update_all_spec,
}
use go_advanced.Storage.Mem.{batch_switch, batch_loop}
use go_advanced.Storage.Mem.Writes.{view_of-insert_gauge, view_of-insert_counter}

-- what the maps in a result show
abbrev pub project {ℓ} : {A : Type ℓ} → Result (Tables × A) → Result (View × A)
project (ok (t, a)) = ok (view_of t, a)
project (err e) = err e

batch_switch_lem :
    (k : MetricType) (i : ℕ) (m : Metric) (t : Tables)
    → m.type ≡ k
    → project (batch_switch k i m t) ≡ update_by k (unexpected_at i m.type) m (view_of t)
unfolding batch_switch get_or
batch_switch_lem undefined i m t e = refl
batch_switch_lem gauge i m t e =
    ground (
      arith,
      get_or-insert_self 0 m.value m.name t.gauge_map,
      view_of-insert_gauge m.name m.value t,
    )
batch_switch_lem counter i m t e =
    let sum = add_int64 (get_or 0 m.name t.counter_map) m.delta in
    ground
      (arith, get_or-insert_self 0 sum m.name t.counter_map, view_of-insert_counter m.name sum t)
batch_switch_lem (other n) i m t e = refl

batch_switch-IsTables :
    (k : MetricType) (i : ℕ) (m : Metric) (t : Tables)
    → IsTables t
    → OnOk (λ (s : Tables × Metric). IsTables s.0) (batch_switch k i m t)
unfolding batch_switch
batch_switch-IsTables undefined i m t h = tt
batch_switch-IsTables gauge i m t h = record {
  gauge_keys = insert-IsMap _ _ _ h.gauge_keys;
  counter_keys = h.counter_keys;
}
batch_switch-IsTables counter i m t h = record {
  gauge_keys = h.gauge_keys;
  counter_keys = insert-IsMap _ _ _ h.counter_keys;
}
batch_switch-IsTables (other n) i m t h = tt

-- the answers so far, in front of those to come
abbrev pub after : List Metric → Result (View × List Metric) → Result (View × List Metric)
after before (ok (v, ms)) = ok (v, before ++ ms)
after before (err e) = err e

after-cons :
    (before : List Metric) (m : Metric) (r : Result (View × List Metric))
    → after (before ++ m ∷ []) r ≡ after before (r >>= λ rest. ok (rest.0, m ∷ rest.1))
after-cons before m (ok (v, ms)) = rw append_assoc
after-cons before m (err e) = refl

pub batch_loop_lem :
    (i : ℕ) (ms : List Metric) (t : Tables) (before : List Metric)
    → project (batch_loop i ms t before) ≡ after before (update_all_spec i ms (view_of t))
unfolding batch_loop update_all_spec
batch_loop_lem i [] t before = rw append-nil
batch_loop_lem i (m ∷ ms) t before = elim (Result-cases (batch_switch m.type i m t)) [
  | inl (p, e) ↦
      rw (e, ← batch_switch_lem m.type i m t refl, e)
        (batch_loop_lem (suc i) ms p.0 (before ++ p.1 ∷ [])
          ∙ after-cons before p.1 (update_all_spec (suc i) ms (view_of p.0)))
  | inr (x, e) ↦ rw (e, ← batch_switch_lem m.type i m t refl, e)
]

pub batch_loop-IsTables :
    (i : ℕ) (ms : List Metric) (t : Tables) (before : List Metric)
    → IsTables t
    → OnOk (λ (s : Tables × List Metric). IsTables s.0) (batch_loop i ms t before)
unfolding batch_loop
batch_loop-IsTables i [] t before h = h
batch_loop-IsTables i (m ∷ ms) t before h = elim (Result-cases (batch_switch m.type i m t)) [
  | inl (p, e) ↦ rw e (
      batch_loop-IsTables (suc i) ms p.0 (before ++ p.1 ∷ [])
        (rw e at (batch_switch-IsTables m.type i m t h)))
  | inr (x, e) ↦ rw e tt
]
