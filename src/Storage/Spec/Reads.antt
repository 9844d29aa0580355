-- ===== src/Storage/Spec/Reads.antt =====
-- Reads after updates, in the specification of a storage.
use go_advanced.Base.{◌≡◌, sym, subst, ◌≢◌, ◌⊎◌, arith, str_eq_iff}
use go_advanced.Entities.{MetricType, undefined, gauge, counter, other, Metric}
use go_advanced.Storage.Spec.{
  View, update_by, get_by, unexpected, get_spec, update_spec, reply, next,
}

abbrev pub IsKnown : MetricType → Type 0
IsKnown k = (k ≡ gauge) ⊎ (k ≡ counter)

read_by :
    (k : MetricType) (m m' : Metric) (v : View)
    → IsKnown k
    → m'.name ≡ m.name
    → get_by k m' (next v (update_by k (unexpected k) m v)) ≡ reply (update_by k (unexpected k) m v)
read_by undefined m m' v known name = absurd (ground arith)
read_by gauge m m' v known name = ground (arith, str_eq_iff m.name m'.name)
read_by counter m m' v known name = ground (arith, str_eq_iff m.name m'.name)
read_by (other n) m m' v known name = absurd (ground arith)

-- A read of what was just updated returns what the update returned.
pub get_spec-update_self :
    (m m' : Metric) (v : View)
    → IsKnown m.type
    → m'.type ≡ m.type
    → m'.name ≡ m.name
    → get_spec m' (next v (update_spec m v)) ≡ reply (update_spec m v)
get_spec-update_self m m' v known type name =
    subst (λ k. get_by k m' (next v (update_spec m v)) ≡ reply (update_spec m v)) (sym type)
      (read_by m.type m m' v known name)

-- An update leaves the other names alone.
pub get_spec-update_ne :
    (m m' : Metric) (v : View)
    → m'.name ≢ m.name
    → get_spec m' (next v (update_spec m v)) ≡ get_spec m' v
get_spec-update_ne m m' v ne = ground (arith, str_eq_iff m.name m'.name)
