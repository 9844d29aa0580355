-- ===== src/Storage/Mem/Writes.antt =====
-- What the two maps show after one write, and what one read or one update of them returns.
use go_advanced.Base.{ℕ, String, ◌≡◌, refl, arith}
use go_advanced.Base.Word.{add_int64}
use go_advanced.Entities.{MetricType, undefined, gauge, counter, other, Metric}
use go_advanced.GoMap.{get_or, insert}
use go_advanced.GoMap.Laws.{lookup-insert, get_or-insert_self, insert-IsMap}
use go_advanced.Storage.Spec.{
  View-ext, Tables, IsTables, view_of, put, update_by, get_by, unexpected, reply, next,
}
use go_advanced.Storage.Mem.{get_switch, update_switch}

-- What the two maps show after a write.
pub view_of-insert_gauge :
    (n : String) (v : ℕ) (t : Tables)
    → view_of (record t { gauge_map = insert n v t.gauge_map })
      ≡ record (view_of t) { gauges = put n v (view_of t).gauges }
view_of-insert_gauge n v t = View-ext _ _ (λ k. lookup-insert n k v t.gauge_map) (λ k. refl)

pub view_of-insert_counter :
    (n : String) (v : ℕ) (t : Tables)
    → view_of (record t { counter_map = insert n v t.counter_map })
      ≡ record (view_of t) { counters = put n v (view_of t).counters }
view_of-insert_counter n v t = View-ext _ _ (λ k. refl) (λ k. lookup-insert n k v t.counter_map)

pub get_switch-eq-get_by :
    (k : MetricType) (m : Metric) (t : Tables)
    → m.type ≡ k
    → get_switch k m t ≡ get_by k m (view_of t)
unfolding get_switch
get_switch-eq-get_by undefined m t e = ground arith
get_switch-eq-get_by gauge m t e = ground arith
get_switch-eq-get_by counter m t e = ground arith
get_switch-eq-get_by (other n) m t e = ground arith

pub update_switch_lem :
    (k : MetricType) (m : Metric) (t : Tables)
    → m.type ≡ k
    → ((update_switch k m t).1 ≡ reply (update_by k (unexpected m.type) m (view_of t)))
      × (view_of (update_switch k m t).0
          ≡ next (view_of t) (update_by k (unexpected m.type) m (view_of t)))
unfolding update_switch get_or
update_switch_lem undefined m t e = (refl, refl)
update_switch_lem gauge m t e = (
  ground (arith, get_or-insert_self 0 m.value m.name t.gauge_map),
  view_of-insert_gauge m.name m.value t,
)
update_switch_lem counter m t e =
    let sum = add_int64 (get_or 0 m.name t.counter_map) m.delta in
    (
      ground (arith, get_or-insert_self 0 sum m.name t.counter_map),
      view_of-insert_counter m.name sum t,
    )
update_switch_lem (other n) m t e = (refl, refl)

pub update_switch-IsTables :
    (k : MetricType) (m : Metric) (t : Tables) → IsTables t → IsTables (update_switch k m t).0
unfolding update_switch
update_switch-IsTables undefined m t h = h
update_switch-IsTables gauge m t h = record {
  gauge_keys = insert-IsMap _ _ _ h.gauge_keys;
  counter_keys = h.counter_keys;
}
update_switch-IsTables counter m t h = record {
  gauge_keys = h.gauge_keys;
  counter_keys = insert-IsMap _ _ _ h.counter_keys;
}
update_switch-IsTables (other n) m t h = h
