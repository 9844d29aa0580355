-- ===== src/Storage/Mem/Threads/Left.antt =====
-- The steps that are left to the goroutines, at most.
use go_advanced.Base.{ℕ, suc, ◌+◌, ◌<◌, ◌≡◌, List, [], ◌∷◌, ◌++◌, length, arith}
use go_advanced.Entities.{MetricType, undefined, gauge, counter, other, Metric}
use go_advanced.Entities.Errors.{Result, ok, err}
use go_advanced.Storage.Spec.{Tables}
use go_advanced.Storage.Mem.{batch_switch}
use go_advanced.Storage.Mem.Threads.{
  Body, find, copy_gauges, copy_counters, write, read_gauge, read_counter, add, take_gauges,
  take_counters, batch, put_gauges, put_counters, Progress, going, finished, write_switch,
  batch_next, advance, entry, Thread, calling, holding, unlocking, done,
}

-- the accesses that are left to a method, at most
abbrev pub left : Body → ℕ
left (find metric) = 1
left (copy_gauges maps) = 2
left (copy_counters maps) = 1
left (write metric) = 3
left (read_gauge metric) = 1
left (read_counter metric) = 1
left (add metric old) = 2
left (take_gauges metrics) = 5 + length metrics
left (take_counters metrics gauges) = 4 + length metrics
left (batch i metrics maps result) = 3 + length metrics
left (put_gauges maps result) = 2
left (put_counters maps result) = 1

abbrev pub Within : ℕ → Progress → Type 0
Within n (going b) = left b < n
Within n (finished a) = 0 < n

write_switch-Within : (k : MetricType) (m : Metric) (t : Tables) → Within 3 (write_switch k m t).1
write_switch-Within gauge m t = omega arith
write_switch-Within counter m t = omega arith
write_switch-Within undefined m t = omega arith
write_switch-Within (other n) m t = omega arith

batch_next-Within :
    (i : ℕ) (ms l : List Metric) (r : Result (Tables × Metric))
    → Within (3 + suc (length ms)) (batch_next i ms l r)
batch_next-Within i ms l (ok (maps, a)) = omega arith
batch_next-Within i ms l (err e) = omega arith

-- an access leaves less
pub advance-Within : (b : Body) (t : Tables) → Within (left b) (advance b t).1
unfolding advance
advance-Within (find m) t = omega arith
advance-Within (copy_gauges maps) t = omega arith
advance-Within (copy_counters maps) t = omega arith
advance-Within (write m) t = write_switch-Within m.type m t
advance-Within (add m old) t = omega arith
advance-Within (read_gauge m) t = omega arith
advance-Within (read_counter m) t = omega arith
advance-Within (take_gauges ms) t = omega arith
advance-Within (take_counters ms gauges) t = omega arith
advance-Within (batch i [] maps l) t = omega arith
advance-Within (batch i (m ∷ ms) maps l) t = batch_next-Within i ms l (batch_switch m.type i m maps)
advance-Within (put_gauges maps l) t = omega arith
advance-Within (put_counters maps l) t = omega arith

-- the steps that are left to a goroutine, at most
abbrev pub steps_left : Thread → ℕ
steps_left (calling req) = 2 + left (entry req)
steps_left (holding req b) = 1 + left b
steps_left (unlocking req a) = 1
steps_left (done req a) = 0

unfoldable pub all_left : List Thread → ℕ
all_left [] = 0
all_left (x ∷ l) = steps_left x + all_left l

pub all_left-middle :
    (l r : List Thread) (x : Thread)
    → all_left (l ++ x ∷ r) ≡ steps_left x + (all_left l + all_left r)
unfolding all_left
all_left-middle [] r x = omega arith
all_left-middle (y ∷ l) r x = omega (arith, all_left-middle l r x)
