-- ===== src/Agent/Poller.antt =====
-- internal/app/agent/metrics/poller.go: the metrics that a poll function fills in, behind a lock. The
-- poll functions read the machine: what they read comes in as parameters.
pub mod Totals
use go_advanced.Base.{ℕ, suc, Bool, true, false, String, List, [], ◌∷◌}
use go_advanced.Base.Exec.{Call, returned, Guarded, unlocked, with_lock, with_r_lock}
use go_advanced.Base.Word.{add_int64}
use go_advanced.Entities.{Gauge, Counter}
use go_advanced.Entities.Errors.{Result, ok, err}
use go_advanced.GoMap.{GoMap, insert, get_or, copy}

pub record Metrics : Type 0 where
  pub gauge : GoMap Gauge
  pub counter : GoMap Counter

abbrev pub PollFunc : Type 0
PollFunc = Metrics → Metrics

-- `ready_read` is true once the channel is closed.
pub record PollerState : Type 0 where
  pub metrics : Metrics
  pub ready_read : Bool
  pub poll_count : ℕ

abbrev pub Poller : Type 0
Poller = Guarded PollerState

unfoldable pub new_poller : Poller
new_poller = record {
  mutex = unlocked;
  value = record {
    metrics = record { gauge = []; counter = [] };
    ready_read = false;
    poll_count = 0;
  };
}

-- `Poll`; `poll_count` is an `int`
unfoldable pub poll : PollFunc → Call Poller ℕ
poll poll_func = with_lock (λ p.
    let count = add_int64 p.value.poll_count 1 in
    returned count (record p {
      value = record { metrics = poll_func p.value.metrics; ready_read = true; poll_count = count };
    }))

-- `Get`: copies of the maps
unfoldable pub get : Call Poller (ℕ × Metrics)
get = with_r_lock (λ p.
    returned
      (
        p.value.poll_count,
        record { gauge = copy [] p.value.metrics.gauge; counter = copy [] p.value.metrics.counter },
      )
      p)

-- the fields of `runtime.MemStats` that become gauges, in the order of the assignments
abbrev pub mem_stats_names : List String
mem_stats_names =
    "Alloc" ∷ "BuckHashSys" ∷ "Frees" ∷ "GCCPUFraction" ∷ "GCSys" ∷ "HeapAlloc" ∷ "HeapIdle"
    ∷ "HeapInuse" ∷ "HeapObjects" ∷ "HeapReleased" ∷ "HeapSys" ∷ "LastGC" ∷ "Lookups"
    ∷ "MCacheInuse" ∷ "MCacheSys" ∷ "MSpanInuse" ∷ "MSpanSys" ∷ "Mallocs" ∷ "NextGC" ∷ "NumForcedGC"
    ∷ "NumGC" ∷ "OtherSys" ∷ "PauseTotalNs" ∷ "StackInuse" ∷ "StackSys" ∷ "Sys" ∷ "TotalAlloc" ∷ []

set_all : (String → Gauge) → List String → GoMap Gauge → GoMap Gauge
set_all value [] m = m
set_all value (n ∷ ns) m = set_all value ns (insert n (value n) m)

-- `PollRuntimeMetrics`; `mem_stats` is what `runtime.ReadMemStats` gives for each field, and
-- `random_value` what `rand.Int` gives
unfoldable pub poll_runtime_metrics : (String → Gauge) → Gauge → PollFunc
unfolding set_all
poll_runtime_metrics mem_stats random_value m = record {
  gauge = insert "RandomValue" random_value (set_all mem_stats mem_stats_names m.gauge);
  counter = insert "PollCount" (add_int64 (get_or 0 "PollCount" m.counter) 1) m.counter;
}

abbrev with_memory : Result (Gauge × Gauge) → GoMap Gauge → GoMap Gauge
with_memory (ok (total, free)) m = insert "FreeMemory" free (insert "TotalMemory" total m)
with_memory (err e) m = m

abbrev with_cpu : Result Gauge → GoMap Gauge → GoMap Gauge
with_cpu (ok percent) m = insert "CPUutilization1" percent m
with_cpu (err e) m = m

-- `PollGopsutilMetrics`; `memory` is what `mem.VirtualMemory` gives, `percent` the first value of
-- `cpu.Percent`
unfoldable pub poll_gopsutil_metrics : Result (Gauge × Gauge) → Result Gauge → PollFunc
poll_gopsutil_metrics memory percent m = record m {
  gauge = with_cpu percent (with_memory memory m.gauge);
}
