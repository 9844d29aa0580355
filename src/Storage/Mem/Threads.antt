-- ===== src/Storage/Mem/Threads.antt =====
-- internal/storage/memstorage/memstorage.go, called by many goroutines at once: a step is one access
-- of the shared maps, or of the lock. `RLock` waits while a writer has the lock, and `Lock` while
-- anybody has it. In Go a waiting `Lock` also keeps later readers out, which leaves fewer orders.
pub mod Bodies
pub mod Locked
pub mod Locking
pub mod Working
pub mod Moves
pub mod Serial
pub mod Left
pub mod Ending
use go_advanced.Base.{ℕ, zero, suc, ◌-◌, ◌≡◌, Bool, true, false, List, [], ◌∷◌, ◌++◌, ◌<>◌}
use go_advanced.Base.Word.{add_int64}
use go_advanced.Entities.{
  MetricName, MetricType, undefined, gauge, counter, other, Gauge, Metric, type_text,
}
use go_advanced.Entities.Errors.{internal, Result, ok, err}
use go_advanced.GoMap.{GoMap, insert, get_or, copy}
use go_advanced.Storage.Spec.{Tables}
use go_advanced.Storage.Mem.{get_switch, batch_switch}

-- a call of one of the methods
pub data Request : Type 0 where
  get update : Metric → Request
  update_all : List Metric → Request
  dump : Tables → Request

pub data Answer : Type 0 where
  one : Result Metric → Answer
  many : Result (List Metric) → Answer
  dumped : Tables → Answer

-- Where a method stands between `Lock` and `Unlock`, with its local variables.
pub data Body : Type 0 where
  find : Metric → Body
  copy_gauges copy_counters : Tables → Body
  write read_gauge read_counter : Metric → Body
  -- `+=` has read the old value
  add : Metric → ℕ → Body
  take_gauges : List Metric → Body
  take_counters : List Metric → GoMap Gauge → Body
  batch : ℕ → List Metric → Tables → List Metric → Body
  put_gauges put_counters : Tables → List Metric → Body

pub data Progress : Type 0 where
  going : Body → Progress
  finished : Answer → Progress

-- the `switch` of `UpdateMetric`, up to its first access
abbrev pub write_switch : MetricType → Metric → Tables → Tables × Progress
write_switch gauge metric t = (
  record t { gauge_map = insert metric.name metric.value t.gauge_map },
  going (read_gauge metric),
)
write_switch counter metric t = (t, going (add metric (get_or 0 metric.name t.counter_map)))
write_switch _ metric t = (
  t,
  finished (one (err (internal ("unexpected internal metric type: " <> type_text metric.type)))),
)

abbrev pub batch_next : ℕ → List Metric → List Metric → Result (Tables × Metric) → Progress
batch_next i metrics result (ok (maps, m)) = going (batch (suc i) metrics maps (result ++ m ∷ []))
batch_next i metrics result (err e) = finished (many (err e))

-- the next access of the shared maps, and what follows it
unfoldable pub advance : Body → Tables → Tables × Progress
advance (find metric) t = (t, finished (one (get_switch metric.type metric t)))
advance (copy_gauges maps) t =
    (t, going (copy_counters (record maps { gauge_map = copy maps.gauge_map t.gauge_map })))
advance (copy_counters maps) t =
    (t, finished (dumped (record maps { counter_map = copy maps.counter_map t.counter_map })))
advance (write metric) t = write_switch metric.type metric t
advance (add metric old) t = (
  record t { counter_map = insert metric.name (add_int64 old metric.delta) t.counter_map },
  going (read_counter metric),
)
advance (read_gauge metric) t = (
  t,
  finished (
      one (
        ok (record {
          type = metric.type;
          name = metric.name;
          value = get_or 0 metric.name t.gauge_map;
          delta = 0;
        }))),
)
advance (read_counter metric) t = (
  t,
  finished (
      one (
        ok (record {
          type = metric.type;
          name = metric.name;
          value = 0;
          delta = get_or 0 metric.name t.counter_map;
        }))),
)
advance (take_gauges metrics) t = (t, going (take_counters metrics (copy [] t.gauge_map)))
advance (take_counters metrics gauges) t = (
  t,
  going (batch 0 metrics (record { gauge_map = gauges; counter_map = copy [] t.counter_map }) []),
)
advance (batch i [] maps result) t = (t, going (put_gauges maps result))
advance (batch i (metric ∷ metrics) maps result) t =
    (t, batch_next i metrics result (batch_switch metric.type i metric maps))
advance (put_gauges maps result) t =
    (record t { gauge_map = maps.gauge_map }, going (put_counters maps result))
advance (put_counters maps result) t =
    (record t { counter_map = maps.counter_map }, finished (many (ok result)))

abbrev pub entry : Request → Body
entry (get metric) = find metric
entry (update metric) = write metric
entry (update_all metrics) = take_gauges metrics
entry (dump maps) = copy_gauges maps

-- the methods that take `RLock`
abbrev pub reads : Request → Bool
reads (get metric) = true
reads (update metric) = false
reads (update_all metrics) = false
reads (dump maps) = true

-- A goroutine in a method: before the lock, with the lock, before the unlocking, or behind it.
pub data Thread : Type 0 where
  calling : Request → Thread
  holding : Request → Body → Thread
  unlocking : Request → Answer → Thread
  done : Request → Answer → Thread

-- The maps, the `RWMutex`, and the goroutines. `log` records what the methods return, the last first,
-- from the moment when they have their answer.
pub record Threads : Type 0 where
  pub tables : Tables
  pub writer : Bool
  pub readers : ℕ
  pub threads : List Thread
  pub log : List (Request × Answer)

abbrev pub begin : Tables → Threads
begin t = record { tables = t; writer = false; readers = 0; threads = []; log = [] }

-- One step of one goroutine.
pub data Step (s u : Threads) : Type 0 where
  calls : (req : Request) → u ≡ record s { threads = calling req ∷ s.threads } → Step s u
  r_locks :
      (l r : List Thread) (req : Request)
      → s.threads ≡ l ++ calling req ∷ r
      → reads req ≡ true
      → s.writer ≡ false
      → u ≡ record s { readers = suc s.readers; threads = l ++ holding req (entry req) ∷ r }
      → Step s u
  locks :
      (l r : List Thread) (req : Request)
      → s.threads ≡ l ++ calling req ∷ r
      → reads req ≡ false
      → s.writer ≡ false
      → s.readers ≡ 0
      → u ≡ record s { writer = true; threads = l ++ holding req (entry req) ∷ r }
      → Step s u
  works :
      (l r : List Thread) (req : Request) (b b' : Body) (t : Tables)
      → s.threads ≡ l ++ holding req b ∷ r
      → advance b s.tables ≡ (t, going b')
      → u ≡ record s { tables = t; threads = l ++ holding req b' ∷ r }
      → Step s u
  finishes :
      (l r : List Thread) (req : Request) (b : Body) (t : Tables) (a : Answer)
      → s.threads ≡ l ++ holding req b ∷ r
      → advance b s.tables ≡ (t, finished a)
      → u ≡ record s { tables = t; threads = l ++ unlocking req a ∷ r; log = (req, a) ∷ s.log }
      → Step s u
  r_unlocks :
      (l r : List Thread) (req : Request) (a : Answer)
      → s.threads ≡ l ++ unlocking req a ∷ r
      → reads req ≡ true
      → u ≡ record s { readers = s.readers - 1; threads = l ++ done req a ∷ r }
      → Step s u
  unlocks :
      (l r : List Thread) (req : Request) (a : Answer)
      → s.threads ≡ l ++ unlocking req a ∷ r
      → reads req ≡ false
      → u ≡ record s { writer = false; threads = l ++ done req a ∷ r }
      → Step s u

-- Some steps in a row.
pub data Reach (s : Threads) : Threads → Type 0 where
  here : Reach s s
  next : {t u : Threads} → Reach s t → Step t u → Reach s u
