-- ===== src/Storage/Mem/Threads/Bodies.antt =====
-- The bodies of the methods, step by step and as a whole.
use go_advanced.Base.{ℕ, suc, ◌≡◌, refl, sym, subst, Bool, true, false, List, [], ◌∷◌, ◌++◌}
use go_advanced.Base.Word.{add_int64}
use go_advanced.Entities.{MetricType, undefined, gauge, counter, other, Metric}
use go_advanced.Entities.Errors.{Result, ok, err, ◌>>=◌}
use go_advanced.GoMap.{insert, get_or, copy}
use go_advanced.Storage.Spec.{Tables}
use go_advanced.Storage.Mem.{
  get_switch, update_switch, batch_switch, batch_loop, commit_batch, copied,
}
use go_advanced.Storage.Mem.Threads.{
  Request, get, update, update_all, dump, Answer, one, many, dumped, Body, find, copy_gauges,
  copy_counters, write, read_gauge, read_counter, add, take_gauges, take_counters, batch,
  put_gauges, put_counters, Progress, going, finished, write_switch, batch_next, advance, entry,
  reads,
}

abbrev pub batch_end : Tables → Result (Tables × List Metric) → Tables × Answer
batch_end t r = let (t', result) = commit_batch t r in (t', many result)

-- what a body does from some point on, if nobody comes between
unfoldable pub finish : Body → Tables → Tables × Answer
finish (find metric) t = (t, one (get_switch metric.type metric t))
finish (copy_gauges maps) t = (
  t,
  dumped (record {
    gauge_map = copy maps.gauge_map t.gauge_map;
    counter_map = copy maps.counter_map t.counter_map;
  }),
)
finish (copy_counters maps) t =
    (t, dumped (record maps { counter_map = copy maps.counter_map t.counter_map }))
finish (write metric) t = let (t', result) = update_switch metric.type metric t in (t', one result)
finish (add metric old) t =
    let t' : Tables = record t {
      counter_map = insert metric.name (add_int64 old metric.delta) t.counter_map;
    } in
    (
      t',
      one (
          ok (record {
            type = metric.type;
            name = metric.name;
            value = 0;
            delta = get_or 0 metric.name t'.counter_map;
          })),
    )
finish (read_gauge metric) t = (
  t,
  one (
      ok (record {
        type = metric.type;
        name = metric.name;
        value = get_or 0 metric.name t.gauge_map;
        delta = 0;
      })),
)
finish (read_counter metric) t = (
  t,
  one (
      ok (record {
        type = metric.type;
        name = metric.name;
        value = 0;
        delta = get_or 0 metric.name t.counter_map;
      })),
)
finish (take_gauges metrics) t = batch_end t (batch_loop 0 metrics (copied t) [])
finish (take_counters metrics gauges) t =
    batch_end t
      (batch_loop 0 metrics (record { gauge_map = gauges; counter_map = copy [] t.counter_map }) [])
finish (batch i metrics maps result) t = batch_end t (batch_loop i metrics maps result)
finish (put_gauges maps result) t = (maps, many (ok result))
finish (put_counters maps result) t =
    (record t { counter_map = maps.counter_map }, many (ok result))

abbrev pub rest : Tables × Progress → Tables × Answer
rest (t, going b) = finish b t
rest (t, finished a) = (t, a)

write_switch_lem :
    (k : MetricType) (m : Metric) (t : Tables)
    → rest (write_switch k m t) ≡ (let (t', result) = update_switch k m t in (t', one result))
unfolding finish update_switch
write_switch_lem gauge m t = refl
write_switch_lem counter m t = refl
write_switch_lem undefined m t = refl
write_switch_lem (other n) m t = refl

batch_next_lem :
    (i : ℕ) (ms l : List Metric) (t : Tables) (r : Result (Tables × Metric))
    → rest (t, batch_next i ms l r)
      ≡ batch_end t (r >>= λ step. batch_loop (suc i) ms step.0 (l ++ step.1 ∷ []))
unfolding finish commit_batch
batch_next_lem i ms l t (ok (maps, a)) = refl
batch_next_lem i ms l t (err e) = refl

-- one step, and then the rest
pub finish-advance : (b : Body) (t : Tables) → finish b t ≡ rest (advance b t)
unfolding finish advance batch_loop commit_batch copied
finish-advance (find m) t = refl
finish-advance (copy_gauges maps) t = refl
finish-advance (copy_counters maps) t = refl
finish-advance (write m) t = sym (write_switch_lem m.type m t)
finish-advance (add m old) t = refl
finish-advance (read_gauge m) t = refl
finish-advance (read_counter m) t = refl
finish-advance (take_gauges ms) t = refl
finish-advance (take_counters ms gauges) t = refl
finish-advance (batch i [] maps l) t = refl
finish-advance (batch i (m ∷ ms) maps l) t =
    sym (batch_next_lem i ms l t (batch_switch m.type i m maps))
finish-advance (put_gauges maps l) t = refl
finish-advance (put_counters maps l) t = refl

-- what a method does, if nobody comes between
abbrev pub serve : Request → Tables → Tables × Answer
serve req t = finish (entry req) t

-- a body that only reads
abbrev pub body_reads : Body → Bool
body_reads (find m) = true
body_reads (copy_gauges maps) = true
body_reads (copy_counters maps) = true
body_reads _ = false

pub entry-reads : (req : Request) → body_reads (entry req) ≡ reads req
entry-reads (get m) = refl
entry-reads (update m) = refl
entry-reads (update_all ms) = refl
entry-reads (dump maps) = refl

abbrev NextReads : Bool → Progress → Type 0
NextReads b (going body) = body_reads body ≡ b
NextReads b (finished a) = Unit

write_switch-reads :
    (k : MetricType) (m : Metric) (t : Tables) → NextReads false (write_switch k m t).1
write_switch-reads gauge m t = refl
write_switch-reads counter m t = refl
write_switch-reads undefined m t = tt
write_switch-reads (other n) m t = tt

batch_next-reads :
    (i : ℕ) (ms l : List Metric) (r : Result (Tables × Metric))
    → NextReads false (batch_next i ms l r)
batch_next-reads i ms l (ok (maps, a)) = refl
batch_next-reads i ms l (err e) = tt

-- a body that reads goes on reading, and one that writes is none that reads
advance-reads : (b : Body) (t : Tables) → NextReads (body_reads b) (advance b t).1
unfolding advance
advance-reads (find m) t = tt
advance-reads (copy_gauges maps) t = refl
advance-reads (copy_counters maps) t = tt
advance-reads (write m) t = write_switch-reads m.type m t
advance-reads (add m old) t = refl
advance-reads (read_gauge m) t = tt
advance-reads (read_counter m) t = tt
advance-reads (take_gauges ms) t = refl
advance-reads (take_counters ms gauges) t = refl
advance-reads (batch i [] maps l) t = refl
advance-reads (batch i (m ∷ ms) maps l) t = batch_next-reads i ms l (batch_switch m.type i m maps)
advance-reads (put_gauges maps l) t = refl
advance-reads (put_counters maps l) t = tt

pub advance-going :
    (b b' : Body) (t t' : Tables) → advance b t ≡ (t', going b') → body_reads b' ≡ body_reads b
advance-going b b' t t' e =
    subst (λ (p : Tables × Progress). NextReads (body_reads b) p.1) e (advance-reads b t)

-- a body that reads leaves the maps alone
pub advance-same : (b : Body) (t : Tables) → body_reads b ≡ true → (advance b t).0 ≡ t
unfolding advance
advance-same (find m) t e = refl
advance-same (copy_gauges maps) t e = refl
advance-same (copy_counters maps) t e = refl
advance-same (write m) t e = absurd cc
advance-same (add m old) t e = absurd cc
advance-same (read_gauge m) t e = absurd cc
advance-same (read_counter m) t e = absurd cc
advance-same (take_gauges ms) t e = absurd cc
advance-same (take_counters ms gauges) t e = absurd cc
advance-same (batch i ms maps l) t e = absurd cc
advance-same (put_gauges maps l) t e = absurd cc
advance-same (put_counters maps l) t e = absurd cc
