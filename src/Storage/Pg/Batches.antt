-- ===== src/Storage/Pg/Batches.antt =====
-- Batches, where a commit that fails has not been applied.
use mathlib.Core.List.{append_assoc, append-nil}
use go_advanced.Base.{ℕ, suc, ◌≡◌, refl, sym, ◌∙◌, inr, Option, none, some, List, [], ◌∷◌, ◌++◌}
use go_advanced.Base.Word.{add_int64}
use go_advanced.Entities.{MetricType, undefined, gauge, counter, other, Metric}
use go_advanced.Entities.Errors.{Error, Result, ok, err}
use go_advanced.Storage.Spec.{
  View, update_by, update_all_spec, unexpected_at, gauge_metric, counter_metric, set_gauge,
  add_counter, or_zero,
}
use go_advanced.Storage.Pg.Sql.{text, number, Database}
use go_advanced.Storage.Pg.Transaction.{Queries, do_transaction_with_retries}
use go_advanced.Storage.Pg.Transaction.Attempts.{Does}
use go_advanced.Storage.Pg.Postgres.{IsPostgres, IsDefinite, Stored}
use go_advanced.Storage.Pg.Updates.{NoChange, Anyhow, Settles, Settled, transaction_settles}
use go_advanced.Storage.Pg.{
  batch_upsert_gauge, batch_upsert_counter, appended, batch_query, batch_loop, update_metrics,
  or_stop, result_of,
}

module _ (db : Database) (shows : db.World → View) (inside : db.Tx → View)
    (pg : IsPostgres db shows inside) where
  open db use {World, Tx}

  -- one update of the batch
  abbrev pub One : ℕ → MetricType → Metric → View → Result Metric × Tx → Type 0
  One i k m before (ok a, tx) = update_by k (unexpected_at i k) m before ≡ ok (inside tx, a)
  One i k m before (err e, tx) = Unit

  gauge_appended :
      (i : ℕ) (m : Metric) (before : View) (r : Result ℕ × Tx)
      → Stored m.value (set_gauge m.name m.value before).0 (inside r.1) r.0
      → One i gauge m before (appended db i (gauge_metric m.name) r)
  gauge_appended i m before (ok v, tx) stored = cc
  gauge_appended i m before (err e, tx) stored = tt

  counter_appended :
      (i : ℕ) (m : Metric) (before : View) (r : Result ℕ × Tx)
      → Stored
          (add_int64 (or_zero (before.counters m.name)) m.delta)
          (add_counter m.name m.delta before).0
          (inside r.1)
          r.0
      → One i counter m before (appended db i (counter_metric m.name) r)
  counter_appended i m before (ok v, tx) stored = cc
  counter_appended i m before (err e, tx) stored = tt

  pub batch_query-One :
      (k : MetricType) (i : ℕ) (m : Metric) (tx : Tx)
      → m.type ≡ k
      → One i k m (inside tx) (batch_query db k i m tx)
  unfolding batch_query
  batch_query-One gauge i m tx e = rw e (
      gauge_appended i m (inside tx)
        (db.query_row batch_upsert_gauge (text m.name ∷ number m.value ∷ []) tx)
        (pg.upsert_gauge_law batch_upsert_gauge m.name m.value tx (inr refl)))
  batch_query-One counter i m tx e = rw e (
      counter_appended i m (inside tx)
        (db.query_row batch_upsert_counter (text m.name ∷ number m.delta ∷ []) tx)
        (pg.upsert_counter_law batch_upsert_counter m.name m.delta tx (inr refl)))
  batch_query-One undefined i m tx e = tt
  batch_query-One (other n) i m tx e = tt

  -- the loop from some point on, with the metrics appended so far
  abbrev pub Loop :
      ℕ → List Metric → List Metric → View → (Option Error × List Metric) × Tx → Type 0
  Loop i ms done before ((none, result), tx) =
      (l : List Metric) × (result ≡ done ++ l) × (update_all_spec i ms before ≡ ok (inside tx, l))
  Loop i ms done before ((some e, result), tx) = Unit

  Loop-step :
      (i : ℕ) (m : Metric) (ms done : List Metric) (before : View) (a : Metric) (tx : Tx)
      (r : (Option Error × List Metric) × Tx)
      → update_by m.type (unexpected_at i m.type) m before ≡ ok (inside tx, a)
      → Loop (suc i) ms (done ++ a ∷ []) (inside tx) r
      → Loop i (m ∷ ms) done before r
  unfolding update_all_spec
  Loop-step i m ms done before a tx ((none, result), tx') one (l, same, rest) =
      (a ∷ l, same ∙ append_assoc done (a ∷ []) l, rw (one, rest) refl)
  Loop-step i m ms done before a tx ((some e, result), tx') one rest = tt

  or_stop-Loop :
      (i : ℕ) (m : Metric) (ms done : List Metric) (before : View) (r : Result Metric × Tx)
      (continue : Metric → Tx → (Option Error × List Metric) × Tx)
      → One i m.type m before r
      → ((a : Metric) (tx : Tx) → Loop (suc i) ms (done ++ a ∷ []) (inside tx) (continue a tx))
      → Loop i (m ∷ ms) done before (or_stop db done r continue)
  or_stop-Loop i m ms done before (ok a, tx) continue one rest =
      Loop-step i m ms done before a tx (continue a tx) one (rest a tx)
  or_stop-Loop i m ms done before (err e, tx) continue one rest = tt

  pub batch_loop-Loop :
      (i : ℕ) (ms done : List Metric) (tx : Tx)
      → Loop i ms done (inside tx) (batch_loop db i ms done tx)
  unfolding batch_loop update_all_spec
  batch_loop-Loop i [] done tx = ([], sym (append-nil done), refl)
  batch_loop-Loop i (m ∷ ms) done tx =
      or_stop-Loop i m ms done (inside tx) (batch_query db m.type i m tx)
        (λ a tx'. batch_loop db (suc i) ms (done ++ a ∷ []) tx')
        (batch_query-One m.type i m tx refl)
        (λ a tx'. batch_loop-Loop (suc i) ms (done ++ a ∷ []) tx')

  -- what the queries of a batch do
  abbrev pub Batch : List Metric → View → List Metric → View → Type 0
  Batch ms before result after = update_all_spec 0 ms before ≡ ok (after, result)

  abbrev pub batch_queries : List Metric → Queries db (List Metric)
  batch_queries ms result = batch_loop db 0 ms []

  Loop-Does :
      (ms : List Metric) (before : View) (r : (Option Error × List Metric) × Tx)
      → Loop 0 ms [] before r
      → Does db shows inside pg.transactional (batch_queries ms) (Batch ms) Anyhow NoChange before r
  Loop-Does ms before ((none, result), tx) (l, same, done) = rw same done
  Loop-Does ms before ((some e, result), tx) done = tt

  pub batch_queries-Does :
      (ms result : List Metric) (tx : Tx)
      → Does db shows inside pg.transactional
          (batch_queries ms)
          (Batch ms)
          Anyhow
          NoChange
          (inside tx)
          (batch_queries ms result tx)
  batch_queries-Does ms result tx =
      Loop-Does ms (inside tx) (batch_loop db 0 ms [] tx) (batch_loop-Loop 0 ms [] tx)

  returned_as :
      (ms : List Metric) (before : View) (r : Option Error × (World × List Metric))
      → Settled db shows inside pg (Batch ms) before r
      → Settles db shows inside pg (update_all_spec 0 ms before) before (result_of r.0 r.1.1, r.1.0)
  returned_as ms before (none, (w, l)) settled = settled
  returned_as ms before (some e, (w, l)) settled = settled

  -- Where a commit that fails has not been applied, whatever else fails and however often: a batch
  -- that returns metrics has been made as a whole and once, and returns what the specification
  -- returns, and a batch that returns an error has changed nothing.
  pub update_metrics-Settles :
      (ms : List Metric) (w : World)
      → IsDefinite db shows
      → Settles db shows inside pg
          (update_all_spec 0 ms (shows w))
          (shows w)
          (update_metrics db ms w)
  unfolding update_metrics
  update_metrics-Settles ms w definite =
      returned_as ms (shows w) (do_transaction_with_retries db (batch_queries ms) (w, [])) (
        transaction_settles db shows inside pg (batch_queries ms) (Batch ms) definite
          (batch_queries-Does ms) w [])
