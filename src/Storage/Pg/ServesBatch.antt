-- ===== src/Storage/Pg/ServesBatch.antt =====
-- Batches, on a database that answers every query.
use go_advanced.Base.{ℕ, suc, ◌≡◌, refl, sym, ap, ◌∙◌, subst, inr, none, List, [], ◌∷◌, ◌++◌, arith}
use go_advanced.Entities.{MetricType, undefined, gauge, counter, other, Metric}
use go_advanced.Entities.Errors.{ok}
use go_advanced.Storage.Spec.{
  View, update_all_spec, unexpected, unexpected_at, gauge_metric, counter_metric, next,
}
use go_advanced.Storage.Spec.Batches.{update_by-same}
use go_advanced.Storage.Pg.Sql.{Database}
use go_advanced.Storage.Pg.Postgres.{IsPostgres}
use go_advanced.Storage.Pg.Transaction.Attempts.{Does}
use go_advanced.Storage.Pg.Batches.{One, batch_query-One, Batch, batch_queries, batch_queries-Does}
use go_advanced.Storage.Pg.Up.{Fits, FitsAll, IsUp, Succeeds, transaction_up}
use go_advanced.Storage.Pg.Serves.{Serves}
use go_advanced.Storage.Pg.{
  batch_upsert_gauge, batch_upsert_counter, batch_query, batch_loop, update_metrics,
}

module _ (db : Database) (shows : db.World → View) (inside : db.Tx → View)
    (pg : IsPostgres db shows inside) (Up : db.World → Type 0) (UpTx : db.Tx → Type 0)
    (up : IsUp db inside Up UpTx) where
  open db use {World, Tx}

  -- the query of one metric succeeds
  abbrev Stores : ℕ → MetricType → Metric → Tx → Type 0
  Stores i k m tx = (a : Metric) × (tx' : Tx) × (batch_query db k i m tx ≡ (ok a, tx')) × UpTx tx'

  batch_query-Stores :
      (k : MetricType) (i : ℕ) (m : Metric) (tx : Tx)
      → UpTx tx
      → m.type ≡ k
      → Fits m (inside tx)
      → Stores i k m tx
  unfolding batch_query
  batch_query-Stores gauge i m tx h e fits =
      let (v, tx', run, h') =
        up.upsert_gauge_up batch_upsert_gauge m.name m.value tx (inr refl) h in
      (gauge_metric m.name v, tx', rw (run, e) refl, h')
  batch_query-Stores counter i m tx h e fits =
      let (v, tx', run, h') =
        up.upsert_counter_up batch_upsert_counter m.name m.delta tx (inr refl) h fits.1 in
      (counter_metric m.name v, tx', rw (run, e) refl, h')
  batch_query-Stores undefined i m tx h e fits = absurd (ground (arith, fits.0))
  batch_query-Stores (other n) i m tx h e fits = absurd (ground (arith, fits.0))

  -- the loop succeeds
  batch_loop_up :
      (i : ℕ) (ms done : List Metric) (tx : Tx)
      → UpTx tx
      → FitsAll ms (inside tx)
      → (l : List Metric) × (tx' : Tx) × (batch_loop db i ms done tx ≡ ((none, l), tx')) × UpTx tx'
  unfolding batch_loop
  batch_loop_up i [] done tx h fits = (done, tx, refl, h)
  batch_loop_up i (m ∷ ms) done tx h (fits, rest) =
      let (a, tx1, run, h1) = batch_query-Stores m.type i m tx h refl fits in
      let stored =
        subst (One db shows inside pg i m.type m (inside tx)) run
          (batch_query-One db shows inside pg m.type i m tx refl) in
      let same =
        update_by-same m.type (unexpected m.type) (unexpected_at i m.type) m (inside tx) fits.0
        ∙ stored in
      let (l, tx2, run2, h2) =
        batch_loop_up (suc i) ms (done ++ a ∷ []) tx1 h1
          (subst (FitsAll ms) (ap (next (inside tx)) same) rest) in
      (l, tx2, rw (run, run2) refl, h2)

  batch_queries-Succeeds :
      (ms : List Metric) (tx : Tx)
      → UpTx tx
      → FitsAll ms (inside tx)
      → Succeeds db shows inside pg Up UpTx up
          (batch_queries db shows inside pg ms)
          (Batch db shows inside pg ms)
          []
          tx
  batch_queries-Succeeds ms tx h fits =
      let (l, tx', run, h') = batch_loop_up 0 ms [] tx h fits in
      (
        l,
        tx',
        run,
        h',
        subst
            (λ r.
              Does db shows inside pg.transactional (batch_queries db shows inside pg ms)
                (Batch db shows inside pg ms) (λ before e. Unit) (λ a b. b ≡ a) (inside tx) r)
            run (batch_queries-Does db shows inside pg ms [] tx),
      )

  -- While the database answers every query, a batch of gauges, and of counters that stay within their
  -- 64 bits, is stored, and returns what the specification returns.
  pub update_metrics-Serves :
      (ms : List Metric) (w : World)
      → Up w
      → FitsAll ms (shows w)
      → Serves db shows inside pg Up UpTx up
          (update_all_spec 0 ms (shows w))
          (update_metrics db ms w)
  unfolding update_metrics
  update_metrics-Serves ms w h fits =
      let (l, w', run, done, h') =
        transaction_up db shows inside pg Up UpTx up (batch_queries db shows inside pg ms)
          (Batch db shows inside pg ms) [] w h
          (λ tx h' same. batch_queries-Succeeds ms tx h' (subst (FitsAll ms) (sym same) fits)) in
      (l, w', rw run refl, done, h')
