-- ===== src/Storage/Pg/Serves.antt =====
-- Updates, on a database that answers every query.
use go_advanced.Base.{◌≡◌, refl, subst, inl, false, arith}
use go_advanced.Base.Word.{add_int64}
use go_advanced.Entities.{MetricType, undefined, gauge, counter, other, Metric}
use go_advanced.Entities.Errors.{Result, ok}
use go_advanced.Storage.Spec.{
  View, update_by, update_spec, unexpected, gauge_metric, counter_metric, set_gauge, add_counter,
  or_zero,
}
use go_advanced.Storage.Pg.Sql.{Database}
use go_advanced.Storage.Pg.Postgres.{IsPostgres, Stored}
use go_advanced.Storage.Pg.Updates.{Updates, gauge_query, counter_query}
use go_advanced.Storage.Pg.Up.{overflows, Fits, IsUp, Succeeds, transaction_up}
use go_advanced.Storage.Pg.{upsert_gauge, upsert_counter, query_value, update_switch, update_metric}

module _ (db : Database) (shows : db.World → View) (inside : db.Tx → View)
    (pg : IsPostgres db shows inside) (Up : db.World → Type 0) (UpTx : db.Tx → Type 0)
    (up : IsUp db inside Up UpTx) where
  open db use {World, Tx}

  gauge_query-Succeeds :
      (m : Metric) (tx : Tx)
      → UpTx tx
      → Succeeds db shows inside pg Up UpTx up
          (gauge_query db shows inside pg m)
          (Updates db shows inside pg gauge m (gauge_metric m.name))
          0
          tx
  unfolding query_value
  gauge_query-Succeeds m tx h =
      let (v, tx', run, h') = up.upsert_gauge_up upsert_gauge m.name m.value tx (inl refl) h in
      let (value, after) =
        subst (λ r. Stored m.value (set_gauge m.name m.value (inside tx)).0 (inside r.1) r.0) run
          (pg.upsert_gauge_law upsert_gauge m.name m.value tx (inl refl)) in
      (v, tx', rw run refl, h', cc)

  counter_query-Succeeds :
      (m : Metric) (tx : Tx)
      → UpTx tx
      → overflows (or_zero ((inside tx).counters m.name)) m.delta ≡ false
      → Succeeds db shows inside pg Up UpTx up
          (counter_query db shows inside pg m)
          (Updates db shows inside pg counter m (counter_metric m.name))
          0
          tx
  unfolding query_value
  counter_query-Succeeds m tx h fits =
      let (v, tx', run, h') =
        up.upsert_counter_up upsert_counter m.name m.delta tx (inl refl) h fits in
      let (value, after) =
        subst
          (λ r.
            Stored (add_int64 (or_zero ((inside tx).counters m.name)) m.delta)
              (add_counter m.name m.delta (inside tx)).0 (inside r.1) r.0)
          run (pg.upsert_counter_law upsert_counter m.name m.delta tx (inl refl)) in
      (v, tx', rw run refl, h', cc)

  -- The call returns what the specification does, and the database still answers.
  abbrev pub Serves : {A : Type 0} → Result (View × A) → Result A × World → Type 0
  Serves {A} spec r = (a : A) × (w' : World) × (r ≡ (ok a, w')) × (spec ≡ ok (shows w', a)) × Up w'

  update_switch-Serves :
      (k : MetricType) (m : Metric) (w : World)
      → Up w
      → m.type ≡ k
      → Fits m (shows w)
      → Serves (update_by k (unexpected k) m (shows w)) (update_switch db k m w)
  unfolding update_switch
  update_switch-Serves gauge m w h e fits =
      let (v, w', run, done, h') =
        transaction_up db shows inside pg Up UpTx up (gauge_query db shows inside pg m)
          (Updates db shows inside pg gauge m (gauge_metric m.name)) 0 w h
          (λ tx h same. gauge_query-Succeeds m tx h) in
      (gauge_metric m.name v, w', rw (run, e) refl, done, h')
  update_switch-Serves counter m w h e fits =
      let (v, w', run, done, h') =
        transaction_up db shows inside pg Up UpTx up (counter_query db shows inside pg m)
          (Updates db shows inside pg counter m (counter_metric m.name)) 0 w h
          (λ tx h same. counter_query-Succeeds m tx h (rw same fits.1)) in
      (counter_metric m.name v, w', rw (run, e) refl, done, h')
  update_switch-Serves undefined m w h e fits = absurd (ground (arith, fits.0))
  update_switch-Serves (other n) m w h e fits = absurd (ground (arith, fits.0))

  -- While the database answers every query, an update of a gauge, and one of a counter that stays
  -- within its 64 bits, is made, and returns what the specification returns.
  pub update_metric-Serves :
      (m : Metric) (w : World)
      → Up w
      → Fits m (shows w)
      → Serves (update_spec m (shows w)) (update_metric db m w)
  unfolding update_metric
  update_metric-Serves m w h fits = update_switch-Serves m.type m w h refl fits
