-- ===== src/Storage/Pg/Updates.antt =====
-- Single updates, where a commit that fails has not been applied.
use go_advanced.Base.{ℕ, zero, suc, ◌≡◌, refl, sym, ◌∙◌, subst, inl, Option, none, some, [], ◌∷◌}
use go_advanced.Base.Word.{add_int64}
use go_advanced.Entities.{MetricType, undefined, gauge, counter, other, Metric}
use go_advanced.Entities.Errors.{Error, Result, ok, err}
use go_advanced.Storage.Spec.{
  View, update_by, update_spec, unexpected, gauge_metric, counter_metric, set_gauge, add_counter,
  or_zero,
}
use go_advanced.Storage.Pg.Sql.{text, number, Database}
use go_advanced.Storage.Pg.Transaction.{Queries, do_transaction_with_retries}
use go_advanced.Storage.Pg.Transaction.Attempts.{Chain, Does, Ends, with_retries-Ends}
use go_advanced.Storage.Pg.Postgres.{IsPostgres, IsDefinite, Stored}
use go_advanced.Storage.Pg.{
  upsert_gauge, upsert_counter, query_value, updated, scanned, update_switch, update_metric,
}

abbrev pub NoChange : View → View → Type 0
NoChange a b = b ≡ a

pub NoChange-Chain : (n : ℕ) (a b : View) → Chain NoChange n a b → b ≡ a
NoChange-Chain zero a b chain = sym chain
NoChange-Chain (suc n) a b (m, chain, step) = step ∙ NoChange-Chain n a m chain

-- no claim on a failure
abbrev pub Anyhow : View → Error → Type 0
Anyhow before e = Unit

module _ (db : Database) (shows : db.World → View) (inside : db.Tx → View)
    (pg : IsPostgres db shows inside) where
  open db use {World, Tx}

  -- A call did what the specification says, or it failed and changed nothing.
  abbrev pub Settles : {A : Type 0} → Result (View × A) → View → Result A × World → Type 0
  Settles spec before (ok a, w) = spec ≡ ok (shows w, a)
  Settles spec before (err e, w) = shows w ≡ before

  -- a value that is stored, and what the table shows then
  abbrev Writes : (View → View × ℕ) → View → ℕ → View → Type 0
  Writes write before v after = (after, v) ≡ write before

  abbrev pub Settled :
      {A : Type 0} → (View → A → View → Type 0) → View → Option Error × (World × A) → Type 0
  Settled Post before (none, (w, a)) = Post before a (shows w)
  Settled Post before (some e, (w, a)) = shows w ≡ before

  module _ {A : Type 0} (do_queries : Queries db A) (Post : View → A → View → Type 0) where
    settles :
        (before m : View) (r : Option Error × (World × A))
        → m ≡ before
        → Ends db shows inside pg.transactional do_queries Post Anyhow NoChange m r
        → Settled Post before r
    settles before m (none, (w, a)) e end = subst (λ b. Post b a (shows w)) e end
    settles before m (some x, (w, a)) e end = end.1 ∙ e

    -- with definite commits, a transaction and its repetitions are all or nothing
    pub transaction_settles :
        IsDefinite db shows
        → ((a : A) (tx : Tx)
            → Does db shows inside pg.transactional do_queries Post Anyhow NoChange
                (inside tx)
                (do_queries a tx))
        → (w : World) (a : A)
        → Settled Post (shows w) (do_transaction_with_retries db do_queries (w, a))
    transaction_settles definite does w a =
        let (n, m, most, chain, end) =
          with_retries-Ends db shows inside pg.transactional do_queries Post Anyhow NoChange does
            (λ before e other. tt) (λ x y e. e)
            (λ before v tx x y e done start run. definite tx x y e run ∙ start) w a in
        settles (shows w) m (do_transaction_with_retries db do_queries (w, a))
          (NoChange-Chain n (shows w) m chain) end

  -- the update of a known type, with the value that the query returned
  abbrev pub Updates : MetricType → Metric → (ℕ → Metric) → View → ℕ → View → Type 0
  Updates k metric answer before v after =
      update_by k (unexpected k) metric before ≡ ok (after, answer v)

  abbrev pub gauge_query : Metric → Queries db ℕ
  gauge_query m = query_value db upsert_gauge (text m.name ∷ number m.value ∷ [])

  abbrev pub counter_query : Metric → Queries db ℕ
  counter_query m = query_value db upsert_counter (text m.name ∷ number m.delta ∷ [])

  gauge_scanned :
      (m : Metric) (value : ℕ) (before : View) (r : Result ℕ × Tx)
      → Stored m.value (set_gauge m.name m.value before).0 (inside r.1) r.0
      → Does db shows inside pg.transactional
          (gauge_query m)
          (Updates gauge m (gauge_metric m.name))
          Anyhow
          NoChange
          before
          (scanned db value r)
  gauge_scanned m value before (ok v, tx) stored = cc
  gauge_scanned m value before (err e, tx) stored = tt

  counter_scanned :
      (m : Metric) (value : ℕ) (before : View) (r : Result ℕ × Tx)
      → Stored
          (add_int64 (or_zero (before.counters m.name)) m.delta)
          (add_counter m.name m.delta before).0
          (inside r.1)
          r.0
      → Does db shows inside pg.transactional
          (counter_query m)
          (Updates counter m (counter_metric m.name))
          Anyhow
          NoChange
          before
          (scanned db value r)
  counter_scanned m value before (ok v, tx) stored = cc
  counter_scanned m value before (err e, tx) stored = tt

  pub gauge-Does :
      (m : Metric) (value : ℕ) (tx : Tx)
      → Does db shows inside pg.transactional
          (gauge_query m)
          (Updates gauge m (gauge_metric m.name))
          Anyhow
          NoChange
          (inside tx)
          (gauge_query m value tx)
  unfolding query_value
  gauge-Does m value tx =
      gauge_scanned m value (inside tx)
        (db.query_row upsert_gauge (text m.name ∷ number m.value ∷ []) tx)
        (pg.upsert_gauge_law upsert_gauge m.name m.value tx (inl refl))

  pub counter-Does :
      (m : Metric) (value : ℕ) (tx : Tx)
      → Does db shows inside pg.transactional
          (counter_query m)
          (Updates counter m (counter_metric m.name))
          Anyhow
          NoChange
          (inside tx)
          (counter_query m value tx)
  unfolding query_value
  counter-Does m value tx =
      counter_scanned m value (inside tx)
        (db.query_row upsert_counter (text m.name ∷ number m.delta ∷ []) tx)
        (pg.upsert_counter_law upsert_counter m.name m.delta tx (inl refl))

  -- what the end of `UpdateMetric` makes of a transaction
  answered :
      (k : MetricType) (m : Metric) (answer : ℕ → Metric) (before : View)
      (r : Option Error × (World × ℕ))
      → Settled (Updates k m answer) before r
      → Settles (update_by k (unexpected k) m before) before (updated answer r.0 r.1.1, r.1.0)
  answered k m answer before (none, (w, v)) settled = settled
  answered k m answer before (some e, (w, v)) settled = settled

  update_switch_lem :
      (k : MetricType) (m : Metric) (w : World)
      → IsDefinite db shows
      → m.type ≡ k
      → Settles (update_by k (unexpected k) m (shows w)) (shows w) (update_switch db k m w)
  unfolding update_switch
  update_switch_lem gauge m w definite e = rw e (
      answered gauge m (gauge_metric m.name) (shows w)
        (do_transaction_with_retries db (gauge_query m) (w, 0))
        (transaction_settles (gauge_query m) (Updates gauge m (gauge_metric m.name)) definite
          (gauge-Does m) w 0))
  update_switch_lem counter m w definite e = rw e (
      answered counter m (counter_metric m.name) (shows w)
        (do_transaction_with_retries db (counter_query m) (w, 0))
        (transaction_settles (counter_query m) (Updates counter m (counter_metric m.name)) definite
          (counter-Does m) w 0))
  update_switch_lem undefined m w definite e = refl
  update_switch_lem (other n) m w definite e = refl

  -- Where a commit that fails has not been applied, whatever else fails and however often: an update
  -- that returns a metric has been made once, and returns what the specification returns, and an
  -- update that returns an error has changed nothing.
  pub update_metric-Settles :
      (m : Metric) (w : World)
      → IsDefinite db shows
      → Settles (update_spec m (shows w)) (shows w) (update_metric db m w)
  unfolding update_metric
  update_metric-Settles m w definite = update_switch_lem m.type m w definite refl
