-- ===== src/Storage/Pg/Reads.antt =====
-- Reads, whatever fails and however often.
use go_advanced.Base.{
  ℕ, zero, suc, ◌≡◌, refl, sym, ap, ◌∙◌, subst, ◌⊎◌, inl, inr, Bool-cases, true, false, Option,
  none, some, List, [], ◌∷◌, arith,
}
use go_advanced.Entities.{MetricName, MetricType, undefined, gauge, counter, other, Metric}
use go_advanced.Entities.Errors.{
  Error, Result, ok, err, on_chain, is_no_rows, is_metric_name_not_found,
}
use go_advanced.Storage.Spec.{View, get_by, get_spec, gauge_metric, counter_metric}
use go_advanced.Storage.Spec as Spec
use go_advanced.Storage.Pg.Sql.{text, Database}
use go_advanced.Storage.Pg.Transaction.{Queries, do_transaction_with_retries}
use go_advanced.Storage.Pg.Transaction.Attempts.{Does, Ends, with_retries-Ends}
use go_advanced.Storage.Pg.Postgres.{IsPostgres, IsUncertain, Selected}
use go_advanced.Storage.Pg.Updates.{NoChange, NoChange-Chain}
use go_advanced.Storage.Pg.{
  select_gauge, select_counter, query_value, scanned, found, get_switch, get_metric,
}

module _ (db : Database) (shows : db.World → View) (inside : db.Tx → View)
    (pg : IsPostgres db shows inside) where
  open db use {World, Tx}

  -- A call that returns a metric returns what the specification does; one that says that the name is
  -- not there is right; and the database shows the same as before.
  abbrev pub Answers : Result Metric → View → Result Metric × World → Type 0
  Answers spec before (ok a, w) = (spec ≡ ok a) × (shows w ≡ before)
  Answers spec before (err e, w) =
      ((is_metric_name_not_found e ≡ false) ⊎ (spec ≡ err e)) × (shows w ≡ before)

  module _ (table : View → MetricName → Option ℕ) (sql : go_advanced.Base.String)
      (n : MetricName) where
    abbrev Found : View → ℕ → View → Type 0
    Found before v after = (table before n ≡ some v) × (after ≡ before)

    abbrev Missing : View → Error → Type 0
    Missing before e = on_chain is_no_rows e ≡ true → table before n ≡ none

    abbrev select : Queries db ℕ
    select = query_value db sql (text n ∷ [])

    scanned-Does :
        (value : ℕ) (before : View) (r : Result ℕ × Tx)
        → Selected (table before n) before (inside r.1) r.0
        → Does db shows inside pg.transactional select Found Missing NoChange before
            (scanned db value r)
    scanned-Does value before (ok v, tx) selected = selected
    scanned-Does value before (err e, tx) selected = selected

    -- the answer of `GetMetric`
    answered :
        (answer : ℕ → Metric) (before mid : View) (r : Option Error × (World × ℕ))
        → mid ≡ before
        → Ends db shows inside pg.transactional select Found Missing NoChange mid r
        → Answers (Spec.found n answer (table before n)) before (found n answer r.0 r.1.1, r.1.0)
    answered answer before mid (none, (w, v)) e end = ground (arith, e, end)
    answered answer before mid (some x, (w, v)) e end = elim (Bool-cases (on_chain is_no_rows x)) [
      | inl missing ↦ rw missing (inr (ground (arith, e, end.0 missing)), end.1 ∙ e)
      | inr failed ↦ rw failed (inl refl, end.1 ∙ e)
    ]

    unknown_commit :
        (before : View) (v : ℕ) (tx : Tx) (w w' : World) (e : Error)
        → IsUncertain db shows inside
        → Found before v (inside tx)
        → shows w ≡ before
        → db.commit tx w ≡ (some e, w')
        → shows w' ≡ before
    unknown_commit before v tx w w' e uncertain done start run = elim (uncertain tx w w' e run) [
      | inl dropped ↦ dropped ∙ start
      | inr applied ↦ applied ∙ done.1
    ]

    select-Answers :
        (answer : ℕ → Metric) (w : World)
        → IsUncertain db shows inside
        → ((tx : Tx)
            → let r = db.query_row sql (text n ∷ []) tx in
              Selected (table (inside tx) n) (inside tx) (inside r.1) r.0)
        → let r = do_transaction_with_retries db select (w, 0) in
          Answers
            (Spec.found n answer (table (shows w) n))
            (shows w)
            (found n answer r.0 r.1.1, r.1.0)
    unfolding query_value
    select-Answers answer w uncertain law =
        let (l, mid, _, chain, end) =
          with_retries-Ends db shows inside pg.transactional select Found Missing NoChange
            (λ value tx.
              scanned-Does value (inside tx) (db.query_row sql (text n ∷ []) tx) (law tx))
            (λ before e other missing. cc) (λ a b same. same)
            (λ before v tx x y e done start run.
              unknown_commit before v tx x y e uncertain done start run)
            w 0 in
        answered answer (shows w) mid (do_transaction_with_retries db select (w, 0))
          (NoChange-Chain l (shows w) mid chain) end

  get_switch_lem :
      (k : MetricType) (m : Metric) (w : World)
      → IsUncertain db shows inside
      → m.type ≡ k
      → Answers (get_by k m (shows w)) (shows w) (get_switch db k m w)
  unfolding get_switch
  get_switch_lem gauge m w uncertain e = rw e (
      select-Answers (λ v. v.gauges) select_gauge m.name (gauge_metric m.name) w uncertain
        (pg.select_gauge_law m.name))
  get_switch_lem counter m w uncertain e = rw e (
      select-Answers (λ v. v.counters) select_counter m.name (counter_metric m.name) w uncertain
        (pg.select_counter_law m.name))
  get_switch_lem undefined m w uncertain e = (inl refl, refl)
  get_switch_lem (other n) m w uncertain e = (inl refl, refl)

  -- Whatever fails and however often, also where a commit that fails may have been applied: a read
  -- that returns a metric returns what the specification returns, a read that says that the name is
  -- not there is right, and the database shows the same as before.
  pub get_metric-Answers :
      (m : Metric) (w : World)
      → IsUncertain db shows inside
      → Answers (get_spec m (shows w)) (shows w) (get_metric db m w)
  unfolding get_metric
  get_metric-Answers m w uncertain = get_switch_lem m.type m w uncertain refl
