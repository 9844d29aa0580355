-- ===== src/Storage/Pg/Up.antt =====
-- A database that answers every query, and the transactions on it.
use go_advanced.Base.{
  ℕ, ◌^◌, String, ◌≡◌, refl, sym, ◌∙◌, subst, Bool, true, false, ◌&&◌, not, leb, none, List, [],
  ◌∷◌, map,
}
use go_advanced.Base.Word.{add_int64}
use go_advanced.Entities.{MetricName, Metric}
use go_advanced.Entities.Errors.{ok}
use go_advanced.GoMap.{GoMap}
use go_advanced.Retry.{with_retries}
use go_advanced.Storage.Spec.{View, or_zero, update_spec, next}
use go_advanced.Storage.Spec.Reads.{IsKnown}
use go_advanced.Storage.Pg.Sql.{text, number, Database}
use go_advanced.Storage.Pg.Transaction.{
  Queries, should_retry, do_transaction, do_transaction_with_retries,
}
use go_advanced.Storage.Pg.Postgres.{IsPostgres, IsUpsertGauge, IsUpsertCounter}
use go_advanced.Storage.Pg.{select_gauges, select_counters}

-- the sign bit of an `int64`
abbrev is_negative : ℕ → Bool
is_negative a = leb (2 ^ 63) a

abbrev same_sign : ℕ → ℕ → Bool
same_sign a b = elim (is_negative a) [ true ↦ is_negative b | false ↦ not (is_negative b) ]

-- `bigint` addition: PostgreSQL refuses a sum whose sign is wrong
unfoldable pub overflows : ℕ → ℕ → Bool
overflows a b = same_sign a b && not (same_sign a (add_int64 a b))

-- The update is one that PostgreSQL can store.
abbrev pub Fits : Metric → View → Type 0
Fits m v = IsKnown m.type × (overflows (or_zero (v.counters m.name)) m.delta ≡ false)

abbrev pub FitsAll : List Metric → View → Type 0
FitsAll [] v = Unit
FitsAll (m ∷ ms) v = Fits m v × FitsAll ms (next v (update_spec m v))

pub record IsUp (db : Database) (inside : db.Tx → View) (Up : db.World → Type 0)
    (UpTx : db.Tx → Type 0) : Type 0 where
  pub ctx_up : (w : db.World) → Up w → db.ctx_err w ≡ none
  pub begin_up :
      (w : db.World)
      → Up w
      → (tx : db.Tx) × (w' : db.World) × (db.begin w ≡ (ok tx, w')) × UpTx tx × Up w'
  pub upsert_gauge_up :
      (sql : String) (n : MetricName) (x : ℕ) (tx : db.Tx)
      → IsUpsertGauge sql
      → UpTx tx
      → (v : ℕ) × (tx' : db.Tx) × (db.query_row sql (text n ∷ number x ∷ []) tx ≡ (ok v, tx'))
        × UpTx tx'
  pub upsert_counter_up :
      (sql : String) (n : MetricName) (d : ℕ) (tx : db.Tx)
      → IsUpsertCounter sql
      → UpTx tx
      → overflows (or_zero ((inside tx).counters n)) d ≡ false
      → (v : ℕ) × (tx' : db.Tx) × (db.query_row sql (text n ∷ number d ∷ []) tx ≡ (ok v, tx'))
        × UpTx tx'
  pub select_gauges_up :
      (tx : db.Tx)
      → UpTx tx
      → (l : GoMap ℕ) × (tx' : db.Tx) × (db.query select_gauges tx
          ≡ (ok (record { rows = map ok l; rows_err = none }), tx'))
        × UpTx tx'
  pub select_counters_up :
      (tx : db.Tx)
      → UpTx tx
      → (l : GoMap ℕ) × (tx' : db.Tx) × (db.query select_counters tx
          ≡ (ok (record { rows = map ok l; rows_err = none }), tx'))
        × UpTx tx'
  pub commit_up :
      (tx : db.Tx) (w : db.World)
      → UpTx tx
      → Up w
      → (w' : db.World) × (db.commit tx w ≡ (none, w')) × Up w'
  pub rollback_up : (tx : db.Tx) (w : db.World) → Up w → Up (db.rollback tx w)

module _ (db : Database) (shows : db.World → View) (inside : db.Tx → View)
    (pg : IsPostgres db shows inside) (Up : db.World → Type 0) (UpTx : db.Tx → Type 0)
    (up : IsUp db inside Up UpTx) where
  open db use {World, Tx}

  module _ {A : Type 0} (do_queries : Queries db A) (Post : View → A → View → Type 0) (a : A) where
    -- The queries succeed.
    abbrev pub Succeeds : Tx → Type 0
    Succeeds tx =
        (a' : A) × (tx' : Tx) × (do_queries a tx ≡ ((none, a'), tx'))
        × UpTx tx'
        × Post (inside tx) a' (inside tx')

    -- A transaction whose queries succeed is committed at the first attempt.
    pub transaction_up :
        (w : World)
        → Up w
        → ((tx : Tx) → UpTx tx → inside tx ≡ shows w → Succeeds tx)
        → (a' : A) × (w' : World) × (do_transaction_with_retries db do_queries (w, a)
            ≡ (none, (w', a')))
          × Post (shows w) a' (shows w')
          × Up w'
    unfolding do_transaction_with_retries do_transaction with_retries should_retry
    transaction_up w h succeeds =
        let law = pg.transactional in
        let (tx, w1, begun, tx_up, h1) = up.begin_up w h in
        let (start, _) = law.begin_law w w1 begun in
        let (a', tx', run, tx_up', post) = succeeds tx tx_up start in
        let (w2, done, h2) = up.commit_up tx' w1 tx_up' h1 in
        let left = law.rollback_law tx' w2 ∙ law.commit_law tx' w1 w2 done in
        (
          a',
          db.rollback tx' w2,
          rw (do_transaction, up.ctx_up w h, begun, run, done) refl,
          subst (λ v. Post (shows w) a' v) (sym left)
              (subst (λ v. Post v a' (inside tx')) start post),
          up.rollback_up tx' w2 h2,
        )
