-- ===== src/Storage/Pg/Postgres.antt =====
-- What PostgreSQL documents of the queries of the storage, run in a transaction: a `select` finds the
-- row of the name, and an `insert … on conflict … returning` stores and returns the new value. Any
-- query may fail instead.
use go_advanced.Base.{ℕ, String, ◌≡◌, ◌⊎◌, true, Option, none, some, [], ◌∷◌, map}
use go_advanced.Base.Word.{add_int64}
use go_advanced.Entities.{MetricName}
use go_advanced.Entities.Errors.{Error, on_chain, is_no_rows, Result, ok, err}
use go_advanced.GoMap.{GoMap, lookup, IsMap}
use go_advanced.Storage.Spec.{View, or_zero, set_gauge, add_counter}
use go_advanced.Storage.Pg.Sql.{text, number, Rows, Database}
use go_advanced.Storage.Pg.Transaction.Attempts.{IsTransactional}
use go_advanced.Storage.Pg.{
  select_gauge, select_counter, upsert_gauge, upsert_counter, batch_upsert_gauge,
  batch_upsert_counter, select_gauges, select_counters,
}

-- A select by name: the value of the row, or the error that there is none.
abbrev pub Selected : Option ℕ → View → View → Result ℕ → Type 0
Selected o before after (ok v) = (o ≡ some v) × (after ≡ before)
Selected o before after (err e) = on_chain is_no_rows e ≡ true → o ≡ none

-- An insert that returns the value that it stored.
abbrev pub Stored : ℕ → View → View → Result ℕ → Type 0
Stored value wanted after (ok v) = (v ≡ value) × (after ≡ wanted)
Stored value wanted after (err e) = Unit

-- the two spellings of each insert
abbrev pub IsUpsertGauge : String → Type 0
IsUpsertGauge sql = (sql ≡ upsert_gauge) ⊎ (sql ≡ batch_upsert_gauge)

abbrev pub IsUpsertCounter : String → Type 0
IsUpsertCounter sql = (sql ≡ upsert_counter) ⊎ (sql ≡ batch_upsert_counter)

-- All rows of a table, each name once.
abbrev pub AreRows : (MetricName → Option ℕ) → GoMap ℕ → Type 0
AreRows table l = IsMap l × ((k : String) → lookup k l ≡ table k)

pub record IsPostgres (db : Database) (shows : db.World → View) (inside : db.Tx → View)
    : Type 0 where
  pub transactional : IsTransactional db shows inside
  pub select_gauge_law :
      (n : MetricName) (tx : db.Tx)
      → let r = db.query_row select_gauge (text n ∷ []) tx in
        Selected ((inside tx).gauges n) (inside tx) (inside r.1) r.0
  pub select_counter_law :
      (n : MetricName) (tx : db.Tx)
      → let r = db.query_row select_counter (text n ∷ []) tx in
        Selected ((inside tx).counters n) (inside tx) (inside r.1) r.0
  pub upsert_gauge_law :
      (sql : String) (n : MetricName) (x : ℕ) (tx : db.Tx)
      → IsUpsertGauge sql
      → let r = db.query_row sql (text n ∷ number x ∷ []) tx in
        Stored x (set_gauge n x (inside tx)).0 (inside r.1) r.0
  pub upsert_counter_law :
      (sql : String) (n : MetricName) (d : ℕ) (tx : db.Tx)
      → IsUpsertCounter sql
      → let r = db.query_row sql (text n ∷ number d ∷ []) tx in
        Stored
          (add_int64 (or_zero ((inside tx).counters n)) d)
          (add_counter n d (inside tx)).0
          (inside r.1)
          r.0
  pub select_gauges_law :
      (tx tx' : db.Tx) (rows : Rows) (l : GoMap ℕ)
      → db.query select_gauges tx ≡ (ok rows, tx')
      → rows.rows ≡ map ok l
      → rows.rows_err ≡ none
      → AreRows (inside tx).gauges l × (inside tx' ≡ inside tx)
  pub select_counters_law :
      (tx tx' : db.Tx) (rows : Rows) (l : GoMap ℕ)
      → db.query select_counters tx ≡ (ok rows, tx')
      → rows.rows ≡ map ok l
      → rows.rows_err ≡ none
      → AreRows (inside tx).counters l × (inside tx' ≡ inside tx)

-- A commit that fails has not been applied.
abbrev pub IsDefinite : (db : Database) → (db.World → View) → Type 0
IsDefinite db shows =
    (tx : db.Tx) (w w' : db.World) (e : Error) → db.commit tx w ≡ (some e, w') → shows w' ≡ shows w

-- A commit that fails has been applied or not.
abbrev pub IsUncertain : (db : Database) → (db.World → View) → (db.Tx → View) → Type 0
IsUncertain db shows inside =
    (tx : db.Tx) (w w' : db.World) (e : Error)
    → db.commit tx w ≡ (some e, w')
    → (shows w' ≡ shows w) ⊎ (shows w' ≡ inside tx)
