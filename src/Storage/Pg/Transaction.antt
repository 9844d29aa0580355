-- ===== src/Storage/Pg/Transaction.antt =====
-- internal/storage/pgstorage/transaction.go: queries in one transaction, again while the connection
-- fails. The queries change a value that they share with their caller.
pub mod Attempts
use go_advanced.Base.{Bool, true, false, Option, none, some}
use go_advanced.Entities.Errors.{Error, internal_of, pg_error, on_chain, Result, ok, err}
use go_advanced.Retry.{with_retries}
use go_advanced.Storage.Pg.Sql.{Database}

module _ (db : Database) where
  open db use {World, Tx, ctx_err, begin, commit, rollback, is_connection_exception}

  abbrev is_connection_error : Error → Bool
  is_connection_error (pg_error code) = is_connection_exception code
  is_connection_error _ = false

  unfoldable pub should_retry : Option Error → Bool
  should_retry none = false
  should_retry (some e) = on_chain is_connection_error e

  abbrev pub Queries : Type 0 → Type 0
  Queries V = V → Tx → (Option Error × V) × Tx

  -- the end of `doTransaction`; the deferred `Rollback` runs on every path from here
  abbrev committed : {V : Type 0} → V → Tx → Option Error × World → Option Error × (World × V)
  committed v tx (none, w) = (none, (rollback tx w, v))
  committed v tx (some e, w) =
      (some (internal_of "failed to commit transaction" e), (rollback tx w, v))

  abbrev queried : {V : Type 0} → World → (Option Error × V) × Tx → Option Error × (World × V)
  queried w ((some e, v), tx) = (some e, (rollback tx w, v))
  queried w ((none, v), tx) = committed v tx (commit tx w)

  abbrev opened : {V : Type 0} → Queries V → V → Result Tx × World → Option Error × (World × V)
  opened do_queries v (err e, w) = (some (internal_of "failed to begin transaction" e), (w, v))
  opened do_queries v (ok tx, w) = queried w (do_queries v tx)

  -- `doTransaction`; the `select` sees whether the context is done
  unfoldable pub do_transaction : {V : Type 0} → Queries V → World × V → Option Error × (World × V)
  do_transaction do_queries (w, v) = elim (ctx_err w) [
    | some e ↦ (some (internal_of "avoid transaction" e), (w, v))
    | none ↦ opened do_queries v (begin w)
  ]

  -- `doTransactionWithRetries`
  unfoldable pub do_transaction_with_retries :
      {V : Type 0} → Queries V → World × V → Option Error × (World × V)
  unfolding do_transaction should_retry
  do_transaction_with_retries do_queries s =
      let o = with_retries should_retry (do_transaction do_queries) s in (o.result, o.state)
