-- ===== src/Storage/Pg/Transaction/Attempts.antt =====
-- What one attempt leaves in the database, and what the attempts leave together.
use go_advanced.Base.{
  ℕ, zero, suc, ◌≤◌, ◌<◌, ◌≡◌, refl, sym, ◌∙◌, subst, true, false, Option, none, some, arith,
}
use go_advanced.Entities.Errors.{Error, internal_of, on_chain, is_no_rows, Result, ok, err}
use go_advanced.Retry.{after, with_retries}
use go_advanced.Retry.Runs.{with_retries-IsRun, with_retries_earlier}
use go_advanced.Storage.Spec.{View}
use go_advanced.Storage.Pg.Sql.{Database}
use go_advanced.Storage.Pg.Transaction.{
  Queries, should_retry, committed, queried, opened, do_transaction, do_transaction_with_retries,
}

-- The error does not say that a row is missing.
abbrev pub IsOther : Error → Type 0
IsOther e = on_chain is_no_rows e ≡ false

-- A transaction starts from what the database shows, a commit makes its changes visible, and a
-- rollback drops them. The outcome of a commit that fails is left open.
pub record IsTransactional (db : Database) (shows : db.World → View) (inside : db.Tx → View)
    : Type 0 where
  pub ctx_err_law : (w : db.World) {e : Error} → db.ctx_err w ≡ some e → IsOther e
  pub begin_fails :
      (w w' : db.World) {e : Error} → db.begin w ≡ (err e, w') → IsOther e × (shows w' ≡ shows w)
  pub begin_law :
      (w w' : db.World) {tx : db.Tx}
      → db.begin w ≡ (ok tx, w')
      → (inside tx ≡ shows w) × (shows w' ≡ shows w)
  pub commit_fails :
      (tx : db.Tx) (w w' : db.World) {e : Error} → db.commit tx w ≡ (some e, w') → IsOther e
  pub commit_law :
      (tx : db.Tx) (w w' : db.World) → db.commit tx w ≡ (none, w') → shows w' ≡ inside tx
  pub rollback_law : (tx : db.Tx) (w : db.World) → shows (db.rollback tx w) ≡ shows w

-- some steps in a row
abbrev pub Chain : (View → View → Type 0) → ℕ → View → View → Type 0
Chain Step zero a b = a ≡ b
Chain Step (suc n) a b = (m : View) × Chain Step n a m × Step m b

module _ (db : Database) (shows : db.World → View) (inside : db.Tx → View)
    (law : IsTransactional db shows inside) {V : Type 0} (do_queries : Queries db V)
    -- what the queries do if they succeed, and what their failure says
    (Post : View → V → View → Type 0) (Fail : View → Error → Type 0)
    -- what a failed attempt may leave
    (Lost : View → View → Type 0) where
  open db use {World, Tx, begin, commit, rollback, ctx_err}

  abbrev pub Does : View → (Option Error × V) × Tx → Type 0
  Does before ((none, v), tx) = Post before v (inside tx)
  Does before ((some e, v), tx) = Fail before e

  abbrev pub Ends : View → Option Error × (World × V) → Type 0
  Ends before (none, (w, v)) = Post before v (shows w)
  Ends before (some e, (w, v)) = Fail before e × Lost before (shows w)

  module _ (does : (v : V) (tx : Tx) → Does (inside tx) (do_queries v tx))
      (other : (before : View) (e : Error) → IsOther e → Fail before e)
      (same : (a b : View) → b ≡ a → Lost a b)
      (unknown : (before : View) (v : V) (tx : Tx) (w w' : World) (e : Error)
        → Post before v (inside tx)
        → shows w ≡ before
        → commit tx w ≡ (some e, w')
        → Lost before (shows w')) where
    committed_lem :
        (before : View) (v : V) (tx : Tx) (w : World) (r : Option Error × World)
        → commit tx w ≡ r
        → shows w ≡ before
        → Post before v (inside tx)
        → Ends before (committed db v tx r)
    unfolding on_chain
    committed_lem before v tx w (none, w') run start done =
        subst (Post before v) (sym (law.rollback_law tx w' ∙ law.commit_law tx w w' run)) done
    committed_lem before v tx w (some e, w') run start done = (
      other before (internal_of "failed to commit transaction" e) (law.commit_fails tx w w' run),
      subst (Lost before) (sym (law.rollback_law tx w'))
          (unknown before v tx w w' e done start run),
    )

    queried_lem :
        (before : View) (w : World) (r : (Option Error × V) × Tx)
        → shows w ≡ before
        → Does before r
        → Ends before (queried db w r)
    queried_lem before w ((none, v), tx) start done =
        committed_lem before v tx w (commit tx w) refl start done
    queried_lem before w ((some e, v), tx) start done =
        (done, same before _ (law.rollback_law tx w ∙ start))

    opened_lem :
        (w : World) (v : V) (r : Result Tx × World)
        → begin w ≡ r
        → Ends (shows w) (opened db do_queries v r)
    unfolding on_chain
    opened_lem w v (err e, w') run =
        let (is_other, start) = law.begin_fails w w' run in
        (
          other (shows w) (internal_of "failed to begin transaction" e) is_other,
          same (shows w) (shows w') start,
        )
    opened_lem w v (ok tx, w') run =
        let (before, start) = law.begin_law w w' run in
        queried_lem (shows w) w' (do_queries v tx) start
          (subst (λ b. Does b (do_queries v tx)) before (does v tx))

    avoided_lem :
        (w : World) (v : V) (o : Option Error)
        → ctx_err w ≡ o
        → Ends (shows w) (elim o [
          | some e ↦ (some (internal_of "avoid transaction" e), (w, v))
          | none ↦ opened db do_queries v (begin w)
        ])
    unfolding on_chain
    avoided_lem w v none run = opened_lem w v (begin w) refl
    avoided_lem w v (some e) run = (
      other (shows w) (internal_of "avoid transaction" e) (law.ctx_err_law w run),
      same (shows w) (shows w) refl,
    )

    -- One attempt does all that the queries do, or fails.
    pub do_transaction_lem :
        (w : World) (v : V) → Ends (shows w) (do_transaction db do_queries (w, v))
    unfolding do_transaction
    do_transaction_lem w v = avoided_lem w v (ctx_err w) refl

    lost_by :
        (before : View) (r : Option Error × (World × V))
        → should_retry db r.0 ≡ true
        → Ends before r
        → Lost before (shows r.1.0)
    unfolding should_retry
    lost_by before (none, s) again end = cc
    lost_by before (some e, s) again end = end.1

    after-Ends :
        (n : ℕ) (w : World) (v : V)
        → ((j : ℕ)
            → j < n
            → should_retry db (after (do_transaction db do_queries) j (w, v)).0 ≡ true)
        → (m : View) × Chain Lost n (shows w) m
          × Ends m (after (do_transaction db do_queries) n (w, v))
    after-Ends zero w v failed = (shows w, refl, do_transaction_lem w v)
    after-Ends (suc n) w v failed =
        let r = after (do_transaction db do_queries) n (w, v) in
        let (m, chain, end) = after-Ends n w v (λ j h. failed j (omega arith)) in
        (
          shows r.1.0,
          (m, chain, lost_by m r (failed n (omega arith)) end),
          do_transaction_lem r.1.0 r.1.1,
        )

    -- The attempts together: three that failed at most, and the last one.
    pub with_retries-Ends :
        (w : World) (v : V)
        → (n : ℕ) × (m : View) × (n ≤ 3)
          × Chain Lost n (shows w) m
          × Ends m (do_transaction_with_retries db do_queries (w, v))
    unfolding do_transaction_with_retries
    with_retries-Ends w v =
        let test = should_retry db in
        let attempt = do_transaction db do_queries in
        let o = with_retries test attempt (w, v) in
        let (most, last, _, _) = with_retries-IsRun test attempt (w, v) in
        let (m, chain, end) = after-Ends o.retries w v (with_retries_earlier test attempt (w, v)) in
        (o.retries, m, most, chain, subst (Ends m) (sym last) end)
