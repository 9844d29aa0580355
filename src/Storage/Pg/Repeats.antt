-- ===== src/Storage/Pg/Repeats.antt =====
-- Updates of a counter, where a commit that fails may have been applied.
use go_advanced.Base.{
  ℕ, zero, suc, ◌≤◌, ◌≡◌, refl, sym, ap, ◌∙◌, ◌⊎◌, inl, inr, Option, none, some, arith,
}
use go_advanced.Entities.{MetricName, MetricType, Counter, undefined, gauge, counter, other, Metric}
use go_advanced.Entities.Errors.{Error, Result, ok, err}
use go_advanced.Storage.Spec.{View, update_by, update_spec, unexpected, counter_metric, add_counter}
use go_advanced.Storage.Pg.Sql.{Database}
use go_advanced.Storage.Pg.Transaction.{do_transaction_with_retries}
use go_advanced.Storage.Pg.Transaction.Attempts.{Chain, Ends, with_retries-Ends}
use go_advanced.Storage.Pg.Postgres.{IsPostgres, IsUncertain}
use go_advanced.Storage.Pg.Updates.{Anyhow, Updates, counter_query, counter-Does}
use go_advanced.Storage.Pg.{updated, update_switch, update_metric}

-- a delta added some times
abbrev pub added : ℕ → MetricName → Counter → View → View
added zero n d v = v
added (suc k) n d v = (add_counter n d (added k n d v)).0

-- a failed attempt added the delta or not
abbrev MayAdd : MetricName → Counter → View → View → Type 0
MayAdd n d a b = (b ≡ a) ⊎ (b ≡ (add_counter n d a).0)

MayAdd-Chain :
    (n : MetricName) (d : Counter) (l : ℕ) (a b : View)
    → Chain (MayAdd n d) l a b
    → (k : ℕ) × (k ≤ l) × (b ≡ added k n d a)
MayAdd-Chain n d zero a b chain = (0, omega arith, sym chain)
MayAdd-Chain n d (suc l) a b (m, chain, inl same) =
    let (k, most, e) = MayAdd-Chain n d l a m chain in (k, omega arith, same ∙ e)
MayAdd-Chain n d (suc l) a b (m, chain, inr again) =
    let (k, most, e) = MayAdd-Chain n d l a m chain in
    (suc k, omega arith, again ∙ ap (λ v. (add_counter n d v).0) e)

module _ (db : Database) (shows : db.World → View) (inside : db.Tx → View)
    (pg : IsPostgres db shows inside) where
  open db use {World, Tx}

  -- A call that succeeds did what the specification says, after the delta was added three times at
  -- most; a call that fails has added it four times at most.
  abbrev pub Repeats :
      MetricName → Counter → (View → Result (View × Metric)) → View → Result Metric × World → Type 0
  Repeats n d spec before (ok a, w) =
      (k : ℕ) × (k ≤ 3) × (spec (added k n d before) ≡ ok (shows w, a))
  Repeats n d spec before (err e, w) = (k : ℕ) × (k ≤ 4) × (shows w ≡ added k n d before)

  abbrev CounterEnds : Metric → View → Option Error × (World × ℕ) → Type 0
  CounterEnds m =
      Ends db shows inside pg.transactional (counter_query db shows inside pg m)
        (Updates db shows inside pg counter m (counter_metric m.name)) Anyhow
        (MayAdd m.name m.delta)

  unknown_commit :
      (m : Metric) (before : View) (v : ℕ) (tx : Tx) (w w' : World) (e : Error)
      → IsUncertain db shows inside
      → Updates db shows inside pg counter m (counter_metric m.name) before v (inside tx)
      → shows w ≡ before
      → db.commit tx w ≡ (some e, w')
      → MayAdd m.name m.delta before (shows w')
  unknown_commit m before v tx w w' e uncertain done start run = elim (uncertain tx w w' e run) [
    | inl dropped ↦ inl (dropped ∙ start)
    | inr applied ↦
        let same : inside tx ≡ (add_counter m.name m.delta before).0 = cc in inr (applied ∙ same)
  ]

  updated-Repeats :
      (m : Metric) (before mid : View) (l : ℕ) (r : Option Error × (World × ℕ))
      → l ≤ 3
      → Chain (MayAdd m.name m.delta) l before mid
      → CounterEnds m mid r
      → Repeats m.name m.delta
          (update_by counter (unexpected counter) m)
          before
          (updated (counter_metric m.name) r.0 r.1.1, r.1.0)
  updated-Repeats m before mid l (none, (w, v)) most chain end =
      let (k, few, same) = MayAdd-Chain m.name m.delta l before mid chain in
      (k, omega arith, rw (← same) end)
  updated-Repeats m before mid l (some x, (w, v)) most chain end =
      let (k, few, same) =
        MayAdd-Chain m.name m.delta (suc l) before (shows w) (mid, chain, end.1) in
      (k, omega arith, same)

  update_switch-Repeats :
      (k : MetricType) (m : Metric) (w : World)
      → IsUncertain db shows inside
      → m.type ≡ k
      → k ≡ counter
      → Repeats m.name m.delta (update_by k (unexpected k) m) (shows w) (update_switch db k m w)
  unfolding update_switch
  update_switch-Repeats counter m w uncertain e known =
      let query = counter_query db shows inside pg m in
      let (l, mid, most, chain, end) =
        with_retries-Ends db shows inside pg.transactional query
          (Updates db shows inside pg counter m (counter_metric m.name)) Anyhow
          (MayAdd m.name m.delta) (counter-Does db shows inside pg m) (λ before x other. tt)
          (λ a b same. inl same)
          (λ before v tx x y f done start run.
            unknown_commit m before v tx x y f uncertain done start run)
          w 0 in
      rw e (
        updated-Repeats m (shows w) mid l (do_transaction_with_retries db query (w, 0)) most chain
          end)
  update_switch-Repeats gauge m w uncertain e known = absurd (ground arith)
  update_switch-Repeats undefined m w uncertain e known = absurd (ground arith)
  update_switch-Repeats (other n) m w uncertain e known = absurd (ground arith)

  -- Where a commit that fails may have been applied: an update of a counter that returns a metric has
  -- added the delta once at least and four times at most, and returns the sum; one that returns an
  -- error has added it four times at most.
  pub update_metric-Repeats :
      (m : Metric) (w : World)
      → IsUncertain db shows inside
      → m.type ≡ counter
      → Repeats m.name m.delta (update_spec m) (shows w) (update_metric db m w)
  unfolding update_metric
  update_metric-Repeats m w uncertain e = update_switch-Repeats m.type m w uncertain refl e
