-- ===== src/Tests/Databases.antt =====
-- The storage in PostgreSQL, on a database in memory whose commits fail by a script.
use go_advanced.Base.{
  ℕ, String, ◌≡◌, refl, sym, ap, ◌∙◌, subst, inl, inr, Bool, true, false, Bool-cases, ◌||◌, Option,
  none, some, List, [], ◌∷◌, map, str_eq, if◌then◌else◌,
}
use go_advanced.Base.Word.{add_int64}
use go_advanced.Entities.{counter, Metric}
use go_advanced.Entities.Errors.{Error, pg_error, no_rows, internal, on_chain, Result, ok, err}
use go_advanced.GoMap.{GoMap, lookup, insert, IsMap}
use go_advanced.GoMap.Laws.{lookup-insert, insert-IsMap}
use go_advanced.Storage.Spec.{
  View, View-ext, Tables, IsTables, view_of, or_zero, set_gauge, add_counter,
}
use go_advanced.Retry.{loop, with_retries}
use go_advanced.Storage.Spec.{update_spec, update_all_spec, get_spec, empty_tables}
use go_advanced.Storage.Pg.Transaction.{should_retry, do_transaction, do_transaction_with_retries}
use go_advanced.Storage.Pg.Updates.{Settles, update_metric-Settles}
use go_advanced.Storage.Pg.Batches.{update_metrics-Settles}
use go_advanced.Storage.Pg.Repeats.{Repeats, update_metric-Repeats}
use go_advanced.Storage.Pg.Reads.{Answers, get_metric-Answers}
use go_advanced.Storage.Pg.Serves.{Serves}
use go_advanced.Storage.Pg.ServesBatch.{update_metrics-Serves}
use go_advanced.Storage.Pg.Dumps.{Dump, get_metrics_by_types-Dump}
use go_advanced.Storage.Pg.{
  query_value, update_switch, update_metric, update_metrics, get_metric, get_metrics_by_types,
}
use go_advanced.Storage.Pg.Sql.{Arg, text, number, Rows, Database}
use go_advanced.Storage.Pg.Transaction.Attempts.{IsTransactional}
use go_advanced.Storage.Pg.Postgres.{
  IsPostgres, IsDefinite, IsUncertain, IsUpsertGauge, IsUpsertCounter, Stored, Selected,
}
use go_advanced.Storage.Pg.Up.{overflows, IsUp}
use go_advanced.Storage.Pg.{
  select_gauge, select_counter, upsert_gauge, upsert_counter, batch_upsert_gauge,
  batch_upsert_counter, select_gauges, select_counters,
}

-- the tables, with unique keys
record Held : Type 0 where
  tables : Tables
  keys : IsTables tables

record World : Type 0 where
  held : Held
  -- the fate of each commit to come
  fails : List Bool

abbrev set_gauge_row : String → ℕ → Held → Held
set_gauge_row n x h = record {
  tables = record h.tables { gauge_map = insert n x h.tables.gauge_map };
  keys = record {
    gauge_keys = insert-IsMap n x h.tables.gauge_map h.keys.gauge_keys;
    counter_keys = h.keys.counter_keys;
  };
}

abbrev set_counter_row : String → ℕ → Held → Held
set_counter_row n x h = record {
  tables = record h.tables { counter_map = insert n x h.tables.counter_map };
  keys = record {
    gauge_keys = h.keys.gauge_keys;
    counter_keys = insert-IsMap n x h.tables.counter_map h.keys.counter_keys;
  };
}

abbrev row : Option ℕ → Result ℕ
row none = err no_rows
row (some v) = ok v

abbrev select : String → String → Held → Result ℕ × Held
select sql n h =
    if str_eq sql select_gauge
    then (row (lookup n h.tables.gauge_map), h)
    else if str_eq sql select_counter
    then (row (lookup n h.tables.counter_map), h)
    else (err (internal "syntax"), h)

abbrev add_row : String → ℕ → ℕ → Held → Result ℕ × Held
add_row n old d h =
    if overflows old d
    then (err (internal "bigint out of range"), h)
    else (ok (add_int64 old d), set_counter_row n (add_int64 old d) h)

abbrev upsert : String → String → ℕ → Held → Result ℕ × Held
upsert sql n x h =
    if str_eq sql upsert_gauge || str_eq sql batch_upsert_gauge
    then (ok x, set_gauge_row n x h)
    else if str_eq sql upsert_counter || str_eq sql batch_upsert_counter
    then add_row n (or_zero (lookup n h.tables.counter_map)) x h
    else (err (internal "syntax"), h)

abbrev run_row : String → List Arg → Held → Result ℕ × Held
run_row sql (text n ∷ []) h = select sql n h
run_row sql (text n ∷ number x ∷ []) h = upsert sql n x h
run_row sql _ h = (err (internal "syntax"), h)

abbrev run_rows : String → Held → Result Rows × Held
run_rows sql h =
    if str_eq sql select_gauges
    then (ok (record { rows = map ok h.tables.gauge_map; rows_err = none }), h)
    else if str_eq sql select_counters
    then (ok (record { rows = map ok h.tables.counter_map; rows_err = none }), h)
    else (err (internal "syntax"), h)

-- A commit that fails has been applied if the database is `lossy`.
abbrev run_commit : Bool → Held → Held → List Bool → Option Error × World
run_commit lossy tx h [] = (none, record { held = tx; fails = [] })
run_commit lossy tx h (false ∷ fails) = (none, record { held = tx; fails = fails })
run_commit lossy tx h (true ∷ fails) =
    (some (pg_error "08006"), record { held = if lossy then tx else h; fails = fails })

abbrev database : Bool → Database
database lossy = record {
  World = World;
  Tx = Held;
  ctx_err = λ w. none;
  begin = λ w. (ok w.held, w);
  query_row = run_row;
  query = run_rows;
  commit = λ tx w. run_commit lossy tx w.held w.fails;
  rollback = λ tx w. w;
  is_connection_exception = str_eq "08006";
  ping_pool = λ w. (none, w);
  close_pool = λ w. w;
  connect = λ dsn w. (none, w);
  open_db = λ dsn w. (none, w);
  run_migrations = λ w. (none, w);
}

abbrev inside : Held → View
inside h = view_of h.tables

abbrev shows : World → View
shows w = inside w.held

commit_none :
    (lossy : Bool) (tx h : Held) (fails : List Bool) (w' : World)
    → run_commit lossy tx h fails ≡ (none, w')
    → shows w' ≡ inside tx
commit_none lossy tx h [] w' e = cc
commit_none lossy tx h (false ∷ fails) w' e = cc
commit_none lossy tx h (true ∷ fails) w' e = cc

commit_some :
    (lossy : Bool) (tx h : Held) (fails : List Bool) (w' : World) (e : Error)
    → run_commit lossy tx h fails ≡ (some e, w')
    → (e ≡ pg_error "08006") × (shows w' ≡ inside (if lossy then tx else h))
commit_some lossy tx h [] w' x e = cc
commit_some lossy tx h (false ∷ fails) w' x e = cc
commit_some lossy tx h (true ∷ fails) w' x e = (cc, cc)

is_transactional : (lossy : Bool) → IsTransactional (database lossy) shows inside
unfolding on_chain
is_transactional lossy = record {
  ctx_err_law = λ w {e = x} e. cc;
  begin_fails = λ w w' {e = x} e. cc;
  begin_law = λ w w' {tx} e. (cc, cc);
  commit_fails = λ tx w w' {e = x} e. rw ((commit_some lossy tx w.held w.fails w' x e).0) refl;
  commit_law = λ tx w w' e. commit_none lossy tx w.held w.fails w' e;
  rollback_law = λ tx w. refl;
}

selected : (o : Option ℕ) (h : Held) → Selected o (inside h) (inside h) (row o)
unfolding on_chain
selected none h = λ e. refl
selected (some v) h = (refl, refl)

set_gauge-row :
    (n : String) (x : ℕ) (h : Held) → inside (set_gauge_row n x h) ≡ (set_gauge n x (inside h)).0
set_gauge-row n x h = View-ext _ _ (λ k. lookup-insert n k x h.tables.gauge_map) (λ k. refl)

set_counter-row :
    (n : String) (d : ℕ) (h : Held)
    → let sum = add_int64 (or_zero (lookup n h.tables.counter_map)) d in
      inside (set_counter_row n sum h) ≡ (add_counter n d (inside h)).0
set_counter-row n d h = View-ext _ _ (λ k. refl) (λ k. lookup-insert n k _ h.tables.counter_map)

stored_gauge :
    (sql : String) (n : String) (x : ℕ) (h : Held)
    → IsUpsertGauge sql
    → (run_row sql (text n ∷ number x ∷ []) h ≡ (ok x, set_gauge_row n x h))
stored_gauge sql n x h (inl e) = rw e refl
stored_gauge sql n x h (inr e) = rw e refl

stored_counter :
    (sql : String) (n : String) (x : ℕ) (h : Held)
    → IsUpsertCounter sql
    → (run_row sql (text n ∷ number x ∷ []) h
        ≡ add_row n (or_zero (lookup n h.tables.counter_map)) x h)
stored_counter sql n x h (inl e) = rw e refl
stored_counter sql n x h (inr e) = rw e refl

added_row :
    (n : String) (d : ℕ) (h : Held)
    → let r = add_row n (or_zero (lookup n h.tables.counter_map)) d h in
      Stored
        (add_int64 (or_zero ((inside h).counters n)) d)
        (add_counter n d (inside h)).0
        (inside r.1)
        r.0
added_row n d h = elim (Bool-cases (overflows (or_zero (lookup n h.tables.counter_map)) d)) [
  | inl over ↦ rw over tt
  | inr fits ↦ rw fits (refl, set_counter-row n d h)
]

all_ok : (l l' : GoMap ℕ) → map {B = Result (String × ℕ)} ok l ≡ map ok l' → l ≡ l'
all_ok [] [] e = refl
all_ok [] (x ∷ l') e = cc
all_ok (x ∷ l) [] e = cc
all_ok (x ∷ l) (y ∷ l') e =
    let first : x ≡ y = cc in
    let rest : map {B = Result (String × ℕ)} ok l ≡ map ok l' = cc in
    let same = all_ok l l' rest in cc

is_postgres : (lossy : Bool) → IsPostgres (database lossy) shows inside
is_postgres lossy = record {
  transactional = is_transactional lossy;
  select_gauge_law = λ n h. selected (lookup n h.tables.gauge_map) h;
  select_counter_law = λ n h. selected (lookup n h.tables.counter_map) h;
  upsert_gauge_law = λ sql n x h is. rw (stored_gauge sql n x h is) (refl, set_gauge-row n x h);
  upsert_counter_law = λ sql n d h is. rw (stored_counter sql n d h is) (added_row n d h);
  select_gauges_law = λ h h' rows l e same done.
      let same_rows : rows.rows ≡ map ok h.tables.gauge_map = cc in
      let is_l : h.tables.gauge_map ≡ l = all_ok _ _ (sym same_rows ∙ same) in
      let after : h' ≡ h = cc in
      ((subst IsMap is_l h.keys.gauge_keys, λ k. ap (lookup k) (sym is_l)), ap inside after);
  select_counters_law = λ h h' rows l e same done.
      let same_rows : rows.rows ≡ map ok h.tables.counter_map = cc in
      let is_l : h.tables.counter_map ≡ l = all_ok _ _ (sym same_rows ∙ same) in
      let after : h' ≡ h = cc in
      ((subst IsMap is_l h.keys.counter_keys, λ k. ap (lookup k) (sym is_l)), ap inside after);
}

is_definite : IsDefinite (database false) shows
is_definite tx w w' e run = (commit_some false tx w.held w.fails w' e run).1

is_uncertain : IsUncertain (database true) shows inside
is_uncertain tx w w' e run = inr (commit_some true tx w.held w.fails w' e run).1

-- no commit fails any more
Up : World → Type 0
Up w = w.fails ≡ []

commit_up :
    (tx h : Held) (fails : List Bool)
    → fails ≡ []
    → (w' : World) × (run_commit false tx h fails ≡ (none, w')) × (w'.fails ≡ [])
commit_up tx h [] up = (record { held = tx; fails = [] }, refl, refl)
commit_up tx h (x ∷ fails) up = absurd cc

is_up : IsUp (database false) inside Up (λ tx. Unit)
unfolding Up
is_up = record {
  ctx_up = λ w up. refl;
  begin_up = λ w up. (w.held, w, refl, tt, up);
  upsert_gauge_up = λ sql n x h is up. (x, set_gauge_row n x h, stored_gauge sql n x h is, tt);
  upsert_counter_up = λ sql n d h is up fits.
      let old = or_zero (lookup n h.tables.counter_map) in
      (
        add_int64 old d,
        set_counter_row n (add_int64 old d) h,
        stored_counter sql n d h is ∙ rw fits refl,
        tt,
      );
  select_gauges_up = λ h up. (h.tables.gauge_map, h, refl, tt);
  select_counters_up = λ h up. (h.tables.counter_map, h, refl, tt);
  commit_up = λ tx w up2 up. commit_up tx w.held w.fails up;
  rollback_up = λ tx w up. up;
}

abbrev five : Held
unfolding lookup
five = record {
  tables = record { gauge_map = []; counter_map = ("c", 5) ∷ [] };
  keys = record { gauge_keys = tt; counter_keys = (refl, tt) };
}

-- two commits fail, and then one succeeds
abbrev twice : World
twice = record { held = five; fails = true ∷ true ∷ [] }

abbrev quiet : World
quiet = record { held = five; fails = [] }

abbrev two_more : Metric
two_more = record { type = counter; name = "c"; value = 0; delta = 2 }

abbrev counter_of : World → Option ℕ
counter_of w = lookup "c" w.held.tables.counter_map

-- with definite commits the counter is 7 after the repetitions, and 11 where they had been applied
settles_run : counter_of (update_metric (database false) two_more twice).1 ≡ some 7
unfolding update_metric update_switch query_value do_transaction_with_retries do_transaction
    with_retries loop should_retry on_chain lookup insert overflows add_int64
settles_run = refl

repeats_run : counter_of (update_metric (database true) two_more twice).1 ≡ some 11
unfolding update_metric update_switch query_value do_transaction_with_retries do_transaction
    with_retries loop should_retry on_chain lookup insert overflows add_int64
repeats_run = refl

update_metric-Settles_example :
    Settles
      (database false)
      shows
      inside
      (is_postgres false)
      (update_spec two_more (shows twice))
      (shows twice)
      (update_metric (database false) two_more twice)
update_metric-Settles_example =
    update_metric-Settles (database false) shows inside (is_postgres false) two_more twice
      is_definite

update_metrics-Settles_example :
    Settles
      (database false)
      shows
      inside
      (is_postgres false)
      (update_all_spec 0 (two_more ∷ two_more ∷ []) (shows twice))
      (shows twice)
      (update_metrics (database false) (two_more ∷ two_more ∷ []) twice)
update_metrics-Settles_example =
    update_metrics-Settles (database false) shows inside (is_postgres false)
      (two_more ∷ two_more ∷ []) twice is_definite

update_metric-Repeats_example :
    Repeats
      (database true)
      shows
      inside
      (is_postgres true)
      "c"
      2
      (update_spec two_more)
      (shows twice)
      (update_metric (database true) two_more twice)
update_metric-Repeats_example =
    update_metric-Repeats (database true) shows inside (is_postgres true) two_more twice
      is_uncertain refl

get_metric-Answers_example :
    Answers
      (database true)
      shows
      inside
      (is_postgres true)
      (get_spec two_more (shows twice))
      (shows twice)
      (get_metric (database true) two_more twice)
get_metric-Answers_example =
    get_metric-Answers (database true) shows inside (is_postgres true) two_more twice is_uncertain

two_more_Fits : overflows 5 2 ≡ false
unfolding overflows add_int64 lookup
two_more_Fits = refl

update_metrics-Serves_example :
    Serves
      (database false)
      shows
      inside
      (is_postgres false)
      Up
      (λ tx. Unit)
      is_up
      (update_all_spec 0 (two_more ∷ two_more ∷ []) (shows quiet))
      (update_metrics (database false) (two_more ∷ two_more ∷ []) quiet)
unfolding Up lookup overflows add_int64 update_all_spec
update_metrics-Serves_example =
    update_metrics-Serves (database false) shows inside (is_postgres false) Up (λ tx. Unit) is_up
      (two_more ∷ two_more ∷ []) quiet refl ((inr refl, refl), ((inr refl, refl), tt))

get_metrics_by_types-Dump_example :
    (t : Tables) × (w' : World) × (get_metrics_by_types (database false) empty_tables quiet
      ≡ ((t, none), w'))
    × Dump
        (database false)
        shows
        inside
        (is_postgres false)
        Up
        (λ tx. Unit)
        is_up
        (shows quiet)
        t
        (shows w')
    × (w'.fails ≡ [])
unfolding Up
get_metrics_by_types-Dump_example =
    get_metrics_by_types-Dump (database false) shows inside (is_postgres false) Up (λ tx. Unit)
      is_up quiet refl
