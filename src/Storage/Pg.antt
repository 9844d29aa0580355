-- ===== src/Storage/Pg.antt =====
-- internal/storage/pgstorage/pgstorage.go: the storage in PostgreSQL. The database and its driver
-- (`pgxpool`, `pgx`, `goose`) come in as `Database`; the texts of the queries are those of the code.
pub mod Sql
pub mod Transaction
pub mod Postgres
pub mod Updates
pub mod Batches
pub mod Repeats
pub mod Reads
pub mod Up
pub mod Serves
pub mod ServesBatch
pub mod Dumps
use go_advanced.Base.{ℕ, suc, String, Option, none, some, List, [], ◌∷◌, ◌++◌, ◌<>◌, if◌then◌else◌}
use go_advanced.Base.Decimal.{itoa}
use go_advanced.Entities.{MetricName, MetricType, gauge, counter, Metric, type_text}
use go_advanced.Entities.Errors.{
  Error, metric_name_not_found, internal, internal_of, context, on_chain, is_no_rows, Result, ok,
  err,
}
use go_advanced.GoMap.{GoMap, insert}
use go_advanced.Storage.Spec.{Tables}
use Sql.{Arg, text, number, Rows, Database}
use Transaction.{do_transaction_with_retries}

abbrev pub select_gauge : String
select_gauge = "select value from gauge where name = $1"

abbrev pub select_counter : String
select_counter = "select value from counter where name = $1"

abbrev pub upsert_gauge : String
upsert_gauge =
    "\n\t\t\tinsert into gauge (name, value)\n\t\t\tvalues ($1, $2)\n\t\t\ton conflict(name)\n\t\t\tdo update set\n\t\t\t  value = excluded.value\n\t\t\treturning value"

abbrev pub upsert_counter : String
upsert_counter =
    "\n\t\t\tinsert into counter (name, value)\n\t\t\tvalues ($1, $2)\n\t\t\ton conflict(name)\n\t\t\tdo update set\n\t\t\t  value = counter.value + excluded.value\n\t\t\treturning value"

abbrev pub batch_upsert_gauge : String
batch_upsert_gauge =
    "\n\t\t\t\tinsert into gauge (name, value)\n\t\t\t\tvalues ($1, $2)\n\t\t\t\ton conflict(name)\n\t\t\t\tdo update set\n\t\t\t\t  value = excluded.value\n\t\t\t\treturning value"

abbrev pub batch_upsert_counter : String
batch_upsert_counter =
    "\n\t\t\t\tinsert into counter (name, value)\n\t\t\t\tvalues ($1, $2)\n\t\t\t\ton conflict(name)\n\t\t\t\tdo update set\n\t\t\t\tvalue = counter.value + excluded.value\n\t\t\t\treturning value"

abbrev pub select_gauges : String
select_gauges = "select name, value from gauge"

abbrev pub select_counters : String
select_counters = "select name, value from counter"

abbrev pub query_error : Error → Error
query_error e = internal_of "sql query error" e

abbrev pub query_error_at : ℕ → Error → Error
query_error_at i e = internal_of ("metric[" <> itoa i <> "]: sql query error") e

-- what `GetMetric` makes of the error, or of the value that was scanned
abbrev pub found : MetricName → (ℕ → Metric) → Option Error → ℕ → Result Metric
found n answer none v = ok (answer v)
found n answer (some e) v =
    if on_chain is_no_rows e then err (metric_name_not_found n) else err (query_error e)

-- and what `UpdateMetric` makes of them
abbrev pub updated : (ℕ → Metric) → Option Error → ℕ → Result Metric
updated answer none v = ok (answer v)
updated answer (some e) v = err (query_error e)

abbrev pub result_of : {A : Type 0} → Option Error → A → Result A
result_of none a = ok a
result_of (some e) a = err e

-- the loop over `rows`, from the map filled so far
unfoldable pub fill : List (Result (String × ℕ)) → GoMap ℕ → Option Error × GoMap ℕ
fill [] m = (none, m)
fill (ok (k, v) ∷ rows) m = fill rows (insert k v m)
fill (err e ∷ rows) m = (some (query_error e), m)

-- `rows.Err()` after the loop
abbrev pub checked : Option Error → Option Error × GoMap ℕ → Option Error × GoMap ℕ
checked rows_err (some e, m) = (some e, m)
checked none (none, m) = (none, m)
checked (some e) (none, m) = (some (query_error e), m)

module _ (db : Database) where
  open db use {World, Tx, query_row, query, ping_pool, close_pool, connect, open_db, run_migrations}

  -- `Scan(&value)`: the value is kept where the scan fails
  abbrev scanned : ℕ → Result ℕ × Tx → (Option Error × ℕ) × Tx
  scanned value (ok v, tx) = ((none, v), tx)
  scanned value (err e, tx) = ((some e, value), tx)

  -- `tx.QueryRow(ctx, query, args…).Scan(&value)`
  unfoldable pub query_value : String → List Arg → ℕ → Tx → (Option Error × ℕ) × Tx
  query_value sql args value tx = scanned value (query_row sql args tx)

  -- the `switch` of `GetMetric`
  unfoldable pub get_switch : MetricType → Metric → World → Result Metric × World
  get_switch gauge metric w =
      let (e, (w', v)) =
        do_transaction_with_retries db (query_value select_gauge (text metric.name ∷ [])) (w, 0) in
      (
        found metric.name
            (λ v. record { type = metric.type; name = metric.name; value = v; delta = 0 }) e v,
        w',
      )
  get_switch counter metric w =
      let (e, (w', v)) =
        do_transaction_with_retries db (query_value select_counter (text metric.name ∷ []))
          (w, 0) in
      (
        found metric.name
            (λ v. record { type = metric.type; name = metric.name; value = 0; delta = v }) e v,
        w',
      )
  get_switch _ metric w =
      (err (internal ("unexpected internal metric type: " <> type_text metric.type)), w)

  unfoldable pub get_metric : Metric → World → Result Metric × World
  unfolding get_switch
  get_metric metric = get_switch metric.type metric

  -- the `switch` of `UpdateMetric`
  unfoldable pub update_switch : MetricType → Metric → World → Result Metric × World
  update_switch gauge metric w =
      let (e, (w', v)) =
        do_transaction_with_retries db
          (query_value upsert_gauge (text metric.name ∷ number metric.value ∷ [])) (w, 0) in
      (
        updated (λ v. record { type = metric.type; name = metric.name; value = v; delta = 0 }) e v,
        w',
      )
  update_switch counter metric w =
      let (e, (w', v)) =
        do_transaction_with_retries db
          (query_value upsert_counter (text metric.name ∷ number metric.delta ∷ [])) (w, 0) in
      (
        updated (λ v. record { type = metric.type; name = metric.name; value = 0; delta = v }) e v,
        w',
      )
  update_switch _ metric w =
      (err (internal ("unexpected internal metric type: " <> type_text metric.type)), w)

  unfoldable pub update_metric : Metric → World → Result Metric × World
  unfolding update_switch
  update_metric metric = update_switch metric.type metric

  -- the metric to append, or the error of the query
  abbrev appended : ℕ → (ℕ → Metric) → Result ℕ × Tx → Result Metric × Tx
  appended i answer (ok v, tx) = (ok (answer v), tx)
  appended i answer (err e, tx) = (err (query_error_at i e), tx)

  -- one round of the loop of `UpdateMetrics`
  unfoldable pub batch_query : MetricType → ℕ → Metric → Tx → Result Metric × Tx
  batch_query gauge i metric tx =
      appended i (λ v. record { type = metric.type; name = metric.name; value = v; delta = 0 })
        (query_row batch_upsert_gauge (text metric.name ∷ number metric.value ∷ []) tx)
  batch_query counter i metric tx =
      appended i (λ v. record { type = metric.type; name = metric.name; value = 0; delta = v })
        (query_row batch_upsert_counter (text metric.name ∷ number metric.delta ∷ []) tx)
  batch_query _ i metric tx = (
    err (
        internal
          ("metric[" <> itoa i <> "]: unexpected internal metric type: " <> type_text metric.type)),
    tx,
  )

  abbrev or_stop :
      {A : Type 0}
      → List A
      → Result A × Tx
      → (A → Tx → (Option Error × List A) × Tx)
      → (Option Error × List A) × Tx
  or_stop result (ok a, tx) continue = continue a tx
  or_stop result (err e, tx) continue = ((some e, result), tx)

  -- the loop of `UpdateMetrics`
  unfoldable pub batch_loop : ℕ → List Metric → List Metric → Tx → (Option Error × List Metric) × Tx
  batch_loop i [] result tx = ((none, result), tx)
  batch_loop i (metric ∷ metrics) result tx =
      or_stop result (batch_query metric.type i metric tx)
        λ updated tx'. batch_loop (suc i) metrics (result ++ updated ∷ []) tx'

  -- each attempt starts from an empty result
  unfoldable pub update_metrics : List Metric → World → Result (List Metric) × World
  unfolding batch_loop batch_query
  update_metrics metrics w =
      let (e, (w', result)) =
        do_transaction_with_retries db (λ result. batch_loop 0 metrics []) (w, []) in
      (result_of e result, w')

  -- one of the two inner functions of `GetMetricsByTypes`
  unfoldable pub collect : String → GoMap ℕ → Tx → (Option Error × GoMap ℕ) × Tx
  unfolding fill
  collect sql m tx =
      let (r, tx') = query sql tx in
      elim r [
        | err e ↦ ((some (query_error e), m), tx')
        | ok rows ↦ (checked rows.rows_err (fill rows.rows m), tx')
      ]

  unfoldable pub collect_all : Tables → Tx → (Option Error × Tables) × Tx
  collect_all maps tx =
      let ((e, gauges), tx') = collect select_gauges maps.gauge_map tx in
      let maps' : Tables = record maps { gauge_map = gauges } in
      elim e [
        | some e ↦ ((some e, maps'), tx')
        | none ↦
            let ((e', counters), tx'') = collect select_counters maps'.counter_map tx' in
            ((e', record maps' { counter_map = counters }), tx'')
      ]

  -- the maps of the caller; they keep what a failed attempt filled in
  unfoldable pub get_metrics_by_types : Tables → World → (Tables × Option Error) × World
  unfolding collect_all collect
  get_metrics_by_types maps w =
      let (e, (w', maps')) = do_transaction_with_retries db collect_all (w, maps) in
      ((maps', e), w')

  unfoldable pub ping : World → Option Error × World
  ping = ping_pool

  unfoldable pub close : World → Option Error × World
  close w = (none, close_pool w)

  -- `migrate`
  unfoldable pub migrate : String → World → Option Error × World
  migrate dsn w =
      let (e, w') = open_db dsn w in
      elim e [
        | some e ↦ (some (context "open db to migrate" e), w')
        | none ↦
            let (e', w'') = run_migrations w' in
            elim e' [ some e ↦ (some (context "migrate db" e), w'') | none ↦ (none, w'') ]
      ]

  -- `New`
  unfoldable pub new : String → World → Option Error × World
  unfolding migrate
  new dsn w =
      let (e, w') = connect dsn w in
      elim e [
        | some e ↦ (some (context "connect to db" e), w')
        | none ↦
            let (e', w'') = migrate dsn w' in
            elim e' [ some e ↦ (some (context "migrate db" e), w'') | none ↦ (none, w'') ]
      ]
