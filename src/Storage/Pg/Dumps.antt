-- ===== src/Storage/Pg/Dumps.antt =====
-- The dump of all metrics, on a database that answers every query.
use go_advanced.Base.{ℕ, String, ◌≡◌, refl, ap, ◌∙◌, none, [], ◌∷◌, map, arith}
use go_advanced.Entities.Errors.{ok}
use go_advanced.GoMap.{GoMap, insert, copy}
use go_advanced.GoMap.Laws.{copy-IsMap, lookup-copy_nil}
use go_advanced.Storage.Spec.{View, View-ext, Tables, IsTables, view_of, empty_tables}
use go_advanced.Storage.Pg.Sql.{Database}
use go_advanced.Storage.Pg.Postgres.{IsPostgres}
use go_advanced.Storage.Pg.Up.{IsUp, Succeeds, transaction_up}
use go_advanced.Storage.Pg.{
  select_gauges, select_counters, fill, collect, collect_all, get_metrics_by_types,
}

-- the loop over rows that can all be scanned copies them into the map
fill-copy : (l m : GoMap ℕ) → fill (map ok l) m ≡ (none, copy m l)
unfolding fill copy
fill-copy [] m = refl
fill-copy ((k, v) ∷ l) m = fill-copy l (insert k v m)

module _ (db : Database) (shows : db.World → View) (inside : db.Tx → View)
    (pg : IsPostgres db shows inside) (Up : db.World → Type 0) (UpTx : db.Tx → Type 0)
    (up : IsUp db inside Up UpTx) where
  open db use {World, Tx}

  -- a table that is read into an empty map
  collect_lem :
      (sql : String) (l : GoMap ℕ) (tx tx' : Tx)
      → db.query sql tx ≡ (ok (record { rows = map ok l; rows_err = none }), tx')
      → collect db sql [] tx ≡ ((none, copy [] l), tx')
  unfolding collect
  collect_lem sql l tx tx' run = ground (arith, run, fill-copy l [])

  -- what a dump finds
  abbrev pub Dump : View → Tables → View → Type 0
  Dump before t after = IsTables t × (view_of t ≡ before) × (after ≡ before)

  collect_all-Succeeds :
      (tx : Tx)
      → UpTx tx
      → Succeeds db shows inside pg Up UpTx up (collect_all db) Dump empty_tables tx
  unfolding collect_all
  collect_all-Succeeds tx h =
      let (g, tx1, run1, h1) = up.select_gauges_up tx h in
      let (c, tx2, run2, h2) = up.select_counters_up tx1 h1 in
      let ((is_map_g, is_g), same1) = pg.select_gauges_law tx tx1 _ g run1 refl refl in
      let ((is_map_c, is_c), same2) = pg.select_counters_law tx1 tx2 _ c run2 refl refl in
      let t : Tables = record { gauge_map = copy [] g; counter_map = copy [] c } in
      (
        t,
        tx2,
        ground (
          arith,
          collect_lem select_gauges g tx tx1 run1,
          collect_lem select_counters c tx1 tx2 run2,
        ),
        h2,
        (
          record { gauge_keys = copy-IsMap [] g tt; counter_keys = copy-IsMap [] c tt },
          View-ext (view_of t) (inside tx) (λ k. lookup-copy_nil k g is_map_g ∙ is_g k)
              (λ k. lookup-copy_nil k c is_map_c ∙ is_c k ∙ ap (λ (v : View). v.counters k) same1),
          same2 ∙ same1,
        ),
      )

  -- While the database answers every query, a dump into two empty maps returns no error, fills the maps
  -- with what the database shows and nothing else, and changes nothing.
  pub get_metrics_by_types-Dump :
      (w : World)
      → Up w
      → (t : Tables) × (w' : World) × (get_metrics_by_types db empty_tables w ≡ ((t, none), w'))
        × Dump (shows w) t (shows w')
        × Up w'
  unfolding get_metrics_by_types
  get_metrics_by_types-Dump w h =
      let (t, w', run, dump, h') =
        transaction_up db shows inside pg Up UpTx up (collect_all db) Dump empty_tables w h
          (λ tx h' same. collect_all-Succeeds tx h') in
      (t, w', rw run refl, dump, h')
