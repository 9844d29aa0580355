-- ===== src/Storage/File/Preserver/Stores.antt =====
-- What stands in the file when the preserver is done, and what a restart makes of it.
use go_advanced.Base.{String, ◌≡◌, refl, ap, ◌∙◌, true, some, List, [], ◌∷◌, arith}
use go_advanced.Base.Exec.{returned, unlocked, with_r_lock}
use go_advanced.Entities.Errors.{Error, ok, err}
use go_advanced.GoMap.Laws.{lookup-insert_self}
use go_advanced.Storage.Spec.{View, Tables, view_of, update_spec, update_all_spec, next}
use go_advanced.Storage.Mem
use go_advanced.Storage.Mem.Lawful.{mem_commit_lem}
use go_advanced.Storage.Mem.Writes.{update_switch_lem, update_switch-IsTables}
use go_advanced.Storage.File.Same.{update_metric-eq_mem, update_metrics-eq_mem}
use go_advanced.Storage.File.Devices.{Disk, Codec, read_file, write_file}
use go_advanced.Storage.File.Lawful.{IsReady, file_view}
use go_advanced.Storage.File.{FileStorage, set_tables, stored, store_metrics}
use go_advanced.Storage.File.Preserver.{Event, tick, update, update_batch, happen, loop}

read_file-write_file :
    (path text : String) (d : Disk)
    → d.can_create path ≡ true
    → read_file path (write_file path text d) ≡ some text
unfolding read_file write_file
read_file-write_file path text d h = rw h (lookup-insert_self path text d.files)

-- what an event makes of what the maps show
abbrev pub effect : Event → View → View
effect tick v = v
effect (update m) v = next v (update_spec m v)
effect (update_batch ms) v = next v (update_all_spec 0 ms v)

abbrev pub replay : List Event → View → View
replay [] v = v
replay (e ∷ es) v = replay es (effect e v)

-- the maps after some events
abbrev pub written : Event → Tables → Tables
written tick t = t
written (update m) t = (Mem.update_switch m.type m t).0
written (update_batch ms) t = (Mem.commit_batch t (Mem.batch_loop 0 ms (Mem.copied t) [])).0

abbrev pub written_all : List Event → Tables → Tables
written_all [] t = t
written_all (e ∷ es) t = written_all es (written e t)

-- The state after some events: ready, with the place of the file as it was.
pub record Follows (s s' : FileStorage) (v : View) (t : Tables) : Type 0 where
  pub ready : IsReady s'
  pub shows : file_view s' ≡ v
  pub holds : s'.value.tables ≡ t
  pub path : s'.value.file_storage_path ≡ s.value.file_storage_path
  pub can_create : s'.value.disk.can_create ≡ s.value.disk.can_create

module _ (json : Codec) where
  -- the state after a store
  abbrev pub after_store : FileStorage → FileStorage
  after_store s = record s { value = stored json s.value }

  pub store_metrics_free :
      (s : FileStorage) → s.mutex ≡ unlocked → store_metrics json s ≡ returned tt (after_store s)
  unfolding store_metrics with_r_lock
  store_metrics_free s free = ground arith

  -- A store keeps all but the file.
  after_store-keeps :
      (s : FileStorage)
      → ((after_store s).value.tables ≡ s.value.tables)
        × ((after_store s).value.store_interval ≡ s.value.store_interval)
        × ((after_store s).value.file_storage_path ≡ s.value.file_storage_path)
        × ((after_store s).value.disk.can_create ≡ s.value.disk.can_create)
  unfolding stored write_file
  after_store-keeps s = ground arith

  pub store-writes :
      (s : FileStorage) (text : String)
      → json.encode s.value.tables ≡ ok text
      → s.value.disk.can_create s.value.file_storage_path ≡ true
      → read_file s.value.file_storage_path (after_store s).value.disk ≡ some text
  unfolding stored
  store-writes s text e can =
      ground (arith, read_file-write_file s.value.file_storage_path text s.value.disk can)

  -- Where the mutex is free, the maps cannot be encoded and the file can be created, a store returns,
  -- keeps the maps, and leaves the file empty.
  pub store_metrics_failure :
      (s : FileStorage) {x : Error}
      → s.mutex ≡ unlocked
      → json.encode s.value.tables ≡ err x
      → s.value.disk.can_create s.value.file_storage_path ≡ true
      → (s' : FileStorage) × (store_metrics json s ≡ returned tt s')
        × (s'.value.tables ≡ s.value.tables)
        × (read_file s.value.file_storage_path s'.value.disk ≡ some "")
  unfolding stored
  store_metrics_failure s free e can = (
    after_store s,
    store_metrics_free s free,
    (after_store-keeps s).0,
    ground (arith, read_file-write_file s.value.file_storage_path "" s.value.disk can),
  )

  pub store-Follows :
      (s : FileStorage) → IsReady s → Follows s (after_store s) (file_view s) s.value.tables
  store-Follows s h =
      let (tables, interval, path, can_create) = after_store-keeps s in
      record {
        ready = record { free = h.free; later = rw interval h.later; tables = rw tables h.tables };
        shows = ap view_of tables;
        holds = tables;
        path = path;
        can_create = can_create;
      }

  pub happen-Follows :
      (e : Event) (s : FileStorage)
      → IsReady s
      → (s' : FileStorage) × (happen json e s ≡ returned tt s')
        × Follows s s' (effect e (file_view s)) (written e s.value.tables)
  unfolding happen
  happen-Follows tick s h = (after_store s, store_metrics_free s h.free, store-Follows s h)
  happen-Follows (update m) s h =
      let t = s.value.tables in
      let s' = set_tables (Mem.update_switch m.type m t).0 s in
      (
        s',
        ground (arith, update_metric-eq_mem json m s h.free h.later),
        record {
          ready = record {
            free = h.free;
            later = h.later;
            tables = update_switch-IsTables m.type m t h.tables;
          };
          shows = (update_switch_lem m.type m t refl).1;
          holds = refl;
          path = refl;
          can_create = refl;
        },
      )
  happen-Follows (update_batch ms) s h =
      let t = s.value.tables in
      let c = Mem.commit_batch t (Mem.batch_loop 0 ms (Mem.copied t) []) in
      let (answer, tables, shows) = mem_commit_lem ms t h.tables in
      (
        set_tables c.0 s,
        ground (arith, update_metrics-eq_mem json ms s h.free h.later),
        record {
          ready = record { free = h.free; later = h.later; tables = tables };
          shows = shows;
          holds = refl;
          path = refl;
          can_create = refl;
        },
      )

  pub loop-Follows :
      (es : List Event) (s : FileStorage)
      → IsReady s
      → (s' : FileStorage) × (loop json es s ≡ returned tt s')
        × Follows s s' (replay es (file_view s)) (written_all es s.value.tables)
  unfolding loop
  loop-Follows [] s h =
      (s, refl, record { ready = h; shows = refl; holds = refl; path = refl; can_create = refl })
  loop-Follows (e ∷ es) s h =
      let (s1, run, f) = happen-Follows e s h in
      let (s2, run', f') = loop-Follows es s1 f.ready in
      (
        s2,
        ground (arith, run, run'),
        record {
          ready = f'.ready;
          shows = f'.shows ∙ ap (replay es) f.shows;
          holds = f'.holds ∙ ap (written_all es) f.holds;
          path = f'.path ∙ f.path;
          can_create = f'.can_create ∙ f.can_create;
        },
      )
