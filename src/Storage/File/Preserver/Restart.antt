-- ===== src/Storage/File/Preserver/Restart.antt =====
-- A stop of the server and its next start with `restore`: what was stored comes back.
use go_advanced.Base.{String, ◌≡◌, refl, sym, ap, ◌∙◌, subst, true, false, some, List, arith}
use go_advanced.Base.Int.{ℤ}
use go_advanced.Base.Exec.{returned, with_lock}
use go_advanced.Entities.Errors.{ok}
use go_advanced.Storage.Spec.{IsTables, view_of, empty_tables, update_spec, reply, next}
use go_advanced.Entities.{Metric}
use go_advanced.Storage.Mem
use go_advanced.Storage.Mem.Writes.{update_switch_lem}
use go_advanced.Storage.File.Same.{update_metric-eq_mem}
use go_advanced.Storage.File.Devices.{Disk, Codec, IsCodec, read_file}
use go_advanced.Storage.File.Lawful.{IsReady, file_view}
use go_advanced.Storage.File.{FileStorage, new, set_tables, init, update_metric}
use go_advanced.Storage.File.Preserver.{Event, preserver}
use go_advanced.Storage.File.Preserver.Stores.{
  after_store, store_metrics_free, store-Follows, store-writes, loop-Follows, replay, written_all,
}

module _ (json : Codec) where
  init-reads :
      (interval : ℤ) (path text : String) (d : Disk)
      → read_file path d ≡ some text
      → init json (new interval path true d)
        ≡ returned tt (set_tables (json.decode text empty_tables).0 (new interval path true d))
  unfolding init new with_lock
  init-reads interval path text d e = ground arith

  -- The preserver returns, whatever happened meanwhile, with every update in the maps; and if the
  -- maps can be encoded and the file can be created, then they stand in the file.
  preserver_stores :
      (es : List Event) (s : FileStorage) (text : String)
      → IsReady s
      → json.encode (written_all es s.value.tables) ≡ ok text
      → s.value.disk.can_create s.value.file_storage_path ≡ true
      → (s' : FileStorage) × (preserver json false es s ≡ returned tt s')
        × IsReady s'
        × (file_view s' ≡ replay es (file_view s))
        × (s'.value.tables ≡ written_all es s.value.tables)
        × (read_file s.value.file_storage_path s'.value.disk ≡ some text)
  unfolding preserver
  preserver_stores es s text h encodes can =
      let f = store-Follows json s h in
      let (s1, run, f') = loop-Follows json es (after_store json s) f.ready in
      let f'' = store-Follows json s1 f'.ready in
      let path = f'.path ∙ f.path in
      let tables = f'.holds ∙ ap (written_all es) f.holds in
      (
        after_store json s1,
        ground (
          arith,
          store_metrics_free json s h.free,
          run,
          store_metrics_free json s1 f'.ready.free,
        ),
        f''.ready,
        f''.shows ∙ f'.shows ∙ ap (replay es) f.shows,
        f''.holds ∙ tables,
        subst (λ p. read_file p (after_store json s1).value.disk ≡ some text) path
            (store-writes json s1 text (rw tables encodes)
              (rw (path, f'.can_create, f.can_create) can)),
      )

  -- The server stops, and a new one starts with `restore`. From a ready storage, after any events,
  -- if the maps can be encoded, the file can be created and decoding undoes encoding, then the
  -- preserver returns with every update made, and the new storage loads and shows the same.
  pub preserver_restart :
      (es : List Event) (s : FileStorage) (text : String) (interval : ℤ)
      → IsCodec json
      → IsReady s
      → json.encode (written_all es s.value.tables) ≡ ok text
      → s.value.disk.can_create s.value.file_storage_path ≡ true
      → (s' : FileStorage) × (r : FileStorage) × (preserver json false es s ≡ returned tt s')
        × (init json (new interval s.value.file_storage_path true s'.value.disk) ≡ returned tt r)
        × (file_view s' ≡ replay es (file_view s))
        × (file_view r ≡ file_view s')
        × IsTables r.value.tables
  preserver_restart es s text interval codec h encodes can =
      let path = s.value.file_storage_path in
      let (s', run, _, shows, holds, stands) = preserver_stores es s text h encodes can in
      let (tables, same) = codec.decode-encode (written_all es s.value.tables) text encodes in
      (
        s',
        set_tables (json.decode text empty_tables).0 (new interval path true s'.value.disk),
        run,
        init-reads interval path text s'.value.disk stands,
        shows,
        same ∙ ap view_of (sym holds),
        tables,
      )

  -- Where `preserver_restart` applies, an update after the preserver is done is answered as the
  -- specification says and shown by the storage, but a new storage that restores from the file shows
  -- what the storage showed before that update.
  pub late_update_lost :
      (es : List Event) (s : FileStorage) (text : String) (interval : ℤ) (m : Metric)
      → IsCodec json
      → IsReady s
      → json.encode (written_all es s.value.tables) ≡ ok text
      → s.value.disk.can_create s.value.file_storage_path ≡ true
      → (s' : FileStorage) × (s'' : FileStorage) × (r : FileStorage) × (preserver json false es s
          ≡ returned tt s')
        × (update_metric json m s' ≡ returned (reply (update_spec m (file_view s'))) s'')
        × (file_view s'' ≡ next (file_view s') (update_spec m (file_view s')))
        × (init json (new interval s.value.file_storage_path true s''.value.disk) ≡ returned tt r)
        × (file_view r ≡ file_view s')
  late_update_lost es s text interval m codec h encodes can =
      let path = s.value.file_storage_path in
      let (s', run, ready, _, holds, stands) = preserver_stores es s text h encodes can in
      let (tables, same) = codec.decode-encode (written_all es s.value.tables) text encodes in
      let t = s'.value.tables in
      let s'' = set_tables (Mem.update_switch m.type m t).0 s' in
      let (answer, shows) = update_switch_lem m.type m t refl in
      (
        s',
        s'',
        set_tables (json.decode text empty_tables).0 (new interval path true s'.value.disk),
        run,
        update_metric-eq_mem json m s' ready.free ready.later ∙ ap (λ r. returned r s'') answer,
        shows,
        init-reads interval path text s'.value.disk stands,
        same ∙ ap view_of (sym holds),
      )
