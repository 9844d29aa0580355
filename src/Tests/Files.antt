-- ===== src/Tests/Files.antt =====
-- The storage in a file: updates on change, the preserver, and a restart.
use go_advanced.Base.{◌≡◌, refl, inr, false, some, [], ◌∷◌, true}
use go_advanced.Base.Exec.{returned, blocked}
use go_advanced.Base.Int.{pos}
use go_advanced.Entities.Errors.{library}
use go_advanced.Storage.Mem
use go_advanced.Entities.{gauge, Metric}
use go_advanced.GoMap.{insert, get_or, lookup}
use go_advanced.Base.Word.{add_int64}
use go_advanced.Storage.Spec.{IsTables, update_spec, reply, next}
use go_advanced.Storage.File
use go_advanced.Storage.File.{FileStorage, init, store_metrics, update_metric, update_metrics}
use go_advanced.Storage.File.Devices.{read_file}
use go_advanced.Storage.File.Lawful.{file_view}
use go_advanced.Storage.File.OnChange.{IsDead, update_metric_deadlock}
use go_advanced.Storage.File.Preserver.{tick, update, preserver}
use go_advanced.Storage.File.Preserver.Stores.{replay, store_metrics_failure}
use go_advanced.Storage.File.Preserver.Restart.{preserver_restart, late_update_lost}
use go_advanced.Tests.Fixtures.{codec, codec-IsCodec, zero_counter, later, later-IsReady, on_change}

update_metric_deadlock_example :
    (s' : FileStorage) × (update_metric codec zero_counter on_change ≡ blocked s')
    × (s'.value.disk ≡ on_change.value.disk)
    × IsDead codec s'
unfolding File.new
update_metric_deadlock_example =
    update_metric_deadlock codec zero_counter on_change refl refl (inr refl)

-- an update, and a tick of the preserver after it
preserver_restart_example :
    (s' : FileStorage) × (r : FileStorage) × (preserver codec false
        (update zero_counter ∷ tick ∷ [])
        later
      ≡ returned tt s')
    × (init codec (File.new (pos 300) later.value.file_storage_path true s'.value.disk)
        ≡ returned tt r)
    × (file_view s' ≡ replay (update zero_counter ∷ tick ∷ []) (file_view later))
    × (file_view r ≡ file_view s')
    × IsTables r.value.tables
unfolding File.new Mem.update_switch insert get_or lookup add_int64
preserver_restart_example =
    preserver_restart codec (update zero_counter ∷ tick ∷ []) later "a" (pos 300) codec-IsCodec
      later-IsReady refl refl

abbrev zero_gauge : Metric
zero_gauge = record { type = gauge; name = "g"; value = 0; delta = 0 }

late_update_lost_example :
    (s' : FileStorage) × (s'' : FileStorage) × (r : FileStorage) × (preserver codec false
        (update zero_counter ∷ tick ∷ [])
        later
      ≡ returned tt s')
    × (update_metric codec zero_gauge s'
        ≡ returned (reply (update_spec zero_gauge (file_view s'))) s'')
    × (file_view s'' ≡ next (file_view s') (update_spec zero_gauge (file_view s')))
    × (init codec (File.new (pos 300) later.value.file_storage_path true s''.value.disk)
        ≡ returned tt r)
    × (file_view r ≡ file_view s')
unfolding File.new Mem.update_switch insert get_or lookup add_int64
late_update_lost_example =
    late_update_lost codec (update zero_counter ∷ tick ∷ []) later "a" (pos 300) zero_gauge
      codec-IsCodec later-IsReady refl refl

-- the empty maps are among those that the codec cannot encode
store_metrics_failure_example :
    (s' : FileStorage) × (store_metrics codec later ≡ returned tt s')
    × (s'.value.tables ≡ later.value.tables)
    × (read_file later.value.file_storage_path s'.value.disk ≡ some "")
unfolding File.new
store_metrics_failure_example =
    store_metrics_failure codec later {x = library "unsupported value"} refl refl refl
