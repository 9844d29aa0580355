-- ===== src/Tests/Storages.antt =====
-- The storages in memory.
use go_advanced.Base.{◌≡◌, refl, inl, inr, List, [], ◌∷◌}
use go_advanced.Base.Exec.{returned}
use go_advanced.Entities.{gauge, Metric}
use go_advanced.Entities.Errors.{ok}
use go_advanced.Storage.{IsLawful}
use go_advanced.Storage.Mem.{MemStorage, new, update_metrics}
use go_advanced.Storage.Mem.Lawful.{mem_view, new-IsReady}
use go_advanced.Storage.Mem.Singles.{one_by_one, update_metrics-one_by_one}
use go_advanced.Storage.File.Lawful.{IsReady, file_view, file_storage, file_storage-IsLawful}
use go_advanced.Tests.Fixtures.{codec, zero_counter}

file_storage-IsLawful_example : IsLawful (file_storage codec) IsReady file_view
file_storage-IsLawful_example = file_storage-IsLawful codec

-- a gauge, and a counter twice
abbrev batch : List Metric
batch =
    record { type = gauge; name = "g"; value = 7; delta = 0 }
    ∷ record zero_counter { delta = 2 }
    ∷ record zero_counter { delta = 3 }
    ∷ []

update_metrics-one_by_one_example :
    (s1 : MemStorage) × (s2 : MemStorage) × (answers : List Metric) × (update_metrics batch new
      ≡ returned (ok answers) s1)
    × (one_by_one batch new ≡ returned tt s2)
    × (mem_view s1 ≡ mem_view s2)
update_metrics-one_by_one_example =
    update_metrics-one_by_one batch new new-IsReady (inl refl, (inr refl, (inr refl, tt)))
