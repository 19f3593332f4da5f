-- ===== src/Store/Tests.antt =====
-- Saving, loading and making the configuration's file in memory.
use las.Store.Loads.{IsInitialised, IsLoadable, load_iff, load-save, init_lem}
use las.Prelude.{String, none, ◌≡◌, refl, ◌⊎◌, ◌↔◌}
use las.Os.{after}
use las.Os.Memory.{memory, memory-IsLawful, Files}
use las.Store.{
  Failure, gives, fails, unreadable, save, load, init, save_checked, save_encoded, replace, fill,
  attempt,
}
use las.Store.Laws.{IsSaved, save-IsSaved}
use las.Store.Sample.{memory_disk, memory_disk-IsFaithful, sample_json}
use las.Validate.Sample.{sample_config}
use las.Validate.Run.{sample_Passes}

abbrev empty : Files
empty path = none

save-IsSaved_example :
    IsSaved memory sample_json "/etc/las/router.json" sample_config empty
      (save memory sample_json "/etc/las/router.json" sample_config empty)
save-IsSaved_example =
    save-IsSaved memory memory-IsLawful sample_json "/etc/las/router.json" sample_config empty

saved : (save memory sample_json "/etc/las/router.json" sample_config empty).1 ≡ gives tt
unfolding save save_checked save_encoded replace fill attempt after
saved = rw sample_Passes refl

load-save_example :
    let t = (save memory sample_json "/etc/las/router.json" sample_config empty).0 in
    (load memory sample_json memory_disk "/etc/las/router.json" t ≡ gives sample_config)
    ⊎ ((e : String) × (memory_disk.read "/etc/las/router.json" t ≡ unreadable e))
load-save_example =
    load-save memory memory_disk memory_disk-IsFaithful sample_json "/etc/las/router.json"
      memory-IsLawful sample_config (λ text e. refl) empty saved

init_lem_example :
    ((f : Failure) × (init memory sample_json memory_disk "/etc/las/router.json" empty
        ≡ (empty, fails f)))
    ⊎ IsInitialised memory memory_disk memory_disk-IsFaithful sample_json "/etc/las/router.json"
        empty
        (init memory sample_json memory_disk "/etc/las/router.json" empty)
init_lem_example =
    init_lem memory memory_disk memory_disk-IsFaithful sample_json "/etc/las/router.json"
      memory-IsLawful empty

load_iff_example :
    (load memory sample_json memory_disk "/etc/las/router.json" empty ≡ gives sample_config)
    ↔ IsLoadable memory sample_json memory_disk "/etc/las/router.json" sample_config empty
load_iff_example =
    load_iff memory sample_json memory_disk "/etc/las/router.json" sample_config empty
