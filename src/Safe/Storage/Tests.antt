-- ===== src/Safe/Storage/Tests.antt =====
-- A setting that is kept.
use distributed_job_platform.Base.{
  ◌≡◌, refl, String, true, false, [], ◌∷◌, some, truthy, trim, str_eq,
}
use distributed_job_platform.Safe.Storage.{read_stored_value, load, save, switch_codec}
use distributed_job_platform.Safe.Storage.Persistence.{working, load-save}

load-save_example :
    let later = save switch_codec "live" false (working (("tab", "jobs") ∷ [])) in
    (truthy (trim "false") ≡ true
      → switch_codec.deserialize (trim "false") ≡ some false
      → load switch_codec "live" true later ≡ false)
    × (truthy (trim "false") ≡ false → load switch_codec "live" true later ≡ true)
    × ((other default : String)
        → str_eq "live" other ≡ false
        → read_stored_value other default later
          ≡ read_stored_value other default (working (("tab", "jobs") ∷ [])))
load-save_example = load-save switch_codec "live" true false "false" (("tab", "jobs") ∷ []) refl
