-- ===== src/Examples/Boots.antt =====
-- The theorems on app/boot_checks.py at the environment of a test suite, and at one of a live sidecar.
use rooftrace.Prelude.{
  ◌||◌, ◌≡◌, refl, ◌↔◌, ◌⊎◌, true, none, some, [], ◌∷◌, String, str_eq, any, if◌then◌else◌, ok,
}
use rooftrace.Storage.{FilePath, storage_env, bucket_of}
use rooftrace.Boot.Flags.{Env}
use rooftrace.Boot.{Machine, run_boot_checks, verify_stage_config}
use rooftrace.Boot.Verified.{IsConfigured, run_boot_checks_iff, run_boot_checks-storage}
use rooftrace.Examples.Services.{one_object}

abbrev machine : Machine
machine = record { importable = λ m. true; is_file = λ p. str_eq p "WESM.gpkg" }

abbrev suite : Env
suite var =
    if any (str_eq var)
      ("LIDAR_FIXTURE" ∷ "IMAGERY_FIXTURE" ∷ "RENDER_IMAGES_FIXTURE" ∷ "PROJECT_PHOTO_FIXTURE" ∷ [])
    then some "1"
    else if str_eq var "STORAGE_LOCAL_ROOT"
    then some "/srv"
    else if str_eq var "SAM2_BACKEND"
    then some "Local"
    else none

abbrev live : Env
live var =
    if str_eq var "WESM_GPKG_PATH"
    then some "WESM.gpkg"
    else if str_eq var "STORAGE_LOCAL_ROOT" || str_eq var "EPT_INDEX_FIXTURE"
    then none
    else some "x"

suite_problems : verify_stage_config machine suite ≡ []
unfolding verify_stage_config
suite_problems = refl

-- A blank secret is a missing one.
blank_problems :
    verify_stage_config machine
      (λ var. if str_eq var "STORAGE_SECRET_KEY" then some "  " else live var)
    ≡ "[storage] STORAGE_SECRET_KEY" ∷ []
unfolding verify_stage_config
blank_problems = refl

run_boot_checks_iff_example : (run_boot_checks machine suite ≡ ok tt) ↔ IsConfigured machine suite
run_boot_checks_iff_example = run_boot_checks_iff machine suite

live_boots : run_boot_checks machine live ≡ ok tt
unfolding run_boot_checks verify_stage_config
live_boots = refl

run_boot_checks-storage_example :
    ((root : FilePath) × ((storage_env ("app" ∷ []) live).local_root ≡ some root))
    ⊎ ((bucket : String) × (bucket_of one_object (storage_env ("app" ∷ []) live) ≡ ok bucket))
run_boot_checks-storage_example =
    run_boot_checks-storage machine live one_object ("app" ∷ []) live_boots
