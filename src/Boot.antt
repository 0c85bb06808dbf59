-- ===== src/Boot.antt =====
-- app/boot_checks.py: the checks of the configuration before the first request.
pub mod Flags
pub mod Verified
use rooftrace.Prelude.{
  Bool, true, not, ◌||◌, List, [], ◌∷◌, ◌++◌, map, keep, String, str_eq, if◌then◌else◌, Result, ok,
  err, Raised, runtime_error, f_string,
}
use rooftrace.Boot.Flags.{
  Env, get, is_blank, imagery_fixture, lidar_fixture, render_images_fixture, project_photo_fixture,
  ept_index_fixture, sam2_is_fixture,
}

-- What the checks ask of the machine: `_importable(module)` and `Path(p).is_file()`.
pub record Machine : Type 0 where
  pub importable : String → Bool
  pub is_file : String → Bool

-- `_StageCheck`
pub record StageCheck : Type 0 where
  pub stage : String
  pub is_enabled : Env → Bool
  pub required_vars : Env → List String

-- `"; ".join(problems)`
abbrev join : List String → String
join [] = ""
join (p ∷ []) = p
join (p ∷ q ∷ ps) = f_string (p ∷ "; " ∷ join (q ∷ ps) ∷ [])

module _ (machine : Machine) where
  open machine use {importable, is_file}

  -- `[v for v in required if not env.get(v, "").strip()]`
  abbrev pub blank_vars : Env → List String → List String
  blank_vars env required = keep (λ v. is_blank (get env v "")) required

  -- `[msg for mod, msg in [...] if not _importable(mod)]`
  abbrev pub not_importable : List (String × String) → List String
  not_importable [] = []
  not_importable ((module_name, msg) ∷ rows) =
      let rest = not_importable rows in if importable module_name then rest else msg ∷ rest

  -- `not path_val or not Path(path_val).is_file()`
  abbrev pub no_file : Env → String → Bool
  no_file env var = str_eq (get env var "") "" || not (is_file (get env var ""))

  unfoldable lidar_enabled : Env → Bool
  unfolding lidar_fixture
  lidar_enabled env = not (lidar_fixture env)

  unfoldable lidar_missing : Env → List String
  lidar_missing env =
      (if no_file env "WESM_GPKG_PATH"
        then "WESM_GPKG_PATH (must point to an existing WESM.gpkg; bin/setup downloads it)" ∷ []
        else [])
      ++ not_importable
          (("pdal", "pdal (conda-forge dep not importable; bin/setup installs it)") ∷ [])

  unfoldable storage_enabled : Env → Bool
  storage_enabled env = str_eq (get env "STORAGE_LOCAL_ROOT" "") ""

  unfoldable storage_missing : Env → List String
  storage_missing env =
      blank_vars env
        ("STORAGE_BUCKET" ∷ "STORAGE_ENDPOINT" ∷ "STORAGE_ACCESS_KEY" ∷ "STORAGE_SECRET_KEY" ∷ [])

  unfoldable sam2_enabled : Env → Bool
  unfolding sam2_is_fixture
  sam2_enabled env = not (sam2_is_fixture env)

  unfoldable sam2_missing : Env → List String
  sam2_missing env =
      blank_vars env ("MODAL_TOKEN_ID" ∷ "MODAL_TOKEN_SECRET" ∷ [])
      ++ not_importable
          (("modal", "modal (declared dependency not importable; real SAM2 path would fail)") ∷ [])

  unfoldable render_images_enabled : Env → Bool
  unfolding render_images_fixture
  render_images_enabled env = not (render_images_fixture env)

  unfoldable render_images_missing : Env → List String
  render_images_missing env =
      blank_vars env ("MAPBOX_PRIVATE_TOKEN" ∷ [])
      ++ not_importable (("playwright", "playwright (declared dependency not importable)") ∷ [])

  unfoldable fuse_capture_enabled : Env → Bool
  fuse_capture_enabled env = true

  unfoldable fuse_capture_missing : Env → List String
  fuse_capture_missing env = not_importable (
      ("open3d", "open3d (declared dependency not importable; live ICP fusion path would fail)")
      ∷ [])

  unfoldable project_photo_enabled : Env → Bool
  unfolding project_photo_fixture
  project_photo_enabled env = not (project_photo_fixture env)

  unfoldable project_photo_missing : Env → List String
  project_photo_missing env = not_importable (
      ("trimesh", "trimesh (declared dependency not importable; ray-cast occlusion would fail)")
      ∷ ("rtree", "rtree (declared dependency not importable; mesh ray-cast index would fail)")
      ∷ (
        "svgwrite", "svgwrite (declared dependency not importable; overlay composition would fail)",
      )
      ∷ [])

  unfoldable ept_index_enabled : Env → Bool
  unfolding ept_index_fixture
  ept_index_enabled env = ept_index_fixture env

  unfoldable ept_index_missing : Env → List String
  ept_index_missing env =
      if no_file env "EPT_INDEX_FIXTURE_PATH"
      then "EPT_INDEX_FIXTURE_PATH (must point to an existing boundaries GeoJSON)" ∷ []
      else []

  unfoldable imagery_enabled : Env → Bool
  unfolding imagery_fixture
  imagery_enabled env = not (imagery_fixture env)

  unfoldable imagery_missing : Env → List String
  imagery_missing env =
      if is_blank (get env "MAPBOX_PRIVATE_TOKEN" "") then "MAPBOX_PRIVATE_TOKEN" ∷ [] else []

  abbrev row : String → (Env → Bool) → (Env → List String) → StageCheck
  row stage is_enabled required_vars = record {
    stage = stage;
    is_enabled = is_enabled;
    required_vars = required_vars;
  }

  -- `_CHECKS`
  unfoldable checks : List StageCheck
  unfolding lidar_enabled lidar_missing storage_enabled storage_missing sam2_enabled sam2_missing
      imagery_enabled imagery_missing render_images_enabled render_images_missing
      fuse_capture_enabled fuse_capture_missing project_photo_enabled project_photo_missing
      ept_index_enabled ept_index_missing
  checks =
      row "lidar" lidar_enabled lidar_missing
      ∷ row "storage" storage_enabled storage_missing
      ∷ row "sam2" sam2_enabled sam2_missing
      ∷ row "imagery" imagery_enabled imagery_missing
      ∷ row "render_images" render_images_enabled render_images_missing
      ∷ row "fuse_capture" fuse_capture_enabled fuse_capture_missing
      ∷ row "project_photo" project_photo_enabled project_photo_missing
      ∷ row "ept_index" ept_index_enabled ept_index_missing
      ∷ []

  -- The loop of `verify_stage_config`, over the checks that are left
  abbrev pub problems_of : List StageCheck → Env → List String
  problems_of [] env = []
  problems_of (check ∷ cs) env =
      let rest = problems_of cs env in
      if check.is_enabled env
      then map (λ v. f_string ("[" ∷ check.stage ∷ "] " ∷ v ∷ [])) (check.required_vars env) ++ rest
      else rest

  unfoldable pub verify_stage_config : Env → List String
  unfolding checks
  verify_stage_config env = problems_of checks env

  abbrev report : Env → List String → Result Raised (Unit {0})
  report env [] = ok tt
  report env (p ∷ ps) = err (
      runtime_error (
        f_string (
          "[boot_checks] sidecar misconfiguration detected (SIDECAR_ENV="
          ∷ get env "SIDECAR_ENV" "development"
          ∷ "). RoofTrace runs REAL data in dev and prod; fix these "
          ∷ "(or set the fixture opt-down flags for tests): "
          ∷ join (p ∷ ps)
          ∷ [])))

  unfoldable pub run_boot_checks : Env → Result Raised (Unit {0})
  run_boot_checks env = report env (verify_stage_config env)
