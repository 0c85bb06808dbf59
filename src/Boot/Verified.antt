-- ===== src/Boot/Verified.antt =====
-- What app/boot_checks.py promises: when its checks pass, and what a sidecar that passed them relies on.
use rooftrace.Prelude.{
  ◌≡◌, refl, ◌≢◌, ◌↔◌, ◌⊎◌, inl, inr, Bool, true, false, some, List, [], ◌∷◌, ◌++◌, map, String,
  str_eq, eq_iff, ok, arith, All, Bool-cases, Option-cases,
}
use rooftrace.Storage.{FilePath, Client, storage_env, bucket_of}
use rooftrace.Boot.Flags.{Env, get, is_blank, is_set, lower}
use rooftrace.Boot.{
  Machine, StageCheck, no_file, problems_of, checks, lidar_enabled, lidar_missing, storage_enabled,
  storage_missing, sam2_enabled, sam2_missing, imagery_enabled, imagery_missing,
  render_images_enabled, render_images_missing, fuse_capture_enabled, fuse_capture_missing,
  project_photo_enabled, project_photo_missing, ept_index_enabled, ept_index_missing,
  run_boot_checks, verify_stage_config,
}

-- The variable has a text that is not blank.
abbrev pub IsGiven : Env → String → Type 0
IsGiven env var = (text : String) × (env var ≡ some text) × (is_blank text ≡ false)

-- The variable has a text that is not empty.
abbrev pub IsNamed : Env → String → Type 0
IsNamed env var = (text : String) × (env var ≡ some text) × (text ≢ "")

abbrev pub IsOne : Env → String → Type 0
IsOne env var = env var ≡ some "1"

module _ (machine : Machine) (env : Env) where
  open machine use {importable, is_file}

  abbrev pub IsFile : String → Type 0
  IsFile var = (path : String) × (env var ≡ some path) × (path ≢ "") × (is_file path ≡ true)

  -- What each stage needs, unless its real path is turned off.
  pub record IsConfigured : Type 0 where
    pub lidar : IsOne env "LIDAR_FIXTURE" ⊎ (IsFile "WESM_GPKG_PATH" × (importable "pdal" ≡ true))
    pub storage :
        IsNamed env "STORAGE_LOCAL_ROOT"
        ⊎ (IsGiven env "STORAGE_BUCKET"
            × IsGiven env "STORAGE_ENDPOINT"
            × IsGiven env "STORAGE_ACCESS_KEY"
            × IsGiven env "STORAGE_SECRET_KEY")
    pub sam2 :
        (lower (get env "SAM2_BACKEND" "modal") ≡ "local")
        ⊎ (IsGiven env "MODAL_TOKEN_ID"
            × IsGiven env "MODAL_TOKEN_SECRET"
            × (importable "modal" ≡ true))
    pub imagery : IsOne env "IMAGERY_FIXTURE" ⊎ IsGiven env "MAPBOX_PRIVATE_TOKEN"
    pub render_images :
        IsOne env "RENDER_IMAGES_FIXTURE"
        ⊎ (IsGiven env "MAPBOX_PRIVATE_TOKEN" × (importable "playwright" ≡ true))
    pub fuse_capture : importable "open3d" ≡ true
    pub project_photo :
        IsOne env "PROJECT_PHOTO_FIXTURE"
        ⊎ ((importable "trimesh" ≡ true)
            × (importable "rtree" ≡ true)
            × (importable "svgwrite" ≡ true))
    pub ept_index : (¬ (IsOne env "EPT_INDEX_FIXTURE")) ⊎ IsFile "EPT_INDEX_FIXTURE_PATH"

  IsGiven-iff : (var : String) → (is_blank (get env var "") ≡ false) ↔ IsGiven env var
  IsGiven-iff var = (
    λ h. elim (Option-cases (env var)) [
      | inl e ↦ let h' : ◌≡◌ {A = Bool} true false = rw e at h in cc
      | inr (text, e) ↦ (text, e, ground (arith, e))
    ],
    λ (text, e, h). ground (arith, e),
  )

  IsOne-iff : (var : String) → (is_set env var ≡ true) ↔ IsOne env var
  IsOne-iff var = (
    λ h. elim (Option-cases (env var)) [
      | inl e ↦ let h' : ◌≡◌ {A = Bool} false true = rw e at h in cc
      | inr (text, e) ↦ ground (arith, e, eq_iff text "1")
    ],
    λ e. rw e refl,
  )

  IsFile-iff : (var : String) → (no_file machine env var ≡ false) ↔ IsFile var
  IsFile-iff var = (
    λ h. elim (Option-cases (env var)) [
      | inl e ↦ let h' : ◌≡◌ {A = Bool} true false = rw e at h in cc
      | inr (text, e) ↦ (text, e, ground (arith, e, eq_iff text ""), ground (arith, e))
    ],
    λ (text, e, ne, h). ground (arith, e, eq_iff text ""),
  )

  IsNamed-iff :
      (str_eq (get env "STORAGE_LOCAL_ROOT" "") "" ≡ false) ↔ IsNamed env "STORAGE_LOCAL_ROOT"
  IsNamed-iff = (
    λ h. elim (Option-cases (env "STORAGE_LOCAL_ROOT")) [
      | inl e ↦ let h' : ◌≡◌ {A = Bool} true false = rw e at h in cc
      | inr (text, e) ↦ (text, e, ground (arith, e, eq_iff text ""))
    ],
    λ (text, e, ne). ground (arith, e, eq_iff text ""),
  )

  abbrev IsQuiet : StageCheck → Type 0
  IsQuiet check = (check.is_enabled env ≡ false) ⊎ (check.required_vars env ≡ [])

  map-eq-nil :
      (f : String → String) (xs ys : List String) → map f xs ++ ys ≡ [] → (xs ≡ []) × (ys ≡ [])
  map-eq-nil f [] ys h = (refl, h)
  map-eq-nil f (x ∷ xs) ys h = cc

  problems_iff :
      (check : StageCheck) (cs : List StageCheck)
      → (problems_of machine (check ∷ cs) env ≡ [])
        ↔ (IsQuiet check × (problems_of machine cs env ≡ []))
  problems_iff check cs = elim (Bool-cases (check.is_enabled env)) [
    | inl e ↦ (
      λ h.
          let (none_missing, rest) =
            map-eq-nil _ (check.required_vars env) (problems_of machine cs env) (rw e at h) in
          (inr none_missing, rest),
      λ (quiet, rest). rw e (ground arith),
    )
    | inr e ↦ (λ h. (inl e, rw e at h), λ (quiet, rest). rw e rest)
  ]

  All-IsQuiet_iff : (cs : List StageCheck) → (problems_of machine cs env ≡ []) ↔ All IsQuiet cs
  All-IsQuiet_iff [] = (λ h. tt, λ h. refl)
  All-IsQuiet_iff (check ∷ cs) =
      let (into, out) = problems_iff check cs in
      let (into', out') = All-IsQuiet_iff cs in
      (λ h. let (q, rest) = into h in (q, into' rest), λ (q, rest). out (q, out' rest))

  -- One stage at a time: its check is quiet exactly when the stage has what it needs.
  lidar_iff :
      (lidar_enabled machine env ≡ false) ⊎ (lidar_missing machine env ≡ [])
      ↔ (IsOne env "LIDAR_FIXTURE" ⊎ (IsFile "WESM_GPKG_PATH" × (importable "pdal" ≡ true)))
  unfolding lidar_missing lidar_enabled
  lidar_iff = ground (arith, IsFile-iff "WESM_GPKG_PATH", IsOne-iff "LIDAR_FIXTURE")

  storage_iff : (storage_enabled machine env ≡ false) ⊎ (storage_missing machine env ≡ []) ↔ (
      IsNamed env "STORAGE_LOCAL_ROOT"
      ⊎ (IsGiven env "STORAGE_BUCKET"
          × IsGiven env "STORAGE_ENDPOINT"
          × IsGiven env "STORAGE_ACCESS_KEY"
          × IsGiven env "STORAGE_SECRET_KEY"))
  unfolding storage_missing storage_enabled
  storage_iff = ground (
    arith,
    IsNamed-iff,
    IsGiven-iff "STORAGE_BUCKET",
    IsGiven-iff "STORAGE_ENDPOINT",
    IsGiven-iff "STORAGE_ACCESS_KEY",
    IsGiven-iff "STORAGE_SECRET_KEY",
  )

  sam2_iff : (sam2_enabled machine env ≡ false) ⊎ (sam2_missing machine env ≡ []) ↔ (
      (lower (get env "SAM2_BACKEND" "modal") ≡ "local")
      ⊎ (IsGiven env "MODAL_TOKEN_ID"
          × IsGiven env "MODAL_TOKEN_SECRET"
          × (importable "modal" ≡ true)))
  unfolding sam2_missing sam2_enabled
  sam2_iff = ground (
    arith,
    eq_iff (lower (get env "SAM2_BACKEND" "modal")) "local",
    IsGiven-iff "MODAL_TOKEN_ID",
    IsGiven-iff "MODAL_TOKEN_SECRET",
  )

  imagery_iff :
      (imagery_enabled machine env ≡ false) ⊎ (imagery_missing machine env ≡ [])
      ↔ (IsOne env "IMAGERY_FIXTURE" ⊎ IsGiven env "MAPBOX_PRIVATE_TOKEN")
  unfolding imagery_missing imagery_enabled
  imagery_iff = ground (arith, IsOne-iff "IMAGERY_FIXTURE", IsGiven-iff "MAPBOX_PRIVATE_TOKEN")

  render_images_iff :
      (render_images_enabled machine env ≡ false) ⊎ (render_images_missing machine env ≡ []) ↔ (
        IsOne env "RENDER_IMAGES_FIXTURE"
        ⊎ (IsGiven env "MAPBOX_PRIVATE_TOKEN" × (importable "playwright" ≡ true)))
  unfolding render_images_missing render_images_enabled
  render_images_iff =
      ground (arith, IsOne-iff "RENDER_IMAGES_FIXTURE", IsGiven-iff "MAPBOX_PRIVATE_TOKEN")

  fuse_capture_iff :
      (fuse_capture_enabled machine env ≡ false) ⊎ (fuse_capture_missing machine env ≡ [])
      ↔ (importable "open3d" ≡ true)
  unfolding fuse_capture_missing fuse_capture_enabled
  fuse_capture_iff = ground arith

  project_photo_iff :
      (project_photo_enabled machine env ≡ false) ⊎ (project_photo_missing machine env ≡ []) ↔ (
        IsOne env "PROJECT_PHOTO_FIXTURE"
        ⊎ ((importable "trimesh" ≡ true)
            × (importable "rtree" ≡ true)
            × (importable "svgwrite" ≡ true)))
  unfolding project_photo_missing project_photo_enabled
  project_photo_iff = ground (arith, IsOne-iff "PROJECT_PHOTO_FIXTURE")

  ept_index_iff :
      (ept_index_enabled machine env ≡ false) ⊎ (ept_index_missing machine env ≡ [])
      ↔ ((¬ (IsOne env "EPT_INDEX_FIXTURE")) ⊎ IsFile "EPT_INDEX_FIXTURE_PATH")
  unfolding ept_index_missing ept_index_enabled
  ept_index_iff = ground (arith, IsOne-iff "EPT_INDEX_FIXTURE", IsFile-iff "EPT_INDEX_FIXTURE_PATH")

  verify_iff : (verify_stage_config machine env ≡ []) ↔ IsConfigured
  unfolding verify_stage_config
  verify_iff = (
    λ h.
        let (a, (b, (c, (d, (e, (f, (g, (i, _)))))))) = (All-IsQuiet_iff (checks machine)).0 h in
        record {
          lidar = lidar_iff.0 a;
          storage = storage_iff.0 b;
          sam2 = sam2_iff.0 c;
          imagery = imagery_iff.0 d;
          render_images = render_images_iff.0 e;
          fuse_capture = fuse_capture_iff.0 f;
          project_photo = project_photo_iff.0 g;
          ept_index = ept_index_iff.0 i;
        },
    λ c. (All-IsQuiet_iff (checks machine)).1 (
      lidar_iff.1 c.lidar,
      (
        storage_iff.1 c.storage,
        (
          sam2_iff.1 c.sam2,
          (
            imagery_iff.1 c.imagery,
            (
              render_images_iff.1 c.render_images,
              (
                fuse_capture_iff.1 c.fuse_capture,
                (project_photo_iff.1 c.project_photo, (ept_index_iff.1 c.ept_index, tt)),
              ),
            ),
          ),
        ),
      ),
    ),
  )

  quiet_iff : (run_boot_checks machine env ≡ ok tt) ↔ (verify_stage_config machine env ≡ [])
  unfolding run_boot_checks
  quiet_iff = ground arith

  -- `run_boot_checks` returns without raising exactly when every stage whose real path is on has the
  -- variables, the files and the importable packages that it needs, whatever the environment is named.
  pub run_boot_checks_iff : (run_boot_checks machine env ≡ ok tt) ↔ IsConfigured
  run_boot_checks_iff = (λ h. verify_iff.0 (quiet_iff.0 h), λ c. quiet_iff.1 (verify_iff.1 c))

  not_blank_ne : (text : String) → is_blank text ≡ false → str_eq text "" ≡ false
  not_blank_ne text h = elim (Bool-cases (str_eq text "")) [
    | inl e ↦ let h' : ◌≡◌ {A = Bool} true false = rw ((eq_iff text "").0 e) at h in cc
    | inr e ↦ e
  ]

  -- Where `run_boot_checks` returns, there is a storage backend: a local root, or a bucket to which every
  -- call of the store is addressed. No such call fails for want of configuration.
  pub run_boot_checks-storage :
      {S : Type 0} (boto : Client S) (cwd : FilePath)
      → run_boot_checks machine env ≡ ok tt
      → ((root : FilePath) × ((storage_env cwd env).local_root ≡ some root))
        ⊎ ((bucket : String) × (bucket_of boto (storage_env cwd env) ≡ ok bucket))
  unfolding storage_env bucket_of
  run_boot_checks-storage boto cwd booted = elim ((run_boot_checks_iff.0 booted).storage) [
    | inl (root, e, ne) ↦
        let named : str_eq root "" ≡ false = ground (arith, eq_iff root "") in
        elim (Option-cases (storage_env cwd env).local_root) [
          | inl nothing ↦ let bad = rw (e, named) at nothing in cc
          | inr there ↦ inl there
        ]
    | inr ((bucket, eb, nb), (endpoint, ee, ne), _, _) ↦
        let b = not_blank_ne bucket nb in
        let p = not_blank_ne endpoint ne in inr (bucket, rw (ee, eb) (ground arith))
  ]
