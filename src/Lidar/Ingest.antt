-- ===== src/Lidar/Ingest.antt =====
-- app/lidar/ingest.py: the five hops from a building polygon to a cached point array.
use text.Mathlib.Text.{find?}
use rooftrace.Prelude.{
  ℕ, zero, suc, ◌+◌, Bool, true, false, not, ◌&&◌, ◌||◌, Option, none, some, List, [], ◌∷◌, ◌++◌,
  map, length, ltb, leb, ◌==◌, if◌then◌else◌, String, str_eq, Result, ok, err, Raised,
  runtime_error, value_error, storage_error, storage_too_large, http, other, f_string, keep, any,
  ◌>>=◌,
}
use rooftrace.Float.{Float, ◌⊕◌}
use rooftrace.Contracts.{LiDarStatus, available, missing}
use rooftrace.Planefit.Shapely.{Pyproj}
use rooftrace.Storage.{Bytes}
use rooftrace.Lidar.Wesm.{WorkUnit, Bbox}
use rooftrace.Lidar.Crs.{utm_epsg_for}

-- A row of a point array: x, y, z, class.
pub record LidarPoint (F : Type 0) : Type 0 where
  pub x : F
  pub y : F
  pub z : F
  pub class : F

pub record CroppedCloud (F : Type 0) : Type 0 where
  pub points : List (LidarPoint F)
  pub src_epsg : ℕ

pub record IngestOutcome (F : Type 0) : Type 0 where
  pub status : LiDarStatus
  pub reason : Option String
  pub point_array_ref : Option String
  pub point_count : Option ℕ
  pub work_unit : Option (WorkUnit F)
  pub utm_zone : Option ℕ
  pub bounds_utm : Option (F × F × F × F)
  pub warnings : List String

-- numpy's functions of an array
pub record Arrays (F : Type 0) : Type 0 where
  pub percentile : List F → F → F
  pub min : List F → F
  pub max : List F → F
  pub round : F → ℕ → F
  -- `np.linspace(0, last, num=n).astype(np.int64)`
  pub linspace : ℕ → ℕ → List ℕ

-- What one call of `ingest_lidar` is given: the polygon's box, centroid and hash, the index, the
-- cropper, `load_ept_index().resolve` with the URLs, and the writer on a store `S`.
pub record IngestCalls (F S : Type 0) : Type 0 where
  pub bbox : Bbox F
  pub centroid : F × F
  pub address_hash : String
  pub query : Bbox F → List (WorkUnit F)
  pub resolve_urls : Bbox F → Result Raised (List String)
  pub crop : WorkUnit F → Option String → Result Raised (CroppedCloud F)
  pub npy_bytes : List (LidarPoint F) → Bytes
  pub put_bytes : S → String → Bytes → Result Raised S
  pub current_year : ℕ

abbrev pub is_ept_not_found : Raised → Bool
is_ept_not_found (other n m) = str_eq n "EptNotFound"
is_ept_not_found e = false

-- `any(marker in str(err) for marker in _EPT_ABSENT_MARKERS)`
abbrev has_marker : String → String → Bool
has_marker text marker = elim (find? text marker) [ none ↦ false | some _ ↦ true ]

unfoldable pub is_absent : String → Bool
is_absent text =
    any (has_marker text) ("NoSuchKey" ∷ "NoSuchBucket" ∷ "AccessDenied" ∷ "404" ∷ "Not Found" ∷ [])

-- The loop of `PdalCropper.crop` from an attempt on; `execute k` runs the pipeline the k-th time and
-- gives its first array, or no rows. Only a RuntimeError is caught.
unfoldable pub read_ept :
    {F : Type 0}
    → String
    → (ℕ → Result Raised (List (LidarPoint F)))
    → ℕ
    → ℕ
    → Result Raised (CroppedCloud F)
unfolding is_absent
read_ept name execute attempt zero = err (runtime_error "EPT read failed")
read_ept name execute attempt (suc left) =
    let again = read_ept name execute (attempt + 1) left in
    elim (execute attempt) [
      | ok points ↦ ok (record { points = points; src_epsg = 3857 })
      | err e ↦ elim e [
        | runtime_error m ↦
            if is_absent m
            then err (other "EptNotFound" (f_string ("no public EPT for work unit " ∷ name ∷ [])))
            else if attempt == 1
            then err (runtime_error (f_string ("EPT read failed after retry: " ∷ m ∷ [])))
            else again
        | value_error m ↦ err (value_error m)
        | storage_error m ↦ err (storage_error m)
        | storage_too_large m ↦ err (storage_too_large m)
        | http s m ↦ err (http s m)
        | other n m ↦ err (other n m)
      ]
    ]

module _ {F : Type 0} ⦃fl : Float F⦄ (np : Arrays F) where
  open fl use {num, le, eq}

  abbrev pub is_class : ℕ → LidarPoint F → Bool
  is_class c p = eq p.class (num c 0)

  abbrev pub is_noise : LidarPoint F → Bool
  is_noise p = is_class 7 p || is_class 18 p

  -- The height of the ground under the points that are not noise
  unfoldable pub ground_height : List (LidarPoint F) → F
  ground_height clean =
      let ground = keep (is_class 2) clean in
      if leb 10 (length ground)
      then np.percentile (map (λ p. p.z) ground) (num 50 0)
      else np.percentile (map (λ p. p.z) clean) (num 10 0)

  abbrev pub is_roof : F → LidarPoint F → Bool
  is_roof ground_z p = not (is_class 2 p) && le (ground_z ⊕ num 2 0) p.z

  unfoldable pub by_height : List (LidarPoint F) → List (LidarPoint F) × String
  unfolding ground_height
  by_height [] = ([], "empty")
  by_height (p ∷ clean) =
      (keep (is_roof (ground_height (p ∷ clean))) (p ∷ clean), "height_above_ground")

  -- The points of class 6, or where there is none those found by their height.
  unfoldable pub by_class : List (LidarPoint F) → List (LidarPoint F) → List (LidarPoint F) × String
  unfolding by_height
  by_class points [] = by_height (keep (λ q. not (is_noise q)) points)
  by_class points (b ∷ building) = (b ∷ building, "class6")

  unfoldable pub extract_building_points : List (LidarPoint F) → List (LidarPoint F) × String
  unfolding by_class
  extract_building_points [] = ([], "empty")
  extract_building_points (p ∷ points) = by_class (p ∷ points) (keep (is_class 6) (p ∷ points))

  unfoldable pub reproject_points : Pyproj F → List (LidarPoint F) → ℕ → ℕ → List (LidarPoint F)
  reproject_points pj points src_epsg dst_epsg =
      if src_epsg == dst_epsg
      then points
      else map
          (λ p.
            let (x, y) = pj.transform src_epsg dst_epsg (p.x, p.y) in
            record { x = x; y = y; z = p.z; class = p.class })
          points

  module _ {S : Type 0} (pj : Pyproj F) (calls : IngestCalls F S) where
    -- `for url in resolved_urls`
    unfoldable pub try_urls : WorkUnit F → List String → Result Raised (Option (CroppedCloud F))
    try_urls work_unit [] = ok none
    try_urls work_unit (url ∷ urls) =
        let rest = try_urls work_unit urls in
        elim (calls.crop work_unit (some url)) [
          | ok cloud ↦ ok (some cloud)
          | err e ↦ if is_ept_not_found e then rest else err e
        ]

    -- `for candidate in covering`
    unfoldable pub try_units :
        List (WorkUnit F) → Result Raised (Option (CroppedCloud F × WorkUnit F))
    try_units [] = ok none
    try_units (candidate ∷ covering) =
        let rest = try_units covering in
        elim (calls.crop candidate none) [
          | ok cloud ↦ ok (some (cloud, candidate))
          | err e ↦ if is_ept_not_found e then rest else err e
        ]

    -- The URLs, then the names of the covering units.
    unfoldable pub find_cloud :
        WorkUnit F
        → List (WorkUnit F)
        → List String
        → Result Raised (Option (CroppedCloud F × WorkUnit F))
    unfolding try_urls try_units
    find_cloud first covering urls = try_urls first urls >>= λ found. elim found [
      | some cloud ↦ ok (some (cloud, first))
      | none ↦ try_units covering
    ]

    abbrev pub missed : String → Option (WorkUnit F) → List String → IngestOutcome F
    missed reason work_unit warnings = record {
      status = missing;
      reason = some reason;
      point_array_ref = none;
      point_count = none;
      work_unit = work_unit;
      utm_zone = none;
      bounds_utm = none;
      warnings = warnings;
    }

    abbrev pub is_stale : WorkUnit F → Bool
    is_stale w = elim w.year [ none ↦ false | some y ↦ ltb (y + 5) calls.current_year ]

    abbrev pub cache_key : String
    cache_key = f_string ("cache/lidar/" ∷ calls.address_hash ∷ ".npy" ∷ [])

    -- Hops 4 and 5, for points that are not empty.
    unfoldable pub cache_points :
        S → WorkUnit F → ℕ → List (LidarPoint F) → List String → Result Raised (IngestOutcome F × S)
    unfolding reproject_points utm_epsg_for
    cache_points store work_unit src_epsg building_pts warnings = do
      let (lon, lat) = calls.centroid
      utm ← utm_epsg_for lon lat
      let utm_pts = reproject_points pj building_pts src_epsg utm
      let xs = map (λ p. p.x) utm_pts
      let ys = map (λ p. p.y) utm_pts
      store' ← calls.put_bytes store cache_key (calls.npy_bytes utm_pts)
      ok (
        record {
          status = available;
          reason = none;
          point_array_ref = some cache_key;
          point_count = some (length utm_pts);
          work_unit = some work_unit;
          utm_zone = some utm;
          bounds_utm = some (np.min xs, np.min ys, np.max xs, np.max ys);
          warnings = warnings;
        },
        store',
      )

    -- Hop 3, and the return where no point is left
    unfoldable pub classify_and_cache :
        S → CroppedCloud F → WorkUnit F → List String → Result Raised (IngestOutcome F × S)
    unfolding extract_building_points cache_points
    classify_and_cache store cloud work_unit warned =
        let warnings = (if is_stale work_unit then warned ++ "stale_lidar" ∷ [] else warned) in
        let (building_pts, extract_method) = extract_building_points cloud.points in
        let more =
          (if str_eq extract_method "height_above_ground"
            then warnings ++ "lidar_height_extracted" ∷ []
            else warnings) in
        if length building_pts == 0
        then ok (
          missed "no_building_points" (some work_unit) (warnings ++ "no_building_points" ∷ []),
          store,
        )
        else cache_points store work_unit cloud.src_epsg building_pts more

    -- The URLs of the index, and the warning where it is not to be had
    abbrev pub urls_of : Result Raised (List String) → List String × List String
    urls_of (ok urls) = (urls, [])
    urls_of (err e) = ([], "ept_index_unavailable" ∷ [])

    -- The return where no resource was found, and the rest where one was
    unfoldable pub with_cloud :
        S
        → WorkUnit F
        → List String
        → Option (CroppedCloud F × WorkUnit F)
        → Result Raised (IngestOutcome F × S)
    unfolding classify_and_cache
    with_cloud store first warnings none =
        ok (missed "no_ept_resource" (some first) (warnings ++ "no_ept_resource" ∷ []), store)
    with_cloud store first warnings (some (cloud, work_unit)) =
        classify_and_cache store cloud work_unit warnings

    unfoldable pub ingest_covered :
        S → WorkUnit F → List (WorkUnit F) → Result Raised (IngestOutcome F × S)
    unfolding find_cloud with_cloud
    ingest_covered store first covering =
        let (urls, warnings) = urls_of (calls.resolve_urls calls.bbox) in
        find_cloud first (first ∷ covering) urls >>= with_cloud store first warnings

    unfoldable pub ingest_covering : S → List (WorkUnit F) → Result Raised (IngestOutcome F × S)
    unfolding ingest_covered
    ingest_covering store [] = ok (missed "no_coverage" none ("no_coverage" ∷ []), store)
    ingest_covering store (first ∷ covering) = ingest_covered store first covering

    unfoldable pub ingest_lidar : S → Result Raised (IngestOutcome F × S)
    unfolding ingest_covering
    ingest_lidar store = ingest_covering store (calls.query calls.bbox)
