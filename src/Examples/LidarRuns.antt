-- ===== src/Examples/LidarRuns.antt =====
-- The theorems on app/lidar and app/planefit/router.py at concrete inputs.
use rooftrace.Prelude.{
  ℕ, ◌≤◌, ◌<◌, ◌≡◌, refl, Bool, true, none, some, List, [], ◌∷◌, length, keep, All, ◌⊎◌, Result, ok,
  err, Raised, other,
}
use rooftrace.Contracts.{available, MeasurementGeometry, new_measurement}
use rooftrace.Storage.{Bytes}
use rooftrace.Planefit.Fit.{fit_planes, default_params}
use rooftrace.Planefit.Router.{FitPlanesRequest, Calls, no_facets, fit_and_measure}
use rooftrace.Planefit.Router.Outcomes.{IsLowTrust, IsOfModel, fit_and_measure_lem}
use rooftrace.Lidar.Wesm.{
  WorkUnit, Bbox, query, IsNewestFirst, bbox_intersects, query-IsNewestFirst,
}
use rooftrace.Lidar.Ingest.{
  LidarPoint, Arrays, IngestCalls, IngestOutcome, extract_building_points, ingest_lidar,
}
use rooftrace.Lidar.Extract.{Extracted, quiet, extract_building_points-Extracted}
use rooftrace.Lidar.Hops.{IsMissing, IsAvailable, ingest_lidar-Outcome}
use rooftrace.Lidar.Router.{IngestLidarRequest}
use rooftrace.Examples.{whole_numbers, ordered_numbers, small_numpy, small_shapely, small_pyproj}

abbrev unit : WorkUnit ℕ
unit = record {
  name = "TX_Central";
  bbox = record { west = 1; south = 1; east = 5; north = 5 };
  epsg = 26914;
  year = some 2021;
  quality_level = none;
  copc_url = none;
}

abbrev old_unit : WorkUnit ℕ
old_unit = record {
  name = "TX_Old";
  bbox = record { west = 1; south = 1; east = 5; north = 5 };
  epsg = 26914;
  year = some 2010;
  quality_level = none;
  copc_url = none;
}

abbrev inner_box : Bbox ℕ
inner_box = record { west = 2; south = 2; east = 3; north = 3 }

query-IsNewestFirst_example :
    let units = old_unit ∷ unit ∷ [] in
    let hits = query ⦃fl = whole_numbers⦄ units inner_box in
    IsNewestFirst ⦃fl = whole_numbers⦄ hits
    × All (λ w. bbox_intersects ⦃fl = whole_numbers⦄ w.bbox inner_box ≡ true) hits
    × ((p : WorkUnit ℕ → Bool)
        → length (keep p hits)
          ≡ length
              (keep p (keep (λ w. bbox_intersects ⦃fl = whole_numbers⦄ w.bbox inner_box) units)))
query-IsNewestFirst_example =
    query-IsNewestFirst ⦃fl = whole_numbers⦄ (old_unit ∷ unit ∷ []) inner_box

abbrev small_arrays : Arrays ℕ
small_arrays = record {
  percentile = λ xs q. 1;
  min = λ xs. 0;
  max = λ xs. 9;
  round = λ x k. x;
  linspace = λ last n. [];
}

abbrev point_at : ℕ → ℕ → LidarPoint ℕ
point_at z class = record { x = z; y = z; z = z; class = class }

abbrev mixed_points : List (LidarPoint ℕ)
mixed_points = point_at 1 2 ∷ point_at 9 1 ∷ point_at 8 7 ∷ []

extract_building_points-Extracted_example :
    Extracted ⦃fl = whole_numbers⦄ small_arrays mixed_points
      (quiet ⦃fl = whole_numbers⦄ small_arrays mixed_points)
      (extract_building_points ⦃fl = whole_numbers⦄ small_arrays mixed_points)
extract_building_points-Extracted_example =
    extract_building_points-Extracted ⦃fl = whole_numbers⦄ small_arrays mixed_points

abbrev small_calls : IngestCalls ℕ Bytes
small_calls = record {
  bbox = inner_box;
  centroid = (0, 1);
  address_hash = "abc";
  query = λ b. unit ∷ [];
  resolve_urls = λ b. err (other "URLError" "offline");
  crop = λ w url. ok (record { points = mixed_points; src_epsg = 3857 });
  npy_bytes = λ ps. length ps ∷ [];
  put_bytes = λ s key new. ok new;
  current_year = 2026;
}

abbrev small_run : Result Raised (IngestOutcome ℕ × Bytes)
small_run = ingest_lidar ⦃fl = whole_numbers⦄ small_arrays small_pyproj small_calls []

abbrev small_outcome : IngestOutcome ℕ × Bytes
small_outcome = (
  record {
    status = available;
    reason = none;
    point_array_ref = some "cache/lidar/abc.npy";
    point_count = some 1;
    work_unit = some unit;
    utm_zone = some 32631;
    bounds_utm = some (0, 0, 9, 9);
    warnings = "ept_index_unavailable" ∷ "lidar_height_extracted" ∷ [];
  },
  1 ∷ [],
)

small_run-ok : small_run ≡ ok small_outcome
unfolding ingest_lidar
small_run-ok = refl

ingest_lidar-Outcome_example :
    IsMissing ⦃fl = whole_numbers⦄ small_arrays small_pyproj small_calls []
      (unit ∷ [])
      small_outcome
    ⊎ IsAvailable ⦃fl = whole_numbers⦄ small_arrays small_pyproj small_calls []
        (unit ∷ [])
        small_outcome
ingest_lidar-Outcome_example =
    ingest_lidar-Outcome ⦃fl = whole_numbers⦄ small_arrays small_pyproj small_calls [] small_outcome
      small_run-ok

abbrev ingest_request : IngestLidarRequest ℕ
ingest_request = record {
  pipeline_schema_version = "0.5.0";
  building_polygon = record { coordinates = []; source = none; confidence = none };
}

abbrev no_calls : Calls ℕ
no_calls = record {
  get_bytes = λ key. ok [];
  np_load = λ raw. ok (record { is_ndarray = true; ndim = 2; columns = 3; rows = [] });
  uuids = λ i. "uuid";
}

abbrev fit_request : FitPlanesRequest ℕ
fit_request = record {
  pipeline_schema_version = "0.6.0";
  point_array_ref = "cache/lidar/abc.npy";
  utm_zone = 14;
  refined_polygon = record { coordinates = []; source = none; confidence = none };
}

abbrev sparse_result : MeasurementGeometry ℕ
sparse_result = no_facets ⦃fl = whole_numbers⦄ small_numpy small_shapely small_pyproj no_calls

sparse_ok :
    fit_and_measure ⦃fl = whole_numbers⦄ small_numpy small_shapely small_pyproj no_calls
      (1 ∷ 2 ∷ [])
      fit_request
    ≡ ok sparse_result
unfolding fit_and_measure new_measurement
sparse_ok = refl

fit_and_measure_lem_example :
    (length {A = ℕ} (1 ∷ 2 ∷ []) < 100
      → IsLowTrust ⦃fl = whole_numbers⦄ small_numpy small_shapely small_pyproj no_calls
          ⦃ordered = ordered_numbers⦄ sparse_result)
    × (100 ≤ length {A = ℕ} (1 ∷ 2 ∷ [])
        → IsOfModel ⦃fl = whole_numbers⦄ small_numpy small_shapely small_pyproj no_calls
            ⦃ordered = ordered_numbers⦄
            (fit_planes ⦃fl = whole_numbers⦄ small_numpy
              (1 ∷ 2 ∷ [])
              (default_params ⦃fl = whole_numbers⦄ small_numpy))
            (1 ∷ 2 ∷ [])
            fit_request
            sparse_result)
fit_and_measure_lem_example =
    fit_and_measure_lem ⦃fl = whole_numbers⦄ small_numpy small_shapely small_pyproj no_calls
      ⦃ordered = ordered_numbers⦄ (1 ∷ 2 ∷ []) fit_request sparse_result refl sparse_ok
