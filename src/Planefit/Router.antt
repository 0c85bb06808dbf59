-- ===== src/Planefit/Router.antt =====
-- app/planefit/router.py: the endpoints POST /pipeline/fit-planes and /pipeline/fallback-measurement.
pub mod Outcomes
use rooftrace.Prelude.{
  ℕ, zero, suc, ◌+◌, ◌*◌, Bool, true, false, not, ◌&&◌, ◌||◌, Option, none, some, List, [], ◌∷◌,
  ◌++◌, map, length, ltb, ◌==◌, if◌then◌else◌, String, str_eq, Result, ok, err, Raised, value_error,
  runtime_error, storage_error, storage_too_large, http, other, raise_if, f_string, message,
  type_name, ◌>>=◌,
}
use rooftrace.Float.{Float, min_of}
use rooftrace.Contracts.{
  GeometrySource, lidar, Position, Polygon, Facet, Diagnostics, MeasurementGeometry,
  new_measurement,
}
use rooftrace.Pipeline.{check_pipeline_version}
use rooftrace.Storage.{Bytes}
use rooftrace.Planefit.Numpy.{Numpy}
use rooftrace.Planefit.Shapely.{Shapely, Pyproj}
use rooftrace.Planefit.Fit.{FittedPlane, FitParams, fit_planes, default_params}
use rooftrace.Planefit.Topology.{merge_coplanar_facets}
use rooftrace.Planefit.RoofModel.{RoofModel, RoofModelDiagnostics}
use rooftrace.Planefit.RoofModel.Build.{build_roof_model}
use rooftrace.Planefit.Geometry.{build_facets_from_planes, build_facets_from_roof_model}
use rooftrace.Planefit.Measurement.{assemble_measurement, fallback_measurement_from_polygon}

pub record FitPlanesRequest (F : Type 0) : Type 0 where
  pub pipeline_schema_version : String
  pub point_array_ref : String
  pub utm_zone : ℕ
  pub refined_polygon : Polygon F

pub record FallbackMeasurementRequest (F : Type 0) : Type 0 where
  pub pipeline_schema_version : String
  pub refined_polygon : Polygon F
  pub inferred_pitch_degrees : F
  pub utm_zone : ℕ

-- What `np.load` returns, its rows cut to three columns.
pub record Loaded (V : Type 0) : Type 0 where
  pub is_ndarray : Bool
  pub ndim : ℕ
  pub columns : ℕ
  pub rows : List V

-- What the endpoints call and the model takes as given: `get_bytes` of the store at the time of the
-- request, `np.load` without pickles, and the texts of `uuid.uuid4()`.
pub record Calls (V : Type 0) : Type 0 where
  pub get_bytes : String → Result Raised Bytes
  pub np_load : Bytes → Result Raised (Loaded V)
  pub uuids : ℕ → String

-- `except StorageError`, and its handler
abbrev pub unreadable : Raised → Raised
unreadable (storage_error m) = http 422 "point_array_ref could not be read"
unreadable (storage_too_large m) = http 422 "point_array_ref could not be read"
unreadable e = e

abbrev not_an_array : Raised → Raised
not_an_array e =
    http 422 (f_string ("point_array_ref is not a valid .npy array: " ∷ type_name e ∷ []))

-- `except (ValueError, OSError, EOFError)`
abbrev pub malformed : Raised → Raised
malformed (value_error m) = not_an_array (value_error m)
malformed (other n m) =
    if str_eq n "OSError" || str_eq n "EOFError" then not_an_array (other n m) else other n m
malformed e = e

-- `except ValueError` of the two endpoints
abbrev pub invalid_input : Raised → Raised
invalid_input (value_error m) = http 422 (f_string ("invalid measurement input: " ∷ m ∷ []))
invalid_input e = e

abbrev pub invalid_polygon : Raised → Raised
invalid_polygon (value_error m) = http 422 m
invalid_polygon e = e

abbrev pub handle : {A : Type 0} → (Raised → Raised) → Result Raised A → Result Raised A
handle f (ok a) = ok a
handle f (err e) = err (f e)

abbrev pub max_point_array_bytes : ℕ
max_point_array_bytes = 256 * 1024 * 1024

module _ {F V R G : Type 0} ⦃fl : Float F⦄ (np : Numpy F V R) (sh : Shapely F G) (pj : Pyproj F)
    (calls : Calls V) where
  open fl use {num}

  -- `f.model_copy(update={"confidence": min(f.confidence, 0.3)})`; pydantic checks no copy.
  abbrev pub cap_facet : Facet F → Facet F
  cap_facet f = record {
    facet_id = f.facet_id;
    vertices = f.vertices;
    pitch_ratio = f.pitch_ratio;
    pitch_degrees = f.pitch_degrees;
    area_sq_ft = f.area_sq_ft;
    source = f.source;
    confidence = min_of f.confidence (num 3 1);
  }

  abbrev pub cap_measurement : MeasurementGeometry F → MeasurementGeometry F
  cap_measurement m = record {
    facets = m.facets;
    total_area_sq_ft = m.total_area_sq_ft;
    total_perimeter_ft = m.total_perimeter_ft;
    primary_pitch_ratio = m.primary_pitch_ratio;
    primary_pitch_degrees = m.primary_pitch_degrees;
    source = m.source;
    confidence = min_of m.confidence (num 3 1);
    warnings = m.warnings;
    roof_model = m.roof_model;
  }

  abbrev pub rings_of : Polygon F → List (List (F × F))
  rings_of p = map (map (λ v. (v.lon, v.lat))) p.coordinates

  -- `fit_planes(points, min_points=3)`
  abbrev pub sparse_params : FitParams F
  sparse_params =
      let p = default_params np in
      record {
        distance_threshold = p.distance_threshold;
        max_iterations = p.max_iterations;
        min_inlier_ratio = p.min_inlier_ratio;
        max_residual_std = p.max_residual_std;
        min_points = 3;
        seed = p.seed;
      }

  -- The zero-facet answer of the sparse path.
  abbrev pub no_facets : MeasurementGeometry F
  no_facets = record {
    facets = [];
    total_area_sq_ft = num 0 1;
    total_perimeter_ft = none;
    primary_pitch_ratio = some (num 0 1);
    primary_pitch_degrees = some (num 0 1);
    source = lidar;
    confidence = num 1 1;
    warnings = "sparse_lidar" ∷ [];
    roof_model = none;
  }

  -- The planes of a sparse cloud, or the answer where there is none.
  unfoldable pub measure_sparse_planes :
      List V → FitPlanesRequest F → List (FittedPlane F V) → Result Raised (MeasurementGeometry F)
  measure_sparse_planes points req [] = new_measurement no_facets
  measure_sparse_planes points req (p ∷ ps) = do
    let merged = merge_coplanar_facets np (p ∷ ps)
    facets ← build_facets_from_planes np sh pj merged points req.utm_zone lidar calls.uuids
    result ← assemble_measurement np sh pj (map cap_facet facets) lidar ("sparse_lidar" ∷ []) none
    ok (cap_measurement result)

  unfoldable pub measure_sparse :
      List V → FitPlanesRequest F → Result Raised (MeasurementGeometry F)
  unfolding measure_sparse_planes
  measure_sparse points req =
      measure_sparse_planes points req
        (if ltb (length points) 3 then [] else fit_planes np points sparse_params)

  -- `roof_model_diagnostics(model)`, as the contract's record
  abbrev pub roof_model_diagnostics : RoofModel F V G → Diagnostics F
  roof_model_diagnostics model =
      let d = model.diagnostics in
      record {
        model_version = d.model_version;
        plane_count = d.plane_count;
        facet_count = d.facet_count;
        edge_count = d.edge_count;
        coverage_ratio = d.coverage_ratio;
        area_method = d.area_method;
        boundary_method = d.boundary_method;
        warnings = d.warnings;
      }

  unfoldable pub measure_model :
      RoofModel F V G → List (Facet F) → Result Raised (MeasurementGeometry F)
  measure_model model [] = err (http 422 "no_planes_found")
  measure_model model (f ∷ fs) =
      assemble_measurement np sh pj (f ∷ fs) lidar ([] ++ model.warnings)
        (some (roof_model_diagnostics model))

  unfoldable pub measure_planes :
      List V → FitPlanesRequest F → List (FittedPlane F V) → Result Raised (MeasurementGeometry F)
  unfolding measure_model
  measure_planes points req [] = err (http 422 "no_planes_found")
  measure_planes points req (p ∷ ps) = do
    let merged = merge_coplanar_facets np (p ∷ ps)
    model ← build_roof_model np sh pj merged points (rings_of req.refined_polygon) req.utm_zone
    facets ← build_facets_from_roof_model np sh pj model req.utm_zone lidar
    measure_model model facets

  unfoldable pub measure_dense : List V → FitPlanesRequest F → Result Raised (MeasurementGeometry F)
  unfolding measure_planes
  measure_dense points req = measure_planes points req (fit_planes np points (default_params np))

  -- `_fit_and_measure`
  unfoldable pub fit_and_measure :
      List V → FitPlanesRequest F → Result Raised (MeasurementGeometry F)
  unfolding measure_sparse measure_dense
  fit_and_measure points req =
      if ltb (length points) 100 then measure_sparse points req else measure_dense points req

  unfoldable pub fit_planes_endpoint : FitPlanesRequest F → Result Raised (MeasurementGeometry F)
  unfolding fit_and_measure check_pipeline_version
  fit_planes_endpoint req = do
    _ ← check_pipeline_version req.pipeline_schema_version
    raw_bytes ← handle unreadable (calls.get_bytes req.point_array_ref)
    _ ←
        raise_if (ltb max_point_array_bytes (length raw_bytes))
          (http 413 "point array exceeds the maximum allowed size")
    points ← handle malformed (calls.np_load raw_bytes)
    _ ←
        raise_if (not points.is_ndarray || not (points.ndim == 2) || ltb points.columns 3)
          (http 422 "point array must be a 2-D ndarray of shape (N, ≥3)")
    handle invalid_input (fit_and_measure points.rows req)

  unfoldable pub fallback_measurement_endpoint :
      FallbackMeasurementRequest F → Result Raised (MeasurementGeometry F)
  unfolding check_pipeline_version fallback_measurement_from_polygon
  fallback_measurement_endpoint req = do
    _ ← check_pipeline_version req.pipeline_schema_version
    handle invalid_polygon (
        fallback_measurement_from_polygon np sh pj req.refined_polygon.coordinates
          req.inferred_pitch_degrees req.utm_zone (calls.uuids 0))
