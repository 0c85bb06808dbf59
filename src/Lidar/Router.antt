-- ===== src/Lidar/Router.antt =====
-- app/lidar/router.py: POST /pipeline/ingest-lidar.
use rooftrace.Prelude.{
  ℕ, ◌≡◌, Bool, true, false, not, ◌&&◌, Option, none, some, List, [], ◌∷◌, String, Result, ok, err,
  Raised, http, raise_if, f_string, type_name, all, ◌>>=◌, ◌⊎◌, ◌<◌,
}
use rooftrace.Float.{Float}
use rooftrace.Contracts.{
  pipeline_schema_version, lidar, imagery, Position, Polygon, available, missing, LiDarResult,
  AttributionItem, WorkUnit,
}
use rooftrace.Pipeline.{is_mismatch, mismatch_detail}
use rooftrace.Planefit.Shapely.{Pyproj}
use rooftrace.Lidar.Wesm
use rooftrace.Lidar.Ingest.{IngestOutcome, Arrays, IngestCalls, ingest_lidar}

pub record IngestLidarRequest (F : Type 0) : Type 0 where
  pub pipeline_schema_version : String
  pub building_polygon : Polygon F

pub record IngestLidarResponse (F : Type 0) : Type 0 where
  pub pipeline_schema_version : String
  pub lidar_result : LiDarResult F
  pub utm_zone : Option ℕ
  pub bounds_utm : Option (F × F × F × F)
  pub warnings : List String
  pub attribution : List AttributionItem

abbrev pub attribution_3dep : AttributionItem
attribution_3dep = record {
  name = "USGS 3DEP";
  license = some "Public Domain (USGS)";
  url = some "https://www.usgs.gov/3d-elevation-program";
  retrieved_at = none;
}

-- `except Exception`
abbrev pub failed : Raised → Raised
failed e = http 502 (f_string ("lidar ingest failed: " ∷ type_name e ∷ []))

module _ {F : Type 0} ⦃fl : Float F⦄ where
  open fl use {num, le}

  unfoldable pub work_unit_to_contract : Option (Wesm.WorkUnit F) → Option WorkUnit
  work_unit_to_contract none = none
  work_unit_to_contract (some wu) = some (record {
    name = wu.name;
    year = wu.year;
    quality_level = wu.quality_level;
    epsg = some wu.epsg;
  })

  unfoldable pub outcome_to_response : String → IngestOutcome F → IngestLidarResponse F
  unfolding work_unit_to_contract
  outcome_to_response version outcome =
      let found : LiDarResult F = record {
        status = available;
        point_array_ref = outcome.point_array_ref;
        point_count = outcome.point_count;
        work_unit = work_unit_to_contract outcome.work_unit;
        source = some lidar;
        confidence = some (num 95 2);
      } in
      let degraded : LiDarResult F = record {
        status = missing;
        point_array_ref = none;
        point_count = none;
        work_unit = work_unit_to_contract outcome.work_unit;
        source = some imagery;
        confidence = some (num 0 1);
      } in
      record {
        pipeline_schema_version = version;
        lidar_result = elim outcome.status [ available ↦ found | missing ↦ degraded ];
        utm_zone = outcome.utm_zone;
        bounds_utm = outcome.bounds_utm;
        warnings = outcome.warnings;
        attribution = elim outcome.status [ available ↦ attribution_3dep ∷ [] | missing ↦ [] ];
      }

  abbrev in_range : Position F → Bool
  in_range p =
      (le (fl.neg (num 180 0)) p.lon && le p.lon (num 180 0))
      && le (fl.neg (num 90 0)) p.lat
      && le p.lat (num 90 0)

  -- Some coordinate is not in range.
  unfoldable pub is_outside : Polygon F → Bool
  is_outside p = not (all (all in_range) p.coordinates)

  -- What the answer says of LiDAR
  abbrev pub IsOfLidar : IngestLidarResponse F → Type 0
  IsOfLidar r =
      ((r.lidar_result.status ≡ available)
        × (r.lidar_result.source ≡ some lidar)
        × (r.lidar_result.confidence ≡ some (num 95 2))
        × ((ref : String) × (r.lidar_result.point_array_ref ≡ some ref))
        × ((n : ℕ) × (r.lidar_result.point_count ≡ some n) × (0 < n))
        × ((utm : ℕ) × (r.utm_zone ≡ some utm))
        × (r.attribution ≡ attribution_3dep ∷ []))
      ⊎ ((r.lidar_result.status ≡ missing)
          × (r.lidar_result.source ≡ some imagery)
          × (r.lidar_result.confidence ≡ some (num 0 1))
          × (r.lidar_result.point_array_ref ≡ none)
          × (r.lidar_result.point_count ≡ none)
          × (r.attribution ≡ []))

  module _ {S : Type 0} (np : Arrays F) (pj : Pyproj F) where
    unfoldable pub answer :
        Result Raised (IngestOutcome F × S) → Result Raised (IngestLidarResponse F × S)
    unfolding outcome_to_response
    answer (ok (outcome, store)) = ok (outcome_to_response pipeline_schema_version outcome, store)
    answer (err e) = err (failed e)

    -- `calls` gives what the request's polygon and the environment determine.
    unfoldable pub ingest_endpoint :
        IngestLidarRequest F
        → Result Raised (IngestCalls F S)
        → S
        → Result Raised (IngestLidarResponse F × S)
    unfolding is_mismatch is_outside answer ingest_lidar
    ingest_endpoint req calls store = do
      _ ←
          raise_if (is_mismatch req.pipeline_schema_version)
            (http 409 (mismatch_detail req.pipeline_schema_version))
      _ ←
          raise_if (is_outside req.building_polygon)
            (http 422 "building_polygon has out-of-range WGS84 coordinates")
      answer (calls >>= λ c. ingest_lidar np pj c store)

    -- The answer is consistent, or an HTTP error of one of three kinds, each for its reason.
    abbrev pub IsConsistent :
        IngestLidarRequest F → Result Raised (IngestLidarResponse F × S) → Type 0
    IsConsistent req (ok (r, store)) =
        (is_mismatch req.pipeline_schema_version ≡ false)
        × (is_outside req.building_polygon ≡ false)
        × IsOfLidar r
    IsConsistent req (err e) =
        ((is_mismatch req.pipeline_schema_version ≡ true)
          × (e ≡ http 409 (mismatch_detail req.pipeline_schema_version)))
        ⊎ ((is_outside req.building_polygon ≡ true)
            × (e ≡ http 422 "building_polygon has out-of-range WGS84 coordinates"))
        ⊎ ((raised : Raised) × (e ≡ failed raised))
