-- ===== src/Contracts.antt =====
-- contracts/pipeline.py: the values that cross between Rails and the sidecar. A constructor of pydantic
-- checks its constraints, so the functions `new_...` fail with a ValidationError, a ValueError.
use rooftrace.Prelude.{
  ℕ, Bool, true, ◌&&◌, Option, none, some, List, length, leb, all, if◌then◌else◌, String, Result,
  ok, err, Raised, value_error,
}
use rooftrace.Float.{Float, nought}

abbrev pub pipeline_schema_version : String
pipeline_schema_version = "0.6.0"

pub data GeometrySource : Type 0 where
  lidar : GeometrySource
  imagery : GeometrySource
  fusion : GeometrySource
  capture : GeometrySource
  manual : GeometrySource

-- `[lon, lat]` or `[lon, lat, elevation]`
pub record Position (F : Type 0) : Type 0 where
  pub lon : F
  pub lat : F
  pub elevation : Option F

pub record Polygon (F : Type 0) : Type 0 where
  pub coordinates : List (List (Position F))
  pub source : Option GeometrySource
  pub confidence : Option F

pub record WorkUnit : Type 0 where
  pub name : String
  pub year : Option ℕ
  pub quality_level : Option String
  pub epsg : Option ℕ

pub data LiDarStatus : Type 0 where
  available : LiDarStatus
  missing : LiDarStatus

pub record LiDarResult (F : Type 0) : Type 0 where
  pub status : LiDarStatus
  pub point_array_ref : Option String
  pub point_count : Option ℕ
  pub work_unit : Option WorkUnit
  pub source : Option GeometrySource
  pub confidence : Option F

pub record AttributionItem : Type 0 where
  pub name : String
  pub license : Option String
  pub url : Option String
  pub retrieved_at : Option String

pub record Address (F : Type 0) : Type 0 where
  pub raw : String
  pub normalized : Option String
  pub lon : Option F
  pub lat : Option F
  pub source : Option GeometrySource
  pub confidence : Option F

pub record ResolveAddressRequest : Type 0 where
  pub schema_version : String
  pub address : String

pub record ResolveAddressResponse (F : Type 0) : Type 0 where
  pub schema_version : String
  pub geocode : Address F
  pub parcel_polygon : Option (Polygon F)
  pub building_polygons : List (Polygon F)
  pub attribution : List AttributionItem
  pub warnings : List String

pub record Facet (F : Type 0) : Type 0 where
  pub facet_id : String
  pub vertices : List (Position F)
  pub pitch_ratio : Option F
  pub pitch_degrees : Option F
  pub area_sq_ft : F
  pub source : GeometrySource
  pub confidence : F

-- `RoofModelDiagnostics` of the contract
pub record Diagnostics (F : Type 0) : Type 0 where
  pub model_version : String
  pub plane_count : ℕ
  pub facet_count : ℕ
  pub edge_count : ℕ
  pub coverage_ratio : F
  pub area_method : String
  pub boundary_method : String
  pub warnings : List String

pub record MeasurementGeometry (F : Type 0) : Type 0 where
  pub facets : List (Facet F)
  pub total_area_sq_ft : F
  pub total_perimeter_ft : Option F
  pub primary_pitch_ratio : Option F
  pub primary_pitch_degrees : Option F
  pub source : GeometrySource
  pub confidence : F
  pub warnings : List String
  pub roof_model : Option (Diagnostics F)

module _ {F : Type 0} ⦃fl : Float F⦄ where
  -- `Field(ge=lo, le=hi)` and `Field(ge=0.0)`, and the same where `None` is allowed
  abbrev pub between : F → F → F → Bool
  between lo hi x = fl.le lo x && fl.le x hi

  abbrev pub not_negative : F → Bool
  not_negative x = fl.le nought x

  abbrev pub if_given : (F → Bool) → Option F → Bool
  if_given p none = true
  if_given p (some x) = p x

  abbrev pub is_confidence : F → Bool
  is_confidence = between (fl.num 0 0) (fl.num 1 0)

  -- `Polygon(...)`, a position of which has two or three numbers
  unfoldable pub new_polygon : Polygon F → Result Raised (Polygon F)
  new_polygon p =
      if leb 1 (length p.coordinates)
        && all (λ ring. leb 4 (length ring)) p.coordinates
        && if_given is_confidence p.confidence
      then ok p
      else err (value_error "validation error for Polygon")

  -- `Address(...)`
  unfoldable pub new_address : Address F → Result Raised (Address F)
  new_address a =
      if if_given (between (fl.neg (fl.num 180 0)) (fl.num 180 0)) a.lon
        && if_given (between (fl.neg (fl.num 90 0)) (fl.num 90 0)) a.lat
        && if_given is_confidence a.confidence
      then ok a
      else err (value_error "validation error for Address")

  unfoldable pub is_valid_facet : Facet F → Bool
  is_valid_facet f =
      leb 3 (length f.vertices)
      && if_given not_negative f.pitch_ratio
      && if_given (between (fl.num 0 0) (fl.num 90 0)) f.pitch_degrees
      && not_negative f.area_sq_ft
      && is_confidence f.confidence

  -- `Facet(...)`
  unfoldable pub new_facet : Facet F → Result Raised (Facet F)
  unfolding is_valid_facet
  new_facet f = if is_valid_facet f then ok f else err (value_error "validation error for Facet")

  abbrev pub is_valid_diagnostics : Option (Diagnostics F) → Bool
  is_valid_diagnostics none = true
  is_valid_diagnostics (some d) = is_confidence d.coverage_ratio

  unfoldable pub is_valid_measurement : MeasurementGeometry F → Bool
  is_valid_measurement m =
      not_negative m.total_area_sq_ft
      && if_given not_negative m.total_perimeter_ft
      && if_given not_negative m.primary_pitch_ratio
      && if_given (between (fl.num 0 0) (fl.num 90 0)) m.primary_pitch_degrees
      && is_confidence m.confidence
      && is_valid_diagnostics m.roof_model

  -- `MeasurementGeometry(...)`, whose facets were checked when they were made
  unfoldable pub new_measurement : MeasurementGeometry F → Result Raised (MeasurementGeometry F)
  unfolding is_valid_measurement
  new_measurement m =
      if is_valid_measurement m
      then ok m
      else err (value_error "validation error for MeasurementGeometry")
