-- ===== src/Planefit/RoofModel.antt =====
-- app/planefit/roof_model.py, and the two scores of app/planefit/plane_fit.py that it uses: its data,
-- and the functions on single planes and polygons.
pub mod Support
pub mod Seams
pub mod Envelope
pub mod Build
pub mod Built
use rooftrace.Prelude.{
  ℕ, zero, suc, ◌+◌, Bool, true, false, not, ◌&&◌, ◌||◌, Option, none, some, List, [], ◌∷◌, map,
  leb, if◌then◌else◌, String, Result, ok, err, Raised, value_error, f_string, show, keep, ◌>>=◌,
}
use rooftrace.Float.{Float, nought, min_of}
use rooftrace.Planefit.Numpy.{Numpy}
use rooftrace.Planefit.Shapely.{
  Shapely, Pyproj, GeomKind, polygon, multi_polygon, geometry_collection, line_string, other_kind,
}
use rooftrace.Planefit.Topology.{MergedPlane}

pub record RoofModelFacet (F V G : Type 0) : Type 0 where
  pub facet_id : String
  pub plane_index : ℕ
  pub plane : MergedPlane F V
  pub polygon_utm : G
  pub plan_area_m2 : F
  pub surface_area_m2 : F
  pub pitch_degrees : F
  pub pitch_ratio : F
  pub confidence : F
  pub inlier_count : ℕ
  pub point_density_per_m2 : F
  pub boundary_method : String

pub record RoofModelEdge (F : Type 0) : Type 0 where
  pub facet_a : String
  pub facet_b : String
  pub kind : String
  pub length_m : F

-- The dict `diagnostics` of a model.
pub record RoofModelDiagnostics (F : Type 0) : Type 0 where
  pub model_version : String
  pub plane_count : ℕ
  pub facet_count : ℕ
  pub edge_count : ℕ
  pub coverage_ratio : F
  pub area_method : String
  pub boundary_method : String
  pub warnings : List String

pub record RoofModel (F V G : Type 0) : Type 0 where
  pub facets : List (RoofModelFacet F V G)
  pub edges : List (RoofModelEdge F)
  pub warnings : List String
  pub diagnostics : RoofModelDiagnostics F

pub record CandidateFacet (F V G : Type 0) : Type 0 where
  pub plane_index : ℕ
  pub plane : MergedPlane F V
  pub inlier_pts : List V
  pub support : G
  pub confidence : F
  pub density : F
  pub anchor_xy : F × F

-- `_utm_epsg`, which geometry.py declares a second time. A negative zone fails as 0 does.
unfoldable pub utm_epsg : ℕ → Bool → Result Raised ℕ
utm_epsg utm_zone northern =
    if (leb 32601 utm_zone && leb utm_zone 32660) || (leb 32701 utm_zone && leb utm_zone 32760)
    then ok utm_zone
    else if leb 1 utm_zone && leb utm_zone 60
    then ok ((if northern then 32600 else 32700) + utm_zone)
    else err (
        value_error (
          f_string
            ("utm_zone " ∷ show utm_zone ∷ " is neither a UTM EPSG code nor a zone 1..60" ∷ [])))

-- `max(xs, key=score, default=none_left)`: the first of the largest.
abbrev pub max_by {ℓ} : {F : Type 0} {A : Type ℓ} → ⦃fl : Float F⦄ → (A → F) → A → List A → A
max_by ⦃fl = fl⦄ score best [] = best
max_by ⦃fl = fl⦄ score best (x ∷ xs) =
    max_by score (if fl.lt (score best) (score x) then x else best) xs

abbrev pub is_kind_polygon : GeomKind → Bool
is_kind_polygon polygon = true
is_kind_polygon multi_polygon = false
is_kind_polygon geometry_collection = false
is_kind_polygon line_string = false
is_kind_polygon other_kind = false

module _ {F : Type 0} ⦃fl : Float F⦄ where
  open fl use {num, of_nat, add, mul, div, neg, abs, lt, le}

  unfoldable pub area_sq_ft : F → F
  area_sq_ft area_m2 = mul area_m2 (num 107639 4)

  module _ {G : Type 0} (sh : Shapely F G) where
    open sh use {kind, geoms, is_empty, empty_polygon, area}

    abbrev pub largest_of : List G → G
    largest_of [] = empty_polygon
    largest_of (g ∷ gs) = max_by area g gs

    abbrev pub polygons_in : G → List G
    polygons_in g = keep (λ p. is_kind_polygon (kind p)) (geoms g)

    unfoldable pub largest_polygon : G → G
    largest_polygon g = if is_empty g then empty_polygon else elim (kind g) [
      | polygon ↦ g
      | multi_polygon ↦ largest_of (geoms g)
      | geometry_collection ↦ largest_of (polygons_in g)
      | line_string ↦ empty_polygon
      | other_kind ↦ empty_polygon
    ]

    -- The polygons that an `isinstance` chain over the three classes takes from a geometry.
    abbrev pub parts_of : G → List G
    parts_of g = elim (kind g) [
      | polygon ↦ g ∷ []
      | multi_polygon ↦ geoms g
      | geometry_collection ↦ polygons_in g
      | line_string ↦ []
      | other_kind ↦ []
    ]

    abbrev pub is_polygon : G → Bool
    is_polygon g = is_kind_polygon (kind g)

    -- `if not g.is_valid: g = g.buffer(0)`
    abbrev pub valid : G → G
    valid g = if sh.is_valid g then g else sh.buffer g (num 0 1)

    -- `refined_outline_to_utm`, of the rings as longitude and latitude. A polygon has a ring.
    unfoldable pub refined_outline_to_utm : Pyproj F → List (List (F × F)) → ℕ → Result Raised G
    unfolding utm_epsg largest_polygon
    refined_outline_to_utm pj [] utm_zone =
        err (Raised.other "IndexError" "list index out of range")
    refined_outline_to_utm pj (exterior ∷ holes) utm_zone = do
      epsg ← utm_epsg utm_zone true
      let to_utm = map (pj.transform 4326 epsg)
      let outline = valid (sh.polygon_of (to_utm exterior) (map to_utm holes))
      if sh.is_empty outline || le (sh.area outline) nought
          then err (value_error "degenerate refined polygon: zero planimetric area")
          else ok (largest_polygon outline)

  module _ {V R : Type 0} (np : Numpy F V R) where
    open np use {clip, x_of, y_of, z_of, dot}

    unfoldable pub point_density : ℕ → F → F
    point_density n_points area_m2 =
        if le area_m2 nought then num 0 1 else div (of_nat n_points) area_m2

    unfoldable pub facet_confidence : F → F → F
    facet_confidence inlier_ratio pts_per_m2 =
        let density_score = min_of (div pts_per_m2 (num 10 0)) (num 1 0) in
        clip (add (mul (num 6 1) inlier_ratio) (mul (num 4 1) density_score)) (num 0 0) (num 1 0)

    unfoldable pub normal_to_pitch : V → F × F
    normal_to_pitch normal =
        let pitch_rad = fl.acos (clip (abs (z_of normal)) (num 0 0) (num 1 0)) in
        let rise_per_12 = mul (fl.tan pitch_rad) (num 12 0) in
        (fl.degrees pitch_rad, mul (fl.round_to 0 (div rise_per_12 (num 5 1))) (num 5 1))

    -- The plane's elevation is a x + b y + c.
    unfoldable pub plane_z_coeffs : MergedPlane F V → F × F × F
    plane_z_coeffs plane =
        let n = plane.normal in
        let nz =
          (if lt (abs (z_of n)) (num 1 9)
            then (if not (fl.eq (z_of n) nought) then fl.copysign (num 1 9) (z_of n) else num 1 9)
            else z_of n) in
        (div (neg (x_of n)) nz, div (neg (y_of n)) nz, div (neg plane.d) nz)

    unfoldable pub plane_elevation_utm : V → F → F → F → Option F
    plane_elevation_utm normal d x y =
        let nz = z_of normal in
        if lt (abs nz) (num 1 9)
        then none
        else some (div (neg (add (add (mul (x_of normal) x) (mul (y_of normal) y)) d)) nz)

    -- `math.degrees(math.acos(...))` between two planes' normals
    abbrev pub normals_angle : MergedPlane F V → MergedPlane F V → F
    normals_angle a b =
        fl.degrees (fl.acos (clip (abs (dot a.normal b.normal)) (num 0 0) (num 1 0)))
