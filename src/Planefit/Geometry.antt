-- ===== src/Planefit/Geometry.antt =====
-- app/planefit/geometry.py: facets in WGS84 from merged planes, and from a roof model.
use rooftrace.Prelude.{
  ℕ, ◌+◌, true, ◌&&◌, Option, none, some, List, [], ◌∷◌, map, length, take, ltb, if◌then◌else◌,
  String, Result, ok, Raised, ◌>>=◌,
}
use rooftrace.Float.{Float, ◌⊗◌}
use rooftrace.Contracts.{GeometrySource, Position, Facet, new_facet}
use rooftrace.Planefit.Numpy.{Numpy, gather}
use rooftrace.Planefit.Shapely.{Shapely, Pyproj, polygon, line_string}
use rooftrace.Planefit.Topology.{MergedPlane}
use rooftrace.Planefit.RoofModel.{
  RoofModelFacet, RoofModel, utm_epsg, area_sq_ft, normal_to_pitch, point_density, facet_confidence,
  plane_elevation_utm,
}

module _ {F V R G : Type 0} ⦃fl : Float F⦄ (np : Numpy F V R) (sh : Shapely F G)
    (pj : Pyproj F) where
  open fl use {num, lt, le, abs}
  open np use {minus, plus, times, over, dot, cross, norm, vec, x_of, y_of, z_of, clip}

  unfoldable pub project_to_plane : List V → V → V → List V
  project_to_plane points normal origin =
      map (λ p. minus p (times normal (np.row_sum (minus p origin) normal))) points

  unfoldable pub perp_vector : V → V
  perp_vector normal =
      let ax = abs (x_of normal) in
      let ay = abs (y_of normal) in
      let az = abs (z_of normal) in
      let candidate =
        (if le ax ay && le ax az
          then vec (num 1 0) (num 0 0) (num 0 0)
          else if le ay az
          then vec (num 0 0) (num 1 0) (num 0 0)
          else vec (num 0 0) (num 0 0) (num 1 0)) in
      let perp = minus candidate (times normal (dot candidate normal)) in
      if lt (num 1 9) (norm perp) then over perp (norm perp) else candidate

  -- The points on the plane in its own coordinates, along `u` and `v`.
  unfoldable pub plane_coordinates : List V → V → V → List (F × F)
  unfolding project_to_plane perp_vector
  plane_coordinates inlier_pts normal centroid =
      let u = perp_vector normal in
      let v = cross normal u in
      map (λ p. (dot (minus p centroid) u, dot (minus p centroid) v))
        (project_to_plane inlier_pts normal centroid)

  unfoldable pub facet_area_2d : List (F × F) → F
  facet_area_2d pts_2d =
      sh.area (sh.minimum_rotated_rectangle (sh.convex_hull (sh.multi_point pts_2d)))

  -- True and planimetric area.
  unfoldable pub facet_surface_area_m2 : List V → V → V → F × F
  unfolding plane_coordinates facet_area_2d
  facet_surface_area_m2 inlier_pts normal centroid =
      let true_area = facet_area_2d (plane_coordinates inlier_pts normal centroid) in
      let nz = clip (abs (z_of normal)) (num 0 0) (num 1 0) in
      if ltb (length inlier_pts) 3 then (num 0 1, num 0 1) else (true_area, true_area ⊗ nz)

  unfoldable pub convex_hull_vertices_utm : List V → V → V → List V
  unfolding plane_coordinates perp_vector
  convex_hull_vertices_utm inlier_pts normal centroid =
      let u = perp_vector normal in
      let v = cross normal u in
      let pts_2d = plane_coordinates inlier_pts normal centroid in
      let hull = sh.convex_hull (sh.multi_point pts_2d) in
      let hull_coords : List (F × F) = elim (sh.kind hull) [
        | polygon ↦ sh.exterior_coords hull
        | line_string ↦ sh.coords hull
        | _ ↦ take 1 pts_2d
      ] in
      if ltb (length inlier_pts) 3
      then inlier_pts
      else map (λ c. plus (plus centroid (times u c.0)) (times v c.1)) hull_coords

  -- `_utm_to_wgs84` of an array with a third column
  unfoldable pub utm_to_wgs84 : List V → ℕ → List (Position F)
  utm_to_wgs84 utm_pts epsg =
      map
        (λ p.
          let (lon, lat) = pj.transform epsg 4326 (x_of p, y_of p) in
          record { lon = lon; lat = lat; elevation = some (fl.round_to 3 (z_of p)) })
        utm_pts

  -- The facet of one plane: `none` for the loop's two `continue`s. `facet_id` is `str(uuid.uuid4())`.
  unfoldable pub facet_from_plane :
      MergedPlane F V → List V → ℕ → GeometrySource → String → Option (Facet F)
  unfolding normal_to_pitch facet_surface_area_m2 convex_hull_vertices_utm utm_to_wgs84
      point_density facet_confidence
  facet_from_plane plane points epsg source facet_id =
      let inlier_pts = gather points plane.inlier_indices in
      let (pitch_deg, pitch_ratio) = normal_to_pitch np plane.normal in
      let (true_area, planimetric_area) =
        facet_surface_area_m2 inlier_pts plane.normal plane.centroid in
      let hull_utm = convex_hull_vertices_utm inlier_pts plane.normal plane.centroid in
      let pts_per_m2 = point_density np (length inlier_pts) planimetric_area in
      let conf = facet_confidence np plane.inlier_ratio pts_per_m2 in
      if ltb (length inlier_pts) 3
      then none
      else if lt conf (num 4 1)
      then none
      else some (record {
        facet_id = facet_id;
        vertices = utm_to_wgs84 hull_utm epsg;
        pitch_ratio = some pitch_ratio;
        pitch_degrees = some (fl.round_to 2 pitch_deg);
        area_sq_ft = fl.round_to 2 (true_area ⊗ num 107639 4);
        source = source;
        confidence = fl.round_to 4 conf;
      })

  -- The loop over the planes. `uuids i` is the text that `uuid.uuid4()` gives for plane `i`.
  unfoldable pub facets_from_planes :
      List (MergedPlane F V)
      → List V
      → ℕ
      → GeometrySource
      → (ℕ → String)
      → ℕ
      → Result Raised (List (Facet F))
  unfolding facet_from_plane new_facet
  facets_from_planes [] points epsg source uuids i = ok []
  facets_from_planes (plane ∷ planes) points epsg source uuids i =
      let later = facets_from_planes planes points epsg source uuids (i + 1) in
      elim (facet_from_plane plane points epsg source (uuids i)) [
        | none ↦ later
        | some f ↦ do facet ← new_facet f; rest ← later; ok (facet ∷ rest)
      ]

  unfoldable pub build_facets_from_planes :
      List (MergedPlane F V)
      → List V
      → ℕ
      → GeometrySource
      → (ℕ → String)
      → Result Raised (List (Facet F))
  unfolding facets_from_planes utm_epsg
  build_facets_from_planes planes points utm_zone source uuids = do
    epsg ← utm_epsg utm_zone true
    facets_from_planes planes points epsg source uuids 0

  -- `facet_vertices_wgs84` of roof_model.py
  unfoldable pub facet_vertices_wgs84 : RoofModelFacet F V G → ℕ → Result Raised (List (Position F))
  unfolding utm_epsg plane_elevation_utm
  facet_vertices_wgs84 facet utm_zone = do
    epsg ← utm_epsg utm_zone true
    ok (
        map
          (λ c.
            let (x, y) = c in
            let (lon, lat) = pj.transform epsg 4326 (x, y) in
            let elevation : Option F =
              elim (plane_elevation_utm np facet.plane.normal facet.plane.d x y) [
                | none ↦ none
                | some e ↦ some (fl.round_to 3 e)
              ] in
            record { lon = lon; lat = lat; elevation = elevation })
          (sh.exterior_coords facet.polygon_utm))

  unfoldable pub facets_of_model :
      List (RoofModelFacet F V G) → ℕ → GeometrySource → Result Raised (List (Facet F))
  unfolding facet_vertices_wgs84 area_sq_ft new_facet
  facets_of_model [] utm_zone source = ok []
  facets_of_model (f ∷ fs) utm_zone source = do
    vertices ← facet_vertices_wgs84 f utm_zone
    facet ← new_facet (record {
      facet_id = f.facet_id;
      vertices = vertices;
      pitch_ratio = some f.pitch_ratio;
      pitch_degrees = some (fl.round_to 2 f.pitch_degrees);
      area_sq_ft = fl.round_to 2 (area_sq_ft f.surface_area_m2);
      source = source;
      confidence = fl.round_to 4 f.confidence;
    })
    rest ← facets_of_model fs utm_zone source
    ok (facet ∷ rest)

  unfoldable pub build_facets_from_roof_model :
      RoofModel F V G → ℕ → GeometrySource → Result Raised (List (Facet F))
  unfolding facets_of_model
  build_facets_from_roof_model model utm_zone source = facets_of_model model.facets utm_zone source
