-- ===== src/Planefit/RoofModel/Seams.antt =====
-- app/planefit/roof_model.py: the seams along which planes meet, the cell that a plane keeps, and the
-- edges between facets.
use rooftrace.Prelude.{
  Bool, false, not, ◌&&◌, ◌||◌, Option, none, some, List, [], ◌∷◌, ◌++◌, map, ◌==◌, if◌then◌else◌,
  String,
}
use rooftrace.Float.{Float, nought, min_of, max_of, ◌⊕◌, ◌⊖◌, ◌⊗◌, ◌⊘◌}
use rooftrace.Planefit.Numpy.{Numpy}
use rooftrace.Planefit.Shapely.{
  Shapely, polygon, multi_polygon, geometry_collection, line_string, other_kind,
}
use rooftrace.Planefit.Topology.{MergedPlane}
use rooftrace.Planefit.RoofModel.{
  RoofModelFacet, RoofModelEdge, CandidateFacet, largest_polygon, is_polygon, valid, plane_z_coeffs,
  normals_angle,
}

module _ {F V R G : Type 0} ⦃fl : Float F⦄ (np : Numpy F V R) (sh : Shapely F G) where
  open fl use {num, lt, le, neg, abs}
  open sh use {is_empty, buffer, intersection, distance, unary_union}

  unfoldable pub facet_kind : RoofModelFacet F V G → RoofModelFacet F V G → String
  facet_kind a b = if lt (normals_angle np a.plane b.plane) (num 1 0) then "coplanar" else "ridge"

  -- The edge between two facets, if they touch. The code's first `if` sets a length that is not
  -- positive to 0.
  unfoldable pub edge_between :
      RoofModelFacet F V G → RoofModelFacet F V G → Option (RoofModelEdge F)
  unfolding facet_kind
  edge_between a b =
      let shared = intersection (sh.boundary a.polygon_utm) (sh.boundary b.polygon_utm) in
      let near = le (distance a.polygon_utm b.polygon_utm) (num 8 2) in
      let measured = sh.length_of shared in
      let length = (if le measured nought && near then num 0 1 else measured) in
      if lt (num 8 2) length || (fl.eq length (num 0 1) && near)
      then some (record {
        facet_a = a.facet_id;
        facet_b = b.facet_id;
        kind = facet_kind a b;
        length_m = fl.round_to 4 length;
      })
      else none

  -- `for b in facets[i + 1:]`
  unfoldable pub edges_from :
      RoofModelFacet F V G → List (RoofModelFacet F V G) → List (RoofModelEdge F)
  edges_from a [] = []
  edges_from a (b ∷ bs) =
      let rest = edges_from a bs in elim (edge_between a b) [ none ↦ rest | some e ↦ e ∷ rest ]

  unfoldable pub build_edges : List (RoofModelFacet F V G) → List (RoofModelEdge F)
  unfolding edges_from
  build_edges [] = []
  build_edges (a ∷ facets) = edges_from a facets ++ build_edges facets

  -- A polygon over the half-plane alpha x + beta y + gamma >= 0, larger than the box.
  unfoldable pub halfplane_polygon : F → F → F → F × F × F × F → G
  halfplane_polygon alpha beta gamma (minx, miny, maxx, maxy) =
      let cx = (minx ⊕ maxx) ⊘ num 2 0 in
      let cy = (miny ⊕ maxy) ⊘ num 2 0 in
      let reach = fl.hypot (maxx ⊖ minx) (maxy ⊖ miny) ⊗ num 4 0 ⊕ num 10 0 in
      let norm = fl.hypot alpha beta in
      let nx = alpha ⊘ norm in
      let ny = beta ⊘ norm in
      let dx = neg ny in
      let dy = nx in
      let dist = (alpha ⊗ cx ⊕ beta ⊗ cy ⊕ gamma) ⊘ norm in
      let fx = cx ⊖ dist ⊗ nx in
      let fy = cy ⊖ dist ⊗ ny in
      let ax = fx ⊕ dx ⊗ reach in
      let ay = fy ⊕ dy ⊗ reach in
      let bx = fx ⊖ dx ⊗ reach in
      let by = fy ⊖ dy ⊗ reach in
      let c : F × F = (bx ⊕ nx ⊗ num 2 0 ⊗ reach, by ⊕ ny ⊗ num 2 0 ⊗ reach) in
      let d : F × F = (ax ⊕ nx ⊗ num 2 0 ⊗ reach, ay ⊕ ny ⊗ num 2 0 ⊗ reach) in
      if lt norm (num 1 12)
      then (if le nought gamma
          then sh.box (cx ⊖ reach, cy ⊖ reach, cx ⊕ reach, cy ⊕ reach)
          else sh.empty_polygon)
      else sh.polygon_of ((ax, ay) ∷ (bx, by) ∷ c ∷ d ∷ []) []

  unfoldable pub partition_coverage : List G → G
  partition_coverage supports =
      let coverage = unary_union supports in
      let closed = buffer (buffer coverage (num 5 1)) (neg (num 5 1)) in
      elim (sh.kind coverage) [
        | multi_polygon ↦ if is_empty closed then coverage else closed
        | polygon ↦ coverage
        | geometry_collection ↦ coverage
        | line_string ↦ coverage
        | other_kind ↦ coverage
      ]

  -- z_a - z_b at the corners and the centroid of the coverage's polygons
  abbrev seam_values : F → F → F → List G → List F
  seam_values alpha beta gamma [] = []
  seam_values alpha beta gamma (g ∷ gs) =
      let rest = seam_values alpha beta gamma gs in
      let gap = λ (p : F × F). alpha ⊗ p.0 ⊕ beta ⊗ p.1 ⊕ gamma in
      if not (is_polygon sh g) || is_empty g
      then rest
      else map gap (sh.exterior_coords g) ++ gap (sh.centroid g) ∷ rest

  -- `min(values)` and `max(values)`, of a list that is not empty
  abbrev least : F → List F → F
  least x [] = x
  least x (y ∷ ys) = least (min_of x y) ys

  abbrev greatest : F → List F → F
  greatest x [] = x
  greatest x (y ∷ ys) = greatest (max_of x y) ys

  unfoldable pub seam_crosses_coverage : CandidateFacet F V G → CandidateFacet F V G → G → F → Bool
  unfolding plane_z_coeffs
  seam_crosses_coverage a b coverage tolerance_m =
      let (ai, bi, ci) = plane_z_coeffs np a.plane in
      let (aj, bj, cj) = plane_z_coeffs np b.plane in
      let geometries = (if is_polygon sh coverage then coverage ∷ [] else sh.geoms coverage) in
      elim (seam_values (ai ⊖ aj) (bi ⊖ bj) (ci ⊖ cj) geometries) [
        | [] ↦ false
        | (v ∷ vs) ↦ le (least v vs) tolerance_m && le (neg tolerance_m) (greatest v vs)
      ]

  -- The annotated `None` is never returned.
  unfoldable pub anchor_elevation : MergedPlane F V → F × F → Option F
  unfolding plane_z_coeffs
  anchor_elevation plane (x, y) =
      let (ai, bi, ci) = plane_z_coeffs np plane in some (ai ⊗ x ⊕ bi ⊗ y ⊕ ci)

  unfoldable pub nearest_support_elevation_gap :
      CandidateFacet F V G → CandidateFacet F V G → Option F
  unfolding anchor_elevation
  nearest_support_elevation_gap a b =
      let (pa, pb) = sh.nearest_points a.support b.support in
      if is_empty a.support || is_empty b.support
      then none
      else elim (anchor_elevation a.plane pa) [
        | none ↦ none
        | some za ↦ elim (anchor_elevation b.plane pb) [
          | none ↦ none
          | some zb ↦ some (abs (za ⊖ zb))
        ]
      ]

  unfoldable pub point_elevation_ranges_overlap :
      CandidateFacet F V G → CandidateFacet F V G → F → Bool
  point_elevation_ranges_overlap a b tolerance_m =
      let za = map np.z_of a.inlier_pts in
      let zb = map np.z_of b.inlier_pts in
      le (max_of (np.np_min za) (np.np_min zb)) (min_of (np.np_max za) (np.np_max zb) ⊕ tolerance_m)

  -- The two supports are near a step: their nearest points differ by over a metre, and so do their
  -- points' heights.
  abbrev is_step : CandidateFacet F V G → CandidateFacet F V G → Option F → Bool
  is_step a b none = false
  is_step a b (some gap) = lt (num 1 0) gap && not (point_elevation_ranges_overlap a b (num 5 2))

  unfoldable pub should_partition_against : CandidateFacet F V G → CandidateFacet F V G → F → Bool
  unfolding nearest_support_elevation_gap partition_coverage
  should_partition_against a b buffer_m =
      if a.plane_index == b.plane_index
      then false
      else if lt buffer_m (distance a.support b.support)
      then false
      else if lt (normals_angle np a.plane b.plane) (num 3 0)
      then false
      else if is_step a b (nearest_support_elevation_gap a b)
      then false
      else seam_crosses_coverage a b (partition_coverage (a.support ∷ b.support ∷ [])) (num 25 2)

  -- The loop of `_partition_cell`: `continue` on a seam through the anchor, `break` on an empty cell.
  unfoldable pub cut_cell : MergedPlane F V → F × F → F × F × F × F → List (MergedPlane F V) → G → G
  unfolding plane_z_coeffs halfplane_polygon
  cut_cell plane anchor bbox [] cell = cell
  cut_cell plane (cx, cy) bbox (other ∷ others) cell =
      let (ai, bi, ci) = plane_z_coeffs np plane in
      let (aj, bj, cj) = plane_z_coeffs np other in
      let alpha = ai ⊖ aj in
      let beta = bi ⊖ bj in
      let gamma = ci ⊖ cj in
      let side = alpha ⊗ cx ⊕ beta ⊗ cy ⊕ gamma in
      let half =
        (if lt side nought
          then halfplane_polygon (neg alpha) (neg beta) (neg gamma) bbox
          else halfplane_polygon alpha beta gamma bbox) in
      let skip = lt (abs side) (num 1 9) in
      let next = (if skip then cell else intersection cell half) in
      let rest = cut_cell plane (cx, cy) bbox others next in
      if not skip && is_empty next then next else rest

  unfoldable pub partition_cell :
      MergedPlane F V → List (MergedPlane F V) → G → F × F × F × F → Option (F × F) → G
  unfolding cut_cell largest_polygon
  partition_cell plane others coverage bbox anchor_xy =
      let anchor : F × F = elim anchor_xy [
        | some a ↦ a
        | none ↦ (np.x_of plane.centroid, np.y_of plane.centroid)
      ] in
      largest_polygon sh (valid sh (cut_cell plane anchor bbox others coverage))
