-- ===== src/Planefit/RoofModel/Envelope.antt =====
-- app/planefit/roof_model.py: the mass that the points show around the supports that share a feature.
use rooftrace.Prelude.{
  Bool, not, ◌&&◌, ◌||◌, List, [], ◌∷◌, ◌++◌, map, length, ltb, if◌then◌else◌, any,
}
use rooftrace.Float.{Float, ◌⊕◌, ◌⊖◌, ◌⊗◌}
use rooftrace.Planefit.Numpy.{Numpy, select}
use rooftrace.Planefit.Shapely.{Shapely}
use rooftrace.Planefit.Topology.{MergedPlane}
use rooftrace.Planefit.RoofModel.{
  CandidateFacet, largest_polygon, parts_of, is_polygon, valid, plane_z_coeffs,
}
use rooftrace.Planefit.RoofModel.Support.{flat}
use rooftrace.Planefit.RoofModel.Seams.{partition_coverage}

module _ {F V R G : Type 0} ⦃fl : Float F⦄ (np : Numpy F V R) (sh : Shapely F G) where
  open fl use {num, lt, le, neg, abs}
  open sh use {area, is_empty, buffer, covers, intersection, intersects, unary_union}

  -- The row of `_near_any_plane_mask` for one point.
  unfoldable pub near_plane : MergedPlane F V → F → V → Bool
  unfolding plane_z_coeffs
  near_plane plane tolerance_m p =
      let (a, b, c) = plane_z_coeffs np plane in
      le (abs (np.z_of p ⊖ (a ⊗ np.x_of p ⊕ b ⊗ np.y_of p ⊕ c))) tolerance_m

  unfoldable pub near_any_plane_mask : List V → List (MergedPlane F V) → F → List Bool
  unfolding near_plane
  near_any_plane_mask points planes tolerance_m =
      map (λ p. any (λ plane. near_plane plane tolerance_m p) planes) points

  unfoldable pub point_mask_in_geometry : List V → G → List Bool
  point_mask_in_geometry points geometry = map (λ p. covers geometry (np.x_of p, np.y_of p)) points

  abbrev both : List Bool → List Bool → List Bool
  both [] ns = []
  both (m ∷ ms) [] = []
  both (m ∷ ms) (n ∷ ns) = (m && n) ∷ both ms ns

  unfoldable pub support_envelope : List G → G
  support_envelope supports =
      let coverage = unary_union supports in
      let hull = sh.convex_hull coverage in
      let envelope = sh.minimum_rotated_rectangle hull in
      if is_empty coverage
      then sh.empty_polygon
      else if not (is_polygon sh hull) || is_empty hull
      then sh.empty_polygon
      else if is_polygon sh envelope
      then envelope
      else sh.empty_polygon

  -- The points of the regions that reach the supports, region after region; `np.vstack` of
  -- `attached_points`.
  unfoldable pub attached : List V → G → List G → List V
  unfolding point_mask_in_geometry
  attached evidence attach_region [] = []
  attached evidence attach_region (region ∷ regions) =
      let rest = attached evidence attach_region regions in
      let component = select (point_mask_in_geometry evidence region) evidence in
      if is_empty region || not (intersects region attach_region)
      then rest
      else if ltb (length component) 3
      then rest
      else component ++ rest

  -- The rectangle around the attached points, if it is acceptable.
  unfoldable pub mass_of : List V → G → G → G → G
  unfolding largest_polygon
  mass_of mass_points support_coverage envelope outline =
      let hull = sh.convex_hull (sh.multi_point (flat np sh mass_points)) in
      let rectangle = sh.minimum_rotated_rectangle hull in
      let mass = largest_polygon sh (intersection rectangle outline) in
      if not (is_polygon sh hull) || is_empty hull
      then support_coverage
      else if not (is_polygon sh rectangle) || is_empty rectangle
      then support_coverage
      else if is_empty mass || le (area mass) (area support_coverage)
      then support_coverage
      else if lt (area envelope ⊗ num 175 2) (area mass)
      then support_coverage
      else mass

  unfoldable pub roof_mass_envelope : List (CandidateFacet F V G) → List V → G → G
  unfolding partition_coverage support_envelope near_any_plane_mask point_mask_in_geometry attached
      mass_of
  roof_mass_envelope candidates all_points outline =
      let supports = map (λ c. c.support) candidates in
      let support_coverage = partition_coverage np sh supports in
      let envelope = support_envelope supports in
      let residual_mask =
        near_any_plane_mask all_points (map (λ c. c.plane) candidates) (num 45 2) in
      let outline_mask = point_mask_in_geometry all_points outline in
      let evidence = select (both residual_mask outline_mask) all_points in
      let point_buffers = map (λ p. buffer (sh.point p) (num 75 2)) (flat np sh evidence) in
      let point_regions =
        valid sh (buffer (unary_union point_buffers) (neg (num 75 2) ⊗ num 3 1)) in
      let attach_region = buffer support_coverage (num 9 1) in
      if is_empty envelope
      then support_coverage
      else if not (any (λ b. b) residual_mask)
      then support_coverage
      else if ltb (length evidence) 3
      then support_coverage
      else elim (attached evidence attach_region (parts_of sh point_regions)) [
        | [] ↦ support_coverage
        | (p ∷ ps) ↦ mass_of (p ∷ ps) support_coverage envelope outline
      ]
