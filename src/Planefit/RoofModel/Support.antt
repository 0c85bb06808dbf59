-- ===== src/Planefit/RoofModel/Support.antt =====
-- app/planefit/roof_model.py: the plan-view support of a plane's inlier points, cut to the outline.
use rooftrace.Prelude.{
  not, ◌&&◌, ◌||◌, List, [], ◌∷◌, map, length, ltb, if◌then◌else◌, String, keep,
}
use rooftrace.Float.{Float, nought, ◌⊗◌}
use rooftrace.Planefit.Numpy.{Numpy}
use rooftrace.Planefit.Shapely.{Shapely}
use rooftrace.Planefit.RoofModel.{largest_polygon, parts_of, is_polygon, valid}

module _ {F V R G : Type 0} ⦃fl : Float F⦄ (np : Numpy F V R) (sh : Shapely F G) where
  open fl use {num, lt, le, neg}
  open sh use {area, is_empty, buffer, covers, intersection, convex_hull, minimum_rotated_rectangle}

  -- `pts[:, :2]`
  abbrev pub flat : List V → List (F × F)
  flat = map λ p. (np.x_of p, np.y_of p)

  -- The rectangle around the points of one region, if there are three and they are not on a line.
  abbrev pub region_supports : List (F × F) → List G → List G
  region_supports points_2d [] = []
  region_supports points_2d (region ∷ regions) =
      let rest = region_supports points_2d regions in
      let component_pts = keep (covers region) points_2d in
      let hull = convex_hull (sh.multi_point component_pts) in
      let support = minimum_rotated_rectangle hull in
      if ltb (length component_pts) 3
      then rest
      else if is_polygon sh hull && not (is_empty hull) && lt nought (area support)
      then support ∷ rest
      else rest

  abbrev hull_support : List (F × F) → List G
  hull_support points_2d =
      let hull = convex_hull (sh.multi_point points_2d) in
      if is_polygon sh hull && not (is_empty hull) then minimum_rotated_rectangle hull ∷ [] else []

  unfoldable pub support_polygons : List V → List G
  support_polygons inlier_pts =
      let points_2d = flat inlier_pts in
      let point_buffers = map (λ p. buffer (sh.point p) (num 6 1)) points_2d in
      let support = valid sh (buffer (sh.unary_union point_buffers) (neg (num 6 1) ⊗ num 35 2)) in
      if ltb (length inlier_pts) 3
      then []
      else elim (region_supports points_2d (parts_of sh support)) [
        | [] ↦ hull_support points_2d
        | (s ∷ supports) ↦ s ∷ supports
      ]

  unfoldable pub clip_support : G → G → G × List String
  unfolding largest_polygon
  clip_support support outline =
      let clipped = intersection support outline in
      if is_empty support || le (area support) nought then (sh.empty_polygon, []) else (
        largest_polygon sh (valid sh (largest_polygon sh clipped)),
        if lt nought (area support) && lt (area clipped) (area support ⊗ num 98 2)
            then "outline_clipped" ∷ []
            else [],
      )
