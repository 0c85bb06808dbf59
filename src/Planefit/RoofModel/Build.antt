-- ===== src/Planefit/RoofModel/Build.antt =====
-- `build_roof_model` of app/planefit/roof_model.py: candidates, their cells, and the facets.
use rooftrace.Prelude.{
  ℕ, ◌+◌, Bool, false, not, ◌&&◌, ◌||◌, Option, none, some, List, [], ◌∷◌, ◌++◌, map, length,
  get_elem?, ltb, ◌==◌, if◌then◌else◌, String, str_eq, Result, ok, Raised, f_string, show, ◌>>=◌,
  keep,
}
use rooftrace.Float.{Float, nought, ◌⊘◌}
use rooftrace.Planefit.Numpy.{Numpy, gather}
use rooftrace.Planefit.Shapely.{Shapely, Pyproj}
use rooftrace.Planefit.Topology.{MergedPlane}
use rooftrace.Planefit.Clusters.{support_clusters}
use rooftrace.Planefit.RoofModel.{
  RoofModelFacet, RoofModel, CandidateFacet, largest_polygon, valid, point_density,
  facet_confidence, normal_to_pitch, refined_outline_to_utm,
}
use rooftrace.Planefit.RoofModel.Support.{support_polygons, clip_support}
use rooftrace.Planefit.RoofModel.Seams.{should_partition_against, partition_cell, build_edges}
use rooftrace.Planefit.RoofModel.Envelope.{roof_mass_envelope}

-- `s in warnings`
abbrev pub has_text : String → List String → Bool
has_text s [] = false
has_text s (t ∷ ts) = str_eq t s || has_text s ts

-- `list(dict.fromkeys(xs))`, behind the keys that are already there
unfoldable pub from_keys : List String → List String → List String
from_keys seen [] = seen
from_keys seen (x ∷ xs) = from_keys (if has_text x seen then seen else seen ++ x ∷ []) xs

-- `d[k] = v` and `d.get(k, none_left)` on a dict with numbers as keys
abbrev pub put {ℓ} : {A : Type ℓ} → ℕ → A → List (ℕ × A) → List (ℕ × A)
put k v [] = (k, v) ∷ []
put k v ((j, w) ∷ d) = let rest = put k v d in if j == k then (k, v) ∷ d else (j, w) ∷ rest

abbrev pub get_or {ℓ} : {A : Type ℓ} → A → ℕ → List (ℕ × A) → A
get_or none_left k [] = none_left
get_or none_left k ((j, v) ∷ d) = let rest = get_or none_left k d in if j == k then v else rest

module _ {F V R G : Type 0} ⦃fl : Float F⦄ (np : Numpy F V R) (sh : Shapely F G)
    (pj : Pyproj F) where
  open fl use {num, lt, le, abs}
  open sh use {area, is_empty, covers, intersection, intersects, distance, unary_union}

  abbrev pub Candidates : Type 0
  Candidates = List (CandidateFacet F V G)

  abbrev pub Facets : Type 0
  Facets = List (RoofModelFacet F V G)

  -- The xy mean of the component's points.
  abbrev anchor_of : List V → F × F
  anchor_of pts = let m = np.mean pts in (np.x_of m, np.y_of m)

  -- One support of a plane: its candidate, if it passes the gates, and its warnings.
  unfoldable pub candidate_of :
      ℕ → MergedPlane F V → List V → G → G → Option (CandidateFacet F V G) × List String
  unfolding clip_support point_density facet_confidence
  candidate_of plane_index plane inlier_pts outline support =
      let (clipped, clip_warnings) = clip_support np sh support outline in
      let component_pts = keep (λ p. covers clipped (np.x_of p, np.y_of p)) inlier_pts in
      let density = point_density np (length component_pts) (area clipped) in
      let confidence = facet_confidence np plane.inlier_ratio density in
      if is_empty clipped || lt (area clipped) (num 12 0)
      then (none, clip_warnings ++ "facet_support_too_small" ∷ [])
      else if ltb (length component_pts) 3
      then (none, clip_warnings ++ "facet_support_too_small" ∷ [])
      else if lt confidence (num 5 1)
      then (none, clip_warnings ++ "low_confidence_facet_dropped" ∷ [])
      else (
        some (record {
          plane_index = plane_index;
          plane = plane;
          inlier_pts = component_pts;
          support = clipped;
          confidence = confidence;
          density = density;
          anchor_xy = anchor_of component_pts;
        }),
        clip_warnings,
      )

  -- `for support in supports`
  unfoldable pub candidates_of :
      ℕ → MergedPlane F V → List V → G → List G → Candidates × List String
  candidates_of plane_index plane inlier_pts outline [] = ([], [])
  candidates_of plane_index plane inlier_pts outline (support ∷ supports) =
      let (found, warned) = candidate_of plane_index plane inlier_pts outline support in
      let (rest, more) = candidates_of plane_index plane inlier_pts outline supports in
      (elim found [ none ↦ rest | some c ↦ c ∷ rest ], warned ++ more)

  -- A plane with its supports; one that has none gives a warning.
  unfoldable pub plane_candidates :
      ℕ → MergedPlane F V → List V → G → List G → Candidates × List String
  unfolding candidates_of
  plane_candidates plane_index plane inlier_pts outline [] = ([], "facet_support_too_small" ∷ [])
  plane_candidates plane_index plane inlier_pts outline (s ∷ ss) =
      candidates_of plane_index plane inlier_pts outline (s ∷ ss)

  -- Step 1, `for plane_index, plane in enumerate(planes)`, from an index on
  unfoldable pub candidates_from :
      ℕ → List (MergedPlane F V) → List V → G → Candidates × List String
  unfolding plane_candidates support_polygons
  candidates_from i [] points outline = ([], [])
  candidates_from i (plane ∷ planes) points outline =
      let pts = gather points plane.inlier_indices in
      let (here, warned) = plane_candidates i plane pts outline (support_polygons np sh pts) in
      let (rest, more) = candidates_from (i + 1) planes points outline in
      (here ++ rest, warned ++ more)

  -- The candidates at some indices, which are in range.
  abbrev pub picked : Candidates → List ℕ → Candidates
  picked candidates [] = []
  picked candidates (j ∷ js) =
      let rest = picked candidates js in
      elim (get_elem? candidates j) [ none ↦ rest | some c ↦ c ∷ rest ]

  -- `neighbor_indexes` of candidate `i`
  unfoldable pub neighbor_indexes : Candidates → ℕ → CandidateFacet F V G → List ℕ → List ℕ
  unfolding should_partition_against
  neighbor_indexes candidates i candidate cluster =
      keep
        (λ j. not (i == j) && elim (get_elem? candidates j) [
          | none ↦ false
          | some other ↦ should_partition_against np sh candidate other (num 5 1)
        ])
        cluster

  unfoldable pub cell_of : Candidates → List V → G → List ℕ → ℕ → CandidateFacet F V G → G
  unfolding neighbor_indexes roof_mass_envelope partition_cell largest_polygon
  cell_of candidates points outline cluster i candidate =
      let others = picked candidates (neighbor_indexes candidates i candidate cluster) in
      let coverage = roof_mass_envelope np sh (candidate ∷ others) points outline in
      let bbox = (if is_empty coverage then sh.bounds outline else sh.bounds coverage) in
      let planes = map (λ c. c.plane) others in
      let cell =
        partition_cell np sh candidate.plane planes coverage bbox (some candidate.anchor_xy) in
      largest_polygon sh (valid sh (intersection cell outline))

  -- Step 2, `for i in cluster` and `for cluster in clusters`
  unfoldable pub cells_in : Candidates → List V → G → List ℕ → List ℕ → List (ℕ × G) → List (ℕ × G)
  unfolding cell_of
  cells_in candidates points outline cluster [] cell_for = cell_for
  cells_in candidates points outline cluster (i ∷ is) cell_for =
      let next : List (ℕ × G) = elim (get_elem? candidates i) [
        | none ↦ cell_for
        | some c ↦ put i (cell_of candidates points outline cluster i c) cell_for
      ] in
      cells_in candidates points outline cluster is next

  unfoldable pub cells_of : Candidates → List V → G → List (List ℕ) → List (ℕ × G) → List (ℕ × G)
  unfolding cells_in
  cells_of candidates points outline [] cell_for = cell_for
  cells_of candidates points outline (cluster ∷ clusters) cell_for =
      cells_of candidates points outline clusters
        (cells_in candidates points outline cluster cluster cell_for)

  -- `supports[i].distance(supports[j]) <= 0.5`
  abbrev pub near_supports : Candidates → ℕ → ℕ → Bool
  near_supports candidates i j = elim (get_elem? candidates i) [
    | none ↦ false
    | some a ↦ elim (get_elem? candidates j) [
      | none ↦ false
      | some b ↦ le (distance a.support b.support) (num 5 1)
    ]
  ]

  unfoldable pub facet_of : ℕ → CandidateFacet F V G → G → RoofModelFacet F V G
  unfolding normal_to_pitch
  facet_of number candidate cell =
      let (pitch_deg, pitch_ratio) = normal_to_pitch np candidate.plane.normal in
      let nz = np.clip (abs (np.z_of candidate.plane.normal)) (num 1 6) (num 1 0) in
      record {
        facet_id = f_string ("F" ∷ show number ∷ []);
        plane_index = candidate.plane_index;
        plane = candidate.plane;
        polygon_utm = cell;
        plan_area_m2 = area cell;
        surface_area_m2 = area cell ⊘ nz;
        pitch_degrees = pitch_deg;
        pitch_ratio = pitch_ratio;
        confidence = candidate.confidence;
        inlier_count = length candidate.inlier_pts;
        point_density_per_m2 = candidate.density;
        boundary_method = "plane_intersection_partition_of_supports";
      }

  -- Step 3, `for i, candidate in enumerate(candidates)`, from candidate `i` on, with `count` facets
  -- made before
  unfoldable pub emit : ℕ → ℕ → List (ℕ × G) → Candidates → Facets × List String
  unfolding facet_of
  emit i count cell_for [] = ([], [])
  emit i count cell_for (candidate ∷ candidates) =
      let cell = get_or sh.empty_polygon i cell_for in
      let small = is_empty cell || lt (area cell) (num 12 0) in
      let off = not (intersects cell candidate.support) in
      let next = (if small || off then count else count + 1) in
      let (rest, more) = emit (i + 1) next cell_for candidates in
      if small
      then (rest, "facet_cell_too_small" ∷ more)
      else if off
      then (rest, "facet_cell_off_support" ∷ more)
      else (facet_of (count + 1) candidate cell ∷ rest, more)

  -- The facets of an outline, and the warnings in the order of their making.
  unfoldable pub facets_in : List (MergedPlane F V) → List V → G → Facets × List String
  unfolding candidates_from cells_of emit support_clusters
  facets_in planes points outline =
      let (candidates, warned) = candidates_from 0 planes points outline in
      let clusters = support_clusters (length candidates) (near_supports candidates) in
      let cell_for = cells_of candidates points outline clusters [] in
      let (facets, more) = emit 0 0 cell_for candidates in (facets, warned ++ more)

  unfoldable pub coverage_of : G → Facets → F
  coverage_of outline facets =
      let assigned : G = elim facets [
        | [] ↦ sh.empty_polygon
        | (f ∷ fs) ↦ unary_union (map (λ f. f.polygon_utm) (f ∷ fs))
      ] in
      if lt nought (area outline) && not (is_empty assigned)
      then area (intersection assigned outline) ⊘ area outline
      else num 0 1

  unfoldable pub build_roof_model :
      List (MergedPlane F V) → List V → List (List (F × F)) → ℕ → Result Raised (RoofModel F V G)
  unfolding refined_outline_to_utm facets_in coverage_of from_keys build_edges
  build_roof_model planes points refined_polygon utm_zone = do
    outline ← refined_outline_to_utm sh pj refined_polygon utm_zone
    let (facets, warned) = facets_in planes points outline
    let edges = build_edges np sh facets
    let warnings = from_keys [] warned
    ok (record {
      facets = facets;
      edges = edges;
      warnings = warnings;
      diagnostics = record {
        model_version = "roof_model_v1";
        plane_count = length planes;
        facet_count = length facets;
        edge_count = length edges;
        coverage_ratio = fl.round_to 4 (coverage_of outline facets);
        area_method = "outline_clipped_plan_area_div_cos_pitch";
        boundary_method = "plane_intersection_partition_of_supports";
        warnings = warnings;
      };
    })
