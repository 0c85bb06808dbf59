-- ===== src/Examples/Planes.antt =====
-- The theorems on app/planefit/plane_fit.py, topology.py and roof_model.py at concrete inputs.
use rooftrace.Prelude.{
  ℕ, suc, ◌+◌, ◌≤◌, ◌≡◌, refl, Bool, true, not, ◌&&◌, List, [], ◌∷◌, arith, length, ltb, ◌==◌,
  if◌then◌else◌, count, contains, range, All, Any, ◌⊎◌, ◌↔◌, Result, ok, err, Raised,
}
use rooftrace.Planefit.Fit.{
  FittedPlane, FitParams, fit_planes, peel, attempt, ransac_single_plane, finish, ransac_loop,
  consider, plane_from_3pts, inlier_mask, refine, is_acceptable, plane_of,
}
use rooftrace.Planefit.Fit.Peel.{
  all_indices, IsAccepted, fit_planes-disjoint, fit_planes-IsAccepted, fit_planes_ends,
}
use rooftrace.Planefit.Fit.Ransac.{hypotheses, inliers_of, Keeps, initial, ransac_loop_best}
use rooftrace.Planefit.Topology.{MergedPlane, merge_coplanar_facets}
use rooftrace.Planefit.Topology.Cover.{merged_indices, sources}
use rooftrace.Planefit.Topology.Merge.{
  IsSeparated, merge_coplanar_facets-IsSeparated, merge_coplanar_facets-sources,
  fit_and_merge-disjoint,
}
use rooftrace.Planefit.Clusters.{support_clusters, collect, add_to_group, find, unions, union}
use rooftrace.Planefit.Clusters.Unions.{IsConnected}
use rooftrace.Planefit.Clusters.Groups.{flatten, support_clusters-partition}
use rooftrace.Planefit.Clusters.Classes.{support_clusters-IsConnected}
use rooftrace.Planefit.RoofModel.{RoofModel}
use rooftrace.Planefit.RoofModel.Build.{candidate_of, build_roof_model}
use rooftrace.Planefit.RoofModel.Built.{IsGatedFacet, IsNumbered, build_roof_model-IsGatedFacet}
use rooftrace.Examples.{whole_numbers, small_numpy, small_shapely, small_pyproj, distinct_once}

abbrev five_points : List ℕ
five_points = 1 ∷ 2 ∷ 3 ∷ 4 ∷ 5 ∷ []

abbrev loose_params : FitParams ℕ
loose_params = record {
  distance_threshold = 100;
  max_iterations = 2;
  min_inlier_ratio = 0;
  max_residual_std = 1;
  min_points = 3;
  seed = 42;
}

abbrev found : List (FittedPlane ℕ ℕ)
found = fit_planes ⦃fl = whole_numbers⦄ small_numpy five_points loose_params

abbrev merged : List (MergedPlane ℕ ℕ)
merged = merge_coplanar_facets ⦃fl = whole_numbers⦄ small_numpy found

-- The run finds a plane through all points.
found_one : all_indices found ≡ 0 ∷ 1 ∷ 2 ∷ 3 ∷ 4 ∷ []
unfolding fit_planes peel attempt ransac_single_plane finish ransac_loop consider plane_from_3pts
    inlier_mask refine is_acceptable plane_of
found_one = refl

fit_planes-disjoint_example :
    count 2 (all_indices found) ≤ (if ltb 2 (length five_points) then 1 else 0)
fit_planes-disjoint_example =
    fit_planes-disjoint ⦃fl = whole_numbers⦄ small_numpy five_points loose_params 2

fit_planes-IsAccepted_example : All (IsAccepted ⦃fl = whole_numbers⦄ small_numpy loose_params) found
fit_planes-IsAccepted_example =
    fit_planes-IsAccepted ⦃fl = whole_numbers⦄ small_numpy five_points loose_params

fit_planes_ends_example :
    peel ⦃fl = whole_numbers⦄ small_numpy
      (suc (length five_points) + 4)
      five_points
      loose_params
      (range (length five_points))
      42
    ≡ found
fit_planes_ends_example =
    fit_planes_ends ⦃fl = whole_numbers⦄ small_numpy five_points loose_params 4

ransac_loop_best_example :
    let best =
      (ransac_loop ⦃fl = whole_numbers⦄ small_numpy five_points 100 3 0
        (initial ⦃fl = whole_numbers⦄ small_numpy five_points 100)).0 in
    let drawn = hypotheses ⦃fl = whole_numbers⦄ small_numpy five_points 100 3 0 in
    All (λ h. inliers_of ⦃fl = whole_numbers⦄ small_numpy five_points 100 h ≤ best.best_count) drawn
    × ((best ≡ initial ⦃fl = whole_numbers⦄ small_numpy five_points 100)
        ⊎ Any (Keeps ⦃fl = whole_numbers⦄ small_numpy five_points 100 best) drawn)
ransac_loop_best_example = ransac_loop_best ⦃fl = whole_numbers⦄ small_numpy five_points 100 3 0

merge_coplanar_facets-IsSeparated_example : IsSeparated ⦃fl = whole_numbers⦄ small_numpy merged
merge_coplanar_facets-IsSeparated_example =
    merge_coplanar_facets-IsSeparated ⦃fl = whole_numbers⦄ small_numpy distinct_once found

merge_coplanar_facets-sources_example :
    count 0 (sources merged) ≡ (if ltb 0 (length found) then 1 else 0)
merge_coplanar_facets-sources_example =
    merge_coplanar_facets-sources ⦃fl = whole_numbers⦄ small_numpy distinct_once found 0

fit_and_merge-disjoint_example :
    (contains 3 (merged_indices merged) ≡ contains 3 (all_indices found))
    × (count 3 (merged_indices merged) ≤ (if ltb 3 (length five_points) then 1 else 0))
fit_and_merge-disjoint_example =
    fit_and_merge-disjoint ⦃fl = whole_numbers⦄ small_numpy distinct_once five_points loose_params 3

-- Supports in a row, each near the next, but for a gap behind the second.
abbrev in_two_rows : ℕ → ℕ → Bool
in_two_rows i j = (j == i + 1) && not (i == 1)

two_rows : support_clusters 4 in_two_rows ≡ (0 ∷ 1 ∷ []) ∷ (2 ∷ 3 ∷ []) ∷ []
unfolding support_clusters collect add_to_group find unions union
two_rows = refl

support_clusters-partition_example :
    count 2 (flatten (support_clusters 4 in_two_rows)) ≡ (if ltb 2 4 then 1 else 0)
support_clusters-partition_example = support_clusters-partition 4 in_two_rows 2

support_clusters-IsConnected_example :
    Any (λ ms. (contains 2 ms && contains 3 ms) ≡ true) (support_clusters 4 in_two_rows)
    ↔ IsConnected 4 in_two_rows 2 3
support_clusters-IsConnected_example =
    support_clusters-IsConnected 4 in_two_rows 2 3 (omega arith) (omega arith)

-- A roof of one plane over an outline of 100 square metres.
abbrev one_plane : MergedPlane ℕ ℕ
one_plane = record {
  normal = 1;
  d = 0;
  inlier_indices = 0 ∷ 1 ∷ 2 ∷ 3 ∷ [];
  inlier_ratio = 1;
  residual_std = 0;
  centroid = 0;
  merged_from = 0 ∷ [];
}

abbrev small_outline : List (List (ℕ × ℕ))
small_outline = ((0, 0) ∷ (1, 0) ∷ (1, 1) ∷ (0, 0) ∷ []) ∷ []

abbrev small_model : Result Raised (RoofModel ℕ ℕ ℕ)
small_model =
    build_roof_model ⦃fl = whole_numbers⦄ small_numpy small_shapely small_pyproj (one_plane ∷ [])
      five_points small_outline 14

abbrev model_or_nothing : Result Raised (RoofModel ℕ ℕ ℕ) → RoofModel ℕ ℕ ℕ
model_or_nothing (ok m) = m
model_or_nothing (err e) = record {
  facets = [];
  edges = [];
  warnings = [];
  diagnostics = record {
    model_version = "";
    plane_count = 0;
    facet_count = 0;
    edge_count = 0;
    coverage_ratio = 0;
    area_method = "";
    boundary_method = "";
    warnings = [];
  };
}

abbrev built : RoofModel ℕ ℕ ℕ
built = model_or_nothing small_model

small_model-ok : small_model ≡ ok built
unfolding build_roof_model
small_model-ok = refl

one_facet : length built.facets ≡ 1
unfolding build_roof_model candidate_of collect add_to_group
one_facet = refl

build_roof_model-IsGatedFacet_example :
    All
      (IsGatedFacet ⦃fl = whole_numbers⦄ small_numpy small_shapely small_pyproj (one_plane ∷ []))
      built.facets
    × IsNumbered ⦃fl = whole_numbers⦄ small_numpy small_shapely small_pyproj 0 built.facets
build_roof_model-IsGatedFacet_example =
    build_roof_model-IsGatedFacet ⦃fl = whole_numbers⦄ small_numpy small_shapely small_pyproj
      (one_plane ∷ []) five_points small_outline 14 built small_model-ok
