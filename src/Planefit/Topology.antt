-- ===== src/Planefit/Topology.antt =====
-- app/planefit/topology.py: the greedy merge of near-coplanar planes.
pub mod Cover
pub mod Merge
use rooftrace.Prelude.{
  ℕ, zero, suc, ◌+◌, ◌≡◌, Bool, true, false, ◌&&◌, Option, none, some, List, [], ◌∷◌, ◌++◌, map,
  length, if◌then◌else◌,
}
use rooftrace.Float.{Float, min_of}
use rooftrace.Planefit.Numpy.{Numpy}
use rooftrace.Planefit.Fit.{FittedPlane}

pub record MergedPlane (F V : Type 0) : Type 0 where
  pub normal : V
  pub d : F
  pub inlier_indices : List ℕ
  pub inlier_ratio : F
  pub residual_std : F
  pub centroid : V
  pub merged_from : List ℕ

module _ {F V R : Type 0} ⦃fl : Float F⦄ (np : Numpy F V R) where
  open fl use {num, of_nat, add, mul, div, neg, abs, lt, le}
  open np use {plus, times, over, negate, dot, norm, z_of, clip, arccos, np_degrees, unique}

  unfoldable pub angle_between_normals : V → V → F
  angle_between_normals n1 n2 = np_degrees (arccos (clip (abs (dot n1 n2)) (num 0 0) (num 1 0)))

  unfoldable pub plane_plane_dist : V → F → V → F
  plane_plane_dist n1 d1 c2 = abs (add (dot n1 c2) d1)

  -- `(x1 * w1 + x2 * w2) / (w1 + w2)`, for vectors and for numbers
  abbrev weighted_vector : V → ℕ → V → ℕ → V
  weighted_vector x1 w1 x2 w2 =
      over (plus (times x1 (of_nat w1)) (times x2 (of_nat w2))) (of_nat (w1 + w2))

  abbrev weighted_number : F → ℕ → F → ℕ → F
  weighted_number x1 w1 x2 w2 =
      div (add (mul x1 (of_nat w1)) (mul x2 (of_nat w2))) (of_nat (w1 + w2))

  -- The averaged normal, of length one if it is not too short, and upward.
  unfoldable pub upward_unit : V → V
  upward_unit v =
      let unit = (if lt (num 1 9) (norm v) then over v (norm v) else v) in
      if lt (z_of unit) (num 0 0) then negate unit else unit

  unfoldable pub merge_two : MergedPlane F V → MergedPlane F V → MergedPlane F V
  unfolding upward_unit
  merge_two p1 p2 =
      let w1 = length p1.inlier_indices in
      let w2 = length p2.inlier_indices in
      let normal = upward_unit (weighted_vector p1.normal w1 p2.normal w2) in
      let centroid = weighted_vector p1.centroid w1 p2.centroid w2 in
      record {
        normal = normal;
        d = neg (dot normal centroid);
        inlier_indices = unique (p1.inlier_indices ++ p2.inlier_indices);
        inlier_ratio = weighted_number p1.inlier_ratio w1 p2.inlier_ratio w2;
        residual_std = weighted_number p1.residual_std w1 p2.residual_std w2;
        centroid = centroid;
        merged_from = p1.merged_from ++ p2.merged_from;
      }

  unfoldable pub should_merge : MergedPlane F V → MergedPlane F V → Bool
  unfolding angle_between_normals plane_plane_dist
  should_merge p1 p2 =
      if le (num 5 0) (angle_between_normals p1.normal p2.normal)
      then false
      else lt
          (min_of (plane_plane_dist p1.normal p1.d p2.centroid)
            (plane_plane_dist p2.normal p2.d p1.centroid))
          (num 3 1)

  -- The inner loop `for j in range(i + 1, n)` at the plane `p`: the merged plane, and the planes
  -- behind `p` without the one that `p` took.
  unfoldable pub absorb :
      MergedPlane F V → List (MergedPlane F V) → Option (MergedPlane F V × List (MergedPlane F V))
  absorb p [] = none
  absorb p (q ∷ qs) =
      let later = absorb p qs in
      if should_merge p q
      then some (merge_two p q, qs)
      else elim later [ none ↦ none | some (new, rest) ↦ some (new, q ∷ rest) ]

  -- One round of the `while` loop: the first `i` that has a `j` is replaced by the merged plane and
  -- `j` is removed; `none` where `changed` stays false.
  unfoldable pub merge_step : List (MergedPlane F V) → Option (List (MergedPlane F V))
  merge_step [] = none
  merge_step (p ∷ ps) =
      let later = merge_step ps in
      elim (absorb p ps) [
        | some (new, rest) ↦ some (new ∷ rest)
        | none ↦ elim later [ none ↦ none | some ps' ↦ some (p ∷ ps') ]
      ]

  -- `while changed`. Each round leaves one plane less, so as many rounds as planes are enough
  -- (`Topology.Merge.merge_coplanar_facets-IsSeparated`).
  unfoldable pub merge_loop : ℕ → List (MergedPlane F V) → List (MergedPlane F V)
  merge_loop zero ps = ps
  merge_loop (suc fuel) ps = elim (merge_step ps) [ none ↦ ps | some ps' ↦ merge_loop fuel ps' ]

  -- `MergedPlane(..., merged_from=[i]) for i, p in enumerate(planes)`, from index `i` on
  unfoldable pub as_merged : ℕ → List (FittedPlane F V) → List (MergedPlane F V)
  as_merged i [] = []
  as_merged i (p ∷ ps) =
      record {
        normal = p.normal;
        d = p.d;
        inlier_indices = p.inlier_indices;
        inlier_ratio = p.inlier_ratio;
        residual_std = p.residual_std;
        centroid = p.centroid;
        merged_from = i ∷ [];
      }
      ∷ as_merged (i + 1) ps

  unfoldable pub merge_coplanar_facets : List (FittedPlane F V) → List (MergedPlane F V)
  merge_coplanar_facets planes =
      let merged = as_merged 0 planes in merge_loop (length merged) merged
