-- ===== src/Planefit/Fit.antt =====
-- app/planefit/plane_fit.py: RANSAC for one plane, and the loop that peels planes off the cloud.
pub mod Peel
pub mod Ransac
use rooftrace.Prelude.{
  ℕ, zero, suc, ◌+◌, ◌≡◌, Bool, true, false, not, ◌&&◌, ◌||◌, Option, none, some, List, [], ◌∷◌,
  ◌++◌, map, length, ltb, leb, ◌==◌, if◌then◌else◌, range,
}
use rooftrace.Float.{Float, nought, min_of}
use rooftrace.Planefit.Numpy.{Numpy, select, reject, gather, mask_sum}

pub record FittedPlane (F V : Type 0) : Type 0 where
  pub normal : V
  pub d : F
  pub inlier_indices : List ℕ
  pub inlier_ratio : F
  pub residual_std : F
  pub centroid : V

-- The keyword arguments of `fit_planes`, with their defaults.
pub record FitParams (F : Type 0) : Type 0 where
  pub distance_threshold : F
  pub max_iterations : ℕ
  pub min_inlier_ratio : F
  pub max_residual_std : F
  pub min_points : ℕ
  pub seed : ℕ

-- The best hypothesis so far: `best_count`, `best_normal`, `best_mask`.
pub record Best (V : Type 0) : Type 0 where
  pub best_count : ℕ
  pub best_normal : Option V
  pub best_mask : List Bool

module _ {F V R : Type 0} ⦃fl : Float F⦄ (np : Numpy F V R) where
  open fl use {num, of_nat, add, mul, div, neg, abs, lt, le}
  open np use {
    minus, times, over, negate, dot, cross, norm, z_of, clip, arccos, np_degrees, mean, std,
    svd_last, default_rng, sample,
  }

  abbrev pub default_params : FitParams F
  default_params = record {
    distance_threshold = num 15 2;
    max_iterations = 200;
    min_inlier_ratio = num 8 2;
    max_residual_std = num 15 2;
    min_points = 30;
    seed = 42;
  }

  unfoldable pub plane_from_3pts : V → V → V → Option (V × F)
  plane_from_3pts p0 p1 p2 =
      let v1 = minus p1 p0 in
      let v2 = minus p2 p0 in
      let normal = cross v1 v2 in
      let length_of = norm normal in
      if lt length_of (num 1 9)
      then none
      else (let unit = over normal length_of in some (unit, neg (dot unit p0)))

  unfoldable pub signed_distances : List V → V → F → List F
  signed_distances points normal d = map (λ p. add (dot p normal) d) points

  -- `np.abs(_signed_distances(points, normal, d)) < threshold`
  unfoldable pub inlier_mask : List V → V → F → F → List Bool
  unfolding signed_distances
  inlier_mask points normal d threshold =
      map (λ x. lt (abs x) threshold) (signed_distances points normal d)

  -- One round of the RANSAC loop behind the draw.
  unfoldable pub consider : List V → F → Option (V × F) → Best V → Best V
  consider points threshold none best = best
  consider points threshold (some (normal, d)) best =
      let mask = inlier_mask points normal d threshold in
      let n = mask_sum mask in
      if ltb best.best_count n
      then record { best_count = n; best_normal = some normal; best_mask = mask }
      else best

  -- `for _ in range(max_iterations)`
  unfoldable pub ransac_loop : List V → F → ℕ → R → Best V → Best V × R
  ransac_loop points threshold zero rng best = (best, rng)
  ransac_loop points threshold (suc k) rng best =
      let ((p0, p1, p2), rng') = sample rng points in
      ransac_loop points threshold k rng'
        (consider points threshold (plane_from_3pts p0 p1 p2) best)

  -- The least-squares refit on the inliers of the best hypothesis.
  unfoldable pub refine : List V → F → List Bool → V × F × List Bool
  refine points threshold mask =
      let inlier_pts = select mask points in
      let centroid = mean inlier_pts in
      let fitted = svd_last (map (λ p. minus p centroid) inlier_pts) in
      let normal = (if lt (z_of fitted) (num 0 0) then negate fitted else fitted) in
      let d = neg (dot normal centroid) in (normal, d, inlier_mask points normal d threshold)

  abbrev pub falses : {A : Type 0} → List A → List Bool
  falses = map (λ _. false)

  -- What follows the loop: no hypothesis, or fewer than three inliers, is no plane.
  unfoldable pub finish : List V → F → Best V → Option (V × F × List Bool)
  finish points threshold best = elim best.best_normal [
    | none ↦ none
    | some _ ↦ if ltb best.best_count 3 then none else some (refine points threshold best.best_mask)
  ]

  unfoldable pub ransac_single_plane : List V → F → ℕ → R → Option (V × F × List Bool) × R
  ransac_single_plane points threshold iterations rng =
      let start : Best V = record {
        best_count = 0;
        best_normal = none;
        best_mask = falses points;
      } in
      let run = ransac_loop points threshold iterations rng start in
      if ltb (length points) 3 then (none, rng) else (finish points threshold run.0, run.1)

  unfoldable pub pitch_degrees_from_normal : V → F
  pitch_degrees_from_normal normal =
      np_degrees (arccos (clip (abs (z_of normal)) (num 0 0) (num 1 0)))

  -- The acceptance test of a plane.
  unfoldable pub is_acceptable : FitParams F → F → F → V → Bool
  unfolding pitch_degrees_from_normal
  is_acceptable params inlier_ratio residual_std normal =
      le params.min_inlier_ratio inlier_ratio
      && le residual_std params.max_residual_std
      && lt (pitch_degrees_from_normal normal) (num 75 0)

  -- The plane that a mask over the residual cloud makes.
  unfoldable pub plane_of : List V → List ℕ → V → F → List Bool → FittedPlane F V
  unfolding signed_distances
  plane_of cloud residual normal d mask =
      let inlier_pts = select mask cloud in
      record {
        normal = normal;
        d = d;
        inlier_indices = select mask residual;
        inlier_ratio = div (of_nat (mask_sum mask)) (of_nat (length cloud));
        residual_std = std (map abs (signed_distances inlier_pts normal d));
        centroid = mean inlier_pts;
      }

  -- The body of the `while` loop of `fit_planes`: the new plane with its mask, or `none` for the
  -- loop's end (its test fails, or one of the three `break`s), and the generator's next state.
  unfoldable pub attempt :
      List V → FitParams F → List ℕ → R → Option (FittedPlane F V × List Bool) × R
  attempt points params residual rng =
      let cloud = gather points residual in
      let found = ransac_single_plane cloud params.distance_threshold params.max_iterations rng in
      (
        if ltb (length residual) params.min_points then none else elim found.0 [
          | none ↦ none
          | some (normal, d, mask) ↦
              let plane = plane_of cloud residual normal d mask in
              if ltb (mask_sum mask) 3
                || not (is_acceptable params plane.inlier_ratio plane.residual_std normal)
              then none
              else some (plane, mask)
        ],
        found.1,
      )

  -- The loop. It ends by its own tests before `fuel` does (`Fit.Peel.peel_ends`).
  unfoldable pub peel : ℕ → List V → FitParams F → List ℕ → R → List (FittedPlane F V)
  peel zero points params residual rng = []
  peel (suc fuel) points params residual rng =
      let (found, rng') = attempt points params residual rng in
      elim found [
        | none ↦ []
        | some (plane, mask) ↦ plane ∷ peel fuel points params (reject mask residual) rng'
      ]

  -- `points` is a 2-D array of at least three columns.
  unfoldable pub fit_planes : List V → FitParams F → List (FittedPlane F V)
  fit_planes points params =
      peel (suc (length points)) points params (range (length points)) (default_rng params.seed)
