-- ===== src/Planefit/Fit/Peel.antt =====
-- The peeling loop of app/planefit/plane_fit.py: its planes share no point, each passes the
-- acceptance tests, and the loop ends.
use rooftrace.Prelude.{
  ℕ, zero, suc, ◌+◌, ◌≤◌, ◌<◌, ◌≡◌, refl, Bool, true, false, none, some, List, [], ◌∷◌, ◌++◌, map,
  arith, length, ltb, if◌then◌else◌, range, count, All, count-append, count-range_from,
  Option-cases, ap, length-map, get_elem?-lt, range_from, length-range_from, inl, inr, ◌∙◌,
}
use rooftrace.Float.{Float}
use rooftrace.Planefit.Numpy.{
  Numpy, select, reject, gather, count-select_add-reject, length-select_add-reject, length-select,
}
use rooftrace.Planefit.Fit.{
  FittedPlane, FitParams, Best, ransac_single_plane, attempt, peel, fit_planes, is_acceptable,
  plane_of, inlier_mask, ransac_loop, refine, finish, pitch_degrees_from_normal, signed_distances,
}

-- The indices of all planes, one list after the other.
abbrev pub all_indices : {F V : Type 0} → List (FittedPlane F V) → List ℕ
all_indices [] = []
all_indices (p ∷ ps) = p.inlier_indices ++ all_indices ps

module _ {F V R : Type 0} ⦃fl : Float F⦄ (np : Numpy F V R) where
  -- What an accepted round hands on.
  attempt-indices :
      (points : List V) (params : FitParams F) (residual : List ℕ) (rng : R)
      (plane : FittedPlane F V) (mask : List Bool)
      → (attempt np points params residual rng).0 ≡ some (plane, mask)
      → plane.inlier_indices ≡ select mask residual
  unfolding attempt plane_of
  attempt-indices points params residual rng plane mask h = ground arith

  module _ (fuel : ℕ) (points : List V) (params : FitParams F) (residual : List ℕ) (rng : R) where
    -- A round that breaks the loop, and a round that goes on.
    peel-break :
        (attempt np points params residual rng).0 ≡ none
        → peel np (suc fuel) points params residual rng ≡ []
    unfolding peel
    peel-break e = ground arith

    peel-next :
        (plane : FittedPlane F V) (mask : List Bool)
        → (attempt np points params residual rng).0 ≡ some (plane, mask)
        → peel np (suc fuel) points params residual rng
          ≡ plane
            ∷ peel np fuel points params
                (reject mask residual)
                (attempt np points params residual rng).1
    unfolding peel
    peel-next plane mask e = ground arith

  peel-count :
      (fuel i : ℕ) (points : List V) (params : FitParams F) (residual : List ℕ) (rng : R)
      → count i (all_indices (peel np fuel points params residual rng)) ≤ count i residual
  peel-count zero i points params residual rng = unfold peel in omega arith
  peel-count (suc fuel) i points params residual rng =
      elim (Option-cases (attempt np points params residual rng).0) [
        | inl e ↦ rw (peel-break fuel points params residual rng e) (omega arith)
        | inr ((plane, mask), e) ↦
            let next = (attempt np points params residual rng).1 in
            rw (peel-next fuel points params residual rng plane mask e) (
              omega (
                arith,
                ap (count i) (attempt-indices points params residual rng plane mask e),
                count-append i plane.inlier_indices
                    (all_indices (peel np fuel points params (reject mask residual) next)),
                count-select_add-reject i mask residual,
                peel-count fuel i points params (reject mask residual) next,
              ))
      ]

  -- No point of the cloud lies on two planes, and every index is one of the cloud's: index `i`
  -- stands in all the `inlier_indices` of `fit_planes` together at most once, and not at all where
  -- `i` is not below the number of points.
  pub fit_planes-disjoint :
      (points : List V) (params : FitParams F) (i : ℕ)
      → count i (all_indices (fit_planes np points params))
        ≤ (if ltb i (length points) then 1 else 0)
  unfolding fit_planes
  fit_planes-disjoint points params i = ground (
    arith,
    count-range_from i 0 (length points),
    peel-count (suc (length points)) i points params (range (length points))
        (np.default_rng params.seed),
  )

  -- What `fit_planes` asks of a plane.
  abbrev pub IsAccepted : FitParams F → FittedPlane F V → Type 0
  IsAccepted params p =
      (3 ≤ length p.inlier_indices)
      × (fl.le params.min_inlier_ratio p.inlier_ratio ≡ true)
      × (fl.le p.residual_std params.max_residual_std ≡ true)
      × (fl.lt (pitch_degrees_from_normal np p.normal) (fl.num 75 0) ≡ true)

  abbrev InRange : List V → List ℕ → Type 0
  InRange points = All λ i. i < length points

  length-gather :
      (points : List V) (residual : List ℕ)
      → InRange points residual
      → length (gather points residual) ≡ length residual
  length-gather points [] h = refl
  length-gather points (i ∷ residual) (hi, h) =
      ground (arith, length-gather points residual h, get_elem?-lt points i)

  InRange-reject :
      (points : List V) (mask : List Bool) (residual : List ℕ)
      → InRange points residual
      → InRange points (reject mask residual)
  InRange-reject points [] residual h = h
  InRange-reject points (b ∷ mask) [] h = tt
  InRange-reject points (true ∷ mask) (i ∷ residual) h = InRange-reject points mask residual h.1
  InRange-reject points (false ∷ mask) (i ∷ residual) h =
      (h.0, InRange-reject points mask residual h.1)

  length-inlier_mask :
      (points : List V) (normal : V) (d threshold : F)
      → length (inlier_mask np points normal d threshold) ≡ length points
  unfolding inlier_mask signed_distances
  length-inlier_mask points normal d threshold =
      length-map _ (signed_distances np points normal d) ∙ length-map _ points

  length-refine :
      (points : List V) (threshold : F) (mask : List Bool)
      → length (refine np points threshold mask).2 ≡ length points
  unfolding refine
  length-refine points threshold mask = length-inlier_mask points _ _ threshold

  finish-length :
      (points : List V) (threshold : F) (best : Best V) (normal : V) (d : F) (mask : List Bool)
      → finish np points threshold best ≡ some (normal, d, mask)
      → length mask ≡ length points
  unfolding finish
  finish-length points threshold best normal d mask h =
      ground (arith, length-refine points threshold best.best_mask)

  ransac-length :
      (points : List V) (threshold : F) (iterations : ℕ) (rng : R) (normal : V) (d : F)
      (mask : List Bool)
      → (ransac_single_plane np points threshold iterations rng).0 ≡ some (normal, d, mask)
      → length mask ≡ length points
  unfolding ransac_single_plane
  ransac-length points threshold iterations rng normal d mask h = ground (
    arith,
    finish-length points threshold
        (ransac_loop np points threshold iterations rng
          (record { best_count = 0; best_normal = none; best_mask = map (λ _. false) points })).0
        normal d mask,
  )

  -- One accepted round: the plane passes the tests, and its points are the mask's.
  attempt-IsAccepted :
      (points : List V) (params : FitParams F) (residual : List ℕ) (rng : R)
      (plane : FittedPlane F V) (mask : List Bool)
      → InRange points residual
      → (attempt np points params residual rng).0 ≡ some (plane, mask)
      → IsAccepted params plane × (3 ≤ length (select mask residual))
  unfolding attempt plane_of is_acceptable
  attempt-IsAccepted points params residual rng plane mask h e =
      let cloud = gather points residual in
      ground (
        arith,
        length-gather points residual h,
        ransac-length cloud params.distance_threshold params.max_iterations rng plane.normal plane.d
            mask,
        length-select mask residual,
      )

  peel-IsAccepted :
      (fuel : ℕ) (points : List V) (params : FitParams F) (residual : List ℕ) (rng : R)
      → InRange points residual
      → All (IsAccepted params) (peel np fuel points params residual rng)
  peel-IsAccepted zero points params residual rng h = unfold peel in tt
  peel-IsAccepted (suc fuel) points params residual rng h =
      elim (Option-cases (attempt np points params residual rng).0) [
        | inl e ↦ rw (peel-break fuel points params residual rng e) tt
        | inr ((plane, mask), e) ↦ rw (peel-next fuel points params residual rng plane mask e) (
          (attempt-IsAccepted points params residual rng plane mask h e).0,
          peel-IsAccepted fuel points params (reject mask residual) _
              (InRange-reject points mask residual h),
        )
      ]

  InRange-range :
      (points : List V) (lo n : ℕ) → lo + n ≤ length points → InRange points (range_from lo n)
  InRange-range points lo zero h = tt
  InRange-range points lo (suc n) h = (omega arith, InRange-range points (lo + 1) n (omega arith))

  -- Every plane of `fit_planes` has at least three inliers, an inlier ratio of at least
  -- `min_inlier_ratio`, a residual deviation of at most `max_residual_std`, and a pitch below 75
  -- degrees.
  pub fit_planes-IsAccepted :
      (points : List V) (params : FitParams F)
      → All (IsAccepted params) (fit_planes np points params)
  unfolding fit_planes
  fit_planes-IsAccepted points params =
      peel-IsAccepted (suc (length points)) points params (range (length points))
        (np.default_rng params.seed) (InRange-range points 0 (length points) (omega arith))

  -- Once the fuel passes the number of points left, more fuel changes nothing.
  peel_ends :
      (fuel more : ℕ) (points : List V) (params : FitParams F) (residual : List ℕ) (rng : R)
      → InRange points residual
      → length residual < fuel
      → peel np (fuel + more) points params residual rng ≡ peel np fuel points params residual rng
  peel_ends zero more points params residual rng h lt = absurd (omega arith)
  peel_ends (suc fuel) more points params residual rng h lt =
      let e' : suc fuel + more ≡ suc (fuel + more) = omega arith in
      elim (Option-cases (attempt np points params residual rng).0) [
        | inl e ↦ rw (
          e',
          peel-break (fuel + more) points params residual rng e,
          peel-break fuel points params residual rng e,
        )
        | inr ((plane, mask), e) ↦ rw (
          e',
          peel-next (fuel + more) points params residual rng plane mask e,
          peel-next fuel points params residual rng plane mask e,
          peel_ends fuel more points params (reject mask residual)
              (attempt np points params residual rng).1 (InRange-reject points mask residual h)
              (omega (
                arith,
                length-select_add-reject mask residual,
                (attempt-IsAccepted points params residual rng plane mask h e).1,
              )),
        )
      ]

  -- The loop of `fit_planes` ends by its own tests within as many rounds as the cloud has points
  -- and one more: allowing any number of further rounds gives the same planes.
  pub fit_planes_ends :
      (points : List V) (params : FitParams F) (more : ℕ)
      → peel np
          (suc (length points) + more)
          points
          params
          (range (length points))
          (np.default_rng params.seed)
        ≡ fit_planes np points params
  unfolding fit_planes
  fit_planes_ends points params more =
      peel_ends (suc (length points)) more points params (range (length points)) _
        (InRange-range points 0 (length points) (omega arith))
        (omega (arith, length-range_from 0 (length points)))
