-- ===== src/Planefit/Fit/Ransac.antt =====
-- The RANSAC loop of app/planefit/plane_fit.py against its specification: it keeps one of
-- the drawn hypotheses that has the most inliers.
use rooftrace.Prelude.{
  ℕ, zero, suc, ◌≤◌, ◌≡◌, refl, Option, none, some, List, [], ◌∷◌, arith, All, Any, ◌⊎◌, inl, inr,
  ltb, Bool-cases, ltb→lt, ltb→le, ap,
}
use rooftrace.Float.{Float}
use rooftrace.Planefit.Numpy.{Numpy, mask_sum}
use rooftrace.Planefit.Fit.{Best, plane_from_3pts, inlier_mask, consider, ransac_loop, falses}

module _ {F V R : Type 0} ⦃fl : Float F⦄ (np : Numpy F V R) (points : List V) (threshold : F) where
  -- The planes through the drawn triples that are not degenerate, in the order of the draws.
  unfoldable pub hypotheses : ℕ → R → List (V × F)
  hypotheses zero rng = []
  hypotheses (suc k) rng =
      let ((p0, p1, p2), rng') = np.sample rng points in
      let rest = hypotheses k rng' in
      elim (plane_from_3pts np p0 p1 p2) [ none ↦ rest | some h ↦ h ∷ rest ]

  abbrev pub inliers_of : V × F → ℕ
  inliers_of (normal, d) = mask_sum (inlier_mask np points normal d threshold)

  -- The record that the loop makes of a hypothesis.
  abbrev pub Keeps : Best V → V × F → Type 0
  Keeps best (normal, d) =
      (best.best_normal ≡ some normal)
      × (best.best_mask ≡ inlier_mask np points normal d threshold)
      × (best.best_count ≡ inliers_of (normal, d))

  abbrev Result : Best V → List (V × F) → Best V → Type 0
  Result start hs best =
      (start.best_count ≤ best.best_count)
      × All (λ h. inliers_of h ≤ best.best_count) hs
      × ((best ≡ start) ⊎ Any (Keeps best) hs)

  abbrev add_to : Option (V × F) → List (V × F) → List (V × F)
  add_to o hs = elim o [ none ↦ hs | some h ↦ h ∷ hs ]

  consider-Result :
      (o : Option (V × F)) (hs : List (V × F)) (start best : Best V)
      → Result (consider np points threshold o start) hs best
      → Result start (add_to o hs) best
  unfolding consider
  consider-Result none hs start best r = r
  consider-Result (some (normal, d)) hs start best (grows, bound, kept) =
      elim (Bool-cases (ltb start.best_count (inliers_of (normal, d)))) [
        | inl better ↦ (
          omega (arith, ltb→lt _ _ better, rw better at grows),
          (rw better at grows, bound),
          elim (rw better at kept) [
            | inl e ↦
                inr (
                  inl
                    (ap (λ b. b.best_normal) e, ap (λ b. b.best_mask) e, ap (λ b. b.best_count) e))
            | inr more ↦ inr (inr more)
          ],
        )
        | inr worse ↦
            let grows' : start.best_count ≤ best.best_count = rw worse at grows in
            (
              grows',
              (omega (arith, ltb→le _ _ worse), bound),
              elim (rw worse at kept) [ inl e ↦ inl e | inr more ↦ inr (inr more) ],
            )
      ]

  loop-Result :
      (k : ℕ) (rng : R) (start : Best V)
      → Result start (hypotheses k rng) (ransac_loop np points threshold k rng start).0
  unfolding hypotheses ransac_loop
  loop-Result zero rng start = (omega arith, tt, inl refl)
  loop-Result (suc k) rng start =
      let ((p0, p1, p2), rng') = np.sample rng points in
      consider-Result (plane_from_3pts np p0 p1 p2) (hypotheses k rng') start _
        (loop-Result k rng' (consider np points threshold (plane_from_3pts np p0 p1 p2) start))

  -- The state of `_ransac_single_plane` before its loop.
  abbrev pub initial : Best V
  initial = record { best_count = 0; best_normal = none; best_mask = falses np points }

  -- After `k` rounds of `_ransac_single_plane`, no hypothesis that was drawn has more inliers than
  -- `best_count`, and the loop's state is either still the initial one or that of a drawn
  -- hypothesis: its normal, its inlier mask, and the number of its inliers.
  pub ransac_loop_best :
      (k : ℕ) (rng : R)
      → let best = (ransac_loop np points threshold k rng initial).0 in
        All (λ h. inliers_of h ≤ best.best_count) (hypotheses k rng)
        × ((best ≡ initial) ⊎ Any (Keeps best) (hypotheses k rng))
  ransac_loop_best k rng = let (_, bound, kept) = loop-Result k rng initial in (bound, kept)
