-- ===== src/Lidar/Extract.antt =====
-- What `_extract_building_points` of app/lidar/ingest.py keeps.
use rooftrace.Prelude.{
  ◌<◌, ◌≤◌, ◌≡◌, refl, ◌&&◌, leb, ap, ◌∙◌, map, Bool, true, not, List, [], ◌∷◌, arith, length,
  String, keep, All, Bool-cases, inl, inr, ◌⊎◌, sym,
}
use rooftrace.Float.{Float, ◌⊕◌}
use rooftrace.Lidar.Ingest.{
  LidarPoint, Arrays, is_class, is_noise, is_roof, ground_height, by_height, by_class,
  extract_building_points,
}

module _ {A : Type 0} where
  keep-All : (p : A → Bool) (xs : List A) → All (λ x. p x ≡ true) (keep p xs)
  keep-All p [] = tt
  keep-All p (x ∷ xs) = elim (Bool-cases (p x)) [
    | inl e ↦ rw e (e, keep-All p xs)
    | inr e ↦ rw e (keep-All p xs)
  ]

  keep-keep : (p q : A → Bool) (xs : List A) → keep q (keep p xs) ≡ keep (λ x. p x && q x) xs
  keep-keep p q [] = refl
  keep-keep p q (x ∷ xs) = ground (arith, keep-keep p q xs)

module _ {F : Type 0} ⦃fl : Float F⦄ (np : Arrays F) where
  abbrev pub quiet : List (LidarPoint F) → List (LidarPoint F)
  quiet points = keep (λ p. not (is_noise np p)) points

  -- The points of class 2
  abbrev pub grounds : List (LidarPoint F) → List (LidarPoint F)
  grounds points = keep (is_class np 2) points

  -- The median of the ground's heights, where it has ten points; else the tenth percentile of all
  abbrev pub IsGroundHeight : List (LidarPoint F) → F → Type 0
  IsGroundHeight clean ground_z =
      ((10 ≤ length (grounds clean))
        × (ground_z ≡ np.percentile (map (λ p. p.z) (grounds clean)) (fl.num 50 0)))
      ⊎ ((length (grounds clean) < 10)
          × (ground_z ≡ np.percentile (map (λ p. p.z) clean) (fl.num 10 0)))

  -- A roof point over a ground height: no ground, no noise, and two metres or more above it
  abbrev pub stands_over : F → LidarPoint F → Bool
  stands_over ground_z p =
      not (is_noise np p) && (not (is_class np 2 p) && fl.le (ground_z ⊕ fl.num 2 0) p.z)

  -- The three answers, by their method; `clean` are the points that are not noise.
  abbrev pub Extracted :
      List (LidarPoint F) → List (LidarPoint F) → List (LidarPoint F) × String → Type 0
  Extracted points clean (kept, method) =
      ((method ≡ "class6")
        × (kept ≡ keep (is_class np 6) points)
        × All (λ p. is_class np 6 p ≡ true) kept
        × (0 < length kept))
      ⊎ ((method ≡ "height_above_ground")
          × (keep (is_class np 6) points ≡ [])
          × ((ground_z : F) × IsGroundHeight clean ground_z
              × (kept ≡ keep (stands_over ground_z) points)))
      ⊎ ((method ≡ "empty") × (kept ≡ []) × (clean ≡ []))

  ground_height-IsGroundHeight :
      (clean : List (LidarPoint F)) → IsGroundHeight clean (ground_height np clean)
  unfolding ground_height
  ground_height-IsGroundHeight clean = elim (Bool-cases (leb 10 (length (grounds clean)))) [
    | inl e ↦ rw e (inl (ground arith, refl))
    | inr e ↦ rw e (inr (ground arith, refl))
  ]

  by_height-Extracted :
      (points clean : List (LidarPoint F))
      → keep (is_class np 6) points ≡ []
      → clean ≡ quiet points
      → Extracted points clean (by_height np clean)
  unfolding by_height
  by_height-Extracted points [] none_six e = inr (inr (refl, refl, refl))
  by_height-Extracted points (p ∷ clean) none_six e =
      let ground_z = ground_height np (p ∷ clean) in
      inr (
        inl (
          refl,
          none_six,
          (
            ground_z,
            ground_height-IsGroundHeight (p ∷ clean),
            ap (keep (is_roof np ground_z)) e
                ∙ keep-keep (λ q. not (is_noise np q)) (is_roof np ground_z) points,
          ),
        ))

  by_class-Extracted :
      (points building : List (LidarPoint F))
      → keep (is_class np 6) points ≡ building
      → All (λ p. is_class np 6 p ≡ true) building
      → Extracted points (quiet points) (by_class np points building)
  unfolding by_class
  by_class-Extracted points [] e t = by_height-Extracted points (quiet points) e refl
  by_class-Extracted points (b ∷ building) e t = inl (refl, sym e, t, omega arith)

  -- The points that are kept are: all those of class 6, if there is one; else all those that are neither
  -- ground (class 2) nor noise (classes 7 and 18) and lie two metres or more above the ground height of
  -- the points that are not noise; else, if all are noise or there is none, none. The ground height is the
  -- median of the ground points among them where there are ten, and otherwise their tenth percentile.
  pub extract_building_points-Extracted :
      (points : List (LidarPoint F))
      → Extracted points (quiet points) (extract_building_points np points)
  unfolding extract_building_points
  extract_building_points-Extracted [] = inr (inr (refl, refl, refl))
  extract_building_points-Extracted (p ∷ points) =
      by_class-Extracted (p ∷ points) (keep (is_class np 6) (p ∷ points)) refl
        (keep-All (is_class np 6) (p ∷ points))
