-- ===== src/Address/Footprints/Chosen.antt =====
-- Which footprints of a tile ms_footprints.py returns, and in which order.
use rooftrace.Prelude.{
  ◌≡◌, refl, Bool, true, Option, none, some, List, [], ◌∷◌, map, String, Result, ok, Raised, arith,
  All, Any, Bool-cases, inl, inr, >>=-eq-ok, ap, ◌∙◌,
}
use mathlib.Core.Path.{subst}
use rooftrace.Float.{Float, IsOrdered, max_of, ◌⊗◌, ◌⊘◌}
use rooftrace.Planefit.Shapely.{Shapely}
use rooftrace.Address.Json.{Json}
use rooftrace.Address.Footprints.{
  Shapes, Scored, nearest_first, coords_of, shape_of, score, scored_shape, scored_coords,
  push_scored, scored_results, choose_footprints, fallback_zone,
}
use rooftrace.Address.Footprints.Features.{HasPolygon, coords_of-HasPolygon, HasPolygon-coords_of}
use rooftrace.Address.Footprints.Order.{
  IsNearestFirst, nearest_first-All, nearest_first-Any, nearest_first-IsNearestFirst,
}

All-map :
    {A : Type 0} (P Q : A → Type 0) (xs : List A) → ((x : A) → P x → Q x) → All P xs → All Q xs
All-map P Q [] f t = tt
All-map P Q (x ∷ xs) f (h, t) = (f x h, All-map P Q xs f t)

module _ {F G : Type 0} ⦃fl : Float F⦄ (sh : Shapely F G) (shapes : Shapes F G)
    (is_shape_error : String → Bool) (ord : IsOrdered F)
    (eq_le : (x y : F) → fl.eq x y ≡ true → (fl.le x y ≡ true) × (fl.le y x ≡ true)) where
  open fl use {num, cos, radians}

  -- A result is a footprint that reaches into the zone, with its score.
  abbrev pub IsHit : G → G → Scored F → Type 0
  IsHit center zone s =
      (footprint : G) × (shapes.polygon_to_shapely s.coords ≡ ok footprint)
      × (sh.intersects footprint zone ≡ true)
      × (s.distance ≡ sh.distance footprint center)

  -- A result's coordinates are those of a polygon among the features.
  abbrev pub IsOfTile : List (Json F) → Scored F → Type 0
  IsOfTile features s = Any (HasPolygon sh shapes is_shape_error s.coords) features

  -- A polygon of the feature that reaches into the zone is among the results.
  abbrev pub IsListed : G → List (Scored F) → Json F → Type 0
  IsListed zone scored feature =
      (coords : Json F) (footprint : G)
      → HasPolygon sh shapes is_shape_error coords feature
      → shapes.polygon_to_shapely coords ≡ ok footprint
      → sh.intersects footprint zone ≡ true
      → Any (λ s. s.coords ≡ coords) scored

  shape_of-ok :
      (coords : Json F) (footprint : G)
      → shapes.polygon_to_shapely coords ≡ ok footprint
      → shape_of sh shapes is_shape_error coords ≡ ok (some footprint)
  unfolding shape_of
  shape_of-ok coords footprint h = rw (h, shape_of) refl

  shape_of-some :
      (coords : Json F) (footprint : G)
      → shape_of sh shapes is_shape_error coords ≡ ok (some footprint)
      → shapes.polygon_to_shapely coords ≡ ok footprint
  unfolding shape_of
  shape_of-some coords footprint h = ground arith

  -- What one feature adds are hits.
  scored_shape-IsHit :
      (center zone : G) (coords : Json F) (shape : Option G) (rest : List (Scored F))
      → shape_of sh shapes is_shape_error coords ≡ ok shape
      → All (IsHit center zone) rest
      → All (IsHit center zone) (
          push_scored sh shapes is_shape_error
            (scored_shape sh shapes is_shape_error center zone coords shape)
            rest)
  scored_shape-IsHit center zone coords none rest h t = t
  scored_shape-IsHit center zone coords (some footprint) rest h t =
      elim (Bool-cases (sh.intersects footprint zone)) [
        | inl e ↦ rw e ((footprint, shape_of-some coords footprint h, e, refl), t)
        | inr e ↦ rw e t
      ]

  scored_coords-IsHit :
      (center zone : G) (found : Option (Json F)) (hit : Option (Scored F)) (rest : List (Scored F))
      → scored_coords sh shapes is_shape_error center zone found ≡ ok hit
      → All (IsHit center zone) rest
      → All (IsHit center zone) (push_scored sh shapes is_shape_error hit rest)
  scored_coords-IsHit center zone none hit rest h t = let same : hit ≡ none = cc in rw same t
  scored_coords-IsHit center zone (some coords) hit rest h t =
      let (shape, made, h1) = >>=-eq-ok (shape_of sh shapes is_shape_error coords) _ h in
      let same : scored_shape sh shapes is_shape_error center zone coords shape ≡ hit = cc in
      subst (λ x. All (IsHit center zone) (push_scored sh shapes is_shape_error x rest)) same
        (scored_shape-IsHit center zone coords shape rest made t)

  -- A footprint that reaches into the zone is added.
  scored_coords-Any :
      (center zone : G) (coords : Json F) (footprint : G) (hit : Option (Scored F))
      (rest : List (Scored F))
      → scored_coords sh shapes is_shape_error center zone (some coords) ≡ ok hit
      → shapes.polygon_to_shapely coords ≡ ok footprint
      → sh.intersects footprint zone ≡ true
      → Any (λ s. s.coords ≡ coords) (push_scored sh shapes is_shape_error hit rest)
  scored_coords-Any center zone coords footprint hit rest h made meets =
      let (shape, there, h1) = >>=-eq-ok (shape_of sh shapes is_shape_error coords) _ h in
      let found : shape ≡ some footprint = cc (shape_of-ok coords footprint made) in
      let hit_eq : hit ≡ some (score sh shapes is_shape_error center coords footprint) =
        ground (arith, meets) in
      rw hit_eq (inl refl)

  push_scored-Any :
      (P : Scored F → Type 0) (hit : Option (Scored F)) (rest : List (Scored F))
      → Any P rest
      → Any P (push_scored sh shapes is_shape_error hit rest)
  push_scored-Any P none rest h = h
  push_scored-Any P (some s) rest h = inr h

  All-IsListed-push_scored :
      (zone : G) (hit : Option (Scored F)) (rest : List (Scored F)) (features : List (Json F))
      → All (IsListed zone rest) features
      → All (IsListed zone (push_scored sh shapes is_shape_error hit rest)) features
  All-IsListed-push_scored zone hit rest [] t = tt
  All-IsListed-push_scored zone hit rest (f ∷ fs) (h, t) = (
    λ coords footprint found made meets.
        push_scored-Any (λ s. s.coords ≡ coords) hit rest (h coords footprint found made meets),
    All-IsListed-push_scored zone hit rest fs t,
  )

  -- The results are hits, and all of them.
  scored_results_lem :
      (center zone : G) (features : List (Json F)) (scored : List (Scored F))
      → scored_results sh shapes is_shape_error center zone features ≡ ok scored
      → All (IsHit center zone) scored × All (IsListed zone scored) features
  unfolding scored_results
  scored_results_lem center zone [] scored h =
      let none_found : scored ≡ [] = cc in rw none_found (tt, tt)
  scored_results_lem center zone (feature ∷ features) scored h =
      let (found, at, h1) = >>=-eq-ok (coords_of sh shapes is_shape_error feature) _ h in
      let (hit, made, h2) =
        >>=-eq-ok (scored_coords sh shapes is_shape_error center zone found) _ h1 in
      let (rest, after, h3) =
        >>=-eq-ok (scored_results sh shapes is_shape_error center zone features) _ h2 in
      let (hits, listed) = scored_results_lem center zone features rest after in
      let same : push_scored sh shapes is_shape_error hit rest ≡ scored = cc in
      subst (λ xs. All (IsHit center zone) xs × All (IsListed zone xs) (feature ∷ features)) same
        (
          scored_coords-IsHit center zone found hit rest made hits,
          (
            λ coords footprint there shaped meets.
                let read = HasPolygon-coords_of sh shapes is_shape_error feature coords there in
                let same_coords : found ≡ some coords = cc in
                scored_coords-Any center zone coords footprint hit rest (rw same_coords at made)
                  shaped meets,
            All-IsListed-push_scored zone hit rest features listed,
          ),
        )

  scored_shape-coords :
      (center zone : G) (coords : Json F) (shape : Option G) (s : Scored F)
      → scored_shape sh shapes is_shape_error center zone coords shape ≡ some s
      → some coords ≡ some s.coords
  scored_shape-coords center zone coords none s h = absurd (ground arith)
  scored_shape-coords center zone coords (some footprint) s h =
      elim (Bool-cases (sh.intersects footprint zone)) [
        | inl e ↦
            let h1 : score sh shapes is_shape_error center coords footprint ≡ s =
              ground (arith, rw e at h) in
            ap (λ x. some x.coords) h1
        | inr e ↦ absurd (ground (arith, rw e at h))
      ]

  scored_coords-coords :
      (center zone : G) (found : Option (Json F)) (s : Scored F)
      → scored_coords sh shapes is_shape_error center zone found ≡ ok (some s)
      → found ≡ some s.coords
  scored_coords-coords center zone none s h = absurd (ground (arith, h))
  scored_coords-coords center zone (some coords) s h =
      let (shape, made, h1) = >>=-eq-ok (shape_of sh shapes is_shape_error coords) _ h in
      scored_shape-coords center zone coords shape s (ground (arith, h1))

  IsOfTile-push_scored :
      (center zone : G) (feature : Json F) (features : List (Json F)) (found : Option (Json F))
      (hit : Option (Scored F)) (rest : List (Scored F))
      → coords_of sh shapes is_shape_error feature ≡ ok found
      → scored_coords sh shapes is_shape_error center zone found ≡ ok hit
      → All (IsOfTile features) rest
      → All (IsOfTile (feature ∷ features)) (push_scored sh shapes is_shape_error hit rest)
  IsOfTile-push_scored center zone feature features found none rest at made t =
      All-map (IsOfTile features) (IsOfTile (feature ∷ features)) rest (λ s h. inr h) t
  IsOfTile-push_scored center zone feature features found (some s) rest at made t =
      let same = scored_coords-coords center zone found s made in
      (
        inl (coords_of-HasPolygon sh shapes is_shape_error feature s.coords (at ∙ ap ok same)),
        All-map (IsOfTile features) (IsOfTile (feature ∷ features)) rest (λ s h. inr h) t,
      )

  scored_results-IsOfTile :
      (center zone : G) (features : List (Json F)) (scored : List (Scored F))
      → scored_results sh shapes is_shape_error center zone features ≡ ok scored
      → All (IsOfTile features) scored
  unfolding scored_results
  scored_results-IsOfTile center zone [] scored h =
      let none_found : scored ≡ [] = cc in rw none_found tt
  scored_results-IsOfTile center zone (feature ∷ features) scored h =
      let (found, at, h1) = >>=-eq-ok (coords_of sh shapes is_shape_error feature) _ h in
      let (hit, made, h2) =
        >>=-eq-ok (scored_coords sh shapes is_shape_error center zone found) _ h1 in
      let (rest, after, h3) =
        >>=-eq-ok (scored_results sh shapes is_shape_error center zone features) _ h2 in
      let same : push_scored sh shapes is_shape_error hit rest ≡ scored = cc in
      subst (All (IsOfTile (feature ∷ features))) same (
        IsOfTile-push_scored center zone feature features found hit rest at made
          (scored_results-IsOfTile center zone features rest after))

  All-IsListed-nearest_first :
      (zone : G) (scored : List (Scored F)) (features : List (Json F))
      → All (IsListed zone scored) features
      → All (IsListed zone (nearest_first sh shapes is_shape_error scored)) features
  All-IsListed-nearest_first zone scored [] t = tt
  All-IsListed-nearest_first zone scored (f ∷ fs) (h, t) = (
    λ coords footprint found made meets.
        nearest_first-Any sh shapes is_shape_error ord eq_le (λ s. s.coords ≡ coords) scored
          (h coords footprint found made meets),
    All-IsListed-nearest_first zone scored fs t,
  )

  -- The parcel, or the circle of one degree round the position, scaled to 50 m by the degrees that a metre
  -- has there along each axis
  abbrev pub zone_of : F → F → Option (Json F) → Result Raised G
  zone_of lat lon none =
      let deg_per_m = num 1 0 ⊘ num 111320 0 in
      ok (
        shapes.scale (sh.buffer (sh.point (lon, lat)) (num 1 0))
          (num 50 0 ⊗ (deg_per_m ⊘ max_of (cos (radians lat)) (num 1 9))) (num 50 0 ⊗ deg_per_m)
          (lon, lat))
  zone_of lat lon (some rings) = shapes.polygon_to_shapely rings

  -- The chosen footprints are the polygons of the tile's features that reach into the parcel, where there
  -- is one, or into the ellipse of 50 m round the position: only such, every one of them, and none nearer
  -- to the position than one before it.
  pub choose_footprints-IsNearestFirst :
      (lat lon : F) (parcel : Option (Json F)) (features chosen : List (Json F))
      → choose_footprints sh shapes is_shape_error lat lon parcel (ok features) ≡ ok chosen
      → (zone : G) × (scored : List (Scored F)) × (zone_of lat lon parcel ≡ ok zone)
        × (chosen ≡ map (λ s. s.coords) scored)
        × IsNearestFirst sh shapes is_shape_error ord eq_le scored
        × All (IsOfTile features) scored
        × All (IsHit (sh.point (lon, lat)) zone) scored
        × All (IsListed zone scored) features
  unfolding choose_footprints fallback_zone
  choose_footprints-IsNearestFirst lat lon parcel features chosen h =
      let (zone, at, h1) = >>=-eq-ok (zone_of lat lon parcel) _ h in
      let center = sh.point (lon, lat) in
      let (scored, found, h2) =
        >>=-eq-ok (scored_results sh shapes is_shape_error center zone features) _ h1 in
      let (hits, listed) = scored_results_lem center zone features scored found in
      let sorted = nearest_first sh shapes is_shape_error scored in
      let same : chosen ≡ map (λ s. s.coords) sorted = cc in
      (
        zone,
        sorted,
        at,
        same,
        nearest_first-IsNearestFirst sh shapes is_shape_error ord eq_le scored,
        nearest_first-All sh shapes is_shape_error ord eq_le (IsOfTile features) scored
            (scored_results-IsOfTile center zone features scored found),
        nearest_first-All sh shapes is_shape_error ord eq_le (IsHit center zone) scored hits,
        All-IsListed-nearest_first zone scored features listed,
      )
