-- ===== src/Address/Footprints/Features.antt =====
-- Which coordinates ms_footprints.py reads from a feature of the tile.
use rooftrace.Prelude.{
  ◌≡◌, refl, Bool, true, not, ◌||◌, some, String, eq_iff, ok, arith, ap, >>=-eq-ok, Bool-cases, inl,
  inr,
}
use rooftrace.Float.{Float}
use rooftrace.Planefit.Shapely.{Shapely}
use rooftrace.Address.Json.{Json, null, bool, number, text, arr, obj, get_field, truthy, or_else}
use rooftrace.Address.Footprints.{Shapes, is_polygon, coords_of}

module _ {F G : Type 0} ⦃fl : Float F⦄ (sh : Shapely F G) (shapes : Shapes F G)
    (is_shape_error : String → Bool) where
  -- The feature, or its geometry where it has one that is not empty, is of type Polygon, and has these
  -- coordinates, which are not empty.
  abbrev pub HasPolygon : Json F → Json F → Type 0
  HasPolygon coords feature =
      (geometry : Json F) × (get_field feature "geometry" ≡ ok geometry)
      × (get_field (or_else geometry feature) "type" ≡ ok (text "Polygon"))
      × (get_field (or_else geometry feature) "coordinates" ≡ ok coords)
      × (truthy coords ≡ true)

  is_polygon-text : (v : Json F) → is_polygon sh shapes is_shape_error v ≡ true → v ≡ text "Polygon"
  is_polygon-text (text t) h = ap text ((eq_iff t "Polygon").0 h)
  is_polygon-text null h = absurd (ground arith)
  is_polygon-text (bool b) h = absurd (ground arith)
  is_polygon-text (number x) h = absurd (ground arith)
  is_polygon-text (arr vs) h = absurd (ground arith)
  is_polygon-text (obj fs) h = absurd (ground arith)

  pub coords_of-HasPolygon :
      (feature coords : Json F)
      → coords_of sh shapes is_shape_error feature ≡ ok (some coords)
      → HasPolygon coords feature
  unfolding coords_of
  coords_of-HasPolygon feature coords h =
      let (geometry, at, h1) = >>=-eq-ok (get_field feature "geometry") _ h in
      let (kind, typed, h2) = >>=-eq-ok (get_field (or_else geometry feature) "type") _ h1 in
      let (found, listed, h3) =
        >>=-eq-ok (get_field (or_else geometry feature) "coordinates") _ h2 in
      elim (Bool-cases (not (is_polygon sh shapes is_shape_error kind) || not (truthy found))) [
        | inl e ↦ absurd (ground (arith, rw e at h3))
        | inr e ↦
            let same : found ≡ coords = ground (arith, rw e at h3) in
            let is_kind = is_polygon-text kind (ground (arith, e)) in
            let filled : truthy found ≡ true = ground (arith, e) in
            (geometry, at, rw is_kind at typed, rw same at listed, rw same at filled)
      ]

  pub HasPolygon-coords_of :
      (feature coords : Json F)
      → HasPolygon coords feature
      → coords_of sh shapes is_shape_error feature ≡ ok (some coords)
  unfolding coords_of
  HasPolygon-coords_of feature coords (geometry, at, typed, listed, there) =
      rw (at, typed, listed, there) refl
