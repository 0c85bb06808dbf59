-- ===== src/Examples/Footprints.antt =====
-- The theorems on app/resolve_address/ms_footprints.py at concrete inputs.
use rooftrace.Prelude.{
  ℕ, ◌≡◌, refl, Bool, true, false, none, some, List, [], ◌∷◌, arith, map, ok, leb, ◌==◌, String,
  Result, Raised, value_error, err, All,
}
use rooftrace.Planefit.Shapely.{Shapely}
use rooftrace.Address.Json.{Json, text, number, arr, nil, cons, obj, end, field, null}
use rooftrace.Address.Dataset.{Row, resolve_tile_url, parse_dataset_index}
use rooftrace.Address.Footprints.{Shapes, Scored, choose_footprints}
use rooftrace.Address.Dataset.Index.{
  last_url, first_region, preferring, resolve_tile_url-parse_dataset_index,
}
use rooftrace.Address.Footprints.Order.{IsNearestFirst}
use rooftrace.Address.Footprints.Chosen.{
  IsOfTile, IsHit, IsListed, zone_of, choose_footprints-IsNearestFirst,
}
use rooftrace.Examples.{whole_numbers, ordered_numbers, shapely_with}

abbrev row : String → String → String → Row
row q r u = record { quadkey = some q; region = some r; url = some u }

-- The newer row of a region wins; a row without a URL does not count.
abbrev pub rows : List Row
rows =
    row "023" "NorthAmerica" "n1"
    ∷ row "023" "UnitedStates" "u1"
    ∷ row "023" "UnitedStates" "u2"
    ∷ row "031" "Canada" "c1"
    ∷ record { quadkey = some "023"; region = some "UnitedStates"; url = some "" }
    ∷ []

preferred_region : resolve_tile_url (parse_dataset_index rows) "023" ≡ some "u2"
unfolding resolve_tile_url parse_dataset_index
preferred_region = refl

other_region : resolve_tile_url (parse_dataset_index rows) "031" ≡ some "c1"
unfolding resolve_tile_url parse_dataset_index
other_region = refl

resolve_tile_url-parse_dataset_index_example :
    resolve_tile_url (parse_dataset_index rows) "031"
    ≡ preferring
        (last_url rows "031" "UnitedStates" none)
        (λ region. last_url rows "031" region none)
        (first_region rows "031" none)
resolve_tile_url-parse_dataset_index_example = resolve_tile_url-parse_dataset_index rows "031"

-- A polygon whose coordinates are one number has that number as its area and as its distance from any
-- point; other coordinates make none.
abbrev shape_of_number : Json ℕ → Result Raised ℕ
shape_of_number (arr (cons (number n) vs)) = ok n
shape_of_number _ = err (value_error "no polygon")

abbrev pub shapes : Shapes ℕ ℕ
shapes = record { polygon_to_shapely = shape_of_number; scale = λ g x y p. g }

abbrev pub no_errors : String → Bool
no_errors name = false

abbrev pub ring : ℕ → Json ℕ
ring n = arr (cons (number n) nil)

abbrev polygon_feature : Json ℕ → Json ℕ
polygon_feature coords =
    obj
      (field "geometry" (obj (field "type" (text "Polygon") (field "coordinates" coords end))) end)

abbrev pub from_point : Shapely ℕ ℕ
from_point = shapely_with (λ a b. a)

-- Two polygons, one that makes no shape, and a feature that is no polygon
abbrev pub features : List (Json ℕ)
features =
    polygon_feature (ring 7)
    ∷ polygon_feature (arr (cons null nil))
    ∷ obj (field "type" (text "Point") end)
    ∷ polygon_feature (ring 4)
    ∷ []

eq_le_lem : (x y : ℕ) → (x == y) ≡ true → (leb x y ≡ true) × (leb y x ≡ true)
eq_le_lem x y h = ground arith

chosen_ok :
    choose_footprints ⦃fl = whole_numbers⦄ from_point shapes no_errors 45 120 none (ok features)
    ≡ ok (ring 4 ∷ ring 7 ∷ [])
unfolding choose_footprints
chosen_ok = refl

choose_footprints-IsNearestFirst_example :
    (zone : ℕ) × (scored : List (Scored ℕ)) × (zone_of ⦃fl = whole_numbers⦄ from_point shapes
        no_errors ordered_numbers eq_le_lem 45 120 none
      ≡ ok zone)
    × (ring 4 ∷ ring 7 ∷ [] ≡ map (λ s. s.coords) scored)
    × IsNearestFirst ⦃fl = whole_numbers⦄ from_point shapes no_errors ordered_numbers eq_le_lem
        scored
    × All
        (IsOfTile ⦃fl = whole_numbers⦄ from_point shapes no_errors ordered_numbers eq_le_lem
          features)
        scored
    × All
        (IsHit ⦃fl = whole_numbers⦄ from_point shapes no_errors ordered_numbers eq_le_lem
          (from_point.point (120, 45))
          zone)
        scored
    × All
        (IsListed ⦃fl = whole_numbers⦄ from_point shapes no_errors ordered_numbers eq_le_lem zone
          scored)
        features
choose_footprints-IsNearestFirst_example =
    choose_footprints-IsNearestFirst ⦃fl = whole_numbers⦄ from_point shapes no_errors
      ordered_numbers eq_le_lem 45 120 none features (ring 4 ∷ ring 7 ∷ []) chosen_ok
