-- ===== src/Examples/Outlines.antt =====
-- The theorems on app/outline at a small mask and a small request.
use rooftrace.Prelude.{
  ℕ, ◌+◌, ◌*◌, ◌/◌, ◌≤◌, ◌<◌, ◌≡◌, refl, ◌↔◌, ◌||◌, ◌&&◌, true, false, none, some, [], ◌∷◌, arith,
  leb, ◌==◌, if◌then◌else◌, str_eq, ok, Outcome,
}
use native.Mathlib.Nat.{div-le_of_le-mul}
use rooftrace.Contracts.{Polygon, imagery}
use rooftrace.Outline.Masks.{Mask, erode_mask}
use rooftrace.Outline.Masks.Erosion.{IsPixel, erode_mask_iff}
use rooftrace.Outline.Runs.{strips}
use rooftrace.Outline.Runs.Cover.{covering, covering-strips}
use rooftrace.Outline.{RefineOutlineRequest, OutlineCalls, refine_outline}
use rooftrace.Outline.Refined.{HasRatios, IsAnswer, IsPassed, refine_outline-IsAnswer}
use rooftrace.Examples.{whole_numbers, small_shapely}

-- Four rows of five pixels: a block with a notch in its first row.
abbrev notched : Mask
notched = record { height = 4; width = 5; pixel = λ i j. leb 1 i || j == 0 || j == 4 }

notched-strips : strips notched ≡ (0, 1, 0) ∷ (4, 5, 0) ∷ (0, 5, 1) ∷ (0, 5, 2) ∷ (0, 5, 3) ∷ []
unfolding strips
notched-strips = refl

covering-strips_example : covering 0 4 (strips notched) ≡ 1
covering-strips_example = covering-strips notched 0 4

eroded_inside : (erode_mask notched 1).pixel 2 2 ≡ true
unfolding erode_mask
eroded_inside = refl

erode_mask_iff_example :
    ((erode_mask notched 1).pixel 2 2 ≡ true)
    ↔ ((di dj : ℕ) → di < 2 * 1 + 1 → dj < 2 * 1 + 1 → IsPixel notched 1 (2 + di) (2 + dj))
erode_mask_iff_example = erode_mask_iff notched 1 2 2 (omega arith) (omega arith)

abbrev square : Polygon ℕ
square = record {
  coordinates =
      (record { lon = 0; lat = 0; elevation = none }
        ∷ record { lon = 9; lat = 0; elevation = none }
        ∷ record { lon = 9; lat = 9; elevation = none }
        ∷ record { lon = 0; lat = 0; elevation = none }
        ∷ [])
      ∷ [];
  source = some imagery;
  confidence = none;
}

abbrev tile_request : RefineOutlineRequest ℕ
tile_request = record {
  pipeline_schema_version = "0.6.0";
  image_tile_ref = "tiles/1";
  prior_polygon = square;
  image_geo_bounds = record { west = 0; south = 0; east = 9; north = 9 };
}

-- An image of nine by nine pixels, every polygon on which fills it, and the local segmenter.
abbrev tile_calls : OutlineCalls ℕ
tile_calls = record {
  get_bytes = λ key. ok (1 ∷ []);
  image_size = λ image. ok (9, 9);
  pillow = record {
    fill_polygon =
        λ m ring fill. ok (record { height = m.height; width = m.width; pixel = λ i j. fill });
  };
  env = λ var. if str_eq var "SAM2_BACKEND" then some "local" else none;
  modal_client = record { importable = false; remote = λ image prior h w. ok prior };
  dp_tolerance = 0;
}

ratio_below : (a b : ℕ) → a ≤ b → (leb 0 (a / b) && leb (a / b) 1) ≡ true
ratio_below a b le = let below : a / b ≤ 1 = div-le_of_le-mul b (omega arith) in ground arith

whole_ratios : HasRatios ℕ ⦃fl = whole_numbers⦄
whole_ratios = record { ratio_bounds = λ a b le pos. ratio_below a b le; one_bounds = refl }

refine_outline-IsAnswer_example :
    Outcome
      (IsAnswer ⦃fl = whole_numbers⦄ small_shapely tile_calls whole_ratios tile_request)
      (IsPassed ⦃fl = whole_numbers⦄ small_shapely tile_calls whole_ratios tile_request)
      (refine_outline ⦃fl = whole_numbers⦄ small_shapely tile_calls tile_request)
refine_outline-IsAnswer_example =
    refine_outline-IsAnswer ⦃fl = whole_numbers⦄ small_shapely tile_calls whole_ratios tile_request
