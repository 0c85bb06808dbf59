-- ===== src/Outline/Masks.antt =====
-- Boolean masks of app/outline: the overlap of two of them, and the erosion of the local segmenter.
pub mod Erosion
pub mod Overlap
use rooftrace.Prelude.{
  ℕ, zero, suc, ◌+◌, ◌-◌, ◌*◌, Bool, true, false, not, ◌&&◌, ◌||◌, List, map, any, range, ltb, leb,
  ◌==◌, if◌then◌else◌,
}
use rooftrace.Float.{Float}

-- A boolean array of two axes. Only the pixels below the sides belong to it.
pub record Mask : Type 0 where
  pub height : ℕ
  pub width : ℕ
  pub pixel : ℕ → ℕ → Bool

-- `for row in mask`
abbrev pub rows : Mask → List (List Bool)
rows m = map (λ i. map (m.pixel i) (range m.width)) (range m.height)

-- `mask.any()`
unfoldable pub has_pixel : Mask → Bool
has_pixel m = any (λ row. any (λ b. b) row) (rows m)

-- The sum of f(0), ..., f(n - 1)
abbrev pub sum_below : (ℕ → ℕ) → ℕ → ℕ
sum_below f zero = 0
sum_below f (suc n) = sum_below f n + f n

-- `mask.sum()`
unfoldable pub pixel_count : Mask → ℕ
pixel_count m = sum_below (λ i. sum_below (λ j. if m.pixel i j then 1 else 0) m.width) m.height

-- `np.logical_and` and `np.logical_or` of masks with the same shape
abbrev pub logical_and : Mask → Mask → Mask
logical_and a b = record {
  height = a.height;
  width = a.width;
  pixel = λ i j. a.pixel i j && b.pixel i j;
}

abbrev pub logical_or : Mask → Mask → Mask
logical_or a b = record {
  height = a.height;
  width = a.width;
  pixel = λ i j. a.pixel i j || b.pixel i j;
}

module _ {F : Type 0} ⦃fl : Float F⦄ where
  open fl use {num, of_nat, div}

  unfoldable pub compute_iou : Mask → Mask → F
  unfolding pixel_count
  compute_iou a b =
      let shared = pixel_count (logical_and a b) in
      let covered = pixel_count (logical_or a b) in
      if covered == 0 then num 1 0 else div (of_nat shared) (of_nat covered)

-- `padded` of `_erode_1d`: r zeros, the line's n pixels, r zeros
abbrev pub padded : ℕ → ℕ → (ℕ → Bool) → ℕ → ℕ
padded r n line k = if leb r k && ltb k (r + n) && line (k - r) then 1 else 0

-- `_erode_1d` on one line of the axis. `cs[k]` is the sum of the first k padded pixels.
unfoldable pub erode_1d : ℕ → ℕ → (ℕ → Bool) → ℕ → Bool
erode_1d r n line i =
    if ltb n (2 * r + 1)
    then false
    else leb (2 * r + 1)
        (sum_below (padded r n line) (i + (2 * r + 1)) - sum_below (padded r n line) i)

unfoldable pub erode_mask : Mask → ℕ → Mask
unfolding has_pixel erode_1d
erode_mask m radius = if not (has_pixel m) then m else record {
  height = m.height;
  width = m.width;
  pixel = λ i j. erode_1d radius m.width (λ c. erode_1d radius m.height (λ r. m.pixel r c) i) j;
}

-- `np.zeros_like(mask, dtype=bool)`
abbrev pub zeros_like : Mask → Mask
zeros_like m = record { height = m.height; width = m.width; pixel = λ i j. false }

unfoldable pub stub_segmenter : Mask → Mask
unfolding erode_mask
stub_segmenter prior = if not (has_pixel prior) then zeros_like prior else erode_mask prior 3
