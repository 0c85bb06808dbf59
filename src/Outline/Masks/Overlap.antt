-- ===== src/Outline/Masks/Overlap.antt =====
-- The overlap of two masks in app/outline/router.py: the shared pixels against the covered ones.
use rooftrace.Prelude.{ℕ, zero, suc, ◌≤◌, Bool, ◌&&◌, ◌||◌, arith, if◌then◌else◌}
use rooftrace.Outline.Masks.{Mask, sum_below, pixel_count, logical_and, logical_or}

sum_below_mono : (f g : ℕ → ℕ) (n : ℕ) → ((i : ℕ) → f i ≤ g i) → sum_below f n ≤ sum_below g n
sum_below_mono f g zero h = omega arith
sum_below_mono f g (suc n) h = omega (arith, sum_below_mono f g n h, h n)

abbrev bit : Bool → ℕ
bit b = if b then 1 else 0

-- The shared pixels are covered pixels.
pub and-le-or : (a b : Mask) → pixel_count (logical_and a b) ≤ pixel_count (logical_or a b)
unfolding pixel_count
and-le-or a b = sum_below_mono _ _ a.height (λ i.
    sum_below_mono (λ j. bit (a.pixel i j && b.pixel i j)) (λ j. bit (a.pixel i j || b.pixel i j))
      a.width (λ j. ground arith))
