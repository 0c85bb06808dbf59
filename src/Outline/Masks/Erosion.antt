-- ===== src/Outline/Masks/Erosion.antt =====
-- The cumulative sums of `_erode_mask` against its specification: the box erosion.
use rooftrace.Prelude.{
  ℕ, zero, suc, ◌+◌, ◌-◌, ◌*◌, ◌≤◌, ◌<◌, ◌≡◌, refl, Bool, true, false, ◌↔◌, arith, Bool-cases, inl,
  inr, any, map, range, range_from,
}
use native.Mathlib.Decide.{ℕ_discrete}
use rooftrace.Outline.Masks.{Mask, has_pixel, sum_below, padded, erode_1d, erode_mask}

sum_below-add :
    (f : ℕ → ℕ) (i k : ℕ) → sum_below f (i + k) ≡ sum_below f i + sum_below (λ d. f (i + d)) k
sum_below-add f i zero = let e : i + 0 ≡ i = omega arith in rw e (omega arith)
sum_below-add f i (suc k) =
    let e : i + suc k ≡ suc (i + k) = omega arith in rw e (omega (arith, sum_below-add f i k))

sum_below-le : (f : ℕ → ℕ) (k : ℕ) → ((d : ℕ) → f d ≤ 1) → sum_below f k ≤ k
sum_below-le f zero small = omega arith
sum_below-le f (suc k) small = omega (arith, sum_below-le f k small, small k)

full_below :
    (f : ℕ → ℕ) (k : ℕ) → ((d : ℕ) → f d ≤ 1) → k ≤ sum_below f k → (d : ℕ) → d < k → f d ≡ 1
full_below f zero small full d lt = absurd (omega arith)
full_below f (suc k) small full d lt =
    let rest : k ≤ sum_below f k = omega (arith, small k) in
    let last : f k ≡ 1 = omega (arith, small k, sum_below-le f k small) in
    elim (ℕ_discrete d k) [ yes e ↦ rw e last | no ne ↦ full_below f k small rest d (omega arith) ]

below_full : (f : ℕ → ℕ) (k : ℕ) → ((d : ℕ) → d < k → f d ≡ 1) → k ≤ sum_below f k
below_full f zero ones = omega arith
below_full f (suc k) ones =
    omega (arith, ones k (omega arith), below_full f k (λ d lt. ones d (omega arith)))

module _ (r n : ℕ) (line : ℕ → Bool) where
  -- The position k of the padded line holds a pixel of the line, and it is set.
  abbrev pub IsSetAt : ℕ → Type 0
  IsSetAt k = (r ≤ k) × (k < r + n) × (line (k - r) ≡ true)

  padded-le : (k : ℕ) → padded r n line k ≤ 1
  padded-le k = ground arith

  padded_iff : (k : ℕ) → (padded r n line k ≡ 1) ↔ IsSetAt k
  padded_iff k = ground arith

  -- A pixel survives exactly when the whole window of 2r + 1 pixels round it is in the line and set.
  pub erode_1d_iff :
      (i : ℕ) → (erode_1d r n line i ≡ true) ↔ ((d : ℕ) → d < 2 * r + 1 → IsSetAt (i + d))
  unfolding erode_1d
  erode_1d_iff i =
      let f = λ (d : ℕ). padded r n line (i + d) in
      let window = sum_below-add (padded r n line) i (2 * r + 1) in
      (
        λ h d lt.
            let full : 2 * r + 1 ≤ sum_below f (2 * r + 1) = ground (arith, window) in
            (padded_iff (i + d)).0 (full_below f (2 * r + 1) (λ c. padded-le (i + c)) full d lt),
        λ h.
            let first = h 0 (omega arith) in
            let last = h (2 * r) (omega arith) in
            let wide : 2 * r + 1 ≤ n = omega arith in
            let full = below_full f (2 * r + 1) (λ d lt. (padded_iff (i + d)).1 (h d lt)) in
            ground (arith, window),
      )

any-range_from :
    {A : Type 0} (p : A → Bool) (f : ℕ → A) (lo n j : ℕ)
    → p (f j) ≡ true
    → lo ≤ j
    → j < lo + n
    → any p (map f (range_from lo n)) ≡ true
any-range_from p f lo zero j h le lt = absurd (omega arith)
any-range_from p f lo (suc n) j h le lt = elim (ℕ_discrete lo j) [
  | yes e ↦ rw (e, h) refl
  | no ne ↦ let rest = any-range_from p f (lo + 1) n j h (omega arith) (omega arith) in ground arith
]

-- A mask with a pixel that is set has one.
pub has_pixel-at :
    (m : Mask) (i j : ℕ) → i < m.height → j < m.width → m.pixel i j ≡ true → has_pixel m ≡ true
unfolding has_pixel
has_pixel-at m i j hi hj h =
    any-range_from (λ row. any (λ b. b) row) (λ r. map (m.pixel r) (range m.width)) 0 m.height i
      (any-range_from (λ b. b) (m.pixel i) 0 m.width j h (omega arith) (omega arith)) (omega arith)
      (omega arith)

unset : {b : Bool} → b ≡ false → b ≡ true → ⊥
unset p q = cc

-- The pixel at row i and column j, counted from a corner that lies r above and left of the mask's, is
-- one of the mask's, and it is set.
abbrev pub IsPixel : Mask → ℕ → ℕ → ℕ → Type 0
IsPixel m r i j =
    (r ≤ i) × (i < r + m.height) × (r ≤ j) × (j < r + m.width) × (m.pixel (i - r) (j - r) ≡ true)

-- The erosion keeps a pixel of the mask exactly when all of the 2r + 1 by 2r + 1 pixels round it lie in
-- the mask and are set: what lies outside counts as not set.
pub erode_mask_iff :
    (m : Mask) (r i j : ℕ)
    → i < m.height
    → j < m.width
    → ((erode_mask m r).pixel i j ≡ true)
      ↔ ((di dj : ℕ) → di < 2 * r + 1 → dj < 2 * r + 1 → IsPixel m r (i + di) (j + dj))
unfolding erode_mask
erode_mask_iff m r i j hi hj = elim (Bool-cases (has_pixel m)) [
  | inl e ↦
      let rows_of = λ (c : ℕ). erode_1d_iff r m.height (λ k. m.pixel k c) i in
      let eroded = λ (c : ℕ). erode_1d r m.height (λ k. m.pixel k c) i in
      let row = erode_1d_iff r m.width eroded j in
      rw e (
        λ h di dj li lj.
            let (a, b, c) = row.0 h dj lj in
            let (a', b', c') = (rows_of (j + dj - r)).0 c di li in (a', b', a, b, c'),
        λ h. row.1 (λ dj lj.
            let (_, _, a, b, _) = h 0 dj (omega arith) lj in
            (
              a,
              b,
              (rows_of (j + dj - r)).1
                  (λ di li. let (a', b', _, _, c') = h di dj li lj in (a', b', c')),
            )),
      )
  | inr e ↦ rw e (
    λ h. absurd (unset e (has_pixel-at m i j hi hj h)),
    λ h.
        let (_, _, _, _, c) = h r r (omega arith) (omega arith) in
        let same_i : i + r - r ≡ i = omega arith in
        let same_j : j + r - r ≡ j = omega arith in
        absurd (unset e (has_pixel-at m i j hi hj (rw (same_i, same_j) at c))),
  )
]
