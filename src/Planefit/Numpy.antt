-- ===== src/Planefit/Numpy.antt =====
-- The numpy calls of app/planefit, which the model takes as parameters, and numpy's indexing.
-- An array of points is a list of rows of the abstract type `V`; `V` is also the type of a vector.
use rooftrace.Prelude.{
  ℕ, ◌+◌, ◌≡◌, refl, Bool, true, false, none, some, List, [], ◌∷◌, arith, length, get_elem?, count,
  if◌then◌else◌,
}

pub record Numpy (F V R : Type 0) : Type 0 where
  pub minus : V → V → V
  pub plus : V → V → V
  -- `v * x`, `v / x` and `-v`
  pub times : V → F → V
  pub over : V → F → V
  pub negate : V → V
  pub dot : V → V → F
  pub cross : V → V → V
  pub norm : V → F
  -- `v[0]`, `v[1]`, `v[2]`
  pub x_of : V → F
  pub y_of : V → F
  pub z_of : V → F
  -- `np.clip(x, lo, hi)`, `np.arccos`, `np.degrees`
  pub clip : F → F → F → F
  pub arccos : F → F
  pub np_degrees : F → F
  -- `pts.mean(axis=0)`, `dists.std()`
  pub mean : List V → V
  pub std : List F → F
  -- `np.array([x, y, z])`, and a row of `(a * b).sum(axis=1)`
  pub vec : F → F → F → V
  pub row_sum : V → V → F
  -- `np.min(xs)`, `np.max(xs)`
  pub np_min : List F → F
  pub np_max : List F → F
  -- the last row of `Vt` of `np.linalg.svd(m, full_matrices=False)`
  pub svd_last : List V → V
  -- `np.random.default_rng(seed)`
  pub default_rng : ℕ → R
  -- the rows `points[rng.choice(n, size=3, replace=False)]`, and the generator's next state
  pub sample : R → List V → (V × V × V) × R
  -- `np.unique` of an array of indices
  pub unique : List ℕ → List ℕ

module _ {ℓ} {A : Type ℓ} where
  -- `xs[mask]` and `xs[~mask]`, for a mask as long as `xs`
  abbrev pub select : List Bool → List A → List A
  select [] xs = []
  select (b ∷ m) [] = []
  select (true ∷ m) (x ∷ xs) = x ∷ select m xs
  select (false ∷ m) (x ∷ xs) = select m xs

  abbrev pub reject : List Bool → List A → List A
  reject [] xs = xs
  reject (b ∷ m) [] = []
  reject (true ∷ m) (x ∷ xs) = reject m xs
  reject (false ∷ m) (x ∷ xs) = x ∷ reject m xs

  -- `xs[idx]`. An index that is out of range adds no row; the code makes none.
  abbrev pub gather : List A → List ℕ → List A
  gather xs [] = []
  gather xs (i ∷ idx) =
      let rest = gather xs idx in elim (get_elem? xs i) [ none ↦ rest | some x ↦ x ∷ rest ]

  pub length-select_add-reject :
      (m : List Bool) (xs : List A) → length (select m xs) + length (reject m xs) ≡ length xs
  length-select_add-reject [] xs = omega arith
  length-select_add-reject (b ∷ m) [] = ground arith
  length-select_add-reject (true ∷ m) (x ∷ xs) = omega (arith, length-select_add-reject m xs)
  length-select_add-reject (false ∷ m) (x ∷ xs) = omega (arith, length-select_add-reject m xs)

-- `mask.sum()`
abbrev pub mask_sum : List Bool → ℕ
mask_sum [] = 0
mask_sum (b ∷ m) = (if b then 1 else 0) + mask_sum m

pub count-select_add-reject :
    (i : ℕ) (m : List Bool) (xs : List ℕ)
    → count i (select m xs) + count i (reject m xs) ≡ count i xs
count-select_add-reject i [] xs = omega arith
count-select_add-reject i (b ∷ m) [] = ground arith
count-select_add-reject i (true ∷ m) (x ∷ xs) = omega (arith, count-select_add-reject i m xs)
count-select_add-reject i (false ∷ m) (x ∷ xs) = omega (arith, count-select_add-reject i m xs)

pub length-select {ℓ} :
    {A : Type ℓ} (m : List Bool) (xs : List A)
    → length m ≡ length xs
    → length (select m xs) ≡ mask_sum m
length-select [] xs h = refl
length-select (b ∷ m) [] h = absurd (omega arith)
length-select (true ∷ m) (x ∷ xs) h = omega (arith, length-select m xs)
length-select (false ∷ m) (x ∷ xs) h = omega (arith, length-select m xs)
