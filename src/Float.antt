-- ===== src/Float.antt =====
-- What the sidecar does with a Python `float`. The numbers stay abstract: a type `F` with the
-- operations below, so that a model never computes with exact numbers where the code rounds.
use rooftrace.Prelude.{List, [], ◌∷◌, ℕ, Bool, true, not, ◌⊎◌, ◌≡◌, if◌then◌else◌}

pub record Float (F : Type 0) : Type 0 where
  -- the literal m / 10 ^ k: `num 15 2` is 0.15
  pub num : ℕ → ℕ → F
  -- an `int` in a float expression
  pub of_nat : ℕ → F
  pub add : F → F → F
  pub sub : F → F → F
  pub mul : F → F → F
  pub div : F → F → F
  pub neg : F → F
  pub abs : F → F
  pub lt : F → F → Bool
  pub le : F → F → Bool
  pub eq : F → F → Bool
  -- the `math` module
  pub acos : F → F
  pub cos : F → F
  pub tan : F → F
  pub degrees : F → F
  pub radians : F → F
  pub copysign : F → F → F
  pub hypot : F → F → F
  -- `statistics.fmean`
  pub fmean : List F → F
  -- `math.isfinite`
  pub isfinite : F → Bool
  -- `int(x)` of a number that is not negative
  pub int_of : F → ℕ
  -- `x // y`
  pub floordiv : F → F → F
  -- `round(x, k)`; at k = 0 also `round(x)`
  pub round_to : ℕ → F → F

module _ {F : Type 0} ⦃fl : Float F⦄ where
  open fl use {num, lt}

  infixl 65 ◌⊕◌ ◌⊖◌
  infixl 70 ◌⊗◌ ◌⊘◌
  abbrev pub ◌⊕◌ : F → F → F
  x ⊕ y = fl.add x y

  abbrev pub ◌⊖◌ : F → F → F
  x ⊖ y = fl.sub x y

  abbrev pub ◌⊗◌ : F → F → F
  x ⊗ y = fl.mul x y

  abbrev pub ◌⊘◌ : F → F → F
  x ⊘ y = fl.div x y

  abbrev pub nought : F
  nought = num 0 0

  -- `sum(xs)`, which adds to 0 from the left
  abbrev sum_from : F → List F → F
  sum_from acc [] = acc
  sum_from acc (x ∷ xs) = sum_from (fl.add acc x) xs

  abbrev pub sum_of : List F → F
  sum_of = sum_from nought

  -- Python's `max(a, b)` and `min(a, b)` return the first argument on a tie.
  abbrev pub max_of : F → F → F
  max_of a b = if lt a b then b else a

  abbrev pub min_of : F → F → F
  min_of a b = if lt b a then b else a

-- The laws of comparison that hold while no value is NaN.
pub record IsOrdered (F : Type 0) ⦃fl : Float F⦄ : Type 0 where
  pub le_refl : (x : F) → fl.le x x ≡ true
  pub le_trans : (x y z : F) → fl.le x y ≡ true → fl.le y z ≡ true → fl.le x z ≡ true
  pub le_total : (x y : F) → (fl.le x y ≡ true) ⊎ (fl.le y x ≡ true)
  pub le_antisym : (x y : F) → fl.le x y ≡ true → fl.le y x ≡ true → x ≡ y
  pub lt-eq-not-le : (x y : F) → fl.lt x y ≡ not (fl.le y x)
