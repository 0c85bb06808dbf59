-- ===== src/Examples.antt =====
-- Small concrete stand-ins for floats, numpy, shapely and pyproj, on which the theorems are applied:
-- every number, point and geometry is a natural number.
pub mod Planes
pub mod Services
pub mod Boots
pub mod LidarRuns
pub mod Outlines
pub mod Footprints
pub mod Resolving
pub mod Scores
use rooftrace.Prelude.{
  ℕ, zero, suc, ◌+◌, ◌-◌, ◌*◌, ◌/◌, ◌^◌, ◌≤◌, ◌≡◌, refl, Bool, true, false, Option, none, some,
  List, [], ◌∷◌, arith, length, ltb, leb, ◌==◌, if◌then◌else◌, count, contains, inl, inr,
  Bool-cases, ap,
}
use rooftrace.Float.{Float, IsOrdered}
use rooftrace.Planefit.Numpy.{Numpy}
use rooftrace.Planefit.Shapely.{Shapely, Pyproj, GeomKind, polygon}

abbrev pub whole_numbers : Float ℕ
whole_numbers = record {
  num = λ m k. m / 10 ^ k;
  of_nat = λ n. n;
  add = λ x y. x + y;
  sub = λ x y. x - y;
  mul = λ x y. x * y;
  div = λ x y. x / y;
  neg = λ x. 0;
  abs = λ x. x;
  lt = ltb;
  le = leb;
  eq = λ x y. x == y;
  acos = λ x. 0;
  cos = λ x. 1;
  tan = λ x. x;
  degrees = λ x. x;
  radians = λ x. x;
  copysign = λ x y. x;
  hypot = λ x y. x + y;
  fmean = λ xs. 0;
  isfinite = λ x. true;
  int_of = λ x. x;
  floordiv = λ x y. x / y;
  round_to = λ k x. x;
}

pub ordered_numbers : IsOrdered ℕ ⦃fl = whole_numbers⦄
ordered_numbers = record {
  le_refl = λ x. ground arith;
  le_trans = λ x y z h k. ground arith;
  le_total = λ x y. ground arith;
  le_antisym = λ x y h k. ground arith;
  lt-eq-not-le = λ x y. ground arith;
}

-- `np.unique` up to the order
abbrev pub distinct : List ℕ → List ℕ
distinct [] = []
distinct (x ∷ xs) = let rest = distinct xs in if contains x xs then rest else x ∷ rest

contains-same : (x i : ℕ) (xs : List ℕ) → x ≡ i → contains x xs ≡ contains i xs
contains-same x i xs e = ap (λ y. contains y xs) e

pub distinct_once : (i : ℕ) (xs : List ℕ) → count i (distinct xs) ≡ (if contains i xs then 1 else 0)
distinct_once i [] = refl
distinct_once i (x ∷ xs) = elim (Bool-cases (contains x xs)) [
  | inl e ↦ rw e (ground (arith, distinct_once i xs, contains-same x i xs))
  | inr e ↦ rw e (ground (arith, distinct_once i xs, contains-same x i xs))
]

abbrev first_three : List ℕ → ℕ × ℕ × ℕ
first_three (x ∷ y ∷ z ∷ xs) = (x, y, z)
first_three xs = (0, 0, 0)

-- The vectors are numbers, with the identity for each coordinate.
abbrev pub small_numpy : Numpy ℕ ℕ ℕ
small_numpy = record {
  minus = λ x y. x - y;
  plus = λ x y. x + y;
  times = λ x y. x * y;
  over = λ x y. x / y;
  negate = λ x. x;
  dot = λ x y. x * y;
  cross = λ x y. x + y;
  norm = λ x. x;
  x_of = λ x. x;
  y_of = λ x. x;
  z_of = λ x. x;
  clip = λ x lo hi. if ltb x lo then lo else if ltb hi x then hi else x;
  arccos = λ x. 0;
  np_degrees = λ x. x;
  mean = λ xs. 0;
  std = λ xs. 0;
  vec = λ x y z. x;
  row_sum = λ x y. 0;
  np_min = λ xs. 0;
  np_max = λ xs. 100;
  svd_last = λ xs. 0;
  default_rng = λ seed. seed;
  sample = λ r xs. (first_three xs, r + 1);
  unique = distinct;
}

-- A geometry is its area.
abbrev pub shapely_with : (ℕ → ℕ → ℕ) → Shapely ℕ ℕ
shapely_with distance = record {
  kind = λ g. polygon;
  geoms = λ g. g ∷ [];
  is_empty = λ g. g == 0;
  is_valid = λ g. true;
  area = λ g. g;
  length_of = λ g. 1;
  buffer = λ g r. g;
  simplify = λ g r. g;
  boundary = λ g. g;
  intersection = λ a b. if ltb a b then a else b;
  intersects = λ a b. true;
  distance = distance;
  convex_hull = λ g. g;
  minimum_rotated_rectangle = λ g. g;
  coords = λ g. (0, 0) ∷ [];
  exterior_coords = λ g. (0, 0) ∷ (1, 0) ∷ (1, 1) ∷ [];
  exterior_length = λ g. g;
  centroid = λ g. (0, 0);
  bounds = λ g. (0, 0, 1, 1);
  covers = λ g p. true;
  empty_polygon = 0;
  polygon_of = λ exterior holes. 100;
  point = λ p. 1;
  box = λ b. 50;
  multi_point = λ ps. 20 * length ps;
  unary_union = λ gs. 20 * length gs;
  nearest_points = λ a b. ((0, 0), (0, 0));
}

abbrev pub small_shapely : Shapely ℕ ℕ
small_shapely = shapely_with (λ a b. 0)

abbrev pub small_pyproj : Pyproj ℕ
small_pyproj = record { transform = λ src dst p. p }
