-- ===== src/Address/Quadkey.antt =====
-- app/resolve_address/ms_footprints.py: the key of a tile of the Bing Maps scheme.
use Prim.Native.Char.{Char, code}
use Prim.Native.String.{◌++◌ as str_append}
use text.Mathlib.TextLemmas.{nil-append, cons-append}
use native.Mathlib.Nat.{
  div-add-mod, div-div-eq-div-mul, mul-add, mul_assoc, mul_comm, mod-eq_of_lt, pow-suc,
}
use rooftrace.Prelude.{
  ℕ, zero, suc, ◌+◌, ◌-◌, ◌*◌, ◌/◌, ◌%◌, ◌^◌, ◌<◌, ◌≡◌, Bool, arith, String, ◌==◌, if◌then◌else◌,
  digit, ap, sym, ◌∙◌,
}

-- `n & (1 << k)`, as a test
abbrev has_bit : ℕ → ℕ → Bool
has_bit n k = n / 2 ^ k % 2 == 1

-- The body of `for i in range(zoom, 0, -1)`, at k = i - 1
unfoldable quad_digit : ℕ → ℕ → ℕ → ℕ
quad_digit tile_x tile_y k =
    (if has_bit tile_x k then 1 else 0) + (if has_bit tile_y k then 2 else 0)

unfoldable pub tile_xy_to_quadkey : ℕ → ℕ → ℕ → String
unfolding quad_digit
tile_xy_to_quadkey tile_x tile_y zero = ""
tile_xy_to_quadkey tile_x tile_y (suc k) =
    str_append (digit (quad_digit tile_x tile_y k)) (tile_xy_to_quadkey tile_x tile_y k)

-- The tile that a key names, as the scheme of Bing Maps has it: the zoom is the key's length, and a
-- digit q has one bit of x, q % 2, and one bit of y, q / 2, the most significant first.
unfoldable pub tile_of : String → ℕ × ℕ × ℕ
tile_of String.[] = (0, 0, 0)
tile_of (String.◌∷◌ c key) =
    let (zoom, x, y) = tile_of key in
    let q = code c - 48 in (suc zoom, q % 2 * 2 ^ zoom + x, q / 2 * 2 ^ zoom + y)

-- One binary digit more.
mod_double : (x m : ℕ) → x % (m * 2) ≡ x / m % 2 * m + x % m
mod_double x m =
    let parts : m * (x / m) ≡ m * (2 * (x / m / 2)) + m * (x / m % 2) =
      ap (λ q. m * q) (sym (div-add-mod (x / m) 2)) ∙ mul-add m (2 * (x / m / 2)) (x / m % 2) in
    let halved : m * 2 * (x / (m * 2)) ≡ m * (2 * (x / m / 2)) =
      ap (λ q. m * 2 * q) (sym (div-div-eq-div-mul x m 2)) ∙ mul_assoc m 2 (x / m / 2) in
    omega (arith, parts, halved, div-add-mod x m, div-add-mod x (m * 2), mul_comm m (x / m % 2))

digit_lem :
    (x y k : ℕ) → (quad_digit x y k % 2 ≡ x / 2 ^ k % 2) × (quad_digit x y k / 2 ≡ y / 2 ^ k % 2)
unfolding quad_digit
digit_lem x y k = ground arith

char_append : (c : Char) (key : String) → str_append (String.◌∷◌ c "") key ≡ String.◌∷◌ c key
char_append c key = cons-append c "" key ∙ ap (λ s. String.◌∷◌ c s) (nil-append key)

tile_of-digit :
    (q : ℕ) (key : String)
    → q < 4
    → tile_of (str_append (digit q) key) ≡ (
      suc (tile_of key).0,
      q % 2 * 2 ^ (tile_of key).0 + (tile_of key).1,
      q / 2 * 2 ^ (tile_of key).0 + (tile_of key).2,
    )
unfolding tile_of
tile_of-digit zero key lt = ap tile_of (char_append "0" key)
tile_of-digit (suc zero) key lt = ap tile_of (char_append "1" key)
tile_of-digit (suc (suc zero)) key lt = ap tile_of (char_append "2" key)
tile_of-digit (suc (suc (suc zero))) key lt = ap tile_of (char_append "3" key)
tile_of-digit (suc (suc (suc (suc q)))) key lt = absurd (omega arith)

quad_digit_lt : (x y k : ℕ) → quad_digit x y k < 4
unfolding quad_digit
quad_digit_lt x y k = ground arith

tile_of_mod :
    (x y zoom : ℕ) → tile_of (tile_xy_to_quadkey x y zoom) ≡ (zoom, x % 2 ^ zoom, y % 2 ^ zoom)
unfolding tile_xy_to_quadkey
tile_of_mod x y zero = unfold tile_of in ground arith
tile_of_mod x y (suc k) =
    let (dx, dy) = digit_lem x y k in
    rw (
      tile_of-digit (quad_digit x y k) (tile_xy_to_quadkey x y k) (quad_digit_lt x y k),
      tile_of_mod x y k,
      dx,
      dy,
      pow-suc 2 k,
      mod_double x (2 ^ k),
      mod_double y (2 ^ k),
    )

-- A quadkey names its tile: where x and y are below 2 ^ zoom, the zoom, x and y are read back from it.
pub tile_of-tile_xy_to_quadkey :
    (x y zoom : ℕ)
    → x < 2 ^ zoom
    → y < 2 ^ zoom
    → tile_of (tile_xy_to_quadkey x y zoom) ≡ (zoom, x, y)
tile_of-tile_xy_to_quadkey x y zoom lx ly =
    rw (tile_of_mod x y zoom, mod-eq_of_lt lx, mod-eq_of_lt ly)
