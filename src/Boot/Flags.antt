-- ===== src/Boot/Flags.antt =====
-- app/flags.py: the flags by which the test suites turn a stage's real path off. The environment is a
-- mapping from the names of variables.
use Prim.Native.Char.{Char, code}
use text.Mathlib.Text.{char_at?}
use rooftrace.Prelude.{
  ◌-◌, Bool, ◌&&◌, ◌||◌, Option, none, some, String, str_eq, leb, ◌==◌, if◌then◌else◌, true,
}

abbrev pub Env : Type 0
Env = String → Option String

abbrev or_default : String → Option String → String
or_default default none = default
or_default default (some text) = text

-- `env.get(var, default)`
abbrev pub get : Env → String → String → String
get env var default = or_default default (env var)

-- `str.isspace` of one character
abbrev pub is_space : Char → Bool
is_space c =
    (leb 9 (code c) && leb (code c) 13)
    || (leb 28 (code c) && leb (code c) 32)
    || code c == 0x85
    || code c == 0xa0
    || code c == 0x1680
    || (leb 0x2000 (code c) && leb (code c) 0x200a)
    || code c == 0x2028
    || code c == 0x2029
    || code c == 0x202f
    || code c == 0x205f
    || code c == 0x3000

-- `not s.strip()`
abbrev pub is_blank : String → Bool
is_blank String.[] = true
is_blank (String.◌∷◌ c s) = is_space c && is_blank s

abbrev or_char : Char → Option Char → Char
or_char c none = c
or_char c (some d) = d

-- `str.lower` of the ASCII letters. No other letter has an ASCII letter of "modal" or "local" for its
-- lower case.
abbrev pub lower : String → String
lower String.[] = ""
lower (String.◌∷◌ c s) =
    String.◌∷◌
      (if leb 65 (code c) && leb (code c) 90
        then or_char c (char_at? "abcdefghijklmnopqrstuvwxyz" (code c - 65))
        else c)
      (lower s)

abbrev pub is_set : Env → String → Bool
is_set env var = str_eq (get env var "") "1"

unfoldable pub imagery_fixture : Env → Bool
imagery_fixture env = is_set env "IMAGERY_FIXTURE"

unfoldable pub lidar_fixture : Env → Bool
lidar_fixture env = is_set env "LIDAR_FIXTURE"

unfoldable pub render_images_fixture : Env → Bool
render_images_fixture env = is_set env "RENDER_IMAGES_FIXTURE"

unfoldable pub project_photo_fixture : Env → Bool
project_photo_fixture env = is_set env "PROJECT_PHOTO_FIXTURE"

unfoldable pub ept_index_fixture : Env → Bool
ept_index_fixture env = is_set env "EPT_INDEX_FIXTURE"

unfoldable pub sam2_backend : Env → String
sam2_backend env = lower (get env "SAM2_BACKEND" "modal")

unfoldable pub sam2_is_fixture : Env → Bool
unfolding sam2_backend
sam2_is_fixture env = str_eq (sam2_backend env) "local"
