-- ===== src/Pipeline.antt =====
-- app/pipeline_utils.py and app/auth.py: the version gate and the bearer gate of every endpoint.
pub mod Auth
use Prim.Native.Char.{Char, code}
use Prim.Native.String.{◌++◌ as str_append}
use text.Mathlib.Text.{starts_with}
use rooftrace.Prelude.{
  ℕ, Bool, true, false, not, Option, none, some, List, [], ◌∷◌, ◌==◌, if◌then◌else◌, String, str_eq,
  Result, ok, err, Raised, http, raise_if, other, f_string, ◌&&◌, ltb, ◌>>=◌, ◌||◌, ◌≡◌, arith,
}
use rooftrace.Contracts.{pipeline_schema_version}

-- `version.split(".", 1)[0]`
unfoldable pub schema_major : String → String
schema_major String.[] = ""
schema_major (String.◌∷◌ c s) =
    let rest = schema_major s in if code c == 46 then "" else String.◌∷◌ c rest

-- The test that each endpoint makes first, and the text of its error
unfoldable pub is_mismatch : String → Bool
unfolding schema_major
is_mismatch req_version =
    not (str_eq (schema_major req_version) (schema_major pipeline_schema_version))

abbrev pub mismatch_detail : String → String
mismatch_detail req_version = f_string (
    "pipeline schema major mismatch: request " ∷ req_version ∷ " vs sidecar "
    ∷ pipeline_schema_version ∷ [])

unfoldable pub check_pipeline_version : String → Result Raised (Unit {0})
unfolding is_mismatch
check_pipeline_version req_version =
    raise_if (is_mismatch req_version) (http 409 (mismatch_detail req_version))

-- Whatever the gate raises is HTTP 409.
pub check_pipeline_version-err :
    (req_version : String) (e : Raised)
    → check_pipeline_version req_version ≡ err e
    → e ≡ http 409 (mismatch_detail req_version)
unfolding check_pipeline_version
check_pipeline_version-err req_version e h = ground arith

-- `s.removeprefix(prefix)`, for a text that starts with it
abbrev pub remove_prefix : String → String → String
remove_prefix String.[] s = s
remove_prefix (String.◌∷◌ c p) String.[] = String.[]
remove_prefix (String.◌∷◌ c p) (String.◌∷◌ d s) = remove_prefix p s

abbrev pub is_ascii : String → Bool
is_ascii String.[] = true
is_ascii (String.◌∷◌ c s) = ltb (code c) 128 && is_ascii s

-- `hmac.compare_digest` of two texts: equality that takes the same time on all ASCII texts
abbrev pub compare_digest : String → String → Result Raised Bool
compare_digest a b =
    if is_ascii a && is_ascii b
    then ok (str_eq a b)
    else err (other "TypeError" "comparing strings with non-ASCII characters is not supported")

-- The import of the module fails where `expected` is empty.
unfoldable pub require_bearer : String → Option String → Result Raised (Unit {0})
require_bearer expected none = err (http 401 "Missing or malformed Authorization header")
require_bearer expected (some authorization) =
    if not (starts_with authorization "Bearer ")
    then err (http 401 "Missing or malformed Authorization header")
    else compare_digest (remove_prefix "Bearer " authorization) expected >>= λ same.
        raise_if (not same) (http 401 "Invalid sidecar bearer token")
