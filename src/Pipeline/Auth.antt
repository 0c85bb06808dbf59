-- ===== src/Pipeline/Auth.antt =====
-- The bearer gate of app/auth.py against its specification.
use Prim.Native.String.{◌++◌ as str_append}
use text.Mathlib.Text.{starts_with}
use text.Mathlib.TextEquality.{starts_with_iff}
use text.Mathlib.TextLemmas.{nil-append, cons-append}
use text.Mathlib.TextPositions.{starts_with-append}
use rooftrace.Prelude.{
  true, Option, none, some, ◌≡◌, refl, ap, sym, ◌∙◌, ◌↔◌, String, str_eq, eq_iff, ok, arith,
}
use rooftrace.Pipeline.{is_ascii, remove_prefix, require_bearer}

remove_prefix-append : (p s : String) → remove_prefix p (str_append p s) ≡ s
remove_prefix-append String.[] s = nil-append s
remove_prefix-append (String.◌∷◌ c p) s = rw (cons-append c p s) (remove_prefix-append p s)

abbrev bearer : String
bearer = "Bearer "

accepts :
    (expected s : String)
    → s ≡ expected
    → is_ascii expected ≡ true
    → require_bearer expected (some (str_append bearer s)) ≡ ok tt
unfolding require_bearer
accepts expected s e ascii =
    let starts = starts_with-append bearer s in
    let tail = remove_prefix-append bearer s in
    let same = (eq_iff s expected).1 e in
    let ascii' : is_ascii s ≡ true = ap is_ascii e ∙ ascii in
    rw (starts, tail, ascii', ascii, same) refl

passes :
    (expected h : String)
    → require_bearer expected (some h) ≡ ok tt
    → (starts_with h bearer ≡ true)
      × (str_eq (remove_prefix bearer h) expected ≡ true)
      × (is_ascii expected ≡ true)
unfolding require_bearer
passes expected h ok_h = ground arith

-- A request passes exactly when its Authorization header is `Bearer `, in this spelling, followed by
-- the shared secret and no more, and the secret is ASCII; with any other header or none, and with a
-- secret that is not ASCII, it does not pass.
pub require_bearer_iff :
    (expected : String) (header : Option String)
    → (require_bearer expected header ≡ ok tt)
      ↔ ((header ≡ some (str_append "Bearer " expected)) × (is_ascii expected ≡ true))
unfolding require_bearer
require_bearer_iff expected none = (λ h. absurd (ground arith), λ (h, a). absurd (ground arith))
require_bearer_iff expected (some h) = (
  λ ok_h.
      let (starts, same, ascii) = passes expected h ok_h in
      let (u, e) = (starts_with_iff h bearer).0 starts in
      let tail : remove_prefix bearer h ≡ u =
        ap (remove_prefix bearer) (sym e) ∙ remove_prefix-append bearer u in
      (ap some (sym e ∙ ap (str_append bearer) (sym tail ∙ (eq_iff _ _).0 same)), ascii),
  λ (e, ascii). ap (require_bearer expected) e ∙ accepts expected expected refl ascii,
)
