-- ===== src/Prelude/Results.antt =====
-- Python code that may raise, as a value: the exception or the result. A `do` block runs its
-- statements until one of them raises.
use mathlib.Core.Path.{◌≡◌, refl}
use mathlib.Core.Logic.{◌⊎◌, inl, inr}
use mathlib.Core.Bool.{Bool, true, false}

pub data Result {ℓ κ} (E : Type ℓ) (A : Type κ) : Type (ℓ ⊔ κ) where
  err : E → Result E A
  ok : A → Result E A

-- `if bad: raise e`
abbrev pub raise_if {ℓ} : {E : Type ℓ} → Bool → E → Result E (Unit {0})
raise_if false e = ok tt
raise_if true e = err e

-- `try: m except E as e: raise f(e)`
abbrev pub map_err {ℓ κ μ} :
    {E : Type ℓ} {F : Type κ} {A : Type μ} → (E → F) → Result E A → Result F A
map_err f (err e) = err (f e)
map_err f (ok a) = ok a

-- The next statement, with the value of the one before it.
abbrev pub ◌>>=◌ {ℓ κ μ} :
    {Raised : Type ℓ} {A : Type κ} {B : Type μ}
    → Result Raised A
    → (A → Result Raised B)
    → Result Raised B

infixl 5 ◌>>=◌
err raised >>= next = err raised
ok value >>= next = next value

-- A sequence of statements returned: the first one did, and the rest did on its value.
pub >>=-eq-ok {ℓ κ μ} :
    {Raised : Type ℓ} {A : Type κ} {B : Type μ} (first : Result Raised A)
    (next : A → Result Raised B) {result : B}
    → (first >>= next) ≡ ok result
    → (value : A) × (first ≡ ok value) × (next value ≡ ok result)
>>=-eq-ok (err raised) next returned = cc
>>=-eq-ok (ok value) next returned = (value, refl, returned)

pub Result-cases {ℓ κ} :
    {E : Type ℓ} {A : Type κ} (r : Result E A)
    → ((raised : E) × (r ≡ err raised)) ⊎ ((value : A) × (r ≡ ok value))
Result-cases (err raised) = inl (raised, refl)
Result-cases (ok value) = inr (value, refl)

-- A computation that returns does so with `P`, and one that raises, with `Q`.
abbrev pub Outcome {ℓ κ} :
    {E : Type ℓ} {A : Type κ} → (A → Type 0) → (E → Type 0) → Result E A → Type 0
Outcome P Q (err raised) = Q raised
Outcome P Q (ok value) = P value

module _ {ℓ κ μ} {E : Type ℓ} {A : Type κ} {B : Type μ} (P : B → Type 0) (Q : E → Type 0) where
  pub Outcome->>= :
      (first : Result E A) (next : A → Result E B)
      → ((raised : E) → first ≡ err raised → Q raised)
      → ((value : A) → first ≡ ok value → Outcome P Q (next value))
      → Outcome P Q (first >>= next)
  Outcome->>= (err raised) next bad good = bad raised refl
  Outcome->>= (ok value) next bad good = good value refl

  pub Outcome-map_err {ν} :
      {D : Type ν} (handler : D → E) (first : Result D A) (next : A → Result E B)
      → ((raised : D) → first ≡ err raised → Q (handler raised))
      → ((value : A) → first ≡ ok value → Outcome P Q (next value))
      → Outcome P Q (map_err handler first >>= next)
  Outcome-map_err handler (err raised) next bad good = bad raised refl
  Outcome-map_err handler (ok value) next bad good = good value refl

pub Outcome-weaken {ℓ κ} :
    {E : Type ℓ} {A : Type κ} (P : A → Type 0) (Q R : E → Type 0) (r : Result E A)
    → ((raised : E) → Q raised → R raised)
    → Outcome P Q r
    → Outcome P R r
Outcome-weaken P Q R (err raised) weaker q = weaker raised q
Outcome-weaken P Q R (ok value) weaker p = p
