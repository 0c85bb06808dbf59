-- ===== src/Address/Footprints/Order.antt =====
-- The order in which ms_footprints.py returns footprints: `list.sort` on their scores.
use rooftrace.Prelude.{
  ◌≡◌, Bool, true, false, List, [], ◌∷◌, String, arith, All, Any, Bool-cases, inl, inr,
}
use rooftrace.Float.{Float, IsOrdered}
use rooftrace.Planefit.Shapely.{Shapely}
use rooftrace.Address.Footprints.{Shapes, Scored, comes_before, insert_scored, nearest_first}

module _ {F G : Type 0} ⦃fl : Float F⦄ (sh : Shapely F G) (shapes : Shapes F G)
    (is_shape_error : String → Bool) (ord : IsOrdered F)
    (eq_le : (x y : F) → fl.eq x y ≡ true → (fl.le x y ≡ true) × (fl.le y x ≡ true)) where
  open ord use {le_trans, lt-eq-not-le, le_total}

  abbrev before : Scored F → Scored F → Bool
  before = comes_before sh shapes is_shape_error

  -- Along the list no footprint is nearer than one before it.
  abbrev pub IsNearestFirst : List (Scored F) → Type 0
  IsNearestFirst [] = Unit
  IsNearestFirst (x ∷ xs) = All (λ y. fl.le x.distance y.distance ≡ true) xs × IsNearestFirst xs

  before-le : (x y : Scored F) → before y x ≡ true → fl.le y.distance x.distance ≡ true
  before-le x y h = ground (
    arith,
    eq_le y.distance x.distance,
    lt-eq-not-le y.distance x.distance,
    le_total x.distance y.distance,
  )

  not_before-le : (x y : Scored F) → before y x ≡ false → fl.le x.distance y.distance ≡ true
  not_before-le x y h = ground (
    arith,
    eq_le y.distance x.distance,
    lt-eq-not-le y.distance x.distance,
    le_total x.distance y.distance,
  )

  insert_scored-All :
      (P : Scored F → Type 0) (x : Scored F) (ys : List (Scored F))
      → P x
      → All P ys
      → All P (insert_scored sh shapes is_shape_error x ys)
  unfolding insert_scored
  insert_scored-All P x [] h t = (h, tt)
  insert_scored-All P x (y ∷ ys) h (hy, t) = elim (Bool-cases (before y x)) [
    | inl e ↦ rw e (hy, insert_scored-All P x ys h t)
    | inr e ↦ rw e (h, (hy, t))
  ]

  insert_scored-here :
      (P : Scored F → Type 0) (x : Scored F) (ys : List (Scored F))
      → P x
      → Any P (insert_scored sh shapes is_shape_error x ys)
  unfolding insert_scored
  insert_scored-here P x [] h = inl h
  insert_scored-here P x (y ∷ ys) h = elim (Bool-cases (before y x)) [
    | inl e ↦ rw e (inr (insert_scored-here P x ys h))
    | inr e ↦ rw e (inl h)
  ]

  insert_scored-there :
      (P : Scored F → Type 0) (x : Scored F) (ys : List (Scored F))
      → Any P ys
      → Any P (insert_scored sh shapes is_shape_error x ys)
  unfolding insert_scored
  insert_scored-there P x [] h = elim h [ ]
  insert_scored-there P x (y ∷ ys) h = elim (Bool-cases (before y x)) [
    | inl e ↦ rw e (elim h [ inl p ↦ inl p | inr t ↦ inr (insert_scored-there P x ys t) ])
    | inr e ↦ rw e (inr h)
  ]

  pub nearest_first-All :
      (P : Scored F → Type 0) (xs : List (Scored F))
      → All P xs
      → All P (nearest_first sh shapes is_shape_error xs)
  unfolding nearest_first
  nearest_first-All P [] t = tt
  nearest_first-All P (x ∷ xs) (h, t) =
      insert_scored-All P x (nearest_first sh shapes is_shape_error xs) h (nearest_first-All P xs t)

  pub nearest_first-Any :
      (P : Scored F → Type 0) (xs : List (Scored F))
      → Any P xs
      → Any P (nearest_first sh shapes is_shape_error xs)
  unfolding nearest_first
  nearest_first-Any P [] h = elim h [ ]
  nearest_first-Any P (x ∷ xs) (inl h) =
      insert_scored-here P x (nearest_first sh shapes is_shape_error xs) h
  nearest_first-Any P (x ∷ xs) (inr t) =
      insert_scored-there P x (nearest_first sh shapes is_shape_error xs) (nearest_first-Any P xs t)

  All-farther :
      (a b : F) (ys : List (Scored F))
      → fl.le a b ≡ true
      → All (λ y. fl.le b y.distance ≡ true) ys
      → All (λ y. fl.le a y.distance ≡ true) ys
  All-farther a b [] h t = tt
  All-farther a b (y ∷ ys) h (hy, t) = (le_trans a b y.distance h hy, All-farther a b ys h t)

  insert_scored-IsNearestFirst :
      (x : Scored F) (ys : List (Scored F))
      → IsNearestFirst ys
      → IsNearestFirst (insert_scored sh shapes is_shape_error x ys)
  unfolding insert_scored
  insert_scored-IsNearestFirst x [] t = (tt, tt)
  insert_scored-IsNearestFirst x (y ∷ ys) (h, t) = elim (Bool-cases (before y x)) [
    | inl e ↦ rw e (
      insert_scored-All (λ z. fl.le y.distance z.distance ≡ true) x ys (before-le x y e) h,
      insert_scored-IsNearestFirst x ys t,
    )
    | inr e ↦
        let near = not_before-le x y e in
        rw e ((near, All-farther x.distance y.distance ys near h), (h, t))
  ]

  pub nearest_first-IsNearestFirst :
      (xs : List (Scored F)) → IsNearestFirst (nearest_first sh shapes is_shape_error xs)
  unfolding nearest_first
  nearest_first-IsNearestFirst [] = tt
  nearest_first-IsNearestFirst (x ∷ xs) =
      insert_scored-IsNearestFirst x (nearest_first sh shapes is_shape_error xs)
        (nearest_first-IsNearestFirst xs)
