-- ===== src/Lidar/Wesm.antt =====
-- app/lidar/wesm.py: the coverage index of work units.
use rooftrace.Prelude.{
  ℕ, ◌≤◌, ◌≡◌, refl, Bool, true, not, ◌||◌, Option, none, some, List, [], ◌∷◌, arith, leb,
  if◌then◌else◌, String, keep, All, Bool-cases, inl, inr, leb→le, length,
}
use rooftrace.Float.{Float}

-- west, south, east, north
pub record Bbox (F : Type 0) : Type 0 where
  pub west : F
  pub south : F
  pub east : F
  pub north : F

pub record WorkUnit (F : Type 0) : Type 0 where
  pub name : String
  pub bbox : Bbox F
  pub epsg : ℕ
  pub year : Option ℕ
  pub quality_level : Option String
  pub copc_url : Option String

-- `w.year or 0`
abbrev pub year_or_zero : {F : Type 0} → WorkUnit F → ℕ
year_or_zero w = elim w.year [ none ↦ 0 | some y ↦ y ]

-- `sorted(hits, key=lambda w: (w.year or 0), reverse=True)`, which keeps the order of equal years
unfoldable pub insert_unit : {F : Type 0} → WorkUnit F → List (WorkUnit F) → List (WorkUnit F)
insert_unit u [] = u ∷ []
insert_unit u (v ∷ vs) =
    let rest = insert_unit u vs in
    if leb (year_or_zero v) (year_or_zero u) then u ∷ v ∷ vs else v ∷ rest

unfoldable pub newest_first : {F : Type 0} → List (WorkUnit F) → List (WorkUnit F)
unfolding insert_unit
newest_first [] = []
newest_first (u ∷ us) = insert_unit u (newest_first us)

module _ {F : Type 0} ⦃fl : Float F⦄ where
  open fl use {lt}

  unfoldable pub bbox_intersects : Bbox F → Bbox F → Bool
  bbox_intersects a b =
      not (lt a.east b.west || lt b.east a.west || lt a.north b.south || lt b.north a.south)

  -- `FixtureWesmIndex.query`
  unfoldable pub query : List (WorkUnit F) → Bbox F → List (WorkUnit F)
  unfolding newest_first bbox_intersects
  query work_units bbox = newest_first (keep (λ w. bbox_intersects w.bbox bbox) work_units)

  -- The years do not increase along the list.
  abbrev pub IsNewestFirst : List (WorkUnit F) → Type 0
  IsNewestFirst [] = Unit
  IsNewestFirst (u ∷ us) = All (λ v. year_or_zero v ≤ year_or_zero u) us × IsNewestFirst us

  insert_unit-All :
      (P : WorkUnit F → Type 0) (u : WorkUnit F) (vs : List (WorkUnit F))
      → P u
      → All P vs
      → All P (insert_unit u vs)
  unfolding insert_unit
  insert_unit-All P u [] h t = (h, tt)
  insert_unit-All P u (v ∷ vs) h (hv, t) =
      elim (Bool-cases (leb (year_or_zero v) (year_or_zero u))) [
        | inl e ↦ rw e (h, (hv, t))
        | inr e ↦ rw e (hv, insert_unit-All P u vs h t)
      ]

  All-below :
      (m n : ℕ) (vs : List (WorkUnit F))
      → m ≤ n
      → All (λ v. year_or_zero v ≤ m) vs
      → All (λ v. year_or_zero v ≤ n) vs
  All-below m n [] le t = tt
  All-below m n (v ∷ vs) le (h, t) = (omega arith, All-below m n vs le t)

  insert_unit-IsNewestFirst :
      (u : WorkUnit F) (vs : List (WorkUnit F))
      → IsNewestFirst vs
      → IsNewestFirst (insert_unit u vs)
  unfolding insert_unit
  insert_unit-IsNewestFirst u [] t = (tt, tt)
  insert_unit-IsNewestFirst u (v ∷ vs) (h, t) =
      elim (Bool-cases (leb (year_or_zero v) (year_or_zero u))) [
        | inl e ↦
            let le = leb→le (year_or_zero v) (year_or_zero u) e in
            rw e ((le, All-below (year_or_zero v) (year_or_zero u) vs le h), (h, t))
        | inr e ↦
            let le : year_or_zero u ≤ year_or_zero v = ground arith in
            rw e (
              insert_unit-All (λ w. year_or_zero w ≤ year_or_zero v) u vs le h,
              insert_unit-IsNewestFirst u vs t,
            )
      ]

  newest_first-IsNewestFirst : (us : List (WorkUnit F)) → IsNewestFirst (newest_first us)
  unfolding newest_first
  newest_first-IsNewestFirst [] = tt
  newest_first-IsNewestFirst (u ∷ us) =
      insert_unit-IsNewestFirst u (newest_first us) (newest_first-IsNewestFirst us)

  newest_first-All :
      (P : WorkUnit F → Type 0) (us : List (WorkUnit F)) → All P us → All P (newest_first us)
  unfolding newest_first
  newest_first-All P [] t = tt
  newest_first-All P (u ∷ us) (h, t) =
      insert_unit-All P u (newest_first us) h (newest_first-All P us t)

  keep-All : (p : WorkUnit F → Bool) (us : List (WorkUnit F)) → All (λ u. p u ≡ true) (keep p us)
  keep-All p [] = tt
  keep-All p (u ∷ us) = elim (Bool-cases (p u)) [
    | inl e ↦ rw e (e, keep-All p us)
    | inr e ↦ rw e (keep-All p us)
  ]

  keep-insert_unit :
      (p : WorkUnit F → Bool) (u : WorkUnit F) (vs : List (WorkUnit F))
      → length (keep p (insert_unit u vs)) ≡ length (keep p (u ∷ vs))
  unfolding insert_unit
  keep-insert_unit p u [] = refl
  keep-insert_unit p u (v ∷ vs) = elim (Bool-cases (leb (year_or_zero v) (year_or_zero u))) [
    | inl e ↦ rw e refl
    | inr e ↦ rw e (ground (arith, keep-insert_unit p u vs))
  ]

  keep-newest_first :
      (p : WorkUnit F → Bool) (us : List (WorkUnit F))
      → length (keep p (newest_first us)) ≡ length (keep p us)
  unfolding newest_first
  keep-newest_first p [] = refl
  keep-newest_first p (u ∷ us) =
      ground (arith, keep-insert_unit p u (newest_first us), keep-newest_first p us)

  -- The query returns the work units whose box intersects the given one, the newest first, where a
  -- unit without a year counts as the year 0: by any test, as many of them as the index has.
  pub query-IsNewestFirst :
      (work_units : List (WorkUnit F)) (bbox : Bbox F)
      → IsNewestFirst (query work_units bbox)
        × All (λ w. bbox_intersects w.bbox bbox ≡ true) (query work_units bbox)
        × ((p : WorkUnit F → Bool)
            → length (keep p (query work_units bbox))
              ≡ length (keep p (keep (λ w. bbox_intersects w.bbox bbox) work_units)))
  unfolding query
  query-IsNewestFirst work_units bbox =
      let hits = keep (λ w. bbox_intersects w.bbox bbox) work_units in
      (
        newest_first-IsNewestFirst hits,
        newest_first-All _ hits (keep-All (λ w. bbox_intersects w.bbox bbox) work_units),
        λ p. keep-newest_first p hits,
      )
