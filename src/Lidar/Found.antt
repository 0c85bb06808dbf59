-- ===== src/Lidar/Found.antt =====
-- Which cloud hops 1 and 2 of app/lidar/ingest.py crop: the URLs of the index are tried first, then the
-- covering work units, and only an EptNotFound goes on to the next.
use rooftrace.Prelude.{
  ◌≡◌, refl, true, Option, none, some, List, [], ◌∷◌, ◌++◌, arith, String, Result, ok, err, Raised,
  >>=-eq-ok, Bool-cases, Result-cases, All, inl, inr, ◌⊎◌, ap,
}
use rooftrace.Float.{Float}
use rooftrace.Planefit.Shapely.{Pyproj}
use rooftrace.Lidar.Wesm.{WorkUnit}
use rooftrace.Lidar.Ingest.{
  CroppedCloud, Arrays, IngestCalls, is_ept_not_found, try_urls, try_units, find_cloud,
}

-- The cropper says that there is no such resource.
abbrev pub IsNotFound : {F : Type 0} → Result Raised (CroppedCloud F) → Type 0
IsNotFound r = (e : Raised) × (r ≡ err e) × (is_ept_not_found e ≡ true)

-- `x` is the first of the list that is found, and its cloud is `cloud`.
abbrev pub IsFirstOf :
    {F A : Type 0} → (A → Result Raised (CroppedCloud F)) → List A → A → CroppedCloud F → Type 0
IsFirstOf {A = A} crop xs x cloud =
    (before : List A) × (after : List A) × (xs ≡ before ++ x ∷ after)
    × All (λ y. IsNotFound (crop y)) before
    × (crop x ≡ ok cloud)

IsFirstOf-cons :
    {F A : Type 0} (crop : A → Result Raised (CroppedCloud F)) (y : A) (xs : List A) (x : A)
    (cloud : CroppedCloud F)
    → IsNotFound (crop y)
    → IsFirstOf crop xs x cloud
    → IsFirstOf crop (y ∷ xs) x cloud
IsFirstOf-cons crop y xs x cloud absent (before, after, e, all, found) =
    (y ∷ before, after, ap (λ l. y ∷ l) e, (absent, all), found)

module _ {F S : Type 0} ⦃fl : Float F⦄ (np : Arrays F) (pj : Pyproj F)
    (calls : IngestCalls F S) where
  try_urls-IsFirstOf :
      (w : WorkUnit F) (urls : List String) (found : Option (CroppedCloud F))
      → try_urls np pj calls w urls ≡ ok found
      → ((found ≡ none) × All (λ u. IsNotFound (calls.crop w (some u))) urls)
        ⊎ ((url : String) × (cloud : CroppedCloud F) × (found ≡ some cloud)
            × IsFirstOf (λ u. calls.crop w (some u)) urls url cloud)
  unfolding try_urls
  try_urls-IsFirstOf w [] found h = inl (ground (arith, h), tt)
  try_urls-IsFirstOf w (url ∷ urls) found h = elim (Result-cases (calls.crop w (some url))) [
    | inl (e, failed) ↦ elim (Bool-cases (is_ept_not_found e)) [
      | inl absent ↦ elim (try_urls-IsFirstOf w urls found (rw (failed, absent, try_urls) at h)) [
        | inl (nothing, all) ↦ inl (nothing, ((e, failed, absent), all))
        | inr (u, cloud, some_found, first) ↦ inr (
          u,
          cloud,
          some_found,
          IsFirstOf-cons (λ v. calls.crop w (some v)) url urls u cloud (e, failed, absent) first,
        )
      ]
      | inr other_error ↦
          let bad = rw (failed, other_error, try_urls) at h in absurd (ground (arith, bad))
    ]
    | inr (cloud, cropped) ↦
        let here = rw (cropped, try_urls) at h in
        inr (url, cloud, ground (arith, here), ([], urls, refl, tt, cropped))
  ]

  try_units-IsFirstOf :
      (covering : List (WorkUnit F)) (found : Option (CroppedCloud F × WorkUnit F))
      → try_units np pj calls covering ≡ ok found
      → ((found ≡ none) × All (λ v. IsNotFound (calls.crop v none)) covering)
        ⊎ ((w : WorkUnit F) × (cloud : CroppedCloud F) × (found ≡ some (cloud, w))
            × IsFirstOf (λ v. calls.crop v none) covering w cloud)
  unfolding try_units
  try_units-IsFirstOf [] found h = inl (ground (arith, h), tt)
  try_units-IsFirstOf (v ∷ vs) found h = elim (Result-cases (calls.crop v none)) [
    | inl (e, failed) ↦ elim (Bool-cases (is_ept_not_found e)) [
      | inl absent ↦ elim (try_units-IsFirstOf vs found (rw (failed, absent, try_units) at h)) [
        | inl (nothing, all) ↦ inl (nothing, ((e, failed, absent), all))
        | inr (w, cloud, some_found, first) ↦ inr (
          w,
          cloud,
          some_found,
          IsFirstOf-cons (λ u. calls.crop u none) v vs w cloud (e, failed, absent) first,
        )
      ]
      | inr other_error ↦
          let bad = rw (failed, other_error, try_units) at h in absurd (ground (arith, bad))
    ]
    | inr (cloud, cropped) ↦
        let here = rw (cropped, try_units) at h in
        inr (v, cloud, ground (arith, here), ([], vs, refl, tt, cropped))
  ]

  -- No URL has a resource for the first unit.
  abbrev pub IsUnresolved : WorkUnit F → List String → Type 0
  IsUnresolved first urls = All (λ u. IsNotFound (calls.crop first (some u))) urls

  -- Neither a URL nor the name of a covering unit has a resource.
  abbrev pub IsNowhere : WorkUnit F → List (WorkUnit F) → List String → Type 0
  IsNowhere first covering urls =
      IsUnresolved first urls × All (λ v. IsNotFound (calls.crop v none)) covering

  -- The cloud of the unit `w`: the first unit's, by the first URL that has a resource; where none has,
  -- that of the first covering unit that has one by its name.
  abbrev pub IsCropped :
      WorkUnit F → List (WorkUnit F) → List String → WorkUnit F → CroppedCloud F → Type 0
  IsCropped first covering urls w cloud =
      ((url : String) × (w ≡ first) × IsFirstOf (λ u. calls.crop first (some u)) urls url cloud)
      ⊎ (IsUnresolved first urls × IsFirstOf (λ v. calls.crop v none) covering w cloud)

  pub find_cloud-IsCropped :
      (first : WorkUnit F) (covering : List (WorkUnit F)) (urls : List String)
      (found : Option (CroppedCloud F × WorkUnit F))
      → find_cloud np pj calls first covering urls ≡ ok found
      → ((found ≡ none) × IsNowhere first covering urls)
        ⊎ ((w : WorkUnit F) × (cloud : CroppedCloud F) × (found ≡ some (cloud, w))
            × IsCropped first covering urls w cloud)
  unfolding find_cloud
  find_cloud-IsCropped first covering urls found h =
      let (tried, urls_tried, h1) = >>=-eq-ok (try_urls np pj calls first urls) _ h in
      elim (try_urls-IsFirstOf first urls tried urls_tried) [
        | inl (nothing, unresolved) ↦ elim (try_units-IsFirstOf covering found (rw nothing at h1)) [
          | inl (none_found, all) ↦ inl (none_found, (unresolved, all))
          | inr (w, cloud, some_found, here) ↦ inr (w, cloud, some_found, inr (unresolved, here))
        ]
        | inr (url, cloud, resolved, here) ↦
            let h2 = rw resolved at h1 in
            inr (first, cloud, ground (arith, h2), inl (url, refl, here))
      ]
