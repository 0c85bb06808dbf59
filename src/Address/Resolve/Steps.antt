-- ===== src/Address/Resolve/Steps.antt =====
-- The steps of `resolve` (app/resolve_address/service.py), and the parts of the response they make.
use rooftrace.Prelude.{
  ◌≡◌, ◌≤◌, refl, Bool, Option, some, List, [], ◌∷◌, length, String, ok, err, Result, Raised, arith,
  >>=-eq-ok, ap, ◌∙◌, sym,
}
use mathlib.Core.Path.{subst}
use rooftrace.Float.{Float}
use rooftrace.Contracts.{
  ResolveAddressResponse, Polygon, Address, imagery, new_address, new_polygon,
}
use rooftrace.Address.Json.{Json}
use rooftrace.Address.Nominatim.{GeocodedLocation}
use rooftrace.Address.Lookup.{
  State, Formats, Clients, Clock, Run, and_then, pure_step, FoundParcel, find_location, find_parcel,
  find_footprints,
}
use rooftrace.Address.Resolve.{
  response_of, address_of, polygon_from_coords, polygons_from, parcel_polygon_of, respond, resolve,
}

module _ {F A B : Type 0} where
  and_then-eq-ok :
      (first : Run F A) (next : A → State F → Run F B) (value : B) (st : State F)
      → and_then first next ≡ (ok value, st)
      → (a : A) × (st' : State F) × (first ≡ (ok a, st')) × (next a st' ≡ (ok value, st))
  and_then-eq-ok (err e, st') next value st h = absurd (ground arith)
  and_then-eq-ok (ok a, st') next value st h = (a, st', refl, h)

  pure_step-eq-ok :
      (first : Result Raised A) (st' : State F) (next : A → Run F B) (value : B) (st : State F)
      → pure_step first st' next ≡ (ok value, st)
      → (a : A) × (first ≡ ok a) × (next a ≡ (ok value, st))
  pure_step-eq-ok (err e) st' next value st h = absurd (ground arith)
  pure_step-eq-ok (ok a) st' next value st h = (a, refl, h)

module _ {F : Type 0} ⦃fl : Float F⦄ (formats : Formats F) (clients : Clients F)
    (clock : Clock F) where
  new_address-same : (a b : Address F) → new_address a ≡ ok b → b ≡ a
  unfolding new_address
  new_address-same a b h = ground (arith, h)

  -- A polygon of the contract with the rings that the coordinates have
  abbrev pub IsMadeOf : Json F → Polygon F → Type 0
  IsMadeOf coords polygon =
      (formats.rings coords ≡ ok polygon.coordinates)
      × (polygon.source ≡ some imagery)
      × (polygon.confidence ≡ some (fl.num 9 1))

  abbrev pub AreMadeOf : List (Json F) → List (Polygon F) → Type 0
  AreMadeOf [] [] = Unit
  AreMadeOf [] (p ∷ ps) = ⊥
  AreMadeOf (c ∷ cs) [] = ⊥
  AreMadeOf (c ∷ cs) (p ∷ ps) = IsMadeOf c p × AreMadeOf cs ps

  new_polygon-same : (p q : Polygon F) → new_polygon p ≡ ok q → p ≡ q
  unfolding new_polygon
  new_polygon-same p q h = ground (arith, h)

  pub polygon_from_coords-IsMadeOf :
      (coords : Json F) (polygon : Polygon F)
      → polygon_from_coords formats coords ≡ ok polygon
      → IsMadeOf coords polygon
  unfolding polygon_from_coords
  polygon_from_coords-IsMadeOf coords polygon h =
      let (rings, read, h1) = >>=-eq-ok (formats.rings coords) _ h in
      let same = new_polygon-same _ polygon h1 in
      (
        read ∙ ap (λ p. ok p.coordinates) same,
        ap (λ p. p.source) (sym same),
        ap (λ p. p.confidence) (sym same),
      )

  polygons_from-AreMadeOf :
      (footprints : List (Json F)) (polygons : List (Polygon F))
      → polygons_from formats footprints ≡ ok polygons
      → AreMadeOf footprints polygons
  unfolding polygons_from
  polygons_from-AreMadeOf [] polygons h =
      let same : [] ≡ polygons = cc in subst (AreMadeOf []) same tt
  polygons_from-AreMadeOf (coords ∷ more) polygons h =
      let (polygon, made, h1) = >>=-eq-ok (polygon_from_coords formats coords) _ h in
      let (rest, made_rest, h2) = >>=-eq-ok (polygons_from formats more) _ h1 in
      let same : polygon ∷ rest ≡ polygons = cc in
      subst (AreMadeOf (coords ∷ more)) same (
        polygon_from_coords-IsMadeOf coords polygon made,
        polygons_from-AreMadeOf more rest made_rest,
      )

  AreMadeOf-some :
      (coords : Json F) (more : List (Json F)) (polygons : List (Polygon F))
      → AreMadeOf (coords ∷ more) polygons
      → 1 ≤ length polygons
  AreMadeOf-some coords more [] h = elim h [ ]
  AreMadeOf-some coords more (p ∷ ps) h = omega arith

  -- The address that was asked for, at the position of its location
  abbrev pub IsLocated : String → GeocodedLocation F → Address F → Type 0
  IsLocated raw geo address =
      (address.raw ≡ raw)
      × (address.normalized ≡ some geo.formatted_address)
      × (address.lon ≡ some geo.lon)
      × (address.lat ≡ some geo.lat)

  -- The parts of the response, by the steps' results
  pub respond-parts :
      (raw : String) (geo : GeocodedLocation F) (geo_cached : Bool) (found : FoundParcel F)
      (polygon : Option (Polygon F)) (footprints : List (Json F)) (footprints_cached : Bool)
      (r : ResolveAddressResponse F)
      → respond formats clients clock raw geo geo_cached found polygon footprints footprints_cached
        ≡ ok r
      → (1 ≤ length r.building_polygons)
        × AreMadeOf footprints r.building_polygons
        × IsLocated raw geo r.geocode
        × (polygon ≡ r.parcel_polygon)
        × (r.warnings ≡ found.warnings)
  unfolding respond
  respond-parts raw geo geo_cached found polygon [] footprints_cached r h = absurd (ground arith)
  respond-parts raw geo geo_cached found polygon (coords ∷ more) footprints_cached r h =
      let (polygons, made, h1) = >>=-eq-ok (polygons_from formats (coords ∷ more)) _ h in
      let (address, valid, h2) =
        >>=-eq-ok (new_address (address_of formats clients clock raw geo)) _ h1 in
      let same : response_of formats clients clock geo_cached footprints_cached found polygon
            polygons address
          ≡ r =
        cc in
      let built : polygons ≡ r.building_polygons = ap (λ x. x.building_polygons) same in
      let all_made =
        subst (AreMadeOf (coords ∷ more)) built
          (polygons_from-AreMadeOf (coords ∷ more) polygons made) in
      let kept : address ≡ address_of formats clients clock raw geo =
        new_address-same (address_of formats clients clock raw geo) address valid in
      let given = ap (λ x. x.geocode) (sym same) ∙ kept in
      (
        AreMadeOf-some coords more r.building_polygons all_made,
        all_made,
        (
          ap (λ a. a.raw) given,
          ap (λ a. a.normalized) given,
          ap (λ a. a.lon) given,
          ap (λ a. a.lat) given,
        ),
        ap (λ x. x.parcel_polygon) same,
        ap (λ x. x.warnings) (sym same),
      )

  -- The steps of a resolution that returned
  abbrev pub Steps :
      State F
      → State F
      → String
      → ResolveAddressResponse F
      → GeocodedLocation F
      → State F
      → FoundParcel F
      → State F
      → List (Json F)
      → Type 0
  Steps st st' raw r geo st1 found st2 footprints =
      (geo_cached : Bool) × (polygon : Option (Polygon F)) × (cached : Bool) × (find_location
          formats clients clock st raw
        ≡ (ok (geo, geo_cached), st1))
      × (find_parcel formats clients clock st1 geo ≡ (ok found, st2))
      × (parcel_polygon_of formats found.parcel ≡ ok polygon)
      × (find_footprints formats clients clock st2 raw geo found.parcel
          ≡ (ok (footprints, cached), st'))
      × (respond formats clients clock raw geo geo_cached found polygon footprints cached ≡ ok r)

  pub resolve-Steps :
      (st st' : State F) (raw : String) (r : ResolveAddressResponse F)
      → resolve formats clients clock st raw ≡ (ok r, st')
      → (geo : GeocodedLocation F) × (st1 : State F) × (found : FoundParcel F) × (st2 : State F)
        × (footprints : List (Json F)) × Steps st st' raw r geo st1 found st2 footprints
  unfolding resolve
  resolve-Steps st st' raw r h =
      let ((geo, geo_cached), st1, located, h1) =
        and_then-eq-ok (find_location formats clients clock st raw) _ _ _ h in
      let (found, st2, found_parcel, h2) =
        and_then-eq-ok (find_parcel formats clients clock st1 geo) _ _ _ h1 in
      let (polygon, made, h3) =
        pure_step-eq-ok (parcel_polygon_of formats found.parcel) st2 _ _ _ h2 in
      let ((footprints, cached), st3, found_footprints, h4) =
        and_then-eq-ok (find_footprints formats clients clock st2 raw geo found.parcel) _ _ _ h3 in
      let answered : respond formats clients clock raw geo geo_cached found polygon footprints
            cached
          ≡ ok r =
        ap (λ x. x.0) h4 in
      (
        geo,
        st1,
        found,
        st2,
        footprints,
        (
          geo_cached,
          polygon,
          cached,
          located,
          found_parcel,
          made,
          found_footprints ∙ ap (λ x. (ok (footprints, cached), x.1)) h4,
          answered,
        ),
      )
