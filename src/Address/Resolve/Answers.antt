-- ===== src/Address/Resolve/Answers.antt =====
-- What a response of the resolver says.
use rooftrace.Prelude.{
  ◌≡◌, ◌≤◌, Option, none, some, List, [], ◌∷◌, length, String, ok, inl, inr, ◌⊎◌, >>=-eq-ok, ◌∙◌,
  sym, f_string,
}
use rooftrace.Float.{Float}
use rooftrace.Contracts.{ResolveAddressResponse, Polygon}
use rooftrace.Address.Cache.{entry}
use rooftrace.Address.Json.{Json}
use rooftrace.Address.Nominatim.{GeocodedLocation}
use rooftrace.Address.Regrid.{RegridParcel}
use rooftrace.Address.Lookup.{State, Formats, Clients, Clock, FoundParcel}
use rooftrace.Address.Resolve.{polygon_from_coords, parcel_polygon_of, resolve}
use rooftrace.Address.Lookup.Kept.{
  IsReason, find_location-entry, find_parcel-IsKept, find_footprints-AreKept,
}
use rooftrace.Address.Resolve.Steps.{
  IsMadeOf, AreMadeOf, IsLocated, Steps, resolve-Steps, respond-parts, polygon_from_coords-IsMadeOf,
}

module _ {F : Type 0} ⦃fl : Float F⦄ (formats : Formats F) (clients : Clients F)
    (clock : Clock F) where
  -- Without a parcel there is one warning, by what the client said; with one, which the cache then has, its
  -- polygon and no warning.
  abbrev pub IsExplained : State F → GeocodedLocation F → ResolveAddressResponse F → Type 0
  IsExplained st' geo r =
      ((r.parcel_polygon ≡ none)
        × ((why : String) × (r.warnings ≡ why ∷ [])
            × IsReason formats clients clock (clients.fetch_parcel geo.lat geo.lon) why))
      ⊎ ((parcel : RegridParcel F) × (expiry : F) × (polygon : Polygon F) × (entry st'.parcels
              (formats.parcel_key geo.lat geo.lon)
            ≡ some (parcel, expiry))
          × (r.parcel_polygon ≡ some polygon)
          × IsMadeOf formats clients clock parcel.polygon_coords polygon
          × (r.warnings ≡ []))

  no_parcel_polygon :
      (polygon : Option (Polygon F)) → parcel_polygon_of formats none ≡ ok polygon → polygon ≡ none
  unfolding parcel_polygon_of
  no_parcel_polygon polygon h = cc

  some_parcel_polygon :
      (parcel : RegridParcel F) (polygon : Option (Polygon F))
      → parcel_polygon_of formats (some parcel) ≡ ok polygon
      → (made : Polygon F) × (polygon ≡ some made)
        × IsMadeOf formats clients clock parcel.polygon_coords made
  unfolding parcel_polygon_of
  some_parcel_polygon parcel polygon h =
      let (made, valid, h1) = >>=-eq-ok (polygon_from_coords formats parcel.polygon_coords) _ h in
      (
        made,
        cc,
        polygon_from_coords-IsMadeOf formats clients clock parcel.polygon_coords made valid,
      )

  -- The response, against the state that the resolution leaves
  abbrev pub IsAnswerOf : State F → String → ResolveAddressResponse F → Type 0
  IsAnswerOf st' raw r =
      (geo : GeocodedLocation F) × (expiry : F) × (footprints : List (Json F))
      × (footprints_expiry : F) × (entry st'.geocodes (formats.normalize raw) ≡ some (geo, expiry))
      × IsLocated formats clients clock raw geo r.geocode
      × (entry st'.footprints (f_string ("ms:" ∷ formats.normalize raw ∷ []))
          ≡ some (footprints, footprints_expiry))
      × AreMadeOf formats clients clock footprints r.building_polygons
      × (1 ≤ length r.building_polygons)
      × IsExplained st' geo r

  answer_lem :
      (st st' : State F) (raw : String) (r : ResolveAddressResponse F) (geo : GeocodedLocation F)
      (st1 : State F) (found : FoundParcel F) (st2 : State F) (footprints : List (Json F))
      → Steps formats clients clock st st' raw r geo st1 found st2 footprints
      → IsAnswerOf st' raw r
  answer_lem st st' raw r geo st1 found st2 footprints
        (geo_cached, polygon, cached, located, found_parcel, made, listed, answered) =
      let (some_built, all_made, same_geocode, same_polygon, same_warnings) =
        respond-parts formats clients clock raw geo geo_cached found polygon footprints cached r
          answered in
      let (same_geocodes, kept) =
        find_parcel-IsKept formats clients clock st1 st2 geo found found_parcel in
      let (expiry, stored) =
        find_location-entry formats clients clock st st1 raw geo geo_cached located in
      let (same_geocodes', same_parcels, (footprints_expiry, footprints_stored)) =
        find_footprints-AreKept formats clients clock st2 st' raw geo found.parcel footprints cached
          listed in
      (
        geo,
        expiry,
        footprints,
        footprints_expiry,
        rw (same_geocodes', same_geocodes) stored,
        same_geocode,
        footprints_stored,
        all_made,
        some_built,
        elim kept [
          | inl (absent, (why, warned, reason)) ↦ inl (
            sym same_polygon ∙ no_parcel_polygon polygon (rw absent at made),
            (why, same_warnings ∙ warned, reason),
          )
          | inr (parcel, parcel_expiry, there, quiet, parcel_stored) ↦
              let (shape, is_shape, its_shape) =
                some_parcel_polygon parcel polygon (rw there at made) in
              inr (
                parcel,
                parcel_expiry,
                shape,
                rw same_parcels parcel_stored,
                sym same_polygon ∙ is_shape,
                its_shape,
                same_warnings ∙ quiet,
              )
        ],
      )

  -- A response has the address that was asked for, at the position that the cache of locations then has
  -- for it; at least one building polygon, and one for each of the footprints that the cache then has for
  -- it, in their order, with its rings; and either a polygon with the rings of the parcel that the cache
  -- then has for the position and no warning, or no such polygon and one warning: that there is no key,
  -- that Regrid found none, or with the text of the RegridError.
  pub resolve-IsAnswerOf :
      (st st' : State F) (raw : String) (r : ResolveAddressResponse F)
      → resolve formats clients clock st raw ≡ (ok r, st')
      → IsAnswerOf st' raw r
  resolve-IsAnswerOf st st' raw r h =
      let (geo, st1, found, st2, footprints, steps) =
        resolve-Steps formats clients clock st st' raw r h in
      answer_lem st st' raw r geo st1 found st2 footprints steps
