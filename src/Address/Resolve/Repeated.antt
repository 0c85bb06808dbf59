-- ===== src/Address/Resolve/Repeated.antt =====
-- An address that is resolved again, while nothing in the caches has expired.
use rooftrace.Prelude.{
  ◌≡◌, refl, true, Option, none, some, List, [], ◌∷◌, map, String, ok, err, Result, Raised, arith,
  inl, inr, ap, ◌>>=◌, ◌∙◌, Bool,
}
use rooftrace.Float.{Float}
use rooftrace.Contracts.{AttributionItem, ResolveAddressResponse, Polygon, new_address}
use rooftrace.Address.Cache.{entry}
use rooftrace.Address.Json.{Json}
use rooftrace.Address.Nominatim.{GeocodedLocation}
use rooftrace.Address.Regrid.{RegridParcel}
use rooftrace.Address.Lookup.{
  State, Formats, Clients, Clock, FoundParcel, find_location, find_parcel, find_footprints,
}
use rooftrace.Address.Resolve.{
  response_of, address_of, polygons_from, parcel_polygon_of, respond, resolve,
}
use rooftrace.Address.Cache.Live.{IsLive}
use rooftrace.Address.Lookup.Kept.{
  find_location-entry, find_parcel-IsKept, find_footprints-AreKept, find_location-live,
  find_parcel-live, find_footprints-live,
}
use rooftrace.Address.Resolve.Steps.{Steps, resolve-Steps, respond-parts}

-- What a response says apart from when its sources were asked
abbrev untimed_item : AttributionItem → AttributionItem
untimed_item item = record {
  name = item.name;
  license = item.license;
  url = item.url;
  retrieved_at = none;
}

abbrev pub untimed : {F : Type 0} → ResolveAddressResponse F → ResolveAddressResponse F
untimed r = record {
  schema_version = r.schema_version;
  geocode = r.geocode;
  parcel_polygon = r.parcel_polygon;
  building_polygons = r.building_polygons;
  attribution = map untimed_item r.attribution;
  warnings = r.warnings;
}

-- Two statements, and then a value: what it is `by` another function
>>=-along :
    {A B C : Type 0} (first : Result Raised A) (second : Result Raised B) (made by : A → B → C)
    (along : C → C) (value : C)
    → ((a : A) (b : B) → by a b ≡ along (made a b))
    → (first >>= λ a. second >>= λ b. ok (made a b)) ≡ ok value
    → (first >>= λ a. second >>= λ b. ok (by a b)) ≡ ok (along value)
>>=-along (err e) second made by along value same h = absurd (ground arith)
>>=-along (ok a) (err e) made by along value same h = absurd (ground arith)
>>=-along (ok a) (ok b) made by along value same h =
    let made_value : made a b ≡ value = cc in ap ok (same a b ∙ ap along made_value)

module _ {F : Type 0} ⦃fl : Float F⦄ (formats : Formats F) (clients clients' : Clients F)
    (clock clock' : Clock F) where
  abbrev kept_parcel : RegridParcel F → FoundParcel F
  kept_parcel parcel = record { parcel = some parcel; cached = true; warnings = [] }

  respond-untimed :
      (raw : String) (geo : GeocodedLocation F) (geo_cached : Bool) (found : FoundParcel F)
      (parcel : RegridParcel F) (polygon : Option (Polygon F)) (footprints : List (Json F))
      (footprints_cached : Bool) (r : ResolveAddressResponse F)
      → respond formats clients clock raw geo geo_cached found polygon footprints footprints_cached
        ≡ ok r
      → found.parcel ≡ some parcel
      → found.warnings ≡ []
      → respond formats clients' clock' raw geo true (kept_parcel parcel) polygon footprints true
        ≡ ok (untimed r)
  unfolding respond
  respond-untimed raw geo geo_cached found parcel polygon [] footprints_cached r h there quiet =
      absurd (ground arith)
  respond-untimed raw geo geo_cached found parcel polygon (coords ∷ more) footprints_cached r h
        there quiet =
      >>=-along (polygons_from formats (coords ∷ more))
        (new_address (address_of formats clients clock raw geo))
        (response_of formats clients clock geo_cached footprints_cached found polygon)
        (response_of formats clients' clock' true true (kept_parcel parcel) polygon) untimed r
        (λ polygons address. rw (there, quiet) refl) h

  -- A resolution by its steps, none of which changes the state
  resolve-found :
      (st : State F) (raw : String) (geo : GeocodedLocation F) (parcel : RegridParcel F)
      (polygon : Option (Polygon F)) (footprints : List (Json F)) (r : ResolveAddressResponse F)
      → find_location formats clients' clock' st raw ≡ (ok (geo, true), st)
      → find_parcel formats clients' clock' st geo ≡ (ok (kept_parcel parcel), st)
      → parcel_polygon_of formats (some parcel) ≡ ok polygon
      → find_footprints formats clients' clock' st raw geo (some parcel)
        ≡ (ok (footprints, true), st)
      → respond formats clients' clock' raw geo true (kept_parcel parcel) polygon footprints true
        ≡ ok r
      → resolve formats clients' clock' st raw ≡ (ok r, st)
  unfolding resolve
  resolve-found st raw geo parcel polygon footprints r located found made listed answered =
      rw (located, found, made, listed, answered) refl

  no_parcel_polygon : parcel_polygon_of formats none ≡ ok none
  unfolding parcel_polygon_of
  no_parcel_polygon = refl

  untimed_lem :
      (st st' : State F) (raw : String) (r : ResolveAddressResponse F) (polygon : Polygon F)
      (geo : GeocodedLocation F) (st1 : State F) (found : FoundParcel F) (st2 : State F)
      (footprints : List (Json F))
      → Steps formats clients clock st st' raw r geo st1 found st2 footprints
      → r.parcel_polygon ≡ some polygon
      → IsLive clock'.at_geocode_get st'.geocodes
      → IsLive clock'.at_parcel_get st'.parcels
      → IsLive clock'.at_footprint_get st'.footprints
      → resolve formats clients' clock' st' raw ≡ (ok (untimed r), st')
  untimed_lem st st' raw r polygon geo st1 found st2 footprints
        (geo_cached, pp, cached, located, found_parcel, made, listed, answered) there live
        live_parcels live_footprints =
      let (expiry, entry1) =
        find_location-entry formats clients clock st st1 raw geo geo_cached located in
      let (same1, kept) = find_parcel-IsKept formats clients clock st1 st2 geo found found_parcel in
      let (same2, same3, (expiry3, entry3)) =
        find_footprints-AreKept formats clients clock st2 st' raw geo found.parcel footprints cached
          listed in
      let entry1' : entry st'.geocodes (formats.normalize raw) ≡ some (geo, expiry) =
        rw (same2, same1) entry1 in
      let (polygons, built, same_raw, shown, same_warnings) =
        respond-parts formats clients clock raw geo geo_cached found pp footprints cached r
          answered in
      elim kept [
        | inl (none_found, warned) ↦
            let made' = rw none_found at made in
            absurd (ground (arith, made', shown, there, no_parcel_polygon))
        | inr (parcel, expiry2, found_eq, quiet, entry2) ↦
            let entry2' : entry st'.parcels (formats.parcel_key geo.lat geo.lon)
                ≡ some (parcel, expiry2) =
              rw same3 entry2 in
            resolve-found st' raw geo parcel pp footprints (untimed r)
              (find_location-live formats clients' clock' st' raw geo expiry entry1' live)
              (find_parcel-live formats clients' clock' st' geo parcel expiry2 entry2' live_parcels)
              (rw found_eq at made)
              (find_footprints-live formats clients' clock' st' raw geo (some parcel) footprints
                expiry3 entry3 live_footprints)
              (respond-untimed raw geo geo_cached found parcel pp footprints cached r answered
                found_eq quiet)
      ]

  -- Where an address was resolved with a parcel, it is resolved again from the caches alone while nothing
  -- in them has expired: whatever the clients would answer then, the response is the same but for the
  -- retrieval times of its sources, which it leaves out, and no cache changes.
  pub resolve-untimed :
      (st st' : State F) (raw : String) (r : ResolveAddressResponse F) (polygon : Polygon F)
      → resolve formats clients clock st raw ≡ (ok r, st')
      → r.parcel_polygon ≡ some polygon
      → IsLive clock'.at_geocode_get st'.geocodes
      → IsLive clock'.at_parcel_get st'.parcels
      → IsLive clock'.at_footprint_get st'.footprints
      → resolve formats clients' clock' st' raw ≡ (ok (untimed r), st')
  resolve-untimed st st' raw r polygon h there live live_parcels live_footprints =
      let (geo, st1, found, st2, footprints, steps) =
        resolve-Steps formats clients clock st st' raw r h in
      untimed_lem st st' raw r polygon geo st1 found st2 footprints steps there live live_parcels
        live_footprints
