-- ===== src/Address/Lookup/Kept.antt =====
-- What the steps of the resolver keep in the caches, and what they find there.
use rooftrace.Prelude.{
  ◌≡◌, refl, Bool, true, Option, none, some, List, [], ◌∷◌, String, Result, ok, err, Raised, arith,
  Bool-cases, inl, inr, ◌⊎◌, ap, str_eq, sym, other, false, eq_iff, f_string,
}
use rooftrace.Float.{Float}
use rooftrace.Address.Cache.{entry, geocode_ttl, parcel_ttl, footprint_ttl}
use rooftrace.Address.Json.{Json}
use rooftrace.Address.Nominatim.{GeocodedLocation}
use rooftrace.Address.Dataset.{TileIndex}
use rooftrace.Address.Regrid.{RegridParcel}
use rooftrace.Address.Lookup.{
  coords_of_parcel, no_parcel, State, Formats, Clients, Clock, Run, FoundParcel, with_geocodes,
  with_parcels, with_footprints, geocoded, parcel_fetched, footprints_fetched, find_location,
  find_parcel, find_footprints, footprint_key,
}
use rooftrace.Address.Cache.Live.{IsLive, get-entry, get_cases, entry-set, entry_along}

module _ {F : Type 0} ⦃fl : Float F⦄ (formats : Formats F) where
  module _ (clients : Clients F) (clock : Clock F) where
    geocoded-entry :
        (st st' : State F) (key : String) (reply : Result Raised (GeocodedLocation F))
        (geo : GeocodedLocation F) (cached : Bool)
        → geocoded formats clients clock st key reply ≡ (ok (geo, cached), st')
        → (expiry : F) × (entry st'.geocodes key ≡ some (geo, expiry))
    geocoded-entry st st' key (err e) geo cached h = absurd (ground arith)
    geocoded-entry st st' key (ok found) geo cached h =
        let (expiry, there) =
          entry-set clock.at_geocode_set st.geocodes key found (fl.of_nat geocode_ttl) in
        (
          expiry,
          entry_along _ st'.geocodes key found geo expiry there (ap (λ r. r.1.geocodes) h) cc,
        )

    pub find_location-entry :
        (st st' : State F) (raw : String) (geo : GeocodedLocation F) (cached : Bool)
        → find_location formats clients clock st raw ≡ (ok (geo, cached), st')
        → (expiry : F) × (entry st'.geocodes (formats.normalize raw) ≡ some (geo, expiry))
    unfolding find_location
    find_location-entry st st' raw geo cached h =
        let key = formats.normalize raw in
        elim (get_cases clock.at_geocode_get st.geocodes key) [
          | inl (store', missed) ↦
              geocoded-entry (with_geocodes st store') st' key (clients.geocode raw) geo cached
                (rw missed at h)
          | inr (value, expiry, hit, there, fresh) ↦
              let h1 = rw hit at h in
              (
                expiry,
                entry_along st.geocodes st'.geocodes key value geo expiry there
                    (ap (λ r. r.1.geocodes) h1) cc,
              )
        ]

    -- The text of a warning, by what the client said: it found nothing, or was not asked for want of a
    -- key, or failed.
    abbrev pub IsReason : Result Raised (Option (RegridParcel F)) → String → Type 0
    IsReason reply why =
        ((reply ≡ ok none)
          × (clients.has_key ≡ true)
          × (why ≡ "parcel_unavailable: Regrid found no parcel for this location"))
        ⊎ ((reply ≡ ok none)
            × (clients.has_key ≡ false)
            × (why ≡ "parcel_unavailable: REGRID_API_KEY not set"))
        ⊎ ((m : String) × (reply ≡ err (other "RegridError" m))
            × (why ≡ f_string ("parcel_unavailable: " ∷ m ∷ [])))

    -- A parcel that was found is kept, and comes without a warning; one warning says why there is none.
    abbrev pub IsKept :
        State F
        → State F
        → String
        → Result Raised (Option (RegridParcel F))
        → FoundParcel F
        → Type 0
    IsKept st st' key reply found =
        (st'.geocodes ≡ st.geocodes)
        × (((found.parcel ≡ none)
              × ((why : String) × (found.warnings ≡ why ∷ []) × IsReason reply why))
            ⊎ ((parcel : RegridParcel F) × (expiry : F) × (found.parcel ≡ some parcel)
                × (found.warnings ≡ [])
                × (entry st'.parcels key ≡ some (parcel, expiry))))

    IsKept-none :
        (st st' : State F) (key why : String) (reply : Result Raised (Option (RegridParcel F)))
        (found : FoundParcel F)
        → IsReason reply why
        → ◌≡◌ {A = Run F (FoundParcel F)} (ok (no_parcel why), st) (ok found, st')
        → IsKept st st' key reply found
    IsKept-none st st' key why reply found reason h =
        let same : no_parcel why ≡ found = cc in
        (
          ap (λ r. r.1.geocodes) (sym h),
          inl (ap (λ p. p.parcel) (sym same), (why, ap (λ p. p.warnings) (sym same), reason)),
        )

    parcel_fetched-IsKept :
        (st st' : State F) (key : String) (reply : Result Raised (Option (RegridParcel F)))
        (found : FoundParcel F)
        → parcel_fetched formats clients clock st key reply ≡ (ok found, st')
        → IsKept st st' key reply found
    parcel_fetched-IsKept st st' key (ok (some parcel)) found h =
        let (expiry, there) =
          entry-set clock.at_parcel_set st.parcels key parcel (fl.of_nat parcel_ttl) in
        (
          ap (λ r. r.1.geocodes) (sym h),
          inr (
            parcel,
            expiry,
            cc,
            cc,
            entry_along _ st'.parcels key parcel parcel expiry there (ap (λ r. r.1.parcels) h) refl,
          ),
        )
    parcel_fetched-IsKept st st' key (ok none) found h = elim (Bool-cases clients.has_key) [
      | inl e ↦ IsKept-none st st' key _ (ok none) found (inl (refl, e, refl)) (rw e at h)
      | inr e ↦ IsKept-none st st' key _ (ok none) found (inr (inl (refl, e, refl))) (rw e at h)
    ]
    parcel_fetched-IsKept st st' key (err (other n m)) found h =
        elim (Bool-cases (str_eq n "RegridError")) [
          | inl e ↦
              let named = ap (λ x. err (other x m)) ((eq_iff n "RegridError").0 e) in
              IsKept-none st st' key _ (err (other n m)) found (inr (inr (m, named, refl)))
                (rw e at h)
          | inr e ↦ absurd (ground (arith, e, h))
        ]
    parcel_fetched-IsKept st st' key (err e) found h = absurd (ground (arith, h))

    pub find_parcel-IsKept :
        (st st' : State F) (geo : GeocodedLocation F) (found : FoundParcel F)
        → find_parcel formats clients clock st geo ≡ (ok found, st')
        → IsKept st st'
            (formats.parcel_key geo.lat geo.lon)
            (clients.fetch_parcel geo.lat geo.lon)
            found
    unfolding find_parcel
    find_parcel-IsKept st st' geo found h =
        let key = formats.parcel_key geo.lat geo.lon in
        elim (get_cases clock.at_parcel_get st.parcels key) [
          | inl (store', missed) ↦
              parcel_fetched-IsKept (with_parcels st store') st' key
                (clients.fetch_parcel geo.lat geo.lon) found (rw missed at h)
          | inr (value, expiry, hit, there, fresh) ↦
              let h1 = rw hit at h in
              (
                ap (λ r. r.1.geocodes) (sym h1),
                inr (
                  value,
                  expiry,
                  cc,
                  cc,
                  entry_along st.parcels st'.parcels key value value expiry there
                      (ap (λ r. r.1.parcels) h1) refl,
                ),
              )
        ]

    abbrev pub AreKept : State F → State F → String → List (Json F) → Type 0
    AreKept st st' key found =
        (st'.geocodes ≡ st.geocodes)
        × (st'.parcels ≡ st.parcels)
        × ((expiry : F) × (entry st'.footprints key ≡ some (found, expiry)))

    footprints_fetched-AreKept :
        (st st' : State F) (key : String) (reply : Result Raised (List (Json F)) × Option TileIndex)
        (found : List (Json F)) (cached : Bool)
        → footprints_fetched formats clients clock st key reply ≡ (ok (found, cached), st')
        → AreKept st st' key found
    footprints_fetched-AreKept st st' key (err e, index) found cached h = absurd (ground arith)
    footprints_fetched-AreKept st st' key (ok new, index) found cached h =
        let (expiry, there) =
          entry-set clock.at_footprint_set st.footprints key new (fl.of_nat footprint_ttl) in
        (
          ap (λ r. r.1.geocodes) (sym h),
          ap (λ r. r.1.parcels) (sym h),
          (
            expiry,
            entry_along _ st'.footprints key new found expiry there (ap (λ r. r.1.footprints) h) cc,
          ),
        )

    pub find_footprints-AreKept :
        (st st' : State F) (raw : String) (geo : GeocodedLocation F)
        (parcel : Option (RegridParcel F)) (found : List (Json F)) (cached : Bool)
        → find_footprints formats clients clock st raw geo parcel ≡ (ok (found, cached), st')
        → AreKept st st' (footprint_key formats raw) found
    unfolding find_footprints
    find_footprints-AreKept st st' raw geo parcel found cached h =
        let key = footprint_key formats raw in
        elim (get_cases clock.at_footprint_get st.footprints key) [
          | inl (store', missed) ↦
              footprints_fetched-AreKept (with_footprints st store' st.index) st' key
                (clients.fetch_footprints st.index geo.lat geo.lon (coords_of_parcel parcel)) found
                cached (rw missed at h)
          | inr (value, expiry, hit, there, fresh) ↦
              let h1 = rw hit at h in
              (
                ap (λ r. r.1.geocodes) (sym h1),
                ap (λ r. r.1.parcels) (sym h1),
                (
                  expiry,
                  entry_along st.footprints st'.footprints key value found expiry there
                      (ap (λ r. r.1.footprints) h1) cc,
                ),
              )
        ]

    -- With live entries no client is asked.
    pub find_location-live :
        (st : State F) (raw : String) (geo : GeocodedLocation F) (expiry : F)
        → entry st.geocodes (formats.normalize raw) ≡ some (geo, expiry)
        → IsLive clock.at_geocode_get st.geocodes
        → find_location formats clients clock st raw ≡ (ok (geo, true), st)
    unfolding find_location
    find_location-live st raw geo expiry there live =
        let hit =
          get-entry clock.at_geocode_get st.geocodes (formats.normalize raw) geo expiry there
            (live _ geo expiry there) in
        rw hit refl

    pub find_parcel-live :
        (st : State F) (geo : GeocodedLocation F) (parcel : RegridParcel F) (expiry : F)
        → entry st.parcels (formats.parcel_key geo.lat geo.lon) ≡ some (parcel, expiry)
        → IsLive clock.at_parcel_get st.parcels
        → find_parcel formats clients clock st geo
          ≡ (ok (record { parcel = some parcel; cached = true; warnings = [] }), st)
    unfolding find_parcel
    find_parcel-live st geo parcel expiry there live =
        let hit =
          get-entry clock.at_parcel_get st.parcels (formats.parcel_key geo.lat geo.lon) parcel
            expiry there (live _ parcel expiry there) in
        rw hit refl

    pub find_footprints-live :
        (st : State F) (raw : String) (geo : GeocodedLocation F) (parcel : Option (RegridParcel F))
        (found : List (Json F)) (expiry : F)
        → entry st.footprints (footprint_key formats raw) ≡ some (found, expiry)
        → IsLive clock.at_footprint_get st.footprints
        → find_footprints formats clients clock st raw geo parcel ≡ (ok (found, true), st)
    unfolding find_footprints
    find_footprints-live st raw geo parcel found expiry there live =
        let hit =
          get-entry clock.at_footprint_get st.footprints (footprint_key formats raw) found expiry
            there (live _ found expiry there) in
        rw hit refl
