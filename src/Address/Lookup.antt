-- ===== src/Address/Lookup.antt =====
-- app/resolve_address/service.py: a location, a parcel and footprints are looked up by three clients, each
-- behind a cache of its own. The state is passed along, since the caches keep what was set before an
-- exception.
pub mod Kept
use rooftrace.Prelude.{
  ℕ, Bool, true, false, not, Option, none, some, List, [], ◌∷◌, String, str_eq, if◌then◌else◌,
  Result, ok, err, Raised, other, http, f_string, ◌>>=◌,
}
use rooftrace.Float.{Float}
use rooftrace.Contracts.{
  pipeline_schema_version, Position, Polygon, new_polygon, GeometrySource, imagery, AttributionItem,
  Address, new_address, ResolveAddressRequest, ResolveAddressResponse,
}
use rooftrace.Pipeline.{check_pipeline_version}
use rooftrace.Address.Cache.{Entries, get, set, geocode_ttl, parcel_ttl, footprint_ttl}
use rooftrace.Address.Json.{Json}
use rooftrace.Address.Nominatim.{GeocodedLocation}
use rooftrace.Address.Regrid.{RegridParcel}
use rooftrace.Address.Dataset.{TileIndex}

-- The singletons of the process: the three caches, and the index that ms_footprints.py keeps
pub record State (F : Type 0) : Type 0 where
  pub geocodes : Entries F (GeocodedLocation F)
  pub parcels : Entries F (RegridParcel F)
  pub footprints : Entries F (List (Json F))
  pub index : Option TileIndex

-- What is computed from texts and JSON alone
pub record Formats (F : Type 0) : Type 0 where
  -- `normalize_address`
  pub normalize : String → String
  -- `f"{lat:.6f},{lon:.6f}"`
  pub parcel_key : F → F → String
  -- The rings that pydantic reads from JSON coordinates
  pub rings : Json F → Result Raised (List (List (Position F)))

-- What the service calls: the clients, with the HTTP answers that they get
pub record Clients (F : Type 0) : Type 0 where
  pub geocode : String → Result Raised (GeocodedLocation F)
  pub fetch_parcel : F → F → Result Raised (Option (RegridParcel F))
  -- `regrid_api_key or REGRID_API_KEY`
  pub has_key : Bool
  pub fetch_footprints :
      Option TileIndex → F → F → Option (Json F) → Result Raised (List (Json F)) × Option TileIndex

-- What the clocks show, at each place that reads them
pub record Clock (F : Type 0) : Type 0 where
  pub at_geocode_get : F
  pub at_geocode_set : F
  pub at_parcel_get : F
  pub at_parcel_set : F
  pub at_footprint_get : F
  pub at_footprint_set : F
  -- `_now_iso()`, for each of the three sources
  pub geocoded_at : String
  pub parcel_at : String
  pub footprints_at : String

-- A step that may raise, and the state that it leaves either way
abbrev pub Run : Type 0 → Type 0 → Type 0
Run F A = Result Raised A × State F

abbrev pub and_then : {F A B : Type 0} → Run F A → (A → State F → Run F B) → Run F B
and_then (err e, st) next = (err e, st)
and_then (ok a, st) next = next a st

-- A call that leaves the state alone
abbrev pub pure_step : {F A B : Type 0} → Result Raised A → State F → (A → Run F B) → Run F B
pure_step (err e) st next = (err e, st)
pure_step (ok a) st next = next a

-- The handlers of `except GeocodeError` and `except FootprintError`
abbrev pub geocode_failed : Raised → Raised
geocode_failed (other n m) =
    if str_eq n "GeocodeError" then http 422 (f_string ("Geocode failed: " ∷ m ∷ [])) else other n m
geocode_failed e = e

abbrev pub footprints_failed : Raised → Raised
footprints_failed (other n m) =
    if str_eq n "FootprintError"
    then http 422 (f_string ("Building footprint fetch failed: " ∷ m ∷ []))
    else other n m
footprints_failed e = e

-- A parcel, or none with the warnings; `cached` is `parcel_from_cache`
pub record FoundParcel (F : Type 0) : Type 0 where
  pub parcel : Option (RegridParcel F)
  pub cached : Bool
  pub warnings : List String

abbrev pub no_parcel : {F : Type 0} → String → FoundParcel F
no_parcel why = record { parcel = none; cached = false; warnings = why ∷ [] }

module _ {F : Type 0} where
  -- `geocode_cache.set` and so on: the state with one of the caches replaced
  abbrev pub with_geocodes : State F → Entries F (GeocodedLocation F) → State F
  with_geocodes st geocodes = record {
    geocodes = geocodes;
    parcels = st.parcels;
    footprints = st.footprints;
    index = st.index;
  }

  abbrev pub with_parcels : State F → Entries F (RegridParcel F) → State F
  with_parcels st parcels = record {
    geocodes = st.geocodes;
    parcels = parcels;
    footprints = st.footprints;
    index = st.index;
  }

  abbrev pub with_footprints : State F → Entries F (List (Json F)) → Option TileIndex → State F
  with_footprints st footprints index = record {
    geocodes = st.geocodes;
    parcels = st.parcels;
    footprints = footprints;
    index = index;
  }

  abbrev pub coords_of_parcel : Option (RegridParcel F) → Option (Json F)
  coords_of_parcel none = none
  coords_of_parcel (some parcel) = some parcel.polygon_coords

module _ {F : Type 0} ⦃fl : Float F⦄ (formats : Formats F) where
  -- `f"ms:{normalized}"`
  abbrev pub footprint_key : String → String
  footprint_key raw_address = f_string ("ms:" ∷ formats.normalize raw_address ∷ [])

module _ {F : Type 0} ⦃fl : Float F⦄ (formats : Formats F) (clients : Clients F)
    (clock : Clock F) where
  -- Where the cache has no location
  abbrev pub geocoded :
      State F → String → Result Raised (GeocodedLocation F) → Run F (GeocodedLocation F × Bool)
  geocoded st key (err e) = (err (geocode_failed e), st)
  geocoded st key (ok geo) = (
    ok (geo, false),
    with_geocodes st (set clock.at_geocode_set st.geocodes key geo (fl.of_nat geocode_ttl)),
  )

  -- By the answer of the cache. Whether the location came from it is said beside the location.
  abbrev pub located :
      State F
      → String
      → Option (GeocodedLocation F) × Entries F (GeocodedLocation F)
      → Run F (GeocodedLocation F × Bool)
  located st raw_address (some geo, geocodes) = (ok (geo, true), with_geocodes st geocodes)
  located st raw_address (none, geocodes) =
      geocoded (with_geocodes st geocodes) (formats.normalize raw_address)
        (clients.geocode raw_address)

  unfoldable pub find_location : State F → String → Run F (GeocodedLocation F × Bool)
  unfolding get set
  find_location st raw_address =
      located st raw_address (get clock.at_geocode_get st.geocodes (formats.normalize raw_address))

  -- Where the cache has no parcel: a `RegridError` is a warning.
  abbrev pub parcel_fetched :
      State F → String → Result Raised (Option (RegridParcel F)) → Run F (FoundParcel F)
  parcel_fetched st key (ok (some parcel)) = (
    ok (record { parcel = some parcel; cached = false; warnings = [] }),
    with_parcels st (set clock.at_parcel_set st.parcels key parcel (fl.of_nat parcel_ttl)),
  )
  parcel_fetched st key (ok none) =
      if clients.has_key
      then (ok (no_parcel "parcel_unavailable: Regrid found no parcel for this location"), st)
      else (ok (no_parcel "parcel_unavailable: REGRID_API_KEY not set"), st)
  parcel_fetched st key (err (other n m)) =
      if str_eq n "RegridError"
      then (ok (no_parcel (f_string ("parcel_unavailable: " ∷ m ∷ []))), st)
      else (err (other n m), st)
  parcel_fetched st key (err e) = (err e, st)

  abbrev pub parcel_found :
      State F
      → GeocodedLocation F
      → Option (RegridParcel F) × Entries F (RegridParcel F)
      → Run F (FoundParcel F)
  parcel_found st geo (some parcel, parcels) =
      (ok (record { parcel = some parcel; cached = true; warnings = [] }), with_parcels st parcels)
  parcel_found st geo (none, parcels) =
      parcel_fetched (with_parcels st parcels) (formats.parcel_key geo.lat geo.lon)
        (clients.fetch_parcel geo.lat geo.lon)

  unfoldable pub find_parcel : State F → GeocodedLocation F → Run F (FoundParcel F)
  unfolding get set
  find_parcel st geo =
      parcel_found st geo (get clock.at_parcel_get st.parcels (formats.parcel_key geo.lat geo.lon))

  -- Where the cache has no footprints. The index of the tiles stays, whatever becomes of the tile.
  abbrev pub footprints_fetched :
      State F
      → String
      → Result Raised (List (Json F)) × Option TileIndex
      → Run F (List (Json F) × Bool)
  footprints_fetched st key (err e, index) =
      (err (footprints_failed e), with_footprints st st.footprints index)
  footprints_fetched st key (ok found, index) = (
    ok (found, false),
    with_footprints st
        (set clock.at_footprint_set st.footprints key found (fl.of_nat footprint_ttl)) index,
  )

  abbrev pub footprints_found :
      State F
      → String
      → GeocodedLocation F
      → Option (RegridParcel F)
      → Option (List (Json F)) × Entries F (List (Json F))
      → Run F (List (Json F) × Bool)
  footprints_found st raw_address geo parcel (some found, footprints) =
      (ok (found, true), with_footprints st footprints st.index)
  footprints_found st raw_address geo parcel (none, footprints) =
      footprints_fetched (with_footprints st footprints st.index)
        (footprint_key formats raw_address)
        (clients.fetch_footprints st.index geo.lat geo.lon (coords_of_parcel parcel))

  unfoldable pub find_footprints :
      State F → String → GeocodedLocation F → Option (RegridParcel F) → Run F (List (Json F) × Bool)
  unfolding get set
  find_footprints st raw_address geo parcel =
      footprints_found st raw_address geo parcel
        (get clock.at_footprint_get st.footprints (footprint_key formats raw_address))
