-- ===== src/Examples/Resolving.antt =====
-- The theorems on app/resolve_address/service.py at concrete inputs.
use rooftrace.Prelude.{
  ℕ, ◌≡◌, refl, false, none, some, [], ◌∷◌, arith, ok, String, Result, Raised, value_error, err,
  http, ltb,
}
use rooftrace.Address.Json.{Json, text, number, arr, nil, cons, obj, end, field, null}
use rooftrace.Address.Dataset.{Fetched, body}
use rooftrace.Contracts.{Position, Polygon, imagery, ResolveAddressResponse}
use rooftrace.Address.Cache.{entry}
use rooftrace.Address.Nominatim.{Sent, replied, request_error, GeocodedLocation, normalize_address}
use rooftrace.Address.Http.{Http, clients_of}
use rooftrace.Address.Http.Degraded.{IsKeptOrMissed, find_parcel-degrades}
use rooftrace.Address.Lookup.{FoundParcel, find_parcel, State, Clients, Clock, Formats}
use rooftrace.Address.Resolve.{
  resolve, address_of, nominatim_attribution, ms_footprints_attribution, regrid_attribution,
}
use rooftrace.Address.Cache.Live.{IsLive}
use rooftrace.Address.Resolve.Answers.{IsAnswerOf, resolve-IsAnswerOf}
use rooftrace.Address.Resolve.Repeated.{untimed, resolve-untimed}
use rooftrace.Examples.{whole_numbers}
use rooftrace.Examples.Footprints.{rows, shapes, no_errors, ring, from_point, features}

-- The services: one location, one parcel, one tile with two buildings
abbrev dict : String → Json ℕ → Json ℕ
dict key value = obj (field key value end)

abbrev reply : Json ℕ → Sent ℕ
reply value = replied (record { status_code = 200; json = ok value })

abbrev number_of : Json ℕ → Result Raised ℕ
number_of (number n) = ok n
number_of _ = err (value_error "no number")

abbrev location_json : Json ℕ
location_json = arr (
    cons
      (obj (
        field "lat" (number 45)
          (field "lon" (number 120) (field "display_name" (text "12 Elm St, Springfield") end))))
      nil)

abbrev parcel_json : Json ℕ
parcel_json = dict "parcels" (
    dict "features" (
      arr (
        cons
          (obj (
            field "geometry"
              (obj (field "type" (text "Polygon") (field "coordinates" (ring 3) end)))
              (field "properties" (dict "ll_uuid" (text "u-1")) end)))
          nil)))

abbrev services : Http ℕ
services = record {
  search = λ address. reply location_json;
  point = λ lat lon token. reply parcel_json;
  get = λ url. body 200 [];
  regrid_api_key = some "key";
  repr = λ s. s;
  to_float = number_of;
  quadkey_of = λ lat lon. "023";
  rows_of = λ content. ok rows;
  features_of = λ content. ok features;
}

-- The services when none of them answers
abbrev no_services : Http ℕ
no_services = record {
  search = λ address. request_error "ConnectError";
  point = λ lat lon token. request_error "ConnectError";
  get = λ url. Fetched.request_error "ConnectError";
  regrid_api_key = some "key";
  repr = λ s. s;
  to_float = number_of;
  quadkey_of = λ lat lon. "023";
  rows_of = λ content. ok [];
  features_of = λ content. ok [];
}

abbrev clients : Http ℕ → Clients ℕ
clients answers = clients_of ⦃fl = whole_numbers⦄ from_point shapes no_errors answers

abbrev corner : ℕ → Position ℕ
corner n = record { lon = n; lat = n; elevation = none }

abbrev formats : Formats ℕ
formats = record {
  normalize = normalize_address (λ s. s);
  parcel_key = λ lat lon. "45.000000,120.000000";
  rings = λ coords. ok ((corner 0 ∷ corner 1 ∷ corner 2 ∷ corner 0 ∷ []) ∷ []);
}

abbrev clock_at : ℕ → Clock ℕ
clock_at t = record {
  at_geocode_get = t;
  at_geocode_set = t;
  at_parcel_get = t;
  at_parcel_set = t;
  at_footprint_get = t;
  at_footprint_set = t;
  geocoded_at = "2026-01-01T00:00:00";
  parcel_at = "2026-01-01T00:00:01";
  footprints_at = "2026-01-01T00:00:02";
}

abbrev empty_state : State ℕ
empty_state = record { geocodes = []; parcels = []; footprints = []; index = none }

abbrev address : String
address = " 12  Elm St "

abbrev square : Polygon ℕ
square = record {
  coordinates = (corner 0 ∷ corner 1 ∷ corner 2 ∷ corner 0 ∷ []) ∷ [];
  source = some imagery;
  confidence = some 0;
}

abbrev location : GeocodedLocation ℕ
location = record {
  lat = 45;
  lon = 120;
  formatted_address = "12 Elm St, Springfield";
  raw_address = address;
}

abbrev response : ResolveAddressResponse ℕ
response = record {
  schema_version = "0.6.0";
  geocode =
      address_of ⦃fl = whole_numbers⦄ formats (clients services) (clock_at 10) address location;
  parcel_polygon = some square;
  building_polygons = square ∷ square ∷ [];
  attribution =
      nominatim_attribution (some "2026-01-01T00:00:00")
      ∷ ms_footprints_attribution (some "2026-01-01T00:00:02")
      ∷ regrid_attribution (some "2026-01-01T00:00:01")
      ∷ [];
  warnings = [];
}

abbrev state_after : State ℕ
state_after = record {
  geocodes = ("12 Elm St", (location, 604810)) ∷ [];
  parcels =
      (
        "45.000000,120.000000",
        (record { parcel_id = text "u-1"; polygon_coords = ring 3; address = null }, 604810),
      )
      ∷ [];
  footprints = ("ms:12 Elm St", (ring 4 ∷ ring 7 ∷ [], 2592010)) ∷ [];
  index = some (
      ("023", ("NorthAmerica", "n1") ∷ ("UnitedStates", "u2") ∷ [])
      ∷ ("031", ("Canada", "c1") ∷ [])
      ∷ []);
}

resolved :
    resolve ⦃fl = whole_numbers⦄ formats (clients services) (clock_at 10) empty_state address
    ≡ (ok response, state_after)
unfolding resolve clients_of normalize_address
resolved = refl

-- Where nobody answers, an address that was never resolved is refused.
refused :
    (resolve ⦃fl = whole_numbers⦄ formats (clients no_services) (clock_at 20) empty_state address).0
    ≡ err (http 422 "Geocode failed: Nominatim request failed: ConnectError")
unfolding resolve clients_of normalize_address
refused = refl

one_entry-IsLive :
    {V : Type 0} (now : ℕ) (key : String) (value : V) (expiry : ℕ)
    → ltb expiry now ≡ false
    → IsLive ⦃fl = whole_numbers⦄ now ((key, (value, expiry)) ∷ [])
unfolding entry
one_entry-IsLive now key value expiry fresh j v e h = ground (arith, h)

resolve-untimed_example :
    resolve ⦃fl = whole_numbers⦄ formats (clients no_services) (clock_at 20) state_after address
    ≡ (ok (untimed response), state_after)
resolve-untimed_example =
    resolve-untimed ⦃fl = whole_numbers⦄ formats (clients services) (clients no_services)
      (clock_at 10) (clock_at 20) empty_state state_after address response square resolved refl
      (one_entry-IsLive 20 _ _ 604810 refl) (one_entry-IsLive 20 _ _ 604810 refl)
      (one_entry-IsLive 20 _ _ 2592010 refl)

resolve-IsAnswerOf_example :
    IsAnswerOf ⦃fl = whole_numbers⦄ formats
      (clients services)
      (clock_at 10)
      state_after
      address
      response
resolve-IsAnswerOf_example =
    resolve-IsAnswerOf ⦃fl = whole_numbers⦄ formats (clients services) (clock_at 10) empty_state
      state_after address response resolved

find_parcel-degrades_example :
    (found : FoundParcel ℕ) × (st' : State ℕ) × (find_parcel ⦃fl = whole_numbers⦄ formats
        (clients no_services)
        (clock_at 20)
        empty_state
        location
      ≡ (ok found, st'))
    × IsKeptOrMissed ⦃fl = whole_numbers⦄ no_services formats
        (clock_at 20)
        empty_state
        location
        found
find_parcel-degrades_example =
    find_parcel-degrades ⦃fl = whole_numbers⦄ from_point shapes no_errors no_services formats
      (clock_at 20) empty_state location (λ token. refl)
