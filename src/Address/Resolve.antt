-- ===== src/Address/Resolve.antt =====
-- app/resolve_address/service.py and router.py: the response that is made of what was looked up.
pub mod Steps
pub mod Answers
pub mod Repeated
use rooftrace.Prelude.{
  ℕ, Bool, true, false, not, Option, none, some, List, [], ◌∷◌, String, str_eq, if◌then◌else◌,
  Result, ok, err, Raised, other, http, f_string, ◌>>=◌,
}
use rooftrace.Float.{Float}
use rooftrace.Contracts.{
  pipeline_schema_version, Position, Polygon, new_polygon, GeometrySource, imagery, AttributionItem,
  Address, new_address, ResolveAddressRequest, ResolveAddressResponse,
}
use rooftrace.Pipeline.{check_pipeline_version}
use rooftrace.Address.Cache.{Entries, get, set, geocode_ttl, parcel_ttl, footprint_ttl}
use rooftrace.Address.Json.{Json}
use rooftrace.Address.Nominatim.{GeocodedLocation}
use rooftrace.Address.Regrid.{RegridParcel}
use rooftrace.Address.Dataset.{TileIndex}
use rooftrace.Address.Lookup.{
  State, Formats, Clients, Clock, Run, and_then, pure_step, FoundParcel, find_location, find_parcel,
  find_footprints,
}

abbrev pub unless_cached : Bool → String → Option String
unless_cached true at = none
unless_cached false at = some at

abbrev pub nominatim_attribution : Option String → AttributionItem
nominatim_attribution at = record {
  name = "Nominatim / OpenStreetMap";
  license = some "ODbL 1.0";
  url = some "https://nominatim.org/";
  retrieved_at = at;
}

abbrev pub ms_footprints_attribution : Option String → AttributionItem
ms_footprints_attribution at = record {
  name = "Microsoft Building Footprints";
  license = some "ODbL 1.0";
  url = some "https://github.com/microsoft/GlobalMLBuildingFootprints";
  retrieved_at = at;
}

abbrev pub regrid_attribution : Option String → AttributionItem
regrid_attribution at = record {
  name = "Regrid";
  license = none;
  url = some "https://regrid.com/";
  retrieved_at = at;
}

module _ {F : Type 0} ⦃fl : Float F⦄ (formats : Formats F) where
  -- `_polygon_from_coords`
  unfoldable pub polygon_from_coords : Json F → Result Raised (Polygon F)
  unfolding new_polygon
  polygon_from_coords coords = do
    rings ← formats.rings coords
    new_polygon
        (record { coordinates = rings; source = some imagery; confidence = some (fl.num 9 1) })

  unfoldable pub polygons_from : List (Json F) → Result Raised (List (Polygon F))
  unfolding polygon_from_coords
  polygons_from [] = ok []
  polygons_from (coords ∷ more) = do
    polygon ← polygon_from_coords coords
    rest ← polygons_from more
    ok (polygon ∷ rest)

  unfoldable pub parcel_polygon_of : Option (RegridParcel F) → Result Raised (Option (Polygon F))
  unfolding polygon_from_coords
  parcel_polygon_of none = ok none
  parcel_polygon_of (some parcel) =
      polygon_from_coords parcel.polygon_coords >>= λ polygon. ok (some polygon)

module _ {F : Type 0} ⦃fl : Float F⦄ (formats : Formats F) (clients : Clients F)
    (clock : Clock F) where
  abbrev pub regrid_attributions : FoundParcel F → List AttributionItem
  regrid_attributions found = elim found.parcel [
    | none ↦ []
    | some parcel ↦ regrid_attribution (unless_cached found.cached clock.parcel_at) ∷ []
  ]

  abbrev pub address_of : String → GeocodedLocation F → Address F
  address_of raw_address geo = record {
    raw = raw_address;
    normalized = some geo.formatted_address;
    lon = some geo.lon;
    lat = some geo.lat;
    source = some imagery;
    confidence = some (fl.num 95 2);
  }

  -- `ResolveAddressResponse(...)`, where the flags say what came from the caches
  abbrev pub response_of :
      Bool
      → Bool
      → FoundParcel F
      → Option (Polygon F)
      → List (Polygon F)
      → Address F
      → ResolveAddressResponse F
  response_of geo_cached footprints_cached found parcel_polygon building_polygons address = record {
    schema_version = pipeline_schema_version;
    geocode = address;
    parcel_polygon = parcel_polygon;
    building_polygons = building_polygons;
    attribution =
        nominatim_attribution (unless_cached geo_cached clock.geocoded_at)
        ∷ ms_footprints_attribution (unless_cached footprints_cached clock.footprints_at)
        ∷ regrid_attributions found;
    warnings = found.warnings;
  }

  -- From `if not cached_footprints`: the footprints and the response
  unfoldable pub respond :
      String
      → GeocodedLocation F
      → Bool
      → FoundParcel F
      → Option (Polygon F)
      → List (Json F)
      → Bool
      → Result Raised (ResolveAddressResponse F)
  unfolding polygons_from new_address
  respond raw_address geo geo_cached found parcel_polygon [] footprints_cached =
      err (http 422 "No building footprints found for this address.")
  respond raw_address geo geo_cached found parcel_polygon (coords ∷ more) footprints_cached = do
    building_polygons ← polygons_from formats (coords ∷ more)
    address ← new_address (address_of raw_address geo)
    ok (response_of geo_cached footprints_cached found parcel_polygon building_polygons address)

  unfoldable pub resolve : State F → String → Run F (ResolveAddressResponse F)
  unfolding find_location find_parcel find_footprints parcel_polygon_of respond
  resolve st raw_address =
      and_then (find_location formats clients clock st raw_address) (λ (geo, geo_cached) st1.
        and_then (find_parcel formats clients clock st1 geo) (λ found st2.
          pure_step (parcel_polygon_of formats found.parcel) st2 (λ parcel_polygon.
            and_then (find_footprints formats clients clock st2 raw_address geo found.parcel)
              (λ (found_footprints, cached) st3. (
                respond raw_address geo geo_cached found parcel_polygon found_footprints cached,
                st3,
              )))))

  -- The endpoint of router.py
  unfoldable pub resolve_endpoint :
      State F → ResolveAddressRequest → Run F (ResolveAddressResponse F)
  unfolding resolve
  resolve_endpoint st req =
      pure_step (check_pipeline_version req.schema_version) st (λ u. resolve st req.address)
