-- ===== src/Address/Http.antt =====
-- The clients of app/resolve_address/service.py, made of the functions of nominatim.py, regrid.py and
-- ms_footprints.py and of the answers that the three services give.
pub mod Degraded
use rooftrace.Prelude.{Bool, false, Option, none, some, String, str_eq, not, List, Result, Raised}
use rooftrace.Float.{Float}
use rooftrace.Planefit.Shapely.{Shapely}
use rooftrace.Storage.{Bytes}
use rooftrace.Address.Json.{Json}
use rooftrace.Address.Nominatim.{Sent, geocode}
use rooftrace.Address.Regrid.{fetch_parcel}
use rooftrace.Address.Dataset.{Row, Fetched}
use rooftrace.Address.Footprints.{Shapes, fetch_footprints}
use rooftrace.Address.Lookup.{Clients}

pub record Http (F : Type 0) : Type 0 where
  -- The search for an address, and the query at a position with a token
  pub search : String → Sent F
  pub point : F → F → String → Sent F
  -- A GET of the tile dataset
  pub get : String → Fetched
  -- `REGRID_API_KEY`
  pub regrid_api_key : Option String
  -- Python's `repr` and `float`, `lat_lon_to_quadkey`, csv, and gzip with json
  pub repr : String → String
  pub to_float : Json F → Result Raised F
  pub quadkey_of : F → F → String
  pub rows_of : Bytes → Result Raised (List Row)
  pub features_of : Bytes → Result Raised (List (Json F))

abbrev pub is_given : Option String → Bool
is_given none = false
is_given (some key) = not (str_eq key "")

unfoldable pub clients_of :
    {F G : Type 0} ⦃fl : Float F⦄ → Shapely F G → Shapes F G → (String → Bool) → Http F → Clients F
unfolding geocode fetch_parcel fetch_footprints
clients_of sh shapes is_shape_error http = record {
  geocode = λ address. geocode http.to_float http.repr address (http.search address);
  fetch_parcel = λ lat lon. fetch_parcel http.regrid_api_key (http.point lat lon);
  has_key = is_given http.regrid_api_key;
  fetch_footprints = λ index lat lon parcel.
      fetch_footprints sh shapes is_shape_error http.rows_of http.features_of http.get
        (http.quadkey_of lat lon) index lat lon parcel;
}
