-- ===== src/Address/Nominatim.antt =====
-- app/resolve_address/nominatim.py: the geocoder. The HTTP client (httpx) is a parameter.
use Prim.Native.Char.{Char}
use rooftrace.Prelude.{
  ℕ, Bool, false, not, List, [], ◌∷◌, String, ◌==◌, if◌then◌else◌, Result, ok, err, Raised, other,
  f_string, show, ◌>>=◌,
}
use rooftrace.Float.{Float, ◌⊖◌}
use rooftrace.Address.Json.{Json, text, item_at, get_field, first_item, truthy}
use rooftrace.Boot.Flags.{is_space, is_blank}

-- `httpx.Response`, or the name of the `RequestError` that a request raises
pub record Reply (F : Type 0) : Type 0 where
  pub status_code : ℕ
  pub json : Result Raised (Json F)

pub data Sent (F : Type 0) : Type 0 where
  replied : Reply F → Sent F
  request_error : String → Sent F
  timed_out : String → Sent F

pub record GeocodedLocation (F : Type 0) : Type 0 where
  pub lat : F
  pub lon : F
  pub formatted_address : String
  pub raw_address : String

abbrev pub geocode_error : List String → Raised
geocode_error parts = other "GeocodeError" (f_string parts)

abbrev strip_left : String → String
strip_left String.[] = ""
strip_left (String.◌∷◌ c s) = let rest = strip_left s in if is_space c then rest else String.◌∷◌ c s

abbrev strip_right : String → String
strip_right String.[] = ""
strip_right (String.◌∷◌ c s) =
    let rest = strip_right s in if is_blank (String.◌∷◌ c s) then "" else String.◌∷◌ c rest

abbrev starts_word : String → Bool
starts_word String.[] = false
starts_word (String.◌∷◌ c s) = not (is_space c)

abbrev push : Char → List String → List String
push c [] = String.◌∷◌ c "" ∷ []
push c (w ∷ ws) = String.◌∷◌ c w ∷ ws

-- `s.split()`
abbrev pub words : String → List String
words String.[] = []
words (String.◌∷◌ c s) =
    let rest = words s in
    if is_space c then rest else if starts_word s then push c rest else String.◌∷◌ c "" ∷ rest

-- `" ".join(words)`
abbrev pub unwords : List String → String
unwords [] = ""
unwords (w ∷ []) = w
unwords (w ∷ v ∷ ws) = f_string (w ∷ " " ∷ unwords (v ∷ ws) ∷ [])

-- `nfc` is `unicodedata.normalize("NFC", ...)`.
unfoldable pub normalize_address : (String → String) → String → String
normalize_address nfc raw = unwords (words (nfc (strip_left (strip_right raw))))

module _ {F : Type 0} ⦃fl : Float F⦄ (to_float : Json F → Result Raised F) where
  open fl use {lt, num}

  abbrev display_name : String → Json F → String
  display_name address (text name) = name
  display_name address _ = address

  -- `to_float` is Python's `float`. A `display_name` is a text, if it is given.
  unfoldable pub location_of : String → Json F → Result Raised (GeocodedLocation F)
  location_of address hit = do
    lat ← item_at hit "lat" >>= to_float
    lon ← item_at hit "lon" >>= to_float
    name ← get_field hit "display_name"
    ok (record {
      lat = lat;
      lon = lon;
      formatted_address = display_name address name;
      raw_address = address;
    })

  -- The answer to the search request, with Python's `repr` of the address in the texts. The waiting before
  -- it is `rps_wait`.
  unfoldable pub geocode : (String → String) → String → Sent F → Result Raised (GeocodedLocation F)
  unfolding location_of
  geocode repr address (request_error name) =
      err (geocode_error ("Nominatim request failed: " ∷ name ∷ []))
  geocode repr address (timed_out name) =
      err (geocode_error ("Nominatim request failed: " ∷ name ∷ []))
  geocode repr address (replied resp) =
      if not (resp.status_code == 200)
      then err (
          geocode_error (
            "Nominatim returned HTTP "
            ∷ show resp.status_code
            ∷ " for address "
            ∷ repr address
            ∷ []))
      else resp.json >>= λ results.
          if not (truthy results)
          then err (geocode_error ("Nominatim found no results for address " ∷ repr address ∷ []))
          else first_item results >>= location_of address

-- `_rps_wait`, where the clock shows `now` at its start: how long it sleeps. The call's time, which the
-- clock shows when it is done, becomes `_last_call`.
unfoldable pub rps_wait : {F : Type 0} ⦃fl : Float F⦄ → F → F → F
rps_wait ⦃fl⦄ last_call now =
    if fl.lt (now ⊖ last_call) (fl.num 1 0) then fl.num 1 0 ⊖ (now ⊖ last_call) else fl.num 0 0
