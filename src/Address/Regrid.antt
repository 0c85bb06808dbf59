-- ===== src/Address/Regrid.antt =====
-- app/resolve_address/regrid.py: the parcel of a position. The HTTP client (httpx) is a parameter.
use rooftrace.Prelude.{
  ℕ, Bool, false, not, ◌||◌, Option, none, some, List, [], ◌∷◌, String, str_eq, ◌==◌, ltb,
  if◌then◌else◌, Result, ok, err, Raised, other, f_string, show, message, ◌>>=◌, map_err,
}
use rooftrace.Float.{Float}
use rooftrace.Address.Json.{
  Json, text, arr, nil, obj, end, items, get_field, first_item, len_of, truthy, or_else,
}
use rooftrace.Address.Nominatim.{Sent, replied, request_error, timed_out}

-- The identifier is the value whose `str` the source keeps.
pub record RegridParcel (F : Type 0) : Type 0 where
  pub parcel_id : Json F
  pub polygon_coords : Json F
  pub address : Json F

abbrev pub regrid_error : List String → Raised
regrid_error parts = other "RegridError" (f_string parts)

module _ {F : Type 0} ⦃fl : Float F⦄ where
  -- `len(poly[0]) if poly and poly[0] else 0`
  abbrev outer_length : Json F → Result Raised ℕ
  outer_length poly =
      if not (truthy poly)
      then ok 0
      else first_item poly >>= λ ring. if truthy ring then len_of ring else ok 0

  -- `max(coords, key=...)`: the first of the longest, where `best` has the length `n`
  unfoldable pub longest : Json F → ℕ → List (Json F) → Result Raised (Json F)
  longest best n [] = ok best
  longest best n (poly ∷ polys) = outer_length poly >>= λ k.
      longest (if ltb n k then poly else best) (if ltb n k then k else n) polys

  abbrev items_of : Json F → Result Raised (List (Json F))
  items_of (arr vs) = ok (items vs)
  items_of _ = err (other "TypeError" "not a list")

  unfoldable pub largest_ring_set : Json F → Result Raised (Json F)
  unfolding longest
  largest_ring_set coords = items_of coords >>= λ polys. elim polys [
    | [] ↦ err (other "ValueError" "max() iterable argument is empty")
    | poly ∷ rest ↦ outer_length poly >>= λ n. longest poly n rest
  ]

  abbrev is_text : String → Json F → Bool
  is_text s (text t) = str_eq t s
  is_text s _ = false

  -- The geometry's rings: `none` where its type is neither of the two
  unfoldable pub rings_of : Json F → Json F → Result Raised (Option (Json F))
  unfolding largest_ring_set
  rings_of geom_type coords =
      if is_text "MultiPolygon" geom_type
      then (largest_ring_set coords >>= λ rings. ok (some rings))
      else if is_text "Polygon" geom_type
      then ok (some coords)
      else ok none

  abbrev parcel_of : Json F → Option (Json F) → Result Raised (Option (RegridParcel F))
  parcel_of props none = ok none
  parcel_of props (some rings) = do
    uuid ← get_field props "ll_uuid"
    id ← get_field props "id"
    address ← get_field props "address"
    headline ← get_field props "headline"
    ok (
        some (record {
          parcel_id = or_else (or_else uuid id) (text "unknown");
          polygon_coords = rings;
          address = or_else address headline;
        }))

  unfoldable pub extract_parcel : Json F → Result Raised (Option (RegridParcel F))
  unfolding rings_of
  extract_parcel response = do
    parcels ← get_field response "parcels"
    features ← get_field (or_else parcels (obj end)) "features"
    if not (truthy (or_else features (arr nil)))
        then ok none
        else first_item features >>= λ feature. do
          geometry ← get_field feature "geometry"
          props ← get_field feature "properties"
          coords ← get_field (or_else geometry (obj end)) "coordinates"
          geom_type ← get_field (or_else geometry (obj end)) "type"
          if not (truthy coords)
              then ok none
              else rings_of geom_type coords >>= parcel_of (or_else props (obj end))

  -- The answer to the request, which is made where there is a key
  unfoldable pub parcel_answer : Sent F → Result Raised (Option (RegridParcel F))
  unfolding extract_parcel
  parcel_answer (timed_out name) =
      err (regrid_error ("Regrid request timed out (" ∷ name ∷ ")" ∷ []))
  parcel_answer (request_error name) =
      err (regrid_error ("Regrid request failed (" ∷ name ∷ ")" ∷ []))
  parcel_answer (replied resp) =
      if resp.status_code == 401 || resp.status_code == 403
      then err
          (regrid_error ("Regrid authentication failed (HTTP " ∷ show resp.status_code ∷ ")" ∷ []))
      else if not (resp.status_code == 200)
      then err (regrid_error ("Regrid returned HTTP " ∷ show resp.status_code ∷ []))
      else map_err (λ e. regrid_error ("Regrid returned invalid JSON: " ∷ message e ∷ [])) resp.json
        >>= extract_parcel

  -- `key` is `api_key or REGRID_API_KEY`, `send` the request to the point's address with that token.
  unfoldable pub fetch_parcel :
      Option String → (String → Sent F) → Result Raised (Option (RegridParcel F))
  unfolding parcel_answer
  fetch_parcel none send = ok none
  fetch_parcel (some key) send = if str_eq key "" then ok none else parcel_answer (send key)
