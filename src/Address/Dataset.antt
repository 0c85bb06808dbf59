-- ===== src/Address/Dataset.antt =====
-- app/resolve_address/ms_footprints.py: the index of the dataset's tiles, and a tile's content. httpx, csv
-- and gzip are parameters.
pub mod Index
use rooftrace.Prelude.{
  ℕ, Bool, true, false, not, ◌&&◌, ◌||◌, Option, none, some, List, [], ◌∷◌, map, String, str_eq,
  ltb, leb, ◌==◌, if◌then◌else◌, Result, ok, err, Raised, value_error, other, f_string, show, ◌>>=◌,
}
use rooftrace.Float.{Float, max_of, ◌⊗◌, ◌⊘◌}
use rooftrace.Storage.{Bytes}
use rooftrace.Planefit.Shapely.{Shapely}
use rooftrace.Address.Json.{Json, text, get_field, truthy, or_else}

-- A row of dataset-links.csv: QuadKey, Location and Url, where it has them
pub record Row : Type 0 where
  pub quadkey : Option String
  pub region : Option String
  pub url : Option String

-- A dict from texts, in the order of its keys
abbrev pub Dict : Type 0 → Type 0
Dict V = List (String × V)

unfoldable pub lookup : {V : Type 0} → Dict V → String → Option V
lookup [] key = none
lookup ((k, v) ∷ d) key = let rest = lookup d key in if str_eq k key then some v else rest

-- `d[key] = v`: a new key comes last.
unfoldable pub assign : {V : Type 0} → Dict V → String → V → Dict V
assign [] key v = (key, v) ∷ []
assign ((k, w) ∷ d) key v =
    let rest = assign d key v in if str_eq k key then (k, v) ∷ d else (k, w) ∷ rest

abbrev pub or_empty : {V : Type 0} → Option (Dict V) → Dict V
or_empty none = []
or_empty (some d) = d

abbrev pub TileIndex : Type 0
TileIndex = Dict (Dict String)

abbrev pub given : Option String → Option String
given none = none
given (some s) = if str_eq s "" then none else some s

-- The quadkey, region and url of a row that has all three
abbrev pub entry_of : Row → Option (String × String × String)
entry_of row = elim (given row.quadkey) [
  | none ↦ none
  | some q ↦ elim (given row.region) [
    | none ↦ none
    | some r ↦ elim (given row.url) [ none ↦ none | some u ↦ some (q, r, u) ]
  ]
]

-- `index.setdefault(quadkey, {})[region] = url`, for a row that is not passed over
unfoldable pub add_entry : TileIndex → Option (String × String × String) → TileIndex
unfolding lookup assign
add_entry index none = index
add_entry index (some (q, r, u)) = assign index q (assign (or_empty (lookup index q)) r u)

-- The loop over the rows
unfoldable pub parse_rows : TileIndex → List Row → TileIndex
unfolding add_entry
parse_rows index [] = index
parse_rows index (row ∷ more) = parse_rows (add_entry index (entry_of row)) more

unfoldable pub parse_dataset_index : List Row → TileIndex
unfolding parse_rows
parse_dataset_index = parse_rows []

-- `regions["UnitedStates"]` if it is there, else the first one's
abbrev pub region_url : Dict String → Option String
region_url [] = none
region_url ((region, url) ∷ regions) = elim (lookup ((region, url) ∷ regions) "UnitedStates") [
  | some preferred ↦ some preferred
  | none ↦ some url
]

unfoldable pub resolve_tile_url : TileIndex → String → Option String
unfolding lookup
resolve_tile_url index quadkey = region_url (or_empty (lookup index quadkey))

-- What a GET comes to: a status and a body, a `RequestError` by its name, or any other exception
pub data Fetched : Type 0 where
  body : ℕ → Bytes → Fetched
  request_error : String → Fetched
  raised : Raised → Fetched

-- `resp.raise_for_status()` lets the statuses from 200 to 299 through.
abbrev pub is_success : ℕ → Bool
is_success status = leb 200 status && ltb status 300

abbrev pub footprint_error : List String → Raised
footprint_error parts = other "FootprintError" (f_string parts)

-- `_load_dataset_index`, with the index that the process has kept, and the one that it keeps then.
-- `rows_of` decodes and reads the CSV.
unfoldable pub load_dataset_index :
    (Bytes → Result Raised (List Row)) → Option TileIndex → Fetched → Result Raised TileIndex
unfolding parse_dataset_index
load_dataset_index rows_of (some index) reply = ok index
load_dataset_index rows_of none (request_error name) =
    err (footprint_error ("MS Building Footprints index request failed: " ∷ name ∷ []))
load_dataset_index rows_of none (raised e) = err e
load_dataset_index rows_of none (body status content) =
    if is_success status
    then (rows_of content >>= λ rows. ok (parse_dataset_index rows))
    else err
        (footprint_error ("MS Building Footprints index fetch failed: HTTP " ∷ show status ∷ []))

-- The tile's content, or none where the dataset has no such tile: no URL, or HTTP 404
unfoldable pub tile_content : Fetched → Result Raised (Option Bytes)
tile_content (body status content) =
    if is_success status
    then ok (some content)
    else if status == 404
    then ok none
    else err
        (footprint_error ("MS Building Footprints tile fetch failed: HTTP " ∷ show status ∷ []))
tile_content (request_error name) =
    err (footprint_error ("MS Building Footprints tile request failed: " ∷ name ∷ []))
tile_content (raised e) = err e
