-- ===== src/Address/Dataset/Index.antt =====
-- The index of the tiles of ms_footprints.py against the rows of its file.
use rooftrace.Prelude.{
  ◌≡◌, refl, ◌&&◌, Option, none, some, List, [], ◌∷◌, String, str_eq, eq_iff, arith, if◌then◌else◌,
  Bool-cases, inl, inr, ap, ◌∙◌,
}
use text.Mathlib.TextPositions.{eq_refl}
use mathlib.Core.Path.{fun_ext}
use rooftrace.Address.Dataset.{
  Row, Dict, lookup, assign, or_empty, TileIndex, entry_of, add_entry, parse_rows,
  parse_dataset_index, region_url, resolve_tile_url,
}

abbrev or_key : Option String → String → Option String
or_key none k = some k
or_key (some h) k = some h

module _ {V : Type 0} where
  lookup-assign :
      (d : Dict V) (k j : String) (v : V)
      → lookup (assign d k v) j ≡ (if str_eq k j then some v else lookup d j)
  unfolding lookup assign
  lookup-assign [] k j v = refl
  lookup-assign ((i, w) ∷ d) k j v =
      ground (arith, eq_iff k j, eq_iff i k, eq_iff i j, lookup-assign d k j v)

  abbrev head_key : Dict V → Option String
  head_key [] = none
  head_key ((k, v) ∷ d) = some k

  head_key-assign :
      (d : Dict V) (k : String) (v : V) → head_key (assign d k v) ≡ or_key (head_key d) k
  unfolding assign
  head_key-assign [] k v = refl
  head_key-assign ((i, w) ∷ d) k v = ground arith

-- One row, as seen at a quadkey: the last URL of a region, and the first region.
abbrev url_after :
    Option (String × String × String) → String → String → Option String → Option String
url_after none quadkey region before = before
url_after (some (q, r, u)) quadkey region before =
    if str_eq q quadkey && str_eq r region then some u else before

abbrev region_after : Option (String × String × String) → String → Option String → Option String
region_after none quadkey before = before
region_after (some (q, r, u)) quadkey before = if str_eq q quadkey then or_key before r else before

-- The URL of the last row that lists the quadkey for the region, after what stood `before` the rows
abbrev pub last_url : List Row → String → String → Option String → Option String
last_url [] quadkey region before = before
last_url (row ∷ rows) quadkey region before =
    last_url rows quadkey region (url_after (entry_of row) quadkey region before)

-- The region of the first row that lists the quadkey
abbrev pub first_region : List Row → String → Option String → Option String
first_region [] quadkey before = before
first_region (row ∷ rows) quadkey before =
    first_region rows quadkey (region_after (entry_of row) quadkey before)

abbrev regions_at : TileIndex → String → Dict String
regions_at index quadkey = or_empty (lookup index quadkey)

lookup_at :
    (index : TileIndex) (q quadkey : String) (new : Dict String)
    → regions_at (assign index q new) quadkey
      ≡ (if str_eq q quadkey then new else regions_at index quadkey)
lookup_at index q quadkey new = ground (arith, lookup-assign index q quadkey new)

add_entry-url :
    (index : TileIndex) (e : Option (String × String × String)) (quadkey region : String)
    → lookup (regions_at (add_entry index e) quadkey) region
      ≡ url_after e quadkey region (lookup (regions_at index quadkey) region)
unfolding add_entry
add_entry-url index none quadkey region = refl
add_entry-url index (some (q, r, u)) quadkey region =
    let new = assign (regions_at index q) r u in
    elim (Bool-cases (str_eq q quadkey)) [
      | inl e ↦
          let same = (eq_iff q quadkey).0 e in
          rw (lookup_at index q quadkey new, e)
            (lookup-assign (regions_at index q) r region u
              ∙ ap (λ k. if str_eq r region then some u else lookup (regions_at index k) region)
                  same)
      | inr e ↦ rw (lookup_at index q quadkey new, e) refl
    ]

add_entry-region :
    (index : TileIndex) (e : Option (String × String × String)) (quadkey : String)
    → head_key (regions_at (add_entry index e) quadkey)
      ≡ region_after e quadkey (head_key (regions_at index quadkey))
unfolding add_entry
add_entry-region index none quadkey = refl
add_entry-region index (some (q, r, u)) quadkey =
    let new = assign (regions_at index q) r u in
    elim (Bool-cases (str_eq q quadkey)) [
      | inl e ↦
          let same = (eq_iff q quadkey).0 e in
          rw (lookup_at index q quadkey new, e)
            (head_key-assign (regions_at index q) r u
              ∙ ap (λ k. or_key (head_key (regions_at index k)) r) same)
      | inr e ↦ rw (lookup_at index q quadkey new, e) refl
    ]

parse_rows-url :
    (index : TileIndex) (rows : List Row) (quadkey region : String)
    → lookup (regions_at (parse_rows index rows) quadkey) region
      ≡ last_url rows quadkey region (lookup (regions_at index quadkey) region)
unfolding parse_rows
parse_rows-url index [] quadkey region = refl
parse_rows-url index (row ∷ rows) quadkey region =
    parse_rows-url (add_entry index (entry_of row)) rows quadkey region
    ∙ ap (last_url rows quadkey region) (add_entry-url index (entry_of row) quadkey region)

parse_rows-region :
    (index : TileIndex) (rows : List Row) (quadkey : String)
    → head_key (regions_at (parse_rows index rows) quadkey)
      ≡ first_region rows quadkey (head_key (regions_at index quadkey))
unfolding parse_rows
parse_rows-region index [] quadkey = refl
parse_rows-region index (row ∷ rows) quadkey =
    parse_rows-region (add_entry index (entry_of row)) rows quadkey
    ∙ ap (first_region rows quadkey) (add_entry-region index (entry_of row) quadkey)

-- The URL by a preferred one, else that of the first region
abbrev pub preferring : Option String → (String → Option String) → Option String → Option String
preferring (some url) at region = some url
preferring none at none = none
preferring none at (some region) = at region

region_url-preferring :
    (d : Dict String) → region_url d ≡ preferring (lookup d "UnitedStates") (lookup d) (head_key d)
unfolding lookup
region_url-preferring [] = refl
region_url-preferring ((k, v) ∷ d) = ground (arith, eq_refl k)

-- The tile of a quadkey is at the URL of the last row that lists it for the United States; where no row
-- does, at the last URL of the region that lists the quadkey first; where none lists it, nowhere. Rows
-- without a quadkey, region or URL do not count.
pub resolve_tile_url-parse_dataset_index :
    (rows : List Row) (quadkey : String)
    → resolve_tile_url (parse_dataset_index rows) quadkey
      ≡ preferring
          (last_url rows quadkey "UnitedStates" none)
          (λ region. last_url rows quadkey region none)
          (first_region rows quadkey none)
unfolding resolve_tile_url parse_dataset_index
resolve_tile_url-parse_dataset_index rows quadkey =
    let d = regions_at (parse_rows [] rows) quadkey in
    let at : lookup d ≡ (λ region. last_url rows quadkey region none) =
      fun_ext (λ region. parse_rows-url [] rows quadkey region) in
    region_url-preferring d ∙ rw (at, parse_rows-region [] rows quadkey) refl
