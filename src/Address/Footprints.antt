-- ===== src/Address/Footprints.antt =====
-- app/resolve_address/ms_footprints.py: the footprints of a tile that are chosen for a position. httpx,
-- gzip, json and shapely are parameters.
pub mod Order
pub mod Features
pub mod Chosen
use rooftrace.Prelude.{
  ℕ, Bool, true, false, not, ◌&&◌, ◌||◌, Option, none, some, List, [], ◌∷◌, map, String, str_eq,
  ltb, leb, ◌==◌, if◌then◌else◌, Result, ok, err, Raised, value_error, other, f_string, show, ◌>>=◌,
}
use rooftrace.Float.{Float, max_of, ◌⊗◌, ◌⊘◌}
use rooftrace.Storage.{Bytes}
use rooftrace.Planefit.Shapely.{Shapely}
use rooftrace.Address.Dataset.{
  Row, TileIndex, Fetched, resolve_tile_url, load_dataset_index, tile_content,
}
use rooftrace.Address.Json.{Json, text, get_field, truthy, or_else}

-- What shapely makes of JSON coordinates, and the operations that are used here alone
pub record Shapes (F G : Type 0) : Type 0 where
  -- `_polygon_to_shapely(coords)`, with what it raises
  pub polygon_to_shapely : Json F → Result Raised G
  -- `shapely.affinity.scale(g, xfact, yfact, origin=center)`
  pub scale : G → F → F → F × F → G

-- `except (ValueError, TypeError, ShapelyError)`: `is_shape_error` tells shapely's own
abbrev pub is_skipped : (String → Bool) → Raised → Bool
is_skipped is_shape_error (value_error m) = true
is_skipped is_shape_error (other n m) = str_eq n "TypeError" || is_shape_error n
is_skipped is_shape_error e = false

-- A chosen footprint with its score
pub record Scored (F : Type 0) : Type 0 where
  pub distance : F
  pub centroid_distance : F
  pub minus_area : F
  pub coords : Json F

module _ {F G : Type 0} ⦃fl : Float F⦄ (sh : Shapely F G) (shapes : Shapes F G)
    (is_shape_error : String → Bool) where
  open fl use {num, lt, eq, cos, radians, neg}

  abbrev deg_per_metre_lat : F
  deg_per_metre_lat = num 1 0 ⊘ num 111320 0

  -- The ellipse of 50 m round the position
  unfoldable pub fallback_zone : F → F → G
  fallback_zone lat lon =
      let deg_per_m_lon = deg_per_metre_lat ⊘ max_of (cos (radians lat)) (num 1 9) in
      shapes.scale (sh.buffer (sh.point (lon, lat)) (num 1 0)) (num 50 0 ⊗ deg_per_m_lon)
        (num 50 0 ⊗ deg_per_metre_lat) (lon, lat)

  abbrev pub is_polygon : Json F → Bool
  is_polygon (text t) = str_eq t "Polygon"
  is_polygon _ = false

  -- The coordinates of a feature, or none where the loop goes on without it
  unfoldable pub coords_of : Json F → Result Raised (Option (Json F))
  coords_of feature = do
    geometry ← get_field feature "geometry"
    let geom_data = or_else geometry feature
    geom_type ← get_field geom_data "type"
    coords ← get_field geom_data "coordinates"
    if not (is_polygon geom_type) || not (truthy coords) then ok none else ok (some coords)

  -- The shape of a feature's coordinates, or none where they make no polygon
  unfoldable pub shape_of : Json F → Result Raised (Option G)
  shape_of coords = elim (shapes.polygon_to_shapely coords) [
    | ok g ↦ ok (some g)
    | err e ↦ if is_skipped is_shape_error e then ok none else err e
  ]

  abbrev pub score : G → Json F → G → Scored F
  score center coords footprint = record {
    distance = sh.distance footprint center;
    centroid_distance = sh.distance (sh.point (sh.centroid footprint)) center;
    minus_area = neg (sh.area footprint);
    coords = coords;
  }

  -- The score of a shape that intersects `zone`, the parcel or the ellipse
  abbrev pub scored_shape : G → G → Json F → Option G → Option (Scored F)
  scored_shape center zone coords none = none
  scored_shape center zone coords (some footprint) =
      if sh.intersects footprint zone then some (score center coords footprint) else none

  abbrev pub scored_coords : G → G → Option (Json F) → Result Raised (Option (Scored F))
  scored_coords center zone none = ok none
  scored_coords center zone (some coords) =
      shape_of coords >>= λ shape. ok (scored_shape center zone coords shape)

  abbrev pub push_scored : Option (Scored F) → List (Scored F) → List (Scored F)
  push_scored none rest = rest
  push_scored (some s) rest = s ∷ rest

  -- The loop over the features
  unfoldable pub scored_results : G → G → List (Json F) → Result Raised (List (Scored F))
  unfolding coords_of shape_of
  scored_results center zone [] = ok []
  scored_results center zone (feature ∷ features) = do
    found ← coords_of feature
    hit ← scored_coords center zone found
    rest ← scored_results center zone features
    ok (push_scored hit rest)

  -- Python's order of the tuples `item[:3]`: whether `a` comes before `b`
  abbrev pub comes_before : Scored F → Scored F → Bool
  comes_before a b =
      if not (eq a.distance b.distance)
      then lt a.distance b.distance
      else if not (eq a.centroid_distance b.centroid_distance)
      then lt a.centroid_distance b.centroid_distance
      else lt a.minus_area b.minus_area

  -- `list.sort`, which leaves what no order separates as it stands
  unfoldable pub insert_scored : Scored F → List (Scored F) → List (Scored F)
  insert_scored x [] = x ∷ []
  insert_scored x (y ∷ ys) =
      let rest = insert_scored x ys in if comes_before y x then y ∷ rest else x ∷ y ∷ ys

  unfoldable pub nearest_first : List (Scored F) → List (Scored F)
  unfolding insert_scored
  nearest_first [] = []
  nearest_first (x ∷ xs) = insert_scored x (nearest_first xs)

  -- `parcel` is `parcel_polygon_coords`; `decoded` is what comes of decompressing and reading the tile.
  unfoldable pub choose_footprints :
      F → F → Option (Json F) → Result Raised (List (Json F)) → Result Raised (List (Json F))
  unfolding scored_results nearest_first fallback_zone
  choose_footprints lat lon parcel decoded = do
    zone ← elim parcel [
      | none ↦ ok (fallback_zone lat lon)
      | some rings ↦ shapes.polygon_to_shapely rings
    ]
    features ← decoded
    scored ← scored_results (sh.point (lon, lat)) zone features
    ok (map (λ s. s.coords) (nearest_first scored))

  -- With the index at hand: the tile's URL, its content and its features
  unfoldable pub fetch_tile :
      (Bytes → Result Raised (List (Json F)))
      → (String → Fetched)
      → TileIndex
      → String
      → F
      → F
      → Option (Json F)
      → Result Raised (List (Json F))
  unfolding resolve_tile_url tile_content choose_footprints
  fetch_tile features_of get index quadkey lat lon parcel = do
    content ← elim (resolve_tile_url index quadkey) [
      | none ↦ ok none
      | some url ↦ tile_content (get url)
    ]
    elim content [ none ↦ ok [] | some raw ↦ choose_footprints lat lon parcel (features_of raw) ]

  -- The index and the tile are fetched by `get`. Also what the process keeps of the index then: it keeps
  -- it even where the tile fails.
  unfoldable pub fetch_footprints :
      (Bytes → Result Raised (List Row))
      → (Bytes → Result Raised (List (Json F)))
      → (String → Fetched)
      → String
      → Option TileIndex
      → F
      → F
      → Option (Json F)
      → Result Raised (List (Json F)) × Option TileIndex
  unfolding load_dataset_index fetch_tile
  fetch_footprints rows_of features_of get quadkey kept lat lon parcel =
      elim (load_dataset_index rows_of kept (get "dataset-links.csv")) [
        | err e ↦ (err e, kept)
        | ok index ↦ (fetch_tile features_of get index quadkey lat lon parcel, some index)
      ]
