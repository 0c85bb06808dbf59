-- ===== src/Outline/Polygons.antt =====
-- app/outline/router.py: from a polygon to a mask of pixels and back. Pillow and shapely are parameters.
use rooftrace.Prelude.{
  ℕ, ◌+◌, Bool, true, false, not, ◌&&◌, ◌||◌, none, some, List, [], ◌∷◌, ◌++◌, map, if◌then◌else◌,
  Result, ok, err, Raised, value_error, other, ◌>>=◌,
}
use rooftrace.Float.{Float, max_of, ◌⊕◌, ◌⊖◌, ◌⊗◌, ◌⊘◌}
use rooftrace.Contracts.{imagery, Position, Polygon, new_polygon}
use rooftrace.Planefit.Shapely.{Shapely, GeomKind, polygon, multi_polygon}
use rooftrace.Outline.Masks.{Mask, has_pixel}
use rooftrace.Outline.Runs.{Strip, strips}

pub record GeoBounds (F : Type 0) : Type 0 where
  pub west : F
  pub south : F
  pub east : F
  pub north : F

-- `ImageDraw.Draw(img).polygon(ring, fill=...)` on an image of one bit
pub record Pillow (F : Type 0) : Type 0 where
  pub fill_polygon : Mask → List (F × F) → Bool → Result Raised Mask

abbrev pub blank : ℕ → ℕ → Mask
blank width height = record { height = height; width = width; pixel = λ i j. false }

module _ {F : Type 0} ⦃fl : Float F⦄ where
  open fl use {num, of_nat, lt, eq}

  abbrev pub lonlat_to_px : ℕ → ℕ → GeoBounds F → Position F → F × F
  lonlat_to_px width height b p = (
    ((p.lon ⊖ b.west) ⊘ (b.east ⊖ b.west)) ⊗ of_nat width,
    ((b.north ⊖ p.lat) ⊘ (b.north ⊖ b.south)) ⊗ of_nat height,
  )

  abbrev pub px_to_lonlat : ℕ → ℕ → GeoBounds F → F × F → Position F
  px_to_lonlat width height b (px, py) = record {
    lon = b.west ⊕ ((px ⊘ of_nat width) ⊗ (b.east ⊖ b.west));
    lat = b.north ⊖ ((py ⊘ of_nat height) ⊗ (b.north ⊖ b.south));
    elevation = none;
  }

  -- The holes, drawn one after the other
  unfoldable pub punch_out : Pillow F → List (List (F × F)) → Mask → Result Raised Mask
  punch_out pillow [] img = ok img
  punch_out pillow (hole ∷ holes) img =
      pillow.fill_polygon img hole false >>= λ img'. punch_out pillow holes img'

  unfoldable pub polygon_to_mask : Pillow F → Polygon F → ℕ → ℕ → GeoBounds F → Result Raised Mask
  unfolding punch_out
  polygon_to_mask pillow p width height bounds =
      let to_px = map (map (lonlat_to_px width height bounds)) in
      elim (to_px p.coordinates) [
        | [] ↦ err (other "IndexError" "list index out of range")
        | exterior ∷ holes ↦
            pillow.fill_polygon (blank width height) exterior true >>= punch_out pillow holes
      ]

  abbrev corner : ℕ → ℕ → F × F
  corner x y = (of_nat x, of_nat y)

  -- `exterior_coords[0] != exterior_coords[-1]`, of lists of two floats
  abbrev differs : Position F → Position F → Bool
  differs p q = not (eq p.lon q.lon && eq p.lat q.lat)

  abbrev last_of : Position F → List (Position F) → Position F
  last_of p [] = p
  last_of p (q ∷ ps) = last_of q ps

  unfoldable pub closed_ring : List (Position F) → Result Raised (List (Position F))
  closed_ring [] = err (other "IndexError" "list index out of range")
  closed_ring (p ∷ ps) = ok (if differs p (last_of p ps) then (p ∷ ps) ++ p ∷ [] else p ∷ ps)

  module _ {G : Type 0} (sh : Shapely F G) where
    open sh use {kind, geoms, is_empty, area, polygon_of, unary_union, simplify, exterior_coords}

    abbrev strip_polygon : Strip → G
    strip_polygon (s, e, row) =
        polygon_of (corner s row ∷ corner e row ∷ corner e (row + 1) ∷ corner s (row + 1) ∷ []) []

    abbrev larger : G → List G → G
    larger g [] = g
    larger g (h ∷ gs) = larger (if lt (area g) (area h) then h else g) gs

    -- `max(geoms, key=lambda g: g.area)`
    abbrev max_area : List G → Result Raised G
    max_area [] = err (value_error "max() iterable argument is empty")
    max_area (g ∷ gs) = ok (larger g gs)

    -- "Take the largest polygon if multipolygon"
    abbrev largest_part : G → Result Raised G
    largest_part g = elim (kind g) [ multi_polygon ↦ max_area (geoms g) | _ ↦ ok g ]

    abbrev is_polygonal : GeomKind → Bool
    is_polygonal polygon = true
    is_polygonal multi_polygon = true
    is_polygonal _ = false

    abbrev exterior_of : G → Result Raised (List (F × F))
    exterior_of g = elim (kind g) [
      | polygon ↦ ok (exterior_coords g)
      | _ ↦ err (other "AttributeError" "no attribute 'exterior'")
    ]

    -- The pixel outline of the strips
    unfoldable pub merge_strips : List Strip → Result Raised G
    merge_strips [] = err (value_error "no pixels in mask")
    merge_strips (s ∷ ss) =
        let merged = unary_union (map strip_polygon (s ∷ ss)) in
        if is_empty merged then err (value_error "merged polygon is empty") else largest_part merged

    unfoldable pub simplified : G → F → G
    simplified merged tolerance =
        let g = simplify merged tolerance in
        if is_empty g || not (is_polygonal (kind g)) then merged else g

    -- One pixel at least
    unfoldable pub px_tolerance : ℕ → GeoBounds F → F → F
    px_tolerance width b dp_tolerance =
        let lon_range = b.east ⊖ b.west in
        let pixels_per_degree =
          if lt (num 0 0) lon_range then of_nat width ⊘ lon_range else of_nat width in
        max_of (num 1 0) (dp_tolerance ⊗ pixels_per_degree)

    unfoldable pub mask_to_polygon : Mask → ℕ → ℕ → GeoBounds F → F → Result Raised (Polygon F)
    unfolding merge_strips simplified px_tolerance closed_ring new_polygon
    mask_to_polygon mask width height bounds dp_tolerance =
        if not (has_pixel mask)
        then err (value_error "empty mask — cannot convert to polygon")
        else do
          merged ← merge_strips (strips mask)
          g ← largest_part (simplified merged (px_tolerance width bounds dp_tolerance))
          exterior ← exterior_of g
          ring ← closed_ring (map (px_to_lonlat width height bounds) exterior)
          new_polygon (record {
            coordinates = ring ∷ [];
            source = some imagery;
            confidence = some (num 9 1);
          })
