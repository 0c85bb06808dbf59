-- ===== src/Planefit/Shapely.antt =====
-- The shapely and pyproj calls of app/planefit, which the model takes as parameters.
-- `G` is the type of a shapely geometry.
use rooftrace.Prelude.{ℕ, Bool, List}

-- `geom_type`, or the class that `isinstance` tests
pub data GeomKind : Type 0 where
  polygon : GeomKind
  multi_polygon : GeomKind
  geometry_collection : GeomKind
  line_string : GeomKind
  other_kind : GeomKind

pub record Shapely (F G : Type 0) : Type 0 where
  pub kind : G → GeomKind
  -- `list(g.geoms)`
  pub geoms : G → List G
  pub is_empty : G → Bool
  pub is_valid : G → Bool
  pub area : G → F
  -- `g.length`
  pub length_of : G → F
  pub buffer : G → F → G
  -- `g.simplify(tolerance, preserve_topology=True)`
  pub simplify : G → F → G
  pub boundary : G → G
  pub intersection : G → G → G
  pub intersects : G → G → Bool
  pub distance : G → G → F
  pub convex_hull : G → G
  pub minimum_rotated_rectangle : G → G
  -- `list(g.coords)` of a line, `list(g.exterior.coords)` and `g.exterior.length`
  pub coords : G → List (F × F)
  pub exterior_coords : G → List (F × F)
  pub exterior_length : G → F
  pub centroid : G → F × F
  -- `g.bounds`: minx, miny, maxx, maxy
  pub bounds : G → F × F × F × F
  -- `g.covers(Point(x, y))`
  pub covers : G → F × F → Bool
  -- `Polygon()`, `Polygon(exterior, holes)`, `Point(x, y)`, `box(...)`, `MultiPoint(points)`
  pub empty_polygon : G
  pub polygon_of : List (F × F) → List (List (F × F)) → G
  pub point : F × F → G
  pub box : F × F × F × F → G
  pub multi_point : List (F × F) → G
  pub unary_union : List G → G
  -- the coordinates of `nearest_points(a, b)`
  pub nearest_points : G → G → (F × F) × (F × F)

-- `Transformer.from_crs(src, dst, always_xy=True).transform`, on one point
pub record Pyproj (F : Type 0) : Type 0 where
  pub transform : ℕ → ℕ → F × F → F × F
