-- ===== src/Planefit/Measurement.antt =====
-- app/planefit/geometry.py: the totals over all facets, and the measurement without LiDAR.
use rooftrace.Prelude.{
  ℕ, ◌+◌, Bool, true, false, not, ◌&&◌, Option, none, some, List, [], ◌∷◌, ◌++◌, map, length, ltb,
  if◌then◌else◌, String, Result, ok, err, Raised, value_error, other, ◌>>=◌,
}
use rooftrace.Float.{Float, nought, sum_of, ◌⊕◌, ◌⊗◌, ◌⊘◌}
use rooftrace.Contracts.{
  GeometrySource, imagery, Position, Facet, Diagnostics, MeasurementGeometry, new_facet,
  new_measurement,
}
use rooftrace.Planefit.Numpy.{Numpy}
use rooftrace.Planefit.Shapely.{Shapely, Pyproj, polygon, multi_polygon}
use rooftrace.Planefit.RoofModel.{utm_epsg, max_by}

module _ {F : Type 0} ⦃fl : Float F⦄ where
  abbrev all_vertices : List (Facet F) → List (Position F)
  all_vertices [] = []
  all_vertices (f ∷ fs) = f.vertices ++ all_vertices fs

  -- `_utm_epsg(int((lon + 180.0) // 6.0) + 1, northern=lat >= 0)`
  unfoldable pub epsg_at : F → F → Result Raised ℕ
  unfolding utm_epsg
  epsg_at lon lat =
      utm_epsg (fl.int_of (fl.floordiv (lon ⊕ fl.num 180 0) (fl.num 6 0)) + 1) (fl.le nought lat)

  -- The exterior ring without a closing copy of its first position. A ring is not empty.
  abbrev pub same_position : Position F → Position F → Bool
  same_position p q = fl.eq p.lon q.lon && fl.eq p.lat q.lat && elim p.elevation [
    | none ↦ elim q.elevation [ none ↦ true | some _ ↦ false ]
    | some z ↦ elim q.elevation [ none ↦ false | some w ↦ fl.eq z w ]
  ]

  abbrev pub last_of : Position F → List (Position F) → Position F
  last_of p [] = p
  last_of p (q ∷ qs) = last_of q qs

  abbrev pub but_last : Position F → List (Position F) → List (Position F)
  but_last p [] = []
  but_last p (q ∷ qs) = p ∷ but_last q qs

  unfoldable pub open_ring : List (Position F) → List (Position F)
  open_ring [] = []
  open_ring (p ∷ ps) = if same_position p (last_of p ps) then but_last p ps else p ∷ ps

module _ {F V R G : Type 0} ⦃fl : Float F⦄ (np : Numpy F V R) (sh : Shapely F G)
    (pj : Pyproj F) where
  open fl use {num, lt, le}

  abbrev ring_of : List (Position F) → ℕ → G
  ring_of vertices epsg =
      sh.polygon_of (map (λ v. pj.transform 4326 epsg (v.lon, v.lat)) vertices) []

  -- The loop over the facets that both totals make: their usable plan-view polygons.
  unfoldable pub usable_polygons : List (Facet F) → ℕ → List G
  usable_polygons [] epsg = []
  usable_polygons (f ∷ fs) epsg =
      let rest = usable_polygons fs epsg in
      let poly = ring_of f.vertices epsg in
      if ltb (length f.vertices) 3
      then rest
      else if sh.is_valid poly && lt nought (sh.area poly)
      then poly ∷ rest
      else rest

  -- Where both totals start: the polygons in the zone of the facets' mean vertex, and `[]` where there
  -- is no vertex. Both return `None` where the polygons are `[]`.
  unfoldable pub local_polygons : List (Facet F) → Result Raised (List G)
  unfolding epsg_at usable_polygons
  local_polygons facets =
      let vertices = all_vertices facets in
      let centre = λ (coordinate : Position F → F).
        sum_of (map coordinate vertices) ⊘ fl.of_nat (length vertices) in
      elim vertices [
        | [] ↦ ok []
        | (v ∷ vs) ↦ epsg_at (centre (λ p. p.lon)) (centre (λ p. p.lat)) >>= λ epsg.
            ok (usable_polygons facets epsg)
      ]

  abbrev perimeter_of : G → Option F
  perimeter_of merged = elim (sh.kind merged) [
    | polygon ↦ some (fl.round_to 2 (sh.exterior_length merged ⊗ num 328084 5))
    | multi_polygon ↦
        some (fl.round_to 2 (sum_of (map sh.exterior_length (sh.geoms merged)) ⊗ num 328084 5))
    | _ ↦ none
  ]

  unfoldable pub total_perimeter_ft : List (Facet F) → Result Raised (Option F)
  unfolding local_polygons
  total_perimeter_ft facets = local_polygons facets >>= λ polys. elim polys [
    | [] ↦ ok none
    | (p ∷ ps) ↦ ok (perimeter_of (sh.unary_union (p ∷ ps)))
  ]

  unfoldable pub plan_view_union_area_sqft : List (Facet F) → Result Raised (Option F)
  unfolding local_polygons
  plan_view_union_area_sqft facets = local_polygons facets >>= λ polys. elim polys [
    | [] ↦ ok none
    | (p ∷ ps) ↦ ok (some (sh.area (sh.unary_union (p ∷ ps)) ⊗ num 107639 4))
  ]

  -- `plan_view and plan_view > 0 and total_area > 3.0 * plan_view`
  abbrev dwarfs : F → Option F → Bool
  dwarfs total_area none = false
  dwarfs total_area (some plan_view) =
      not (fl.eq plan_view nought) && lt nought plan_view && lt (num 3 0 ⊗ plan_view) total_area

  -- `round(primary_pitch_degrees, 2)`
  abbrev pub rounded_pitch : Option F → Result Raised (Option F)
  rounded_pitch none = err (other "TypeError" "type NoneType doesn't define __round__ method")
  rounded_pitch (some x) = ok (some (fl.round_to 2 x))

  abbrev pub primary_facet : Facet F → List (Facet F) → Facet F
  primary_facet = max_by (λ f. f.area_sq_ft)

  unfoldable pub overall_confidence : List (Facet F) → F
  overall_confidence facets =
      let total_area = sum_of (map (λ f. f.area_sq_ft) facets) in
      if lt nought total_area
      then sum_of (map (λ f. f.confidence ⊗ f.area_sq_ft) facets) ⊘ total_area
      else fl.fmean (map (λ f. f.confidence) facets)

  -- The measurement of no facets.
  abbrev pub empty_measurement :
      GeometrySource → List String → Option (Diagnostics F) → MeasurementGeometry F
  empty_measurement source warnings roof_model = record {
    facets = [];
    total_area_sq_ft = num 0 1;
    total_perimeter_ft = none;
    primary_pitch_ratio = some (num 0 1);
    primary_pitch_degrees = some (num 0 1);
    source = source;
    confidence = num 0 1;
    warnings = warnings;
    roof_model = roof_model;
  }

  unfoldable pub assemble_measurement :
      List (Facet F)
      → GeometrySource
      → List String
      → Option (Diagnostics F)
      → Result Raised (MeasurementGeometry F)
  unfolding plan_view_union_area_sqft total_perimeter_ft overall_confidence new_measurement
  assemble_measurement [] source warnings roof_model =
      new_measurement (empty_measurement source warnings roof_model)
  assemble_measurement (f ∷ fs) source warnings roof_model = do
    let total_area = sum_of (map (λ g. g.area_sq_ft) (f ∷ fs))
    plan_view ← plan_view_union_area_sqft (f ∷ fs)
    let primary = primary_facet f fs
    total_perimeter ← total_perimeter_ft (f ∷ fs)
    pitch_degrees ← rounded_pitch primary.pitch_degrees
    new_measurement (record {
      facets = f ∷ fs;
      total_area_sq_ft = fl.round_to 2 total_area;
      total_perimeter_ft = total_perimeter;
      primary_pitch_ratio = primary.pitch_ratio;
      primary_pitch_degrees = pitch_degrees;
      source = source;
      confidence = fl.round_to 4 (np.clip (overall_confidence (f ∷ fs)) (num 0 0) (num 1 0));
      warnings =
          if dwarfs total_area plan_view then warnings ++ "area_over_plan_view" ∷ [] else warnings;
      roof_model = roof_model;
    })

  unfoldable pub polygon_area_m2_utm : List (Position F) → ℕ → F
  polygon_area_m2_utm exterior epsg = sh.area (ring_of exterior epsg)

  -- `uuid` is `str(uuid.uuid4())`; the rings hold at least the exterior.
  unfoldable pub fallback_measurement_from_polygon :
      List (List (Position F)) → F → ℕ → String → Result Raised (MeasurementGeometry F)
  unfolding utm_epsg polygon_area_m2_utm open_ring total_perimeter_ft new_facet new_measurement
  fallback_measurement_from_polygon [] inferred_pitch_degrees utm_zone uuid =
      err (other "IndexError" "list index out of range")
  fallback_measurement_from_polygon (exterior ∷ holes) inferred_pitch_degrees utm_zone uuid = do
    epsg ← utm_epsg utm_zone true
    let planimetric_area_m2 = polygon_area_m2_utm exterior epsg
    let cos_pitch = fl.cos (fl.radians inferred_pitch_degrees)
    let true_area_m2 =
        (if lt (num 1 6) cos_pitch then planimetric_area_m2 ⊘ cos_pitch else planimetric_area_m2)
    let area_sq_ft = fl.round_to 2 (true_area_m2 ⊗ num 107639 4)
    if le planimetric_area_m2 (num 0 1)
        then err (value_error "degenerate polygon: zero planimetric area")
        else new_facet (record {
          facet_id = uuid;
          vertices = open_ring exterior;
          pitch_ratio = none;
          pitch_degrees = none;
          area_sq_ft = area_sq_ft;
          source = imagery;
          confidence = num 5 1;
        })
          >>= λ facet. total_perimeter_ft (facet ∷ []) >>= λ perimeter. new_measurement (record {
            facets = facet ∷ [];
            total_area_sq_ft = area_sq_ft;
            total_perimeter_ft = perimeter;
            primary_pitch_ratio = none;
            primary_pitch_degrees = none;
            source = imagery;
            confidence = num 5 1;
            warnings = "no_lidar_fallback" ∷ "area_estimated_no_pitch" ∷ [];
            roof_model = none;
          })
