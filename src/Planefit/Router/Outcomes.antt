-- ===== src/Planefit/Router/Outcomes.antt =====
-- What POST /pipeline/fit-planes of app/planefit/router.py answers for a sparse and for a dense cloud.
use rooftrace.Prelude.{
  ◌≤◌, ◌<◌, ◌≡◌, refl, Bool, true, false, Option, none, some, List, [], ◌∷◌, ◌++◌, map, arith,
  length, ltb, if◌then◌else◌, String, ok, >>=-eq-ok, ltb→lt, ltb→le, Bool-cases, inl, inr, All, ap,
  sym, ◌∙◌,
}
use mathlib.Core.Path.{subst}
use rooftrace.Float.{Float, IsOrdered, min_of}
use rooftrace.Contracts.{
  GeometrySource, lidar, Facet, Diagnostics, MeasurementGeometry, new_measurement,
}
use rooftrace.Planefit.Numpy.{Numpy}
use rooftrace.Planefit.Shapely.{Shapely, Pyproj}
use rooftrace.Planefit.Fit.{FittedPlane, fit_planes, default_params}
use rooftrace.Planefit.Topology.{merge_coplanar_facets}
use rooftrace.Planefit.RoofModel.{RoofModel}
use rooftrace.Planefit.RoofModel.Build.{build_roof_model, has_text}
use rooftrace.Planefit.Geometry.{build_facets_from_planes, build_facets_from_roof_model}
use rooftrace.Planefit.Measurement.{
  assemble_measurement, plan_view_union_area_sqft, total_perimeter_ft, rounded_pitch, primary_facet,
  empty_measurement,
}
use rooftrace.Planefit.Router.{
  FitPlanesRequest, Calls, cap_facet, cap_measurement, measure_sparse, measure_sparse_planes,
  measure_planes, measure_model, measure_dense, no_facets, rings_of, roof_model_diagnostics,
  fit_and_measure,
}

module _ {F V R G : Type 0} ⦃fl : Float F⦄ (np : Numpy F V R) (sh : Shapely F G) (pj : Pyproj F)
    (calls : Calls V) where
  new_measurement-same : (m m' : MeasurementGeometry F) → new_measurement m ≡ ok m' → m ≡ m'
  unfolding new_measurement
  new_measurement-same m m' h = ground arith

  -- What a measurement keeps of the arguments of `assemble_measurement`.
  abbrev pub Keeps :
      List (Facet F)
      → GeometrySource
      → List String
      → Option (Diagnostics F)
      → MeasurementGeometry F
      → Type 0
  Keeps facets source warnings roof_model m =
      (m.facets ≡ facets)
      × (m.source ≡ source)
      × (m.roof_model ≡ roof_model)
      × ((w : String) → has_text w warnings ≡ true → has_text w m.warnings ≡ true)

  new_measurement-Keeps :
      (facets : List (Facet F)) (source : GeometrySource) (warnings : List String)
      (roof_model : Option (Diagnostics F)) (m m' : MeasurementGeometry F)
      → Keeps facets source warnings roof_model m
      → new_measurement m ≡ ok m'
      → Keeps facets source warnings roof_model m'
  new_measurement-Keeps facets source warnings roof_model m m' k h =
      subst (Keeps facets source warnings roof_model) (new_measurement-same m m' h) k

  has_text-snoc :
      (w x : String) (ws : List String) → has_text w ws ≡ true → has_text w (ws ++ x ∷ []) ≡ true
  has_text-snoc w x [] h = absurd (ground arith)
  has_text-snoc w x (y ∷ ws) h = ground (arith, has_text-snoc w x ws)

  has_text-if :
      (b : Bool) (w x : String) (ws : List String)
      → has_text w ws ≡ true
      → has_text w (if b then ws ++ x ∷ [] else ws) ≡ true
  has_text-if true w x ws h = has_text-snoc w x ws h
  has_text-if false w x ws h = h

  assemble_measurement-Keeps :
      (facets : List (Facet F)) (source : GeometrySource) (warnings : List String)
      (roof_model : Option (Diagnostics F)) (m : MeasurementGeometry F)
      → assemble_measurement np sh pj facets source warnings roof_model ≡ ok m
      → Keeps facets source warnings roof_model m
  unfolding assemble_measurement
  assemble_measurement-Keeps [] source warnings roof_model m h =
      new_measurement-Keeps [] source warnings roof_model
        (empty_measurement np sh pj source warnings roof_model) m (refl, refl, refl, λ w t. t) h
  assemble_measurement-Keeps (f ∷ fs) source warnings roof_model m h =
      let (plan_view, _, h1) = >>=-eq-ok (plan_view_union_area_sqft np sh pj (f ∷ fs)) _ h in
      let (perimeter, _, h2) = >>=-eq-ok (total_perimeter_ft np sh pj (f ∷ fs)) _ h1 in
      let (pitch, _, h3) =
        >>=-eq-ok (rounded_pitch np sh pj (primary_facet np sh pj f fs).pitch_degrees) _ h2 in
      new_measurement-Keeps (f ∷ fs) source warnings roof_model _ m
        (refl, refl, refl, λ w t. has_text-if _ w _ warnings t) h3

  module _ ⦃ordered : IsOrdered F⦄ where
    min_of_le : (x y : F) → fl.le (min_of x y) y ≡ true
    min_of_le x y = ground (arith, ordered.le_refl y, ordered.lt-eq-not-le y x)

    cap_facet-All :
        (fs : List (Facet F))
        → All (λ f. fl.le f.confidence (fl.num 3 1) ≡ true) (map (cap_facet np sh pj calls) fs)
    cap_facet-All [] = tt
    cap_facet-All (f ∷ fs) = (min_of_le f.confidence (fl.num 3 1), cap_facet-All fs)

    abbrev pub IsLowTrust : MeasurementGeometry F → Type 0
    IsLowTrust m =
        (fl.le m.confidence (fl.num 3 1) ≡ true)
        × All (λ f. fl.le f.confidence (fl.num 3 1) ≡ true) m.facets
        × (has_text "sparse_lidar" m.warnings ≡ true)
        × (m.roof_model ≡ none)

    measure_sparse-IsLowTrust :
        (points : List V) (req : FitPlanesRequest F) (planes : List (FittedPlane F V))
        (m : MeasurementGeometry F)
        → fl.le (fl.num 1 1) (fl.num 3 1) ≡ true
        → measure_sparse_planes np sh pj calls points req planes ≡ ok m
        → IsLowTrust m
    unfolding measure_sparse_planes
    measure_sparse-IsLowTrust points req [] m tenth h =
        subst IsLowTrust (new_measurement-same (no_facets np sh pj calls) m h)
          (tenth, tt, refl, refl)
    measure_sparse-IsLowTrust points req (p ∷ ps) m tenth h =
        let (facets, _, h1) =
          >>=-eq-ok
            (build_facets_from_planes np sh pj (merge_coplanar_facets np (p ∷ ps)) points
              req.utm_zone lidar calls.uuids)
            _ h in
        let capped = map (cap_facet np sh pj calls) facets in
        let (result, made, h2) =
          >>=-eq-ok (assemble_measurement np sh pj capped lidar ("sparse_lidar" ∷ []) none) _ h1 in
        let (facets_eq, _, model_eq, warned) =
          assemble_measurement-Keeps capped lidar ("sparse_lidar" ∷ []) none result made in
        let same : cap_measurement np sh pj calls result ≡ m = ground arith in
        subst IsLowTrust same (
          min_of_le result.confidence (fl.num 3 1),
          subst (All (λ f. fl.le f.confidence (fl.num 3 1) ≡ true)) (sym facets_eq)
              (cap_facet-All facets),
          warned "sparse_lidar" refl,
          model_eq,
        )

    measure_model-Keeps :
        (model : RoofModel F V G) (facets : List (Facet F)) (m : MeasurementGeometry F)
        → measure_model np sh pj calls model facets ≡ ok m
        → (0 < length facets)
          × Keeps facets lidar model.warnings (some (roof_model_diagnostics np sh pj calls model)) m
    unfolding measure_model
    measure_model-Keeps model [] m h = absurd (ground arith)
    measure_model-Keeps model (f ∷ fs) m h =
        (omega arith, assemble_measurement-Keeps (f ∷ fs) lidar model.warnings _ m h)

    -- A dense cloud's measurement is that of the outline-constrained roof model.
    abbrev pub IsOfModel :
        List (FittedPlane F V) → List V → FitPlanesRequest F → MeasurementGeometry F → Type 0
    IsOfModel planes points req m =
        (model : RoofModel F V G) × (build_roof_model np sh pj (merge_coplanar_facets np planes)
            points (rings_of np sh pj calls req.refined_polygon) req.utm_zone
          ≡ ok model)
        × (0 < length m.facets)
        × (build_facets_from_roof_model np sh pj model req.utm_zone lidar ≡ ok m.facets)
        × (m.source ≡ lidar)
        × ((w : String) → has_text w model.warnings ≡ true → has_text w m.warnings ≡ true)

    measure_dense-IsOfModel :
        (points : List V) (req : FitPlanesRequest F) (planes : List (FittedPlane F V))
        (m : MeasurementGeometry F)
        → measure_planes np sh pj calls points req planes ≡ ok m
        → IsOfModel planes points req m
    unfolding measure_planes
    measure_dense-IsOfModel points req [] m h = absurd (ground arith)
    measure_dense-IsOfModel points req (p ∷ ps) m h =
        let (model, built, h1) =
          >>=-eq-ok
            (build_roof_model np sh pj (merge_coplanar_facets np (p ∷ ps)) points
              (rings_of np sh pj calls req.refined_polygon) req.utm_zone)
            _ h in
        let (facets, made, h2) =
          >>=-eq-ok (build_facets_from_roof_model np sh pj model req.utm_zone lidar) _ h1 in
        let (some_facet, (facets_eq, source_eq, _, warned)) =
          measure_model-Keeps model facets m h2 in
        (
          model,
          built,
          omega (arith, ap length facets_eq),
          made ∙ ap ok (sym facets_eq),
          source_eq,
          warned,
        )

    -- Where `_fit_and_measure` returns a measurement, and 0.1 <= 0.3 holds of the floats: for fewer than
    -- 100 points its confidence and that of each facet are at most 0.3, the warning `sparse_lidar` is
    -- among its warnings, and there is no roof model; for 100 points or more its facets, at least one,
    -- are those of the roof model that the merged planes give, with source lidar and all of the model's
    -- warnings.
    pub fit_and_measure_lem :
        (points : List V) (req : FitPlanesRequest F) (m : MeasurementGeometry F)
        → fl.le (fl.num 1 1) (fl.num 3 1) ≡ true
        → fit_and_measure np sh pj calls points req ≡ ok m
        → (length points < 100 → IsLowTrust m)
          × (100 ≤ length points
              → IsOfModel (fit_planes np points (default_params np)) points req m)
    unfolding fit_and_measure measure_sparse measure_dense
    fit_and_measure_lem points req m tenth h = elim (Bool-cases (ltb (length points) 100)) [
      | inl e ↦ (
        λ _. measure_sparse-IsLowTrust points req _ m tenth (rw e at h),
        λ le. absurd (omega (arith, ltb→lt _ _ e)),
      )
      | inr e ↦ (
        λ lt. absurd (omega (arith, ltb→le _ _ e)),
        λ _. measure_dense-IsOfModel points req _ m (rw e at h),
      )
    ]
