-- ===== src/Planefit/RoofModel/Built.antt =====
-- What `build_roof_model` of app/planefit/roof_model.py guarantees of its facets.
use rooftrace.Prelude.{
  ℕ, ◌+◌, ◌≤◌, ◌≡◌, refl, Bool, true, false, not, ◌||◌, Option, none, some, List, [], ◌∷◌, ◌++◌,
  arith, length, get_elem?, if◌then◌else◌, All, All-append, ap, sym, ◌∙◌, String, ok, f_string,
  show, >>=-eq-ok,
}
use mathlib.Core.Path.{subst}
use rooftrace.Float.{Float}
use rooftrace.Planefit.Numpy.{Numpy, gather}
use rooftrace.Planefit.Shapely.{Shapely, Pyproj}
use rooftrace.Planefit.Topology.{MergedPlane}
use rooftrace.Planefit.RoofModel.{RoofModelFacet, RoofModel, CandidateFacet, refined_outline_to_utm}
use rooftrace.Planefit.RoofModel.Support.{support_polygons}
use rooftrace.Planefit.RoofModel.Build.{
  get_or, candidate_of, candidates_of, plane_candidates, candidates_from, facet_of, emit, facets_in,
  build_roof_model,
}

All-found {κ} :
    {A : Type 0} (P : A → Type κ) (o : Option A) (xs : List A)
    → ((a : A) → o ≡ some a → P a)
    → All P xs
    → All P (elim o [ none ↦ xs | some a ↦ a ∷ xs ])
All-found P none xs h t = t
All-found P (some a) xs h t = (h a refl, t)

get_elem?-length :
    {A : Type 0} (xs : List A) (y : A) (ys : List A) → get_elem? (xs ++ y ∷ ys) (length xs) ≡ some y
get_elem?-length [] y ys = refl
get_elem?-length (x ∷ xs) y ys = get_elem?-length xs y ys

length-snoc : {A : Type 0} (xs : List A) (y : A) → length (xs ++ y ∷ []) ≡ length xs + 1
length-snoc [] y = omega arith
length-snoc (x ∷ xs) y = omega (arith, length-snoc xs y)

append-snoc : {A : Type 0} (xs : List A) (y : A) (ys : List A) → (xs ++ y ∷ []) ++ ys ≡ xs ++ y ∷ ys
append-snoc [] y ys = refl
append-snoc (x ∷ xs) y ys = ap (λ l. x ∷ l) (append-snoc xs y ys)

module _ {F V R G : Type 0} ⦃fl : Float F⦄ (np : Numpy F V R) (sh : Shapely F G)
    (pj : Pyproj F) where
  -- A candidate passed the gates of step 1.
  abbrev pub IsGated : List (MergedPlane F V) → CandidateFacet F V G → Type 0
  IsGated planes c =
      (get_elem? planes c.plane_index ≡ some c.plane)
      × (3 ≤ length c.inlier_pts)
      × (fl.lt c.confidence (fl.num 5 1) ≡ false)

  -- A facet lies on one of the planes, has three inliers, a confidence of 0.5 and an area of 12 m2.
  abbrev pub IsGatedFacet : List (MergedPlane F V) → RoofModelFacet F V G → Type 0
  IsGatedFacet planes f =
      (get_elem? planes f.plane_index ≡ some f.plane)
      × (3 ≤ f.inlier_count)
      × (fl.lt f.confidence (fl.num 5 1) ≡ false)
      × (sh.is_empty f.polygon_utm ≡ false)
      × (fl.lt (sh.area f.polygon_utm) (fl.num 12 0) ≡ false)

  -- The facets' names count from `n + 1`.
  abbrev pub IsNumbered : ℕ → List (RoofModelFacet F V G) → Type 0
  IsNumbered n [] = Unit
  IsNumbered n (f ∷ fs) = (f.facet_id ≡ f_string ("F" ∷ show (n + 1) ∷ [])) × IsNumbered (n + 1) fs

  candidate_of-IsGated :
      (planes : List (MergedPlane F V)) (i : ℕ) (plane : MergedPlane F V) (pts : List V)
      (outline support : G) (c : CandidateFacet F V G)
      → get_elem? planes i ≡ some plane
      → (candidate_of np sh pj i plane pts outline support).0 ≡ some c
      → IsGated planes c
  unfolding candidate_of
  candidate_of-IsGated planes i plane pts outline support c at_i h = ground arith

  candidates_of-IsGated :
      (planes : List (MergedPlane F V)) (i : ℕ) (plane : MergedPlane F V) (pts : List V)
      (outline : G) (supports : List G)
      → get_elem? planes i ≡ some plane
      → All (IsGated planes) (candidates_of np sh pj i plane pts outline supports).0
  unfolding candidates_of
  candidates_of-IsGated planes i plane pts outline [] at_i = tt
  candidates_of-IsGated planes i plane pts outline (s ∷ ss) at_i =
      All-found (IsGated planes) (candidate_of np sh pj i plane pts outline s).0
        (candidates_of np sh pj i plane pts outline ss).0
        (λ c e. candidate_of-IsGated planes i plane pts outline s c at_i e)
        (candidates_of-IsGated planes i plane pts outline ss at_i)

  plane_candidates-IsGated :
      (planes : List (MergedPlane F V)) (i : ℕ) (plane : MergedPlane F V) (pts : List V)
      (outline : G) (supports : List G)
      → get_elem? planes i ≡ some plane
      → All (IsGated planes) (plane_candidates np sh pj i plane pts outline supports).0
  unfolding plane_candidates
  plane_candidates-IsGated planes i plane pts outline [] at_i = tt
  plane_candidates-IsGated planes i plane pts outline (s ∷ ss) at_i =
      candidates_of-IsGated planes i plane pts outline (s ∷ ss) at_i

  -- `planes` holds `rest` from index `i` on.
  abbrev IsTail : List (MergedPlane F V) → ℕ → List (MergedPlane F V) → Type 0
  IsTail planes i [] = Unit
  IsTail planes i (p ∷ ps) = (get_elem? planes i ≡ some p) × IsTail planes (i + 1) ps

  candidates_from-IsGated :
      (planes : List (MergedPlane F V)) (i : ℕ) (rest : List (MergedPlane F V)) (points : List V)
      (outline : G)
      → IsTail planes i rest
      → All (IsGated planes) (candidates_from np sh pj i rest points outline).0
  unfolding candidates_from
  candidates_from-IsGated planes i [] points outline tl = tt
  candidates_from-IsGated planes i (p ∷ ps) points outline (here, tl) =
      let pts = gather points p.inlier_indices in
      All-append (IsGated planes) _ (candidates_from np sh pj (i + 1) ps points outline).0
        (plane_candidates-IsGated planes i p pts outline (support_polygons np sh pts) here)
        (candidates_from-IsGated planes (i + 1) ps points outline tl)

  IsTail-lookup :
      (planes before rest : List (MergedPlane F V))
      → planes ≡ before ++ rest
      → IsTail planes (length before) rest
  IsTail-lookup planes before [] e = tt
  IsTail-lookup planes before (p ∷ ps) e = (
    subst (λ l. get_elem? l (length before) ≡ some p) (sym e) (get_elem?-length before p ps),
    subst (λ n. IsTail planes n ps) (length-snoc before p)
        (IsTail-lookup planes (before ++ p ∷ []) ps (e ∙ sym (append-snoc before p ps))),
  )

  -- Step 3.
  abbrev Emitted : List (MergedPlane F V) → ℕ → List (RoofModelFacet F V G) × List String → Type 0
  Emitted planes count (fs, ws) = All (IsGatedFacet planes) fs × IsNumbered count fs

  emit-next :
      (planes : List (MergedPlane F V)) (count : ℕ) (c : CandidateFacet F V G) (cell : G)
      (rest : ℕ → List (RoofModelFacet F V G) × List String) (empty tiny hit : Bool)
      → IsGated planes c
      → ((n : ℕ) → Emitted planes n (rest n))
      → sh.is_empty cell ≡ empty
      → fl.lt (sh.area cell) (fl.num 12 0) ≡ tiny
      → let small = empty || tiny in
        let (fs, more) = rest (if small || not hit then count else count + 1) in
        Emitted planes count (
          if small
          then (fs, "facet_cell_too_small" ∷ more)
          else if not hit
          then (fs, "facet_cell_off_support" ∷ more)
          else (facet_of np sh pj (count + 1) c cell ∷ fs, more))
  unfolding facet_of
  emit-next planes count c cell rest true tiny hit gated all e t = all count
  emit-next planes count c cell rest false true hit gated all e t = all count
  emit-next planes count c cell rest false false false gated all e t = all count
  emit-next planes count c cell rest false false true (at_index, three, confident) all e t =
      let (gated_rest, numbered) = all (count + 1) in
      (((at_index, three, confident, e, t), gated_rest), (refl, numbered))

  emit-Emitted :
      (planes : List (MergedPlane F V)) (i count : ℕ) (cell_for : List (ℕ × G))
      (candidates : List (CandidateFacet F V G))
      → All (IsGated planes) candidates
      → Emitted planes count (emit np sh pj i count cell_for candidates)
  unfolding emit
  emit-Emitted planes i count cell_for [] h = (tt, tt)
  emit-Emitted planes i count cell_for (c ∷ cs) (h, t) =
      let cell = get_or sh.empty_polygon i cell_for in
      emit-next planes count c cell (λ n. emit np sh pj (i + 1) n cell_for cs) (sh.is_empty cell)
        (fl.lt (sh.area cell) (fl.num 12 0)) (sh.intersects cell c.support) h
        (λ n. emit-Emitted planes (i + 1) n cell_for cs t) refl refl

  facets_in-Emitted :
      (planes : List (MergedPlane F V)) (points : List V) (outline : G)
      → Emitted planes 0 (facets_in np sh pj planes points outline)
  unfolding facets_in
  facets_in-Emitted planes points outline =
      let candidates = (candidates_from np sh pj 0 planes points outline).0 in
      emit-Emitted planes 0 0 _ candidates (
        candidates_from-IsGated planes 0 planes points outline
          (IsTail-lookup planes [] planes refl))

  -- Where `build_roof_model` returns a model: every facet lies on the plane of its index among the
  -- given planes, has at least three inliers, a confidence not below 0.5, and a polygon that is not
  -- empty and whose area is not below 12 square metres; and the facets are named F1, F2, and so on.
  pub build_roof_model-IsGatedFacet :
      (planes : List (MergedPlane F V)) (points : List V) (refined : List (List (F × F)))
      (utm_zone : ℕ) (model : RoofModel F V G)
      → build_roof_model np sh pj planes points refined utm_zone ≡ ok model
      → All (IsGatedFacet planes) model.facets × IsNumbered 0 model.facets
  unfolding build_roof_model
  build_roof_model-IsGatedFacet planes points refined utm_zone model h =
      let (outline, _, e) = >>=-eq-ok (refined_outline_to_utm sh pj refined utm_zone) _ h in
      let facets_eq : (facets_in np sh pj planes points outline).0 ≡ model.facets = ground arith in
      subst (λ fs. All (IsGatedFacet planes) fs × IsNumbered 0 fs) facets_eq
        (facets_in-Emitted planes points outline)
