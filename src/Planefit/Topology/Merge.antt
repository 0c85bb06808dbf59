-- ===== src/Planefit/Topology/Merge.antt =====
-- What the merge of app/planefit/topology.py leaves: no mergeable pair, every source plane once, and
-- the same inlier points.
use rooftrace.Prelude.{
  ℕ, zero, suc, ◌+◌, ◌≤◌, ◌≡◌, refl, false, Option, none, some, List, [], ◌∷◌, ap, ◌∙◌, inl, inr,
  arith, length, All, count, contains, count-range_from, range_from, ltb, if◌then◌else◌, Bool-cases,
  Option-cases,
}
use rooftrace.Float.{Float}
use rooftrace.Planefit.Numpy.{Numpy}
use rooftrace.Planefit.Fit.{FittedPlane, fit_planes, FitParams}
use rooftrace.Planefit.Fit.Peel.{all_indices, fit_planes-disjoint}
use rooftrace.Planefit.Topology.{
  MergedPlane, should_merge, absorb, merge_step, merge_loop, as_merged, merge_coplanar_facets,
}
use rooftrace.Planefit.Topology.Cover.{
  merged_indices, sources, IsCover, IsCover-refl, IsCover-trans, IsCover-cons, IsCover-swap,
  IsCover-merge_two,
}

module _ {F V R : Type 0} ⦃fl : Float F⦄ (np : Numpy F V R) where
  -- No plane could absorb a later one.
  abbrev pub IsSeparated : List (MergedPlane F V) → Type 0
  IsSeparated [] = Unit
  IsSeparated (p ∷ ps) = All (λ q. should_merge np p q ≡ false) ps × IsSeparated ps

  module _
      (unique_once : (i : ℕ) (xs : List ℕ)
        → count i (np.unique xs) ≡ (if contains i xs then 1 else 0)) where
    -- What `absorb` hands on.
    abbrev Absorbed :
        MergedPlane F V
        → List (MergedPlane F V)
        → Option (MergedPlane F V × List (MergedPlane F V))
        → Type 0
    Absorbed p qs none = All (λ q. should_merge np p q ≡ false) qs
    Absorbed p qs (some (new, rest)) =
        (length qs ≡ suc (length rest)) × IsCover np (p ∷ qs) (new ∷ rest)

    Absorbed-later :
        (p q : MergedPlane F V) (qs : List (MergedPlane F V))
        (o : Option (MergedPlane F V × List (MergedPlane F V)))
        → should_merge np p q ≡ false
        → Absorbed p qs o
        → Absorbed p (q ∷ qs) (elim o [ none ↦ none | some (new, rest) ↦ some (new, q ∷ rest) ])
    Absorbed-later p q qs none e h = (e, h)
    Absorbed-later p q qs (some (new, rest)) e (n, c) = (
      ap suc n,
      IsCover-trans np _ _ _ (IsCover-swap np p q qs)
          (IsCover-trans np _ _ _ (IsCover-cons np q _ _ c) (IsCover-swap np q new rest)),
    )

    absorb-Absorbed :
        (p : MergedPlane F V) (qs : List (MergedPlane F V)) → Absorbed p qs (absorb np p qs)
    unfolding absorb
    absorb-Absorbed p [] = tt
    absorb-Absorbed p (q ∷ qs) = elim (Bool-cases (should_merge np p q)) [
      | inl e ↦ rw e (refl, IsCover-merge_two np unique_once p q qs)
      | inr e ↦ rw e (Absorbed-later p q qs (absorb np p qs) e (absorb-Absorbed p qs))
    ]

    abbrev Stepped : List (MergedPlane F V) → Option (List (MergedPlane F V)) → Type 0
    Stepped ps none = IsSeparated ps
    Stepped ps (some qs) = (length ps ≡ suc (length qs)) × IsCover np ps qs

    Stepped-cons :
        (p : MergedPlane F V) (ps : List (MergedPlane F V))
        (a : Option (MergedPlane F V × List (MergedPlane F V)))
        (o : Option (List (MergedPlane F V)))
        → Absorbed p ps a
        → Stepped ps o
        → Stepped (p ∷ ps) (elim a [
          | some (new, rest) ↦ some (new ∷ rest)
          | none ↦ elim o [ none ↦ none | some ps' ↦ some (p ∷ ps') ]
        ])
    Stepped-cons p ps (some (new, rest)) o (n, c) st = (ap suc n, c)
    Stepped-cons p ps none none all st = (all, st)
    Stepped-cons p ps none (some qs) all (n, c) = (ap suc n, IsCover-cons np p ps qs c)

    merge_step-Stepped : (ps : List (MergedPlane F V)) → Stepped ps (merge_step np ps)
    unfolding merge_step
    merge_step-Stepped [] = tt
    merge_step-Stepped (p ∷ ps) =
        Stepped-cons p ps (absorb np p ps) (merge_step np ps) (absorb-Absorbed p ps)
          (merge_step-Stepped ps)

    merge_loop-done :
        (fuel : ℕ) (ps : List (MergedPlane F V))
        → merge_step np ps ≡ none
        → merge_loop np fuel ps ≡ ps
    unfolding merge_loop
    merge_loop-done zero ps e = refl
    merge_loop-done (suc fuel) ps e = rw (e, merge_loop)

    merge_loop-next :
        (fuel : ℕ) (ps qs : List (MergedPlane F V))
        → merge_step np ps ≡ some qs
        → merge_loop np (suc fuel) ps ≡ merge_loop np fuel qs
    unfolding merge_loop
    merge_loop-next fuel ps qs e = rw (e, merge_loop)

    merge_loop_lem :
        (fuel : ℕ) (ps : List (MergedPlane F V))
        → length ps ≤ fuel
        → IsSeparated (merge_loop np fuel ps) × IsCover np ps (merge_loop np fuel ps)
    merge_loop_lem zero [] h = unfold merge_loop in (tt, IsCover-refl np [])
    merge_loop_lem zero (p ∷ ps) h = absurd (omega arith)
    merge_loop_lem (suc fuel) ps h =
        let stepped = merge_step-Stepped ps in
        elim (Option-cases (merge_step np ps)) [
          | inl e ↦ rw (merge_loop-done (suc fuel) ps e) (rw e at stepped, IsCover-refl np ps)
          | inr (qs, e) ↦
              let (n, c) = rw e at stepped in
              let (separated, cover) = merge_loop_lem fuel qs (omega arith) in
              rw (merge_loop-next fuel ps qs e) (separated, IsCover-trans np _ _ _ c cover)
        ]

    merge_coplanar_facets_lem :
        (planes : List (FittedPlane F V))
        → IsSeparated (merge_coplanar_facets np planes)
          × IsCover np (as_merged np 0 planes) (merge_coplanar_facets np planes)
    unfolding merge_coplanar_facets
    merge_coplanar_facets_lem planes = merge_loop_lem _ (as_merged np 0 planes) (omega arith)

    -- If `np.unique` returns each index once: of any two planes that `merge_coplanar_facets`
    -- returns, the earlier and the later one fail the merge test, so no merge is left to be done.
    pub merge_coplanar_facets-IsSeparated :
        (planes : List (FittedPlane F V)) → IsSeparated (merge_coplanar_facets np planes)
    merge_coplanar_facets-IsSeparated planes = (merge_coplanar_facets_lem planes).0

    sources-as_merged :
        (i lo : ℕ) (planes : List (FittedPlane F V))
        → count i (sources (as_merged np lo planes)) ≡ count i (range_from lo (length planes))
    unfolding as_merged
    sources-as_merged i lo [] = refl
    sources-as_merged i lo (p ∷ ps) = omega (arith, sources-as_merged i (lo + 1) ps)

    merged_indices-as_merged :
        (lo : ℕ) (planes : List (FittedPlane F V))
        → merged_indices (as_merged np lo planes) ≡ all_indices planes
    unfolding as_merged
    merged_indices-as_merged lo [] = refl
    merged_indices-as_merged lo (p ∷ ps) = rw (merged_indices-as_merged (lo + 1) ps)

    -- If `np.unique` returns each index once: every source plane is in the `merged_from` of exactly
    -- one merged plane, once, and no other number is in one.
    pub merge_coplanar_facets-sources :
        (planes : List (FittedPlane F V)) (i : ℕ)
        → count i (sources (merge_coplanar_facets np planes))
          ≡ (if ltb i (length planes) then 1 else 0)
    merge_coplanar_facets-sources planes i = ground (
      arith,
      (merge_coplanar_facets_lem planes).1.sources_eq i,
      sources-as_merged i 0 planes,
      count-range_from i 0 (length planes),
    )

    -- If `np.unique` returns each index once: the planes that `fit_planes` and then
    -- `merge_coplanar_facets` make of a cloud have just the points of the fitted planes, and no
    -- point lies on two of them.
    pub fit_and_merge-disjoint :
        (points : List V) (params : FitParams F) (i : ℕ)
        → let planes = fit_planes np points params in
          let merged = merge_coplanar_facets np planes in
          (contains i (merged_indices merged) ≡ contains i (all_indices planes))
          × (count i (merged_indices merged) ≤ (if ltb i (length points) then 1 else 0))
    fit_and_merge-disjoint points params i =
        let planes = fit_planes np points params in
        let cover = (merge_coplanar_facets_lem planes).1 in
        (
          cover.points_eq i ∙ ap (contains i) (merged_indices-as_merged 0 planes),
          omega (
            arith,
            cover.points_le i,
            ap (count i) (merged_indices-as_merged 0 planes),
            fit_planes-disjoint np points params i,
          ),
        )
