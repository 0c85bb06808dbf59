-- ===== src/Planefit/Topology/Cover.antt =====
-- What a merge of planes keeps, for app/planefit/topology.py: the sources, and the inlier points.
use rooftrace.Prelude.{
  ℕ, ◌≤◌, ◌≡◌, refl, List, [], ◌∷◌, ◌++◌, ◌∙◌, arith, count, contains, count-append,
  contains-append, contains-eq-count_pos, if◌then◌else◌,
}
use rooftrace.Float.{Float}
use rooftrace.Planefit.Numpy.{Numpy}
use rooftrace.Planefit.Topology.{MergedPlane, merge_two}

-- The indices, and the source planes, of all planes together.
abbrev pub merged_indices : {F V : Type 0} → List (MergedPlane F V) → List ℕ
merged_indices [] = []
merged_indices (p ∷ ps) = p.inlier_indices ++ merged_indices ps

abbrev pub sources : {F V : Type 0} → List (MergedPlane F V) → List ℕ
sources [] = []
sources (p ∷ ps) = p.merged_from ++ sources ps

module _ {F V R : Type 0} ⦃fl : Float F⦄ (np : Numpy F V R) where
  -- The planes `new` have the sources of `old`, each as often, and its points, none more often.
  pub record IsCover (old new : List (MergedPlane F V)) : Type 0 where
    pub sources_eq : (i : ℕ) → count i (sources new) ≡ count i (sources old)
    pub points_eq : (i : ℕ) → contains i (merged_indices new) ≡ contains i (merged_indices old)
    pub points_le : (i : ℕ) → count i (merged_indices new) ≤ count i (merged_indices old)

  pub IsCover-refl : (ps : List (MergedPlane F V)) → IsCover ps ps
  IsCover-refl ps = record {
    sources_eq = λ i. refl;
    points_eq = λ i. refl;
    points_le = λ i. omega arith;
  }

  pub IsCover-trans :
      (ps qs rs : List (MergedPlane F V)) → IsCover ps qs → IsCover qs rs → IsCover ps rs
  IsCover-trans ps qs rs c d = record {
    sources_eq = λ i. d.sources_eq i ∙ c.sources_eq i;
    points_eq = λ i. d.points_eq i ∙ c.points_eq i;
    points_le = λ i. omega (arith, c.points_le i, d.points_le i);
  }

  pub IsCover-cons :
      (p : MergedPlane F V) (ps qs : List (MergedPlane F V))
      → IsCover ps qs
      → IsCover (p ∷ ps) (p ∷ qs)
  IsCover-cons p ps qs c = record {
    sources_eq = λ i. simp (count-append, c.sources_eq i);
    points_eq = λ i. simp (contains-append, c.points_eq i);
    points_le = λ i. omega (
      arith,
      count-append i p.inlier_indices (merged_indices ps),
      count-append i p.inlier_indices (merged_indices qs),
      c.points_le i,
    );
  }

  pub IsCover-swap :
      (p q : MergedPlane F V) (ps : List (MergedPlane F V)) → IsCover (p ∷ q ∷ ps) (q ∷ p ∷ ps)
  IsCover-swap p q ps = record {
    sources_eq = λ i. simp count-append (omega arith);
    points_eq = λ i. simp contains-append (ground arith);
    points_le = λ i. simp count-append (omega arith);
  }

  module _
      (unique_once : (i : ℕ) (xs : List ℕ)
        → count i (np.unique xs) ≡ (if contains i xs then 1 else 0)) where
    contains-unique : (i : ℕ) (xs : List ℕ) → contains i (np.unique xs) ≡ contains i xs
    contains-unique i xs = ground (arith, contains-eq-count_pos i (np.unique xs), unique_once i xs)

    count-unique-le : (i : ℕ) (xs : List ℕ) → count i (np.unique xs) ≤ count i xs
    count-unique-le i xs = ground (arith, contains-eq-count_pos i xs, unique_once i xs)

    pub IsCover-merge_two :
        (p q : MergedPlane F V) (ps : List (MergedPlane F V))
        → IsCover (p ∷ q ∷ ps) (merge_two np p q ∷ ps)
    unfolding merge_two
    IsCover-merge_two p q ps =
        let both = p.inlier_indices ++ q.inlier_indices in
        record {
          sources_eq = λ i. simp count-append (omega arith);
          points_eq = λ i. simp (contains-append, contains-unique) (ground arith);
          points_le = λ i. omega (
            arith,
            count-append i (np.unique both) (merged_indices ps),
            count-unique-le i both,
            count-append i p.inlier_indices q.inlier_indices,
            count-append i p.inlier_indices (q.inlier_indices ++ merged_indices ps),
            count-append i q.inlier_indices (merged_indices ps),
          );
        }
