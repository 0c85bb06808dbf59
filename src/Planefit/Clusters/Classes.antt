-- ===== src/Planefit/Clusters/Classes.antt =====
-- `_support_clusters` of app/planefit/roof_model.py against its specification: two supports share a
-- cluster exactly when a chain of near pairs joins them.
use mathlib.Core.Path.{subst}
use rooftrace.Prelude.{
  ℕ, zero, suc, ◌+◌, ◌≤◌, ◌<◌, ◌≡◌, refl, Bool, true, ◌&&◌, List, [], ◌∷◌, ◌++◌, arith, length, map,
  ◌==◌, Bool-cases, inl, inr, ap, sym, ◌∙◌, All, Any, range, range_from, contains, count-range_from,
  any, ◌↔◌, contains-eq-count_pos,
}
use rooftrace.Planefit.Clusters.{find, unions, pairs_from, add_to_group, collect, support_clusters}
use rooftrace.Planefit.Clusters.Forest.{IsForest, find_lem}
use rooftrace.Planefit.Clusters.Unions.{IsConnected, joined, rep-eq}
use rooftrace.Planefit.Clusters.Groups.{
  Groups, keys, of_root, IsClass, IsGrouping, any-snoc, of_root-none, keys-add_to_group,
  members-add_to_group,
}

append_assoc : {A : Type 0} (xs ys zs : List A) → (xs ++ ys) ++ zs ≡ xs ++ (ys ++ zs)
append_assoc [] ys zs = refl
append_assoc (x ∷ xs) ys zs = ap (λ l. x ∷ l) (append_assoc xs ys zs)

append-nil : {A : Type 0} (xs : List A) → xs ++ [] ≡ xs
append-nil [] = refl
append-nil (x ∷ xs) = ap (λ l. x ∷ l) (append-nil xs)

module _ (rep : ℕ → ℕ) where
  add_to_group-IsGrouping :
      (i : ℕ) (done : List ℕ) (gs : Groups)
      → IsGrouping rep done gs
      → IsGrouping rep (done ++ i ∷ []) (add_to_group (rep i) i gs)
  add_to_group-IsGrouping i done gs g = record {
    members = members-add_to_group rep i done gs g.members (g.one_key (rep i)) λ e.
        of_root-none rep (rep i) done
          (ground (arith, g.has_key (rep i), contains-eq-count_pos (rep i) (keys gs)));
    has_key = λ k. ground (
      arith,
      g.has_key k,
      any-snoc rep k i done,
      keys-add_to_group rep (rep i) i k gs,
      contains-eq-count_pos k (keys gs),
      contains-eq-count_pos k (keys (add_to_group (rep i) i gs)),
    );
    one_key = λ k. ground (arith, g.one_key k, keys-add_to_group rep (rep i) i k gs);
  }

  collect-IsGrouping :
      {n m : ℕ} {depth : ℕ → ℕ} (fuel : ℕ) (is done parent : List ℕ) (gs : Groups)
      → IsForest n m parent rep depth
      → m < fuel
      → All (λ i. i < n) is
      → IsGrouping rep done gs
      → IsGrouping rep (done ++ is) (collect fuel is parent gs)
  unfolding collect
  collect-IsGrouping fuel [] done parent gs f enough h g =
      subst (λ d. IsGrouping rep d gs) (sym (append-nil done)) g
  collect-IsGrouping fuel (i ∷ is) done parent gs f enough (lt, h) g =
      let (parent', root) = find fuel parent i in
      let (f', e, _, _) = find_lem fuel parent i f lt (omega (arith, f.bounded i)) in
      let rest =
        collect-IsGrouping fuel is (done ++ i ∷ []) parent' (add_to_group (rep i) i gs) f' enough h
          (add_to_group-IsGrouping i done gs g) in
      let moved =
        subst
          (λ r.
            IsGrouping rep ((done ++ i ∷ []) ++ is) (collect fuel is parent' (add_to_group r i gs)))
          (sym e) rest in
      subst (λ d. IsGrouping rep d (collect fuel is parent' (add_to_group root i gs)))
        (append_assoc done (i ∷ []) is) moved

  contains-of_root :
      (x k : ℕ) (xs : List ℕ) → contains x (of_root rep k xs) ≡ (contains x xs && (rep x == k))
  contains-of_root x k [] = refl
  contains-of_root x k (y ∷ ys) = ground (arith, contains-of_root x k ys)

  any_of :
      (x k : ℕ) (xs : List ℕ) → contains x xs ≡ true → rep x ≡ k → any (λ y. rep y == k) xs ≡ true
  any_of x k [] h e = absurd (ground arith)
  any_of x k (y ∷ ys) h e = ground (arith, any_of x k ys)

  -- Two indices in one group have the same root.
  together-rep :
      (i j : ℕ) (done : List ℕ) (gs : Groups)
      → All (IsClass rep done) gs
      → Any (λ ms. (contains i ms && contains j ms) ≡ true) (map (λ g. g.1) gs)
      → rep i ≡ rep j
  together-rep i j done [] h a = elim a [ ]
  together-rep i j done ((k, ms) ∷ gs) (h, t) (inl e) =
      ground (arith, contains-of_root i k done, contains-of_root j k done)
  together-rep i j done (g ∷ gs) (h, t) (inr a) = together-rep i j done gs t a

  -- Two indices with the root of a group are in it.
  rep-together :
      (i j : ℕ) (done : List ℕ) (gs : Groups)
      → All (IsClass rep done) gs
      → contains i done ≡ true
      → contains j done ≡ true
      → rep i ≡ rep j
      → contains (rep i) (keys gs) ≡ true
      → Any (λ ms. (contains i ms && contains j ms) ≡ true) (map (λ g. g.1) gs)
  rep-together i j done [] h hi hj e c = absurd (ground arith)
  rep-together i j done ((k, ms) ∷ gs) (h, t) hi hj e c = elim (Bool-cases (k == rep i)) [
    | inl here ↦ inl (ground (arith, contains-of_root i k done, contains-of_root j k done))
    | inr there ↦ inr (rep-together i j done gs t hi hj e (ground arith))
  ]

  All-below : (n lo m : ℕ) → lo + m ≤ n → All (λ i. i < n) (range_from lo m)
  All-below n lo zero h = tt
  All-below n lo (suc m) h = (omega arith, All-below n (lo + 1) m (omega arith))

module _ (n : ℕ) (near : ℕ → ℕ → Bool) where
  abbrev final_groups : Groups
  final_groups =
      let pairs = pairs_from 0 n in
      let fuel = suc (length pairs) in collect fuel (range n) (unions fuel near pairs (range n)) []

  final-IsGrouping : IsGrouping (joined n near).rep (range n) final_groups
  final-IsGrouping =
      let end = joined n near in
      collect-IsGrouping end.rep (suc (length (pairs_from 0 n))) (range n) [] _ [] end.forest
        (omega arith) (All-below end.rep n 0 n (omega arith))
        (record { members = tt; has_key = λ k. refl; one_key = λ k. omega arith })

  contains-range : (i : ℕ) → i < n → contains i (range n) ≡ true
  contains-range i h = ground (arith, contains-eq-count_pos i (range n), count-range_from i 0 n)

  -- Two supports `i`, `j` < `n` are in one cluster exactly when a chain of pairs, each of which passes
  -- the distance test (made for the smaller index first), joins them.
  pub support_clusters-IsConnected :
      (i j : ℕ)
      → i < n
      → j < n
      → Any (λ ms. (contains i ms && contains j ms) ≡ true) (support_clusters n near)
        ↔ IsConnected n near i j
  unfolding support_clusters
  support_clusters-IsConnected i j li lj =
      let g = final-IsGrouping in
      let end = joined n near in
      (
        λ a. end.sound i j (together-rep end.rep i j (range n) final_groups g.members a),
        λ c.
            rep-together end.rep i j (range n) final_groups g.members (contains-range i li)
              (contains-range j lj) (rep-eq n near i j c)
              (g.has_key (end.rep i)
                ∙ any_of end.rep i (end.rep i) (range n) (contains-range i li) refl),
      )
