-- ===== src/Planefit/Clusters/Groups.antt =====
-- What `_support_clusters` of app/planefit/roof_model.py returns: a partition of the supports into
-- the classes of "joined by a chain of near pairs".
use rooftrace.Prelude.{
  ℕ, suc, ◌+◌, ◌≤◌, ◌≡◌, refl, Bool, false, ◌&&◌, ◌||◌, List, [], ◌∷◌, ◌++◌, arith, length, map,
  ◌==◌, if◌then◌else◌, Bool-cases, inl, inr, All, range, count, contains, count-append,
  count-range_from, keep, any, ltb,
}
use rooftrace.Planefit.Clusters.{find, unions, pairs_from, add_to_group, collect, support_clusters}

abbrev pub Groups : Type 0
Groups = List (ℕ × List ℕ)

abbrev pub keys : Groups → List ℕ
keys [] = []
keys ((k, members) ∷ gs) = k ∷ keys gs

-- The members of all clusters, one after the other.
abbrev pub flatten : List (List ℕ) → List ℕ
flatten [] = []
flatten (ms ∷ mss) = ms ++ flatten mss

count-add_to_group :
    (x root i : ℕ) (gs : Groups)
    → count x (flatten (map (λ g. g.1) (add_to_group root i gs)))
      ≡ (if i == x then 1 else 0) + count x (flatten (map (λ g. g.1) gs))
unfolding add_to_group
count-add_to_group x root i [] = ground arith
count-add_to_group x root i ((k, ms) ∷ gs) = ground (
  arith,
  count-add_to_group x root i gs,
  count-append x ms (i ∷ []),
  count-append x ms (flatten (map (λ g. g.1) gs)),
  count-append x (ms ++ i ∷ []) (flatten (map (λ g. g.1) gs)),
  count-append x ms (flatten (map (λ g. g.1) (add_to_group root i gs))),
)

count-collect :
    (fuel x : ℕ) (is parent : List ℕ) (gs : Groups)
    → count x (flatten (map (λ g. g.1) (collect fuel is parent gs)))
      ≡ count x is + count x (flatten (map (λ g. g.1) gs))
unfolding collect
count-collect fuel x [] parent gs = omega arith
count-collect fuel x (i ∷ is) parent gs =
    let (parent', root) = find fuel parent i in
    omega (
      arith,
      count-collect fuel x is parent' (add_to_group root i gs),
      count-add_to_group x root i gs,
    )

-- The clusters partition the supports: every index below `n` is in exactly one cluster, once, and no
-- other index is in one.
pub support_clusters-partition :
    (n : ℕ) (near : ℕ → ℕ → Bool) (i : ℕ)
    → count i (flatten (support_clusters n near)) ≡ (if ltb i n then 1 else 0)
unfolding support_clusters
support_clusters-partition n near i =
    let pairs = pairs_from 0 n in
    let fuel = suc (length pairs) in
    ground (
      arith,
      count-collect fuel i (range n) (unions fuel near pairs (range n)) [],
      count-range_from i 0 n,
    )

module _ (rep : ℕ → ℕ) where
  -- The indices among `done` whose root is `k`.
  abbrev pub of_root : ℕ → List ℕ → List ℕ
  of_root k done = keep (λ x. rep x == k) done

  abbrev pub IsClass : List ℕ → ℕ × List ℕ → Type 0
  IsClass done (k, ms) = ms ≡ of_root k done

  -- The dict once the indices `done` have been added.
  pub record IsGrouping (done : List ℕ) (gs : Groups) : Type 0 where
    pub members : All (IsClass done) gs
    pub has_key : (k : ℕ) → contains k (keys gs) ≡ any (λ x. rep x == k) done
    pub one_key : (k : ℕ) → count k (keys gs) ≤ 1

  of_root-snoc :
      (k i : ℕ) (done : List ℕ)
      → of_root k (done ++ i ∷ [])
        ≡ (if rep i == k then of_root k done ++ i ∷ [] else of_root k done)
  of_root-snoc k i [] = ground arith
  of_root-snoc k i (x ∷ done) = ground (arith, of_root-snoc k i done)

  pub any-snoc :
      (k i : ℕ) (done : List ℕ)
      → any (λ x. rep x == k) (done ++ i ∷ []) ≡ (any (λ x. rep x == k) done || (rep i == k))
  any-snoc k i [] = ground arith
  any-snoc k i (x ∷ done) = ground (arith, any-snoc k i done)

  pub of_root-none :
      (k : ℕ) (done : List ℕ) → any (λ x. rep x == k) done ≡ false → of_root k done ≡ []
  of_root-none k [] h = refl
  of_root-none k (x ∷ done) h = ground (arith, of_root-none k done)

  pub keys-add_to_group :
      (root i k : ℕ) (gs : Groups)
      → count k (keys (add_to_group root i gs))
        ≡ (if (root == k) && (count k (keys gs) == 0) then 1 else count k (keys gs))
  unfolding add_to_group
  keys-add_to_group root i k [] = ground arith
  keys-add_to_group root i k ((k', ms) ∷ gs) = ground (arith, keys-add_to_group root i k gs)

  -- The groups of other roots stay as they are.
  others :
      (i : ℕ) (done : List ℕ) (gs : Groups)
      → All (IsClass done) gs
      → count (rep i) (keys gs) ≡ 0
      → All (IsClass (done ++ i ∷ [])) gs
  others i done [] h e = tt
  others i done ((k, ms) ∷ gs) (h, t) e =
      (ground (arith, of_root-snoc k i done), others i done gs t (ground arith))

  pub members-add_to_group :
      (i : ℕ) (done : List ℕ) (gs : Groups)
      → All (IsClass done) gs
      → count (rep i) (keys gs) ≤ 1
      → (count (rep i) (keys gs) ≡ 0 → of_root (rep i) done ≡ [])
      → All (IsClass (done ++ i ∷ [])) (add_to_group (rep i) i gs)
  unfolding add_to_group
  members-add_to_group i done [] h one fresh =
      (ground (arith, of_root-snoc (rep i) i done, fresh refl), tt)
  members-add_to_group i done ((k, ms) ∷ gs) (h, t) one fresh = elim (Bool-cases (k == rep i)) [
    | inl e ↦ rw e (ground (arith, of_root-snoc k i done), others i done gs t (ground arith))
    | inr e ↦ rw e (
      ground (arith, of_root-snoc k i done),
      members-add_to_group i done gs t (ground arith) (λ z. fresh (ground arith)),
    )
  ]
