-- ===== src/Planefit/Clusters/Unions.antt =====
-- The nested loops of `_support_clusters`: after them two supports have the same root exactly when a
-- chain of near pairs joins them.
use native.Mathlib.Decide.{ℕ_discrete}
use mathlib.Core.Path.{subst}
use rooftrace.Prelude.{
  ℕ, zero, suc, ◌+◌, ◌≤◌, ◌<◌, ◌≡◌, refl, Bool, true, false, List, [], ◌∷◌, arith, length, map,
  Bool-cases, inl, inr, sym, ◌∙◌, All, All-append, range, range_from, length-range_from,
}
use rooftrace.Planefit.Clusters.{at, union, unions, pairs_from}
use rooftrace.Planefit.Clusters.Forest.{IsForest}
use rooftrace.Planefit.Clusters.Links.{linked_rep, linked_depth, union-IsForest, weaken-IsForest}
use rooftrace.Planefit.Clusters.Pairs.{All-pairs_from}

-- The supports that a chain of near pairs joins.
pub data IsConnected (n : ℕ) (near : ℕ → ℕ → Bool) : ℕ → ℕ → Type 0 where
  same : (i : ℕ) → IsConnected n near i i
  near_pair : (i j : ℕ) → i < j → j < n → near i j ≡ true → IsConnected n near i j
  back : (i j : ℕ) → IsConnected n near i j → IsConnected n near j i
  chain : (i j l : ℕ) → IsConnected n near i j → IsConnected n near j l → IsConnected n near i l

module _ (n : ℕ) (near : ℕ → ℕ → Bool) where
  abbrev IsSound : (ℕ → ℕ) → Type 0
  IsSound rep = (i j : ℕ) → rep i ≡ rep j → IsConnected n near i j

  abbrev IsPair : ℕ × ℕ → Type 0
  IsPair (i, j) = (i < j) × (j < n)

  -- What the loops leave, from a forest with the roots `rep`, after the pairs `ps`.
  pub record Joined (k : ℕ) (ps : List (ℕ × ℕ)) (parent : List ℕ) (old : ℕ → ℕ) : Type 0 where
    pub rep : ℕ → ℕ
    pub depth : ℕ → ℕ
    pub forest : IsForest n k parent rep depth
    pub sound : IsSound rep
    pub keeps : (i j : ℕ) → old i ≡ old j → rep i ≡ rep j
    pub joins : All (λ p. near p.0 p.1 ≡ true → rep p.0 ≡ rep p.1) ps

  linked-IsSound :
      (rep : ℕ → ℕ) (i j : ℕ)
      → IsSound rep
      → IsConnected n near i j
      → IsSound (linked_rep rep (rep i) (rep j))
  linked-IsSound rep i j sound edge x y e = elim (ℕ_discrete (rep x) (rep i)) [
    | yes ex ↦ elim (ℕ_discrete (rep y) (rep i)) [
      | yes ey ↦ sound x y (ex ∙ sym ey)
      | no ny ↦
          let e' : rep j ≡ rep y = ground arith in
          chain x i y (sound x i ex) (chain i j y edge (sound j y e'))
    ]
    | no nx ↦ elim (ℕ_discrete (rep y) (rep i)) [
      | yes ey ↦
          let e' : rep x ≡ rep j = ground arith in
          chain x j y (sound x j e') (chain j i y (back i j edge) (back y i (sound y i ey)))
      | no ny ↦ sound x y (ground arith)
    ]
  ]

  unions_near :
      (fuel i j : ℕ) (ps : List (ℕ × ℕ)) (parent : List ℕ)
      → near i j ≡ true
      → unions fuel near ((i, j) ∷ ps) parent ≡ unions fuel near ps (union fuel parent i j)
  unfolding unions
  unions_near fuel i j ps parent e = rw e

  unions_far :
      (fuel i j : ℕ) (ps : List (ℕ × ℕ)) (parent : List ℕ)
      → near i j ≡ false
      → unions fuel near ((i, j) ∷ ps) parent ≡ unions fuel near ps parent
  unfolding unions
  unions_far fuel i j ps parent e = rw e

  pub unions-Joined :
      (fuel k : ℕ) (ps : List (ℕ × ℕ)) (parent : List ℕ) (rep depth : ℕ → ℕ)
      → IsForest n k parent rep depth
      → IsSound rep
      → All IsPair ps
      → k + length ps < fuel
      → Joined (k + length ps) ps (unions fuel near ps parent) rep
  unions-Joined fuel k [] parent rep depth f sound pairs enough =
      unfold unions in
      record {
        rep = rep;
        depth = depth;
        forest = subst (λ m. IsForest n m parent rep depth) (omega arith) f;
        sound = sound;
        keeps = λ i j e. e;
        joins = tt;
      }
  unions-Joined fuel k ((i, j) ∷ ps) parent rep depth f sound ((lt, lj), pairs) enough =
      let count_eq : suc k + length ps ≡ k + suc (length ps) = omega arith in
      elim (Bool-cases (near i j)) [
        | inl e ↦
            let rest =
              unions-Joined fuel (suc k) ps (union fuel parent i j) (linked_rep rep (rep i) (rep j))
                (linked_depth rep depth (rep i) (rep j))
                (union-IsForest fuel parent i j f (omega arith) lj (omega arith))
                (linked-IsSound rep i j sound (near_pair i j lt lj e)) pairs (omega arith) in
            rw (unions_near fuel i j ps parent e) (record {
              rep = rest.rep;
              depth = rest.depth;
              forest =
                  subst
                    (λ m.
                      IsForest n m (unions fuel near ps (union fuel parent i j)) rest.rep
                        rest.depth)
                    count_eq rest.forest;
              sound = rest.sound;
              keeps = λ x y h. rest.keeps x y (ground arith);
              joins = (λ _. rest.keeps i j (ground arith), rest.joins);
            })
        | inr e ↦
            let rest =
              unions-Joined fuel (suc k) ps parent rep depth (weaken-IsForest parent f) sound pairs
                (omega arith) in
            rw (unions_far fuel i j ps parent e) (record {
              rep = rest.rep;
              depth = rest.depth;
              forest =
                  subst (λ m. IsForest n m (unions fuel near ps parent) rest.rep rest.depth)
                    count_eq rest.forest;
              sound = rest.sound;
              keeps = rest.keeps;
              joins = (λ h. absurd (ground arith), rest.joins);
            })
      ]

  -- Every pair of the loops has i < j < n.
  IsPair-row :
      (lo start m : ℕ)
      → lo < start
      → start + m ≤ n
      → All IsPair (map (λ j. (lo, j)) (range_from start m))
  IsPair-row lo start zero lt le = tt
  IsPair-row lo start (suc m) lt le =
      ((lt, omega arith), IsPair-row lo (start + 1) m (omega arith) (omega arith))

  pub IsPair-pairs_from : (lo rows : ℕ) → lo + rows ≤ n → All IsPair (pairs_from lo rows)
  IsPair-pairs_from lo zero le = tt
  IsPair-pairs_from lo (suc rows) le =
      All-append IsPair (map (λ j. (lo, j)) (range_from (lo + 1) rows)) (pairs_from (lo + 1) rows)
        (IsPair-row lo (lo + 1) rows (omega arith) (omega arith))
        (IsPair-pairs_from (lo + 1) rows (omega arith))

module _ (n : ℕ) (near : ℕ → ℕ → Bool) where
  at-range_from : (lo m i : ℕ) → i < m → at (range_from lo m) i ≡ lo + i
  at-range_from lo zero i h = absurd (omega arith)
  at-range_from lo (suc m) zero h = omega arith
  at-range_from lo (suc m) (suc i) h = omega (arith, at-range_from (lo + 1) m i (omega arith))

  -- `list(range(n))`, where every support is its own root.
  range-IsForest : IsForest n 0 (range n) (λ i. i) (λ _. 0)
  range-IsForest = record {
    size = length-range_from 0 n;
    closed = λ i h. omega (arith, at-range_from 0 n i h);
    same_rep = λ i h. omega (arith, at-range_from 0 n i h);
    root_rep = λ i h e. refl;
    root_depth = λ i h e. refl;
    down = λ i h ne. absurd (ne (omega (arith, at-range_from 0 n i h)));
    bounded = λ i. omega arith;
  }

  -- The forest after the nested loops of `_support_clusters`.
  pub joined :
      let pairs = pairs_from 0 n in
      Joined n near
        (0 + length pairs)
        pairs
        (unions (suc (length pairs)) near pairs (range n))
        (λ i. i)
  joined =
      let pairs = pairs_from 0 n in
      unions-Joined n near (suc (length pairs)) 0 pairs (range n) (λ i. i) (λ _. 0) range-IsForest
        (λ i j e. subst (IsConnected n near i) e (same i))
        (IsPair-pairs_from n near 0 n (omega arith)) (omega arith)

  pub rep-eq : (i j : ℕ) → IsConnected n near i j → joined.rep i ≡ joined.rep j
  rep-eq i j (same _) = refl
  rep-eq i j (near_pair _ _ lt lj e) =
      All-pairs_from (λ p. near p.0 p.1 ≡ true → joined.rep p.0 ≡ joined.rep p.1) 0 n i j
        joined.joins (omega arith) lt (omega (arith, lj)) e
  rep-eq i j (back _ _ c) = sym (rep-eq j i c)
  rep-eq i j (chain _ l _ c d) = rep-eq i l c ∙ rep-eq l j d
