-- ===== src/Planefit/Clusters/Links.antt =====
-- `parent[find(i)] = find(j)` of `_support_clusters`: one union leaves a forest.
use native.Mathlib.Decide.{ℕ_discrete}
use mathlib.Core.Path.{subst}
use rooftrace.Prelude.{ℕ, suc, ◌+◌, ◌<◌, ◌≡◌, not, ◌&&◌, List, arith, set, ◌==◌, if◌then◌else◌}
use rooftrace.Planefit.Clusters.{at, find, union}
use rooftrace.Planefit.Clusters.Forest.{IsForest, find_lem, at-set, length-set}

-- The roots, and a depth, once root `a` has been put under root `b`.
abbrev pub linked_rep : (ℕ → ℕ) → ℕ → ℕ → ℕ → ℕ
linked_rep rep a b x = if rep x == a then b else rep x

abbrev pub linked_depth : (ℕ → ℕ) → (ℕ → ℕ) → ℕ → ℕ → ℕ → ℕ
linked_depth rep depth a b x = if rep x == a && not (a == b) then depth x + 1 else depth x

module _ {n k : ℕ} {rep depth : ℕ → ℕ} where
  link-IsForest :
      (parent : List ℕ) (a b : ℕ)
      → IsForest n k parent rep depth
      → a < n
      → b < n
      → at parent a ≡ a
      → at parent b ≡ b
      → IsForest n (suc k) (set parent a b) (linked_rep rep a b) (linked_depth rep depth a b)
  link-IsForest parent a b f la lb ra rb =
      let upper : (j : ℕ) → at (set parent a b) j ≡ (if a == j then b else at parent j) =
        λ j. at-set parent a j b (omega (arith, f.size)) in
      let rep_a : rep a ≡ a = f.root_rep a la ra in
      let rep_b : rep b ≡ b = f.root_rep b lb rb in
      let depth_a : depth a ≡ 0 = f.root_depth a la ra in
      let depth_b : depth b ≡ 0 = f.root_depth b lb rb in
      record {
        size = omega (arith, f.size, length-set parent a b);
        closed = λ j h. ground (arith, upper j, f.closed j h);
        same_rep = λ j h. ground (arith, upper j, f.same_rep j h);
        root_rep = λ j h. ground (arith, upper j, f.root_rep j h);
        root_depth = λ j h. ground (arith, upper j, f.root_depth j h, f.root_rep j h);
        down = λ j h. ground (arith, upper j, f.down j h, f.same_rep j h);
        bounded = λ j. ground (arith, f.bounded j);
      }

  pub weaken-IsForest :
      (parent : List ℕ) → IsForest n k parent rep depth → IsForest n (suc k) parent rep depth
  weaken-IsForest parent f = record {
    size = f.size;
    closed = f.closed;
    same_rep = f.same_rep;
    root_rep = f.root_rep;
    root_depth = f.root_depth;
    down = f.down;
    bounded = λ j. omega (arith, f.bounded j);
  }

  -- One union: the root of `i` goes under the root of `j`.
  pub union-IsForest :
      (fuel : ℕ) (parent : List ℕ) (i j : ℕ)
      → IsForest n k parent rep depth
      → i < n
      → j < n
      → k < fuel
      → IsForest n
          (suc k)
          (union fuel parent i j)
          (linked_rep rep (rep i) (rep j))
          (linked_depth rep depth (rep i) (rep j))
  unfolding union
  union-IsForest fuel parent i j f li lj enough =
      let (after_j, root_j) = find fuel parent j in
      let (fj, ej, ltj, rj) = find_lem fuel parent j f lj (omega (arith, f.bounded j)) in
      let (after_i, root_i) = find fuel after_j i in
      let (fi, ei, lti, ri) = find_lem fuel after_j i fj li (omega (arith, f.bounded i)) in
      let rj' : at after_i root_j ≡ root_j = elim (ℕ_discrete (at after_i root_j) root_j) [
        | yes e ↦ e
        | no ne ↦ absurd (omega (arith, fi.down root_j ltj ne, fj.root_depth root_j ltj rj))
      ] in
      let linked = link-IsForest after_i root_i root_j fi lti ltj ri rj' in
      let new = set after_i root_i root_j in
      let moved =
        subst
          (λ a. IsForest n (suc k) new (linked_rep rep a root_j) (linked_depth rep depth a root_j))
          ei linked in
      subst
        (λ b. IsForest n (suc k) new (linked_rep rep (rep i) b) (linked_depth rep depth (rep i) b))
        ej moved
