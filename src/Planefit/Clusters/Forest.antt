-- ===== src/Planefit/Clusters/Forest.antt =====
-- `find` of `_support_clusters`: on a forest it returns the root and leaves a forest with the same
-- roots, however it shortens the paths.
use rooftrace.Prelude.{
  ℕ, zero, suc, ◌≤◌, ◌<◌, ◌≡◌, refl, ◌≢◌, List, [], ◌∷◌, arith, length, set, ◌==◌, if◌then◌else◌,
  ap, sym, ◌∙◌,
}
use native.Mathlib.Decide.{ℕ_discrete}
use rooftrace.Planefit.Clusters.{at, find}

pub at-set :
    (xs : List ℕ) (i j v : ℕ) → i < length xs → at (set xs i v) j ≡ (if i == j then v else at xs j)
at-set [] i j v h = elim h [ ]
at-set (x ∷ xs) zero zero v h = refl
at-set (x ∷ xs) zero (suc j) v h = ground arith
at-set (x ∷ xs) (suc i) zero v h = ground arith
at-set (x ∷ xs) (suc i) (suc j) v h = ground (arith, at-set xs i j v (omega arith))

pub length-set : (xs : List ℕ) (i v : ℕ) → length (set xs i v) ≡ length xs
length-set [] i v = refl
length-set (x ∷ xs) zero v = refl
length-set (x ∷ xs) (suc i) v = ap suc (length-set xs i v)

-- `parent` holds trees over 0 … n - 1: `rep i` is the root of `i`, and the depth falls along every
-- path, from at most `k` down to 0 at the root.
pub record IsForest (n k : ℕ) (parent : List ℕ) (rep depth : ℕ → ℕ) : Type 0 where
  pub size : length parent ≡ n
  pub closed : (i : ℕ) → i < n → at parent i < n
  pub same_rep : (i : ℕ) → i < n → rep (at parent i) ≡ rep i
  pub root_rep : (i : ℕ) → i < n → at parent i ≡ i → rep i ≡ i
  pub root_depth : (i : ℕ) → i < n → at parent i ≡ i → depth i ≡ 0
  pub down : (i : ℕ) → i < n → at parent i ≢ i → depth (at parent i) < depth i
  pub bounded : (i : ℕ) → depth i ≤ k

module _ {n k : ℕ} {rep depth : ℕ → ℕ} where
  top_below :
      (parent : List ℕ) (i : ℕ)
      → IsForest n k parent rep depth
      → i < n
      → at parent i ≢ i
      → depth (at parent (at parent i)) < depth i
  top_below parent i f lt ne =
      let up = at parent i in
      let fell = f.down i lt ne in
      elim (ℕ_discrete (at parent up) up) [
        | yes e ↦ ground (arith, ap depth e)
        | no e ↦ ground (arith, f.down up (f.closed i lt) e)
      ]

  -- One round of the path halving.
  halve-IsForest :
      (parent : List ℕ) (i : ℕ)
      → IsForest n k parent rep depth
      → i < n
      → at parent i ≢ i
      → IsForest n k (set parent i (at parent (at parent i))) rep depth
  halve-IsForest parent i f lt ne =
      let up = at parent i in
      let top = at parent up in
      let upper : (j : ℕ) → at (set parent i top) j ≡ (if i == j then top else at parent j) =
        λ j. at-set parent i j top (omega (arith, f.size)) in
      let up_lt : up < n = f.closed i lt in
      let top_depth : depth top < depth i = top_below parent i f lt ne in
      let top_ne : top ≢ i = λ e. absurd (omega (arith, ap depth e)) in
      record {
        size = omega (arith, f.size, length-set parent i top);
        closed = λ j h. ground (arith, upper j, f.closed j h, f.closed up up_lt);
        same_rep =
            λ j h. ground (arith, upper j, f.same_rep j h, f.same_rep up up_lt, f.same_rep i lt);
        root_rep = λ j h. ground (arith, upper j, f.root_rep j h);
        root_depth = λ j h. ground (arith, upper j, f.root_depth j h);
        down = λ j h. ground (arith, upper j, f.down j h);
        bounded = f.bounded;
      }

-- The answer of `find` at `i`.
abbrev pub Found : (n k : ℕ) → (ℕ → ℕ) → (ℕ → ℕ) → ℕ → List ℕ × ℕ → Type 0
Found n k rep depth i (parent, root) =
    IsForest n k parent rep depth × (root ≡ rep i) × (root < n) × (at parent root ≡ root)

find-root :
    (fuel : ℕ) (parent : List ℕ) (i : ℕ) → at parent i ≡ i → find (suc fuel) parent i ≡ (parent, i)
unfolding find
find-root fuel parent i e = ground arith

find-up :
    (fuel : ℕ) (parent : List ℕ) (i : ℕ)
    → at parent i ≢ i
    → let halved = set parent i (at parent (at parent i)) in
      find (suc fuel) parent i ≡ find fuel halved (at halved i)
unfolding find
find-up fuel parent i ne = ground arith

module _ {n k : ℕ} {rep depth : ℕ → ℕ} where
  -- With more fuel than the depth of `i`, `find` returns the root of `i`.
  pub find_lem :
      (fuel : ℕ) (parent : List ℕ) (i : ℕ)
      → IsForest n k parent rep depth
      → i < n
      → depth i < fuel
      → Found n k rep depth i (find fuel parent i)
  find_lem zero parent i f lt d = absurd (omega arith)
  find_lem (suc fuel) parent i f lt d = elim (ℕ_discrete (at parent i) i) [
    | yes e ↦ rw (find-root fuel parent i e) (f, sym (f.root_rep i lt e), lt, e)
    | no ne ↦
        let halved = set parent i (at parent (at parent i)) in
        let f' = halve-IsForest parent i f lt ne in
        let same : at halved i ≡ at parent (at parent i) =
          ground (arith, at-set parent i i (at parent (at parent i)), f.size) in
        let not_root : at halved i ≢ i =
          λ e. absurd (omega (arith, ap depth (sym same ∙ e), top_below parent i f lt ne)) in
        let (f'', root_eq, root_lt, is_root) =
          find_lem fuel halved (at halved i) f' (f'.closed i lt)
            (omega (arith, f'.down i lt not_root)) in
        rw (find-up fuel parent i ne) (f'', root_eq ∙ f'.same_rep i lt, root_lt, is_root)
  ]
