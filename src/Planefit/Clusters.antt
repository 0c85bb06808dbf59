-- ===== src/Planefit/Clusters.antt =====
-- `_support_clusters` of app/planefit/roof_model.py: a union-find over the pairs of supports that lie
-- near each other. The list `parent` is passed along, and `find` returns it with its path halved.
pub mod Forest
pub mod Links
pub mod Pairs
pub mod Unions
pub mod Groups
pub mod Classes
use rooftrace.Prelude.{
  ℕ, zero, suc, ◌+◌, ◌*◌, Bool, true, false, Option, none, some, List, [], ◌∷◌, ◌++◌, map, length,
  get_elem?, set, range, range_from, ◌==◌, if◌then◌else◌,
}

-- `parent[i]`, for an index in range
abbrev pub at : List ℕ → ℕ → ℕ
at [] i = 0
at (x ∷ xs) zero = x
at (x ∷ xs) (suc i) = at xs i

-- `find(i)`: the new `parent`, and the root. The fuel is enough for every path
-- (`Clusters.Forest.find_lem`).
unfoldable pub find : ℕ → List ℕ → ℕ → List ℕ × ℕ
find zero parent i = (parent, i)
find (suc fuel) parent i = elim (at parent i == i) [
  | true ↦ (parent, i)
  | false ↦ let halved = set parent i (at parent (at parent i)) in find fuel halved (at halved i)
]

-- `parent[find(i)] = find(j)`. Python evaluates the right-hand side first.
unfoldable pub union : ℕ → List ℕ → ℕ → ℕ → List ℕ
union fuel parent i j =
    let (after_j, root_j) = find fuel parent j in
    let (after_i, root_i) = find fuel after_j i in set after_i root_i root_j

-- The pairs of `for i in range(n): for j in range(i + 1, n)`, `rows` rows from row `i` on
abbrev pub pairs_from : ℕ → ℕ → List (ℕ × ℕ)
pairs_from i zero = []
pairs_from i (suc rows) = map (λ j. (i, j)) (range_from (i + 1) rows) ++ pairs_from (i + 1) rows

-- The body of the nested loops, over the pairs that are left.
unfoldable pub unions : ℕ → (ℕ → ℕ → Bool) → List (ℕ × ℕ) → List ℕ → List ℕ
unions fuel near [] parent = parent
unions fuel near ((i, j) ∷ ps) parent =
    unions fuel near ps (if near i j then union fuel parent i j else parent)

-- `groups.setdefault(root, []).append(i)`, for a dict in the order of its keys' insertion
unfoldable pub add_to_group : ℕ → ℕ → List (ℕ × List ℕ) → List (ℕ × List ℕ)
add_to_group root i [] = (root, i ∷ []) ∷ []
add_to_group root i ((k, members) ∷ groups) =
    let rest = add_to_group root i groups in
    if k == root then (k, members ++ i ∷ []) ∷ groups else (k, members) ∷ rest

-- `for i in range(n): groups.setdefault(find(i), []).append(i)`
unfoldable pub collect : ℕ → List ℕ → List ℕ → List (ℕ × List ℕ) → List (ℕ × List ℕ)
collect fuel [] parent groups = groups
collect fuel (i ∷ is) parent groups =
    let (parent', root) = find fuel parent i in collect fuel is parent' (add_to_group root i groups)

-- `_support_clusters`, for `n` supports and the test
-- `supports[i].distance(supports[j]) <= buffer_m`
unfoldable pub support_clusters : ℕ → (ℕ → ℕ → Bool) → List (List ℕ)
support_clusters n near =
    let pairs = pairs_from 0 n in
    let fuel = suc (length pairs) in
    map (λ g. g.1) (collect fuel (range n) (unions fuel near pairs (range n)) [])
