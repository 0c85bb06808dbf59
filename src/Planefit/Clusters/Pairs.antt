-- ===== src/Planefit/Clusters/Pairs.antt =====
-- The pairs of the nested loops of `_support_clusters`: every pair i < j < n is among them.
use native.Mathlib.Decide.{ℕ_discrete}
use mathlib.Core.Path.{subst}
use rooftrace.Prelude.{
  ℕ, zero, suc, ◌+◌, ◌≤◌, ◌<◌, List, [], ◌∷◌, ◌++◌, arith, map, All, range_from,
}
use rooftrace.Planefit.Clusters.{pairs_from}

All-split {κ} :
    {A : Type 0} (P : A → Type κ) (xs ys : List A) → All P (xs ++ ys) → All P xs × All P ys
All-split P [] ys h = (tt, h)
All-split P (x ∷ xs) ys (h, t) = let (a, b) = All-split P xs ys t in ((h, a), b)

All-row :
    (P : ℕ × ℕ → Type 0) (lo start m b : ℕ)
    → All P (map (λ j. (lo, j)) (range_from start m))
    → start ≤ b
    → b < start + m
    → P (lo, b)
All-row P lo start zero b h le lt = absurd (omega arith)
All-row P lo start (suc m) b (h, t) le lt = elim (ℕ_discrete start b) [
  | yes e ↦ subst (λ x. P (lo, x)) e h
  | no ne ↦ All-row P lo (start + 1) m b t (omega arith) (omega arith)
]

pub All-pairs_from :
    (P : ℕ × ℕ → Type 0) (lo rows a b : ℕ)
    → All P (pairs_from lo rows)
    → lo ≤ a
    → a < b
    → b < lo + rows
    → P (a, b)
All-pairs_from P lo zero a b h le lt hi = absurd (omega arith)
All-pairs_from P lo (suc rows) a b h le lt hi =
    let (row, rest) =
      All-split P (map (λ j. (lo, j)) (range_from (lo + 1) rows)) (pairs_from (lo + 1) rows) h in
    elim (ℕ_discrete lo a) [
      | yes e ↦
          subst (λ x. P (x, b)) e (All-row P lo (lo + 1) rows b row (omega arith) (omega arith))
      | no ne ↦ All-pairs_from P (lo + 1) rows a b rest (omega arith) (omega arith) (omega arith)
    ]
