-- ===== src/Outline/Runs/Cover.antt =====
-- The strips of a mask cover its set pixels, each once, and nothing else.
use rooftrace.Prelude.{
  ℕ, zero, suc, ◌+◌, ◌≤◌, ◌<◌, ◌≡◌, refl, Bool, true, false, ◌&&◌, List, [], ◌∷◌, ◌++◌, arith, map,
  range, range_from, ltb, leb, ◌==◌, if◌then◌else◌, ap,
}
use native.Mathlib.Decide.{ℕ_discrete}
use rooftrace.Outline.Masks.{Mask}
use rooftrace.Outline.Runs.{diff, starts, ends, zip, row_runs, Strip, at_row, strips_from, strips}

-- How many of the runs hold column i.
abbrev pub holding : ℕ → List (ℕ × ℕ) → ℕ
holding i [] = 0
holding i ((s, e) ∷ runs) = (if leb s i && ltb i e then 1 else 0) + holding i runs

-- The pixel at column i of a row that begins at column k
abbrev bit_at : ℕ → ℕ → List Bool → ℕ
bit_at i k [] = 0
bit_at i k (b ∷ row) = if i == k then (if b then 1 else 0) else bit_at i (k + 1) row

bit_at_before : (i k : ℕ) (row : List Bool) → i < k → bit_at i k row ≡ 0
bit_at_before i k [] lt = refl
bit_at_before i k (b ∷ row) lt = ground (arith, bit_at_before i (k + 1) row (omega arith))

abbrev opened : Bool → ℕ → List ℕ → List ℕ
opened true s xs = s ∷ xs
opened false s xs = xs

-- From column k on: where the pixel before is set, a run is open since column s.
holding_from :
    (i k s : ℕ) (before : Bool) (row : List Bool)
    → s ≤ k
    → holding i (zip (opened before s (starts k (diff before row))) (ends k (diff before row)))
      ≡ (if before && leb s i && ltb i k then 1 else bit_at i k row)
unfolding starts ends diff
holding_from i k s false [] le = refl
holding_from i k s true [] le = ground arith
holding_from i k s false (false ∷ row) le =
    ground (arith, holding_from i (k + 1) s false row (omega arith), bit_at_before i (k + 1) row)
holding_from i k s false (true ∷ row) le =
    ground (arith, holding_from i (k + 1) k true row (omega arith), bit_at_before i (k + 1) row)
holding_from i k s true (false ∷ row) le =
    ground (arith, holding_from i (k + 1) s false row (omega arith), bit_at_before i (k + 1) row)
holding_from i k s true (true ∷ row) le =
    ground (arith, holding_from i (k + 1) s true row (omega arith), bit_at_before i (k + 1) row)

-- Each column lies in as many runs of its row as it has pixels set: in one, or in none.
row_runs_lem : (i : ℕ) (row : List Bool) → holding i (row_runs row) ≡ bit_at i 0 row
unfolding row_runs
row_runs_lem i row = holding_from i 0 0 false row (omega arith)

-- How many of the strips hold the pixel at row r and column c.
abbrev pub covering : ℕ → ℕ → List Strip → ℕ
covering r c [] = 0
covering r c ((s, e, k) ∷ ss) = (if k == r && leb s c && ltb c e then 1 else 0) + covering r c ss

covering-append :
    (r c : ℕ) (xs ys : List Strip) → covering r c (xs ++ ys) ≡ covering r c xs + covering r c ys
covering-append r c [] ys = omega arith
covering-append r c ((s, e, k) ∷ xs) ys = omega (arith, covering-append r c xs ys)

covering-at_row :
    (r c k : ℕ) (runs : List (ℕ × ℕ))
    → covering r c (at_row k runs) ≡ (if k == r then holding c runs else 0)
covering-at_row r c k [] = ground arith
covering-at_row r c k ((s, e) ∷ runs) = ground (arith, covering-at_row r c k runs)

bit_at-map :
    (p : ℕ → Bool) (c lo n : ℕ)
    → bit_at c lo (map p (range_from lo n)) ≡ (if leb lo c && ltb c (lo + n) && p c then 1 else 0)
bit_at-map p c lo zero = ground arith
bit_at-map p c lo (suc n) = elim (ℕ_discrete c lo) [
  | yes e ↦ rw e (ground arith)
  | no ne ↦ ground (arith, bit_at-map p c (lo + 1) n)
]

covering-strips_from :
    (row : ℕ → List Bool) (r c lo n : ℕ)
    → covering r c (strips_from lo (map row (range_from lo n)))
      ≡ (if leb lo r && ltb r (lo + n) then bit_at c 0 (row r) else 0)
unfolding strips_from
covering-strips_from row r c lo zero = ground arith
covering-strips_from row r c lo (suc n) =
    let here = at_row lo (row_runs (row lo)) in
    let below = strips_from (lo + 1) (map row (range_from (lo + 1) n)) in
    let rest = covering-strips_from row r c (lo + 1) n in
    let split = covering-append r c here below in
    let first = covering-at_row r c lo (row_runs (row lo)) in
    elim (ℕ_discrete lo r) [
      | yes e ↦
          let same = ap (λ k. bit_at c 0 (row k)) e in
          ground (arith, split, first, rest, row_runs_lem c (row lo), same)
      | no ne ↦ ground (arith, split, first, rest)
    ]

-- The strips cover a mask exactly: a pixel of the mask lies in one strip if it is set and in none if it
-- is not, and no strip reaches beyond the mask.
pub covering-strips :
    (m : Mask) (r c : ℕ)
    → covering r c (strips m) ≡ (if ltb r m.height && ltb c m.width && m.pixel r c then 1 else 0)
unfolding strips
covering-strips m r c =
    let lines = covering-strips_from (λ i. map (m.pixel i) (range m.width)) r c 0 m.height in
    ground (arith, lines, bit_at-map (m.pixel r) c 0 m.width)
