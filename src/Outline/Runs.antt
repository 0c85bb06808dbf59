-- ===== src/Outline/Runs.antt =====
-- The run-length strips of `_mask_to_polygon`: each row of a mask becomes its maximal runs of set
-- pixels, found as the changes of the row with an unset pixel on either side.
pub mod Cover
use rooftrace.Prelude.{ℕ, zero, suc, ◌+◌, Bool, true, false, List, [], ◌∷◌, ◌++◌, if◌then◌else◌}
use rooftrace.Outline.Masks.{Mask, rows}

-- An entry of `np.diff(row.astype(np.int8), prepend=0, append=0)`: 1, -1 or 0
pub data Change : Type 0 where
  rises : Change
  falls : Change
  stays : Change

abbrev change : Bool → Bool → Change
change false true = rises
change true false = falls
change false false = stays
change true true = stays

-- The differences from the pixel `before` on, to the appended one
unfoldable pub diff : Bool → List Bool → List Change
diff before [] = change before false ∷ []
diff before (b ∷ row) = change before b ∷ diff b row

-- `np.where(changes == 1)[0]` and `np.where(changes == -1)[0]`, from position k on
unfoldable pub starts : ℕ → List Change → List ℕ
starts k [] = []
starts k (rises ∷ cs) = k ∷ starts (k + 1) cs
starts k (falls ∷ cs) = starts (k + 1) cs
starts k (stays ∷ cs) = starts (k + 1) cs

unfoldable pub ends : ℕ → List Change → List ℕ
ends k [] = []
ends k (rises ∷ cs) = ends (k + 1) cs
ends k (falls ∷ cs) = k ∷ ends (k + 1) cs
ends k (stays ∷ cs) = ends (k + 1) cs

abbrev pub zip : {A B : Type 0} → List A → List B → List (A × B)
zip [] ys = []
zip (x ∷ xs) [] = []
zip (x ∷ xs) (y ∷ ys) = (x, y) ∷ zip xs ys

-- The runs of one row: the columns s, ..., e - 1
unfoldable pub row_runs : List Bool → List (ℕ × ℕ)
unfolding diff starts ends
row_runs row = let changes = diff false row in zip (starts 0 changes) (ends 0 changes)

-- A strip: its columns s and e, and its row
abbrev pub Strip : Type 0
Strip = ℕ × ℕ × ℕ

abbrev pub at_row : ℕ → List (ℕ × ℕ) → List Strip
at_row row_idx [] = []
at_row row_idx ((s, e) ∷ runs) = (s, e, row_idx) ∷ at_row row_idx runs

-- `for row_idx, row in enumerate(mask)`. A row without a set pixel has no run.
unfoldable pub strips_from : ℕ → List (List Bool) → List Strip
unfolding row_runs
strips_from row_idx [] = []
strips_from row_idx (row ∷ mask) = at_row row_idx (row_runs row) ++ strips_from (row_idx + 1) mask

unfoldable pub strips : Mask → List Strip
unfolding strips_from
strips mask = strips_from 0 (rows mask)
