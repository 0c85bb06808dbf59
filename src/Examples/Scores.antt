-- ===== src/Examples/Scores.antt =====
-- The theorems on validation/metrics.py at concrete inputs.
use rooftrace.Prelude.{ℕ, ◌+◌, ◌≡◌, refl, none, some, List, [], ◌∷◌, All, Any, ◌⊎◌}
use rooftrace.Validation.{bbox_iou, Detection, best_match, best_iou, class_score, enumerate}
use rooftrace.Validation.Matching.{
  IsFound, IsCovered, best_match-IsFound-IsCovered, class_score-counts,
}
use rooftrace.Examples.{whole_numbers, ordered_numbers}

abbrev vent : ℕ → ℕ → Detection ℕ
vent x0 confidence = record {
  label = "vent";
  bbox_norm = record { x0 = x0; y0 = 0; x1 = x0 + 2; y1 = 2 };
  confidence = confidence;
}

-- Two predictions of the same vent, and a vent that nothing predicts
abbrev predicted : List (Detection ℕ)
predicted = vent 4 1 ∷ vent 4 2 ∷ []

abbrev truth : List (Detection ℕ)
truth = vent 0 0 ∷ vent 4 0 ∷ []

one_match : (class_score ⦃fl = whole_numbers⦄ 1 predicted truth).tp ≡ 1
unfolding class_score bbox_iou
one_match = refl

class_score-counts_example :
    ((class_score ⦃fl = whole_numbers⦄ 1 predicted truth).tp
        + (class_score ⦃fl = whole_numbers⦄ 1 predicted truth).fp
      ≡ 2)
    × ((class_score ⦃fl = whole_numbers⦄ 1 predicted truth).tp
          + (class_score ⦃fl = whole_numbers⦄ 1 predicted truth).fn
        ≡ 2)
class_score-counts_example =
    class_score-counts ⦃fl = whole_numbers⦄ ordered_numbers 1 predicted truth

abbrev candidates : List (ℕ × Detection ℕ)
candidates = enumerate ⦃fl = whole_numbers⦄ 0 truth

best_match-IsFound-IsCovered_example :
    ((best_match ⦃fl = whole_numbers⦄ 1 (vent 4 1) [] none candidates ≡ none)
      ⊎ ((i : ℕ) × (iou : ℕ) × (best_match ⦃fl = whole_numbers⦄ 1 (vent 4 1) [] none candidates
            ≡ some (i, iou))
          × Any (IsFound ⦃fl = whole_numbers⦄ ordered_numbers 1 (vent 4 1) [] i iou) candidates))
    × All
        (IsCovered ⦃fl = whole_numbers⦄ ordered_numbers 1 (vent 4 1) [] (
          best_iou ⦃fl = whole_numbers⦄
            (best_match ⦃fl = whole_numbers⦄ 1 (vent 4 1) [] none candidates)))
        candidates
best_match-IsFound-IsCovered_example =
    best_match-IsFound-IsCovered ⦃fl = whole_numbers⦄ ordered_numbers 1 (vent 4 1) [] candidates
