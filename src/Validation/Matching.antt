-- ===== src/Validation/Matching.antt =====
-- The greedy matching of validation/metrics.py: what a match is, and that no box is counted twice.
use rooftrace.Prelude.{
  ℕ, suc, ◌+◌, ◌≤◌, ◌≡◌, refl, true, false, ◌&&◌, Option, none, some, List, [], ◌∷◌, length,
  contains, All, Any, if◌then◌else◌, arith, Bool-cases, Option-cases, inl, inr, ◌⊎◌, sym, ap, ◌∙◌,
}
use rooftrace.Float.{Float, IsOrdered}
use rooftrace.Validation.{
  Detection, overlap, best_iou, consider, best_match, match_all, enumerate, insert_by_confidence,
  highest_first, class_score,
}

module _ {F : Type 0} ⦃fl : Float F⦄ where
  module _ (ord : IsOrdered F) (threshold : F) (pred : Detection F) (matched : List ℕ) where
    open ord use {le_refl, le_trans, le_total, lt-eq-not-le}

    -- A candidate that was taken before, or is below the threshold, or overlaps no more than the best
    abbrev pub IsCovered : F → ℕ × Detection F → Type 0
    IsCovered best (gi, gt) =
        (contains gi matched ≡ true)
        ⊎ ((fl.le threshold (overlap pred gt) ≡ false) ⊎ (fl.le (overlap pred gt) best ≡ true))

    -- A candidate that was not taken before, with its overlap, which reaches the threshold
    abbrev pub IsFound : ℕ → F → ℕ × Detection F → Type 0
    IsFound i iou (gi, gt) =
        (gi ≡ i)
        × (contains i matched ≡ false)
        × (iou ≡ overlap pred gt)
        × (fl.le threshold iou ≡ true)

    consider-le :
        (best : Option (ℕ × F)) (c : ℕ × Detection F)
        → fl.le (best_iou best) (best_iou (consider threshold pred matched best c)) ≡ true
    consider-le best (gi, gt) = ground (
      arith,
      le_refl (best_iou best),
      lt-eq-not-le (best_iou best) (overlap pred gt),
      le_total (best_iou best) (overlap pred gt),
    )

    consider-IsCovered :
        (best : Option (ℕ × F)) (c : ℕ × Detection F)
        → IsCovered (best_iou (consider threshold pred matched best c)) c
    consider-IsCovered best (gi, gt) =
        ground (arith, le_refl (overlap pred gt), lt-eq-not-le (best_iou best) (overlap pred gt))

    best_match-le :
        (best : Option (ℕ × F)) (cs : List (ℕ × Detection F))
        → fl.le (best_iou best) (best_iou (best_match threshold pred matched best cs)) ≡ true
    unfolding best_match
    best_match-le best [] = le_refl (best_iou best)
    best_match-le best (c ∷ cs) =
        let next = consider threshold pred matched best c in
        le_trans (best_iou best) (best_iou next)
          (best_iou (best_match threshold pred matched next cs)) (consider-le best c)
          (best_match-le next cs)

    IsCovered-le :
        (a b : F) (c : ℕ × Detection F) → fl.le a b ≡ true → IsCovered a c → IsCovered b c
    IsCovered-le a b (gi, gt) h (inl taken) = inl taken
    IsCovered-le a b (gi, gt) h (inr (inl below)) = inr (inl below)
    IsCovered-le a b (gi, gt) h (inr (inr less)) = inr (inr (le_trans (overlap pred gt) a b less h))

    best_match-IsCovered :
        (best : Option (ℕ × F)) (cs : List (ℕ × Detection F))
        → All (IsCovered (best_iou (best_match threshold pred matched best cs))) cs
    unfolding best_match
    best_match-IsCovered best [] = tt
    best_match-IsCovered best (c ∷ cs) =
        let next = consider threshold pred matched best c in
        (
          IsCovered-le (best_iou next) (best_iou (best_match threshold pred matched next cs)) c
              (best_match-le next cs) (consider-IsCovered best c),
          best_match-IsCovered next cs,
        )

    consider-IsFound :
        (best : Option (ℕ × F)) (c : ℕ × Detection F) (i : ℕ) (iou : F)
        → consider threshold pred matched best c ≡ some (i, iou)
        → (best ≡ some (i, iou)) ⊎ IsFound i iou c
    consider-IsFound best (gi, gt) i iou h = elim (Bool-cases (contains gi matched)) [
      | inl taken ↦ inl (rw taken at h)
      | inr free ↦
          elim (Bool-cases
            (fl.le threshold (overlap pred gt) && fl.lt (best_iou best) (overlap pred gt))) [
              | inl better ↦
                  let h1 = rw (free, better) at h in
                  let same : gi ≡ i = cc in
                  let found : iou ≡ overlap pred gt = cc in
                  inr (same, rw (sym same) free, found, rw found (ground (arith, better)))
              | inr worse ↦ inl (rw (free, worse) at h)
            ]
    ]

    best_match-IsFound :
        (best : Option (ℕ × F)) (cs : List (ℕ × Detection F)) (i : ℕ) (iou : F)
        → best_match threshold pred matched best cs ≡ some (i, iou)
        → (best ≡ some (i, iou)) ⊎ Any (IsFound i iou) cs
    unfolding best_match
    best_match-IsFound best [] i iou h = inl h
    best_match-IsFound best (c ∷ cs) i iou h =
        elim (best_match-IsFound (consider threshold pred matched best c) cs i iou h) [
          | inl now ↦ elim (consider-IsFound best c i iou now) [
            | inl before ↦ inl before
            | inr here ↦ inr (inl here)
          ]
          | inr later ↦ inr (inr later)
        ]

    is_found :
        (cs : List (ℕ × Detection F)) (i : ℕ) (iou : F)
        → best_match threshold pred matched none cs ≡ some (i, iou)
        → Any (IsFound i iou) cs
    is_found cs i iou there = elim (best_match-IsFound none cs i iou there) [
      | inl before ↦ absurd (ground (arith, before))
      | inr found ↦ found
    ]

    -- A prediction is matched to the candidate that overlaps it most, among those that were not taken
    -- before and reach the threshold; where it is matched to none, no such candidate overlaps it at all.
    pub best_match-IsFound-IsCovered :
        (cs : List (ℕ × Detection F))
        → ((best_match threshold pred matched none cs ≡ none)
            ⊎ ((i : ℕ) × (iou : F) × (best_match threshold pred matched none cs ≡ some (i, iou))
                × Any (IsFound i iou) cs))
          × All (IsCovered (best_iou (best_match threshold pred matched none cs))) cs
    best_match-IsFound-IsCovered cs = (
      elim (Option-cases (best_match threshold pred matched none cs)) [
        | inl absent ↦ inl absent
        | inr ((i, iou), there) ↦ inr (i, iou, there, is_found cs i iou there)
      ],
      best_match-IsCovered none cs,
    )

  -- How many candidates were not taken
  abbrev free : List ℕ → List (ℕ × Detection F) → ℕ
  free matched [] = 0
  free matched ((gi, gt) ∷ cs) =
      let rest = free matched cs in if contains gi matched then rest else suc rest

  free_cons_le :
      (i : ℕ) (matched : List ℕ) (cs : List (ℕ × Detection F))
      → free (i ∷ matched) cs ≤ free matched cs
  free_cons_le i matched [] = omega arith
  free_cons_le i matched ((gi, gt) ∷ cs) = ground (arith, free_cons_le i matched cs)

  module _ (ord : IsOrdered F) (threshold : F) where
    free_cons_lt :
        (pred : Detection F) (i : ℕ) (iou : F) (matched : List ℕ) (cs : List (ℕ × Detection F))
        → Any (IsFound ord threshold pred matched i iou) cs
        → suc (free (i ∷ matched) cs) ≤ free matched cs
    free_cons_lt pred i iou matched [] h = elim h [ ]
    free_cons_lt pred i iou matched ((gi, gt) ∷ cs) (inl (same, untaken, found, reached)) =
        let untaken' : contains gi matched ≡ false = rw same untaken in
        ground (arith, free_cons_le i matched cs, same, untaken')
    free_cons_lt pred i iou matched ((gi, gt) ∷ cs) (inr t) =
        ground (arith, free_cons_lt pred i iou matched cs t)

    match_all-le :
        (cs : List (ℕ × Detection F)) (matched : List ℕ) (tp : ℕ) (preds : List (Detection F))
        → (match_all threshold cs matched tp preds ≤ tp + length preds)
          × (match_all threshold cs matched tp preds ≤ tp + free matched cs)
    unfolding match_all
    match_all-le cs matched tp [] = (omega arith, omega arith)
    match_all-le cs matched tp (pred ∷ preds) =
        elim (Option-cases (best_match threshold pred matched none cs)) [
          | inl absent ↦
              let (a, b) = match_all-le cs matched (tp + 0) preds in
              rw absent (ground (arith, a), ground (arith, b))
          | inr ((i, iou), there) ↦
              let (a, b) = match_all-le cs (i ∷ matched) (tp + 1) preds in
              let fewer =
                free_cons_lt pred i iou matched cs
                  (is_found ord threshold pred matched cs i iou there) in
              rw there (ground (arith, a), ground (arith, b, fewer))
        ]

  length-insert_by_confidence :
      (x : Detection F) (ys : List (Detection F))
      → length (insert_by_confidence x ys) ≡ suc (length ys)
  unfolding insert_by_confidence
  length-insert_by_confidence x [] = refl
  length-insert_by_confidence x (y ∷ ys) = ground (arith, length-insert_by_confidence x ys)

  length-highest_first : (xs : List (Detection F)) → length (highest_first xs) ≡ length xs
  unfolding highest_first
  length-highest_first [] = refl
  length-highest_first (x ∷ xs) =
      length-insert_by_confidence x (highest_first xs) ∙ ap suc (length-highest_first xs)

  free-enumerate : (gi : ℕ) (gts : List (Detection F)) → free [] (enumerate gi gts) ≡ length gts
  free-enumerate gi [] = refl
  free-enumerate gi (gt ∷ gts) = ap suc (free-enumerate (suc gi) gts)

  -- No box is counted twice: the true and the false positives are together the predictions, and the true
  -- positives and the false negatives the boxes of the ground truth.
  pub class_score-counts :
      (ord : IsOrdered F) (threshold : F) (preds gts : List (Detection F))
      → ((class_score threshold preds gts).tp + (class_score threshold preds gts).fp ≡ length preds)
        × ((class_score threshold preds gts).tp + (class_score threshold preds gts).fn ≡ length gts)
  unfolding class_score
  class_score-counts ord threshold preds gts =
      let (a, b) = match_all-le ord threshold (enumerate 0 gts) [] 0 (highest_first preds) in
      let n = length-highest_first preds in
      let k = free-enumerate 0 gts in (omega arith, omega arith)
