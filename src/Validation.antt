-- ===== src/Validation.antt =====
-- validation/metrics.py: the overlap of boxes, and precision, recall and F1 by greedy matching.
pub mod Matching
use rooftrace.Prelude.{
  ℕ, suc, ◌+◌, ◌-◌, Bool, true, false, not, ◌&&◌, Option, none, some, List, [], ◌∷◌, ◌++◌, map,
  keep, length, any, contains, ltb, String, str_eq, if◌then◌else◌,
}
use rooftrace.Float.{Float, max_of, min_of, nought, ◌⊕◌, ◌⊖◌, ◌⊗◌, ◌⊘◌}

-- `[x0, y0, x1, y1]`
pub record Box (F : Type 0) : Type 0 where
  pub x0 : F
  pub y0 : F
  pub x1 : F
  pub y1 : F

-- `confidence` is 0.0 where the dict has none.
pub record Detection (F : Type 0) : Type 0 where
  pub label : String
  pub bbox_norm : Box F
  pub confidence : F

pub record ClassScore (F : Type 0) : Type 0 where
  pub precision : F
  pub recall : F
  pub f1 : F
  pub tp : ℕ
  pub fp : ℕ
  pub fn : ℕ

module _ {F : Type 0} ⦃fl : Float F⦄ where
  open fl use {lt, le, num, of_nat}

  unfoldable pub bbox_iou : Box F → Box F → F
  bbox_iou a b =
      let ix0 = max_of a.x0 b.x0 in
      let iy0 = max_of a.y0 b.y0 in
      let ix1 = min_of a.x1 b.x1 in
      let iy1 = min_of a.y1 b.y1 in
      let inter = max_of nought (ix1 ⊖ ix0) ⊗ max_of nought (iy1 ⊖ iy0) in
      let area_a = max_of nought (a.x1 ⊖ a.x0) ⊗ max_of nought (a.y1 ⊖ a.y0) in
      let area_b = max_of nought (b.x1 ⊖ b.x0) ⊗ max_of nought (b.y1 ⊖ b.y0) in
      let union = (area_a ⊕ area_b) ⊖ inter in
      if le inter nought then nought else if le union nought then nought else inter ⊘ union

  -- `enumerate(gts)`
  abbrev pub enumerate : ℕ → List (Detection F) → List (ℕ × Detection F)
  enumerate gi [] = []
  enumerate gi (gt ∷ gts) = (gi, gt) ∷ enumerate (suc gi) gts

  -- `best_iou` with `best_idx`, where there is one
  abbrev pub best_iou : Option (ℕ × F) → F
  best_iou none = nought
  best_iou (some (best_idx, iou)) = iou

  abbrev pub overlap : Detection F → Detection F → F
  overlap pred gt = bbox_iou pred.bbox_norm gt.bbox_norm

  abbrev pub consider : F → Detection F → List ℕ → Option (ℕ × F) → ℕ × Detection F → Option (ℕ × F)
  consider iou_threshold pred matched_gt best (gi, gt) =
      if contains gi matched_gt
      then best
      else if le iou_threshold (overlap pred gt) && lt (best_iou best) (overlap pred gt)
      then some (gi, overlap pred gt)
      else best

  -- The loop over the ground truth
  unfoldable pub best_match :
      F → Detection F → List ℕ → Option (ℕ × F) → List (ℕ × Detection F) → Option (ℕ × F)
  best_match iou_threshold pred matched_gt best [] = best
  best_match iou_threshold pred matched_gt best (candidate ∷ candidates) =
      best_match iou_threshold pred matched_gt
        (consider iou_threshold pred matched_gt best candidate) candidates

  -- `matched_gt.add(best_idx)`, for an index that is not in it
  abbrev pub add_match : Option (ℕ × F) → List ℕ → List ℕ
  add_match none matched_gt = matched_gt
  add_match (some (best_idx, iou)) matched_gt = best_idx ∷ matched_gt

  abbrev pub hit_count : Option (ℕ × F) → ℕ
  hit_count none = 0
  hit_count (some b) = 1

  -- The loop over the predictions: `tp` after it
  unfoldable pub match_all : F → List (ℕ × Detection F) → List ℕ → ℕ → List (Detection F) → ℕ
  unfolding best_match
  match_all iou_threshold gts matched_gt tp [] = tp
  match_all iou_threshold gts matched_gt tp (pred ∷ preds) =
      let best = best_match iou_threshold pred matched_gt none gts in
      match_all iou_threshold gts (add_match best matched_gt) (tp + hit_count best) preds

  -- `sorted(..., reverse=True)` by confidence, which leaves equals in their order
  unfoldable pub insert_by_confidence : Detection F → List (Detection F) → List (Detection F)
  insert_by_confidence x [] = x ∷ []
  insert_by_confidence x (y ∷ ys) =
      let rest = insert_by_confidence x ys in
      if lt x.confidence y.confidence then y ∷ rest else x ∷ y ∷ ys

  unfoldable pub highest_first : List (Detection F) → List (Detection F)
  unfolding insert_by_confidence
  highest_first [] = []
  highest_first (x ∷ xs) = insert_by_confidence x (highest_first xs)

  abbrev pub of_label : String → List (Detection F) → List (Detection F)
  of_label label dets = keep (λ d. str_eq d.label label) dets

  abbrev pub ratio : ℕ → ℕ → F
  ratio tp n = if ltb 0 n then of_nat tp ⊘ of_nat n else nought

  abbrev harmonic : F → F → F
  harmonic precision recall =
      if lt nought (precision ⊕ recall)
      then ((num 2 0 ⊗ precision) ⊗ recall) ⊘ (precision ⊕ recall)
      else nought

  unfoldable pub class_score : F → List (Detection F) → List (Detection F) → ClassScore F
  unfolding match_all highest_first
  class_score iou_threshold preds gts =
      let tp = match_all iou_threshold (enumerate 0 gts) [] 0 (highest_first preds) in
      let fp = length preds - tp in
      let fn = length gts - tp in
      let precision = ratio tp (tp + fp) in
      let recall = ratio tp (tp + fn) in
      record {
        precision = precision;
        recall = recall;
        f1 = harmonic precision recall;
        tp = tp;
        fp = fp;
        fn = fn;
      }

  abbrev labels : List (Detection F) → List String
  labels [] = []
  labels (d ∷ ds) =
      let rest = labels ds in if any (str_eq d.label) rest then rest else d.label ∷ rest

  -- A set has no order: here the labels come in that of their last detections.
  unfoldable pub precision_recall_f1 :
      F → List (Detection F) → List (Detection F) → List (String × ClassScore F)
  unfolding class_score
  precision_recall_f1 iou_threshold pred_dets gt_dets =
      map
        (λ label.
          (label, class_score iou_threshold (of_label label pred_dets) (of_label label gt_dets)))
        (labels (pred_dets ++ gt_dets))
