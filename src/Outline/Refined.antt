-- ===== src/Outline/Refined.antt =====
-- What POST /pipeline/refine-outline of app/outline/router.py answers.
use rooftrace.Prelude.{
  ℕ, ◌≤◌, ◌<◌, ◌≡◌, refl, ◌⊎◌, inl, inr, true, false, [], ◌∷◌, arith, String, ok, err, Raised,
  storage_error, storage_too_large, value_error, runtime_error, other, http, Bool-cases, Outcome,
  Outcome->>=, Outcome-map_err, ◌==◌, str_eq, Result-cases, Result, if◌then◌else◌,
}
use rooftrace.Float.{Float}
use rooftrace.Contracts.{is_confidence}
use rooftrace.Pipeline.{check_pipeline_version, check_pipeline_version-err}
use rooftrace.Storage.{Bytes}
use rooftrace.Planefit.Shapely.{Shapely}
use rooftrace.Outline.Masks.{Mask, has_pixel, pixel_count, logical_and, logical_or, compute_iou}
use rooftrace.Outline.Masks.Overlap.{and-le-or}
use rooftrace.Outline.Polygons.{polygon_to_mask, mask_to_polygon}
use rooftrace.Outline.Segmenter.{infer_sam2}
use rooftrace.Outline.{
  RefineOutlineRequest, RefineOutlineResponse, OutlineCalls, modal, local, tile_missing,
  tile_unreadable, not_rasterised, inference_failed, is_degenerate, new_response, response, respond,
  refine_tile, refine_outline,
}

-- A quotient of counts, the first of which is not above the second, is rounded to one from 0 to 1.
pub record HasRatios (F : Type 0) ⦃fl : Float F⦄ : Type 0 where
  pub ratio_bounds :
      (a b : ℕ) → a ≤ b → 0 < b → is_confidence (fl.div (fl.of_nat a) (fl.of_nat b)) ≡ true
  pub one_bounds : is_confidence (fl.num 1 0) ≡ true

-- The endpoint's own errors
abbrev pub IsRefusal : Raised → Type 0
IsRefusal e =
    (detail : String) × ((e ≡ http 409 detail) ⊎ (e ≡ http 422 detail) ⊎ (e ≡ http 502 detail))

module _ {F G : Type 0} ⦃fl : Float F⦄ (sh : Shapely F G) (calls : OutlineCalls F)
    (ratios : HasRatios F) where
  open fl use {num, lt}

  compute_iou_bounds : (a b : Mask) → is_confidence (compute_iou {F = F} a b) ≡ true
  unfolding compute_iou
  compute_iou_bounds a b = elim (Bool-cases (pixel_count (logical_or a b) == 0)) [
    | inl e ↦ rw e ratios.one_bounds
    | inr e ↦ rw e (
        ratios.ratio_bounds (pixel_count (logical_and a b)) (pixel_count (logical_or a b))
          (and-le-or a b) (ground arith))
  ]

  -- The prior is kept, with a warning, where the refined mask overlaps it by less than half, is empty, or
  -- has no outline.
  abbrev pub IsFallback : RefineOutlineRequest F → RefineOutlineResponse F → ℕ → ℕ → Mask → Type 0
  IsFallback req r width height refined =
      (r.refined_polygon ≡ req.prior_polygon)
      × (r.warnings ≡ "sam2_low_confidence" ∷ [])
      × ((lt r.iou_with_prior (num 5 1) ≡ true)
          ⊎ ((has_pixel refined ≡ false)
              ⊎ ((e : Raised) × (mask_to_polygon sh refined width height req.image_geo_bounds
                      calls.dp_tolerance
                    ≡ err e))))

  -- The outline of the refined mask takes the place of the prior.
  abbrev pub IsRefined : RefineOutlineRequest F → RefineOutlineResponse F → ℕ → ℕ → Mask → Type 0
  IsRefined req r width height refined =
      (mask_to_polygon sh refined width height req.image_geo_bounds calls.dp_tolerance
        ≡ ok r.refined_polygon)
      × (r.warnings ≡ [])
      × (lt r.iou_with_prior (num 5 1) ≡ false)
      × (has_pixel refined ≡ true)

  -- The response that the masks determine: the prior's, and the one that the segmenter made of the image
  -- and the prior's, with the backend's name
  abbrev pub IsAnswerOf : RefineOutlineRequest F → Bytes → ℕ → ℕ → RefineOutlineResponse F → Type 0
  IsAnswerOf req image width height r =
      (prior : Mask) × (refined : Mask) × (used : String) × (polygon_to_mask calls.pillow
          req.prior_polygon width height req.image_geo_bounds
        ≡ ok prior)
      × (infer_sam2 calls.env calls.modal_client image prior ≡ ok (refined, used))
      × (r.iou_with_prior ≡ compute_iou refined prior)
      × (r.sam2_backend ≡ (if str_eq used "modal" then modal else local))
      × (IsFallback req r width height refined ⊎ IsRefined req r width height refined)

  -- The same, for the image that the store has under the request's reference, at its own size
  abbrev pub IsAnswer : RefineOutlineRequest F → RefineOutlineResponse F → Type 0
  IsAnswer req r =
      (image : Bytes) × (width : ℕ) × (height : ℕ) × (calls.get_bytes req.image_tile_ref ≡ ok image)
      × (calls.image_size image ≡ ok (width, height))
      × IsAnswerOf req image width height r

  new_response-ok :
      (r : RefineOutlineResponse F)
      → is_confidence r.iou_with_prior ≡ true
      → new_response sh calls r ≡ ok r
  unfolding new_response
  new_response-ok r h = rw h refl

  -- The masks decide the response.
  respond-IsAnswerOf :
      (req : RefineOutlineRequest F) (image : Bytes) (width height : ℕ) (prior refined : Mask)
      (used : String)
      → polygon_to_mask calls.pillow req.prior_polygon width height req.image_geo_bounds ≡ ok prior
      → infer_sam2 calls.env calls.modal_client image prior ≡ ok (refined, used)
      → Outcome
          (IsAnswerOf req image width height)
          IsRefusal
          (respond sh calls req (width, height) refined used (compute_iou refined prior))
  unfolding respond
  respond-IsAnswerOf req image width height prior refined used drawn inferred =
      let iou = compute_iou refined prior in
      let kept =
        new_response-ok (response sh calls req.prior_polygon iou used ("sam2_low_confidence" ∷ []))
          (compute_iou_bounds refined prior) in
      elim (Bool-cases (lt iou (num 5 1))) [
        | inl low ↦
            rw (low, kept)
              (prior, refined, used, drawn, inferred, refl, refl, inl (refl, refl, inl low))
        | inr high ↦ elim (Bool-cases (has_pixel refined)) [
          | inr empty ↦
              rw (high, empty, kept)
                (
                  prior,
                  refined,
                  used,
                  drawn,
                  inferred,
                  refl,
                  refl,
                  inl (refl, refl, inr (inl empty)),
                )
          | inl there ↦
              elim (Result-cases
                (mask_to_polygon sh refined width height req.image_geo_bounds calls.dp_tolerance)) [
                  | inl (e, bad) ↦
                      rw (high, there, bad, kept)
                        (
                          prior,
                          refined,
                          used,
                          drawn,
                          inferred,
                          refl,
                          refl,
                          inl (refl, refl, inr (inr (e, bad))),
                        )
                  | inr (outline, good) ↦
                      let made =
                        new_response-ok (response sh calls outline iou used [])
                          (compute_iou_bounds refined prior) in
                      rw (high, there, good, made)
                        (
                          prior,
                          refined,
                          used,
                          drawn,
                          inferred,
                          refl,
                          refl,
                          inr (good, refl, high, there),
                        )
                ]
        ]
      ]

  inference_failed-IsRefusal : (e : Raised) → IsRefusal (inference_failed e)
  inference_failed-IsRefusal (other n m) = elim (Bool-cases (str_eq n "ModalUnavailable")) [
    | inl e ↦ rw e (_, inr (inr refl))
    | inr e ↦ rw e (_, inr (inr refl))
  ]
  inference_failed-IsRefusal (value_error m) = (_, inr (inr refl))
  inference_failed-IsRefusal (runtime_error m) = (_, inr (inr refl))
  inference_failed-IsRefusal (storage_error m) = (_, inr (inr refl))
  inference_failed-IsRefusal (storage_too_large m) = (_, inr (inr refl))
  inference_failed-IsRefusal (http c m) = (_, inr (inr refl))

  refine_tile-IsAnswerOf :
      (req : RefineOutlineRequest F) (image : Bytes) (width height : ℕ)
      → Outcome
          (IsAnswerOf req image width height)
          IsRefusal
          (refine_tile sh calls req image (width, height))
  unfolding refine_tile
  refine_tile-IsAnswerOf req image width height =
      Outcome-map_err (IsAnswerOf req image width height) IsRefusal not_rasterised
        (polygon_to_mask calls.pillow req.prior_polygon width height req.image_geo_bounds) _
        (λ e h. (_, inr (inl refl)))
        (λ prior drawn.
          Outcome-map_err (IsAnswerOf req image width height) IsRefusal inference_failed
            (infer_sam2 calls.env calls.modal_client image prior) _
            (λ e h. inference_failed-IsRefusal e)
            (λ (refined, used) h.
              respond-IsAnswerOf req image width height prior refined used drawn h))

  -- What is raised by the store, and is no error of its own, passes through.
  abbrev pub IsPassed : RefineOutlineRequest F → Raised → Type 0
  IsPassed req e = IsRefusal e ⊎ (calls.get_bytes req.image_tile_ref ≡ err e)

  sized-Outcome :
      (req : RefineOutlineRequest F) (image : Bytes) (width height : ℕ)
      (r : Result Raised (RefineOutlineResponse F))
      → calls.get_bytes req.image_tile_ref ≡ ok image
      → calls.image_size image ≡ ok (width, height)
      → Outcome (IsAnswerOf req image width height) IsRefusal r
      → Outcome (IsAnswer req) (IsPassed req) r
  sized-Outcome req image width height (err e) stored sized refusal = inl refusal
  sized-Outcome req image width height (ok r) stored sized answered =
      (image, width, height, stored, sized, answered)

  tile_missing-IsPassed :
      (req : RefineOutlineRequest F) (e : Raised)
      → calls.get_bytes req.image_tile_ref ≡ err e
      → IsPassed req (tile_missing e)
  tile_missing-IsPassed req (storage_error m) h = inl (_, inr (inl refl))
  tile_missing-IsPassed req (storage_too_large m) h = inl (_, inr (inl refl))
  tile_missing-IsPassed req (value_error m) h = inr h
  tile_missing-IsPassed req (runtime_error m) h = inr h
  tile_missing-IsPassed req (http c m) h = inr h
  tile_missing-IsPassed req (other n m) h = inr h

  -- Every request is refused with HTTP 409, 422 or 502, or the store raised an exception of its own; or it
  -- is answered from the prior's mask, at the size of the image that the store has, and the mask that the
  -- segmenter made of the two. The overlap is that of these masks. Where it is below one half, or the
  -- segmenter's mask is empty or has no outline, the prior is returned with a warning, and otherwise the
  -- outline of the segmenter's mask without one.
  pub refine_outline-IsAnswer :
      (req : RefineOutlineRequest F)
      → Outcome (IsAnswer req) (IsPassed req) (refine_outline sh calls req)
  unfolding refine_outline
  refine_outline-IsAnswer req =
      Outcome->>= (IsAnswer req) (IsPassed req) (check_pipeline_version req.pipeline_schema_version)
        _ (λ e h. inl (_, inl (check_pipeline_version-err req.pipeline_schema_version e h)))
        (λ _ _.
          Outcome-map_err (IsAnswer req) (IsPassed req) tile_missing
            (calls.get_bytes req.image_tile_ref) _ (tile_missing-IsPassed req)
            (λ image stored.
              Outcome-map_err (IsAnswer req) (IsPassed req) tile_unreadable (calls.image_size image)
                _ (λ e _. inl (_, inr (inl refl)))
                (λ (width, height) sized.
                  elim (Bool-cases (is_degenerate sh calls req.image_geo_bounds)) [
                    | inl e ↦ rw e (inl (_, inr (inl refl)))
                    | inr e ↦ rw e (
                        sized-Outcome req image width height
                          (refine_tile sh calls req image (width, height)) stored sized
                          (refine_tile-IsAnswerOf req image width height))
                  ])))
