-- ===== src/Outline.antt =====
-- app/outline/router.py: POST /pipeline/refine-outline.
pub mod Masks
pub mod Runs
pub mod Polygons
pub mod Segmenter
pub mod Refined
use rooftrace.Prelude.{
  ℕ, Bool, true, false, ◌||◌, not, Option, none, some, List, [], ◌∷◌, if◌then◌else◌, String, Result,
  ok, err, Raised, value_error, storage_error, storage_too_large, http, other, f_string, message,
  type_name, map_err, ◌>>=◌, str_eq,
}
use rooftrace.Float.{Float}
use rooftrace.Contracts.{Polygon, pipeline_schema_version, is_confidence}
use rooftrace.Pipeline.{check_pipeline_version}
use rooftrace.Storage.{Bytes}
use rooftrace.Boot.Flags.{Env}
use rooftrace.Planefit.Shapely.{Shapely}
use rooftrace.Outline.Masks.{Mask, has_pixel, compute_iou}
use rooftrace.Outline.Polygons.{Pillow, GeoBounds, polygon_to_mask, mask_to_polygon}
use rooftrace.Outline.Segmenter.{Modal, infer_sam2}

pub data Sam2Backend : Type 0 where
  modal : Sam2Backend
  local : Sam2Backend

pub record RefineOutlineRequest (F : Type 0) : Type 0 where
  pub pipeline_schema_version : String
  pub image_tile_ref : String
  pub prior_polygon : Polygon F
  pub image_geo_bounds : GeoBounds F

pub record RefineOutlineResponse (F : Type 0) : Type 0 where
  pub pipeline_schema_version : String
  pub refined_polygon : Polygon F
  pub iou_with_prior : F
  pub sam2_backend : Sam2Backend
  pub warnings : List String

-- What the endpoint calls and the model takes as given, at the time of the request: `get_bytes` of the
-- store, the size of an image and the drawing of Pillow, the environment, Modal, and the tolerance.
pub record OutlineCalls (F : Type 0) : Type 0 where
  pub get_bytes : String → Result Raised Bytes
  pub image_size : Bytes → Result Raised (ℕ × ℕ)
  pub pillow : Pillow F
  pub env : Env
  pub modal_client : Modal
  pub dp_tolerance : F

-- `except StorageError`
abbrev pub tile_missing : Raised → Raised
tile_missing (storage_error m) = http 422 (f_string ("could not fetch image tile: " ∷ m ∷ []))
tile_missing (storage_too_large m) = http 422 (f_string ("could not fetch image tile: " ∷ m ∷ []))
tile_missing e = e

-- `except Exception` of the three steps after it
abbrev pub tile_unreadable : Raised → Raised
tile_unreadable e =
    http 422 (f_string ("could not read image tile dimensions: " ∷ type_name e ∷ []))

abbrev pub not_rasterised : Raised → Raised
not_rasterised e = http 422 (f_string ("could not rasterise prior polygon: " ∷ type_name e ∷ []))

abbrev pub inference_failed : Raised → Raised
inference_failed (other n m) =
    if str_eq n "ModalUnavailable"
    then http 502 (f_string ("SAM2 (modal) unavailable: " ∷ m ∷ []))
    else http 502 (f_string ("SAM2 inference failed: " ∷ m ∷ []))
inference_failed e = http 502 (f_string ("SAM2 inference failed: " ∷ message e ∷ []))

module _ {F G : Type 0} ⦃fl : Float F⦄ (sh : Shapely F G) (calls : OutlineCalls F) where
  open fl use {num, lt, sub, eq}

  abbrev pub is_degenerate : GeoBounds F → Bool
  is_degenerate b = eq (sub b.east b.west) (num 0 0) || eq (sub b.north b.south) (num 0 0)

  -- `RefineOutlineResponse(...)`
  unfoldable pub new_response : RefineOutlineResponse F → Result Raised (RefineOutlineResponse F)
  new_response r =
      if is_confidence r.iou_with_prior
      then ok r
      else err (value_error "validation error for RefineOutlineResponse")

  abbrev pub response : Polygon F → F → String → List String → RefineOutlineResponse F
  response polygon iou used warnings = record {
    pipeline_schema_version = pipeline_schema_version;
    refined_polygon = polygon;
    iou_with_prior = iou;
    sam2_backend = if str_eq used "modal" then modal else local;
    warnings = warnings;
  }

  -- Steps 7 and 8, where `refined` has the overlap `iou` with the prior
  unfoldable pub respond :
      RefineOutlineRequest F → ℕ × ℕ → Mask → String → F → Result Raised (RefineOutlineResponse F)
  unfolding new_response
  respond req (width, height) refined used iou =
      let fallback =
        new_response (response req.prior_polygon iou used ("sam2_low_confidence" ∷ [])) in
      if lt iou (num 5 1) || not (has_pixel refined)
      then fallback
      else elim (mask_to_polygon sh refined width height req.image_geo_bounds calls.dp_tolerance) [
        | err e ↦ fallback
        | ok polygon ↦ new_response (response polygon iou used [])
      ]

  -- Steps 4 to 8, for an image of the given size
  unfoldable pub refine_tile :
      RefineOutlineRequest F → Bytes → ℕ × ℕ → Result Raised (RefineOutlineResponse F)
  unfolding respond
  refine_tile req image (width, height) = do
    let bounds = req.image_geo_bounds
    prior ←
        map_err not_rasterised (polygon_to_mask calls.pillow req.prior_polygon width height bounds)
    (refined, used) ← map_err inference_failed (infer_sam2 calls.env calls.modal_client image prior)
    respond req (width, height) refined used (compute_iou refined prior)

  unfoldable pub refine_outline : RefineOutlineRequest F → Result Raised (RefineOutlineResponse F)
  unfolding refine_tile
  refine_outline req = do
    _ ← check_pipeline_version req.pipeline_schema_version
    image ← map_err tile_missing (calls.get_bytes req.image_tile_ref)
    size ← map_err tile_unreadable (calls.image_size image)
    if is_degenerate req.image_geo_bounds
        then err (http 422 "image_geo_bounds is degenerate (zero width or height)")
        else refine_tile req image size
