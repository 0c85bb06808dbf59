-- ===== src/Outline/Segmenter.antt =====
-- app/outline/segmenter.py: the choice of the backend, and the call of the Modal function.
use rooftrace.Prelude.{
  ℕ, ◌+◌, ◌*◌, Bool, false, not, ◌||◌, Option, none, some, List, [], ◌∷◌, ◌++◌, map, length,
  get_elem?, ◌==◌, if◌then◌else◌, String, str_eq, Result, ok, err, Raised, value_error, other,
  f_string, map_err, ◌>>=◌,
}
use rooftrace.Storage.{Bytes}
use rooftrace.Boot.Flags.{Env, get, sam2_backend}
use rooftrace.Outline.Masks.{Mask, rows, stub_segmenter}

-- The Modal client: whether it can be imported, and `fn.remote(image_bytes, prior_bytes, height,
-- width)["mask_bytes"]`.
pub record Modal : Type 0 where
  pub importable : Bool
  pub remote : Bytes → Bytes → ℕ → ℕ → Result Raised Bytes

abbrev pub unavailable : String → Raised
unavailable m = other "ModalUnavailable" m

-- The `except` clauses round the call
abbrev pub not_reachable : Raised → Raised
not_reachable (other n m) =
    if str_eq n "NotFoundError"
    then unavailable (f_string ("Modal app/function not deployed: " ∷ m ∷ []))
    else if str_eq n "AuthError" || str_eq n "ConnectionError"
    then unavailable (f_string ("Modal not reachable: " ∷ n ∷ ": " ∷ m ∷ []))
    else other n m
not_reachable e = e

-- `mask.astype(np.uint8).tobytes()`, row by row
abbrev flat : List (List Bool) → Bytes
flat [] = []
flat (row ∷ m) = map (λ b. if b then 1 else 0) row ++ flat m

abbrev is_nonzero : Option ℕ → Bool
is_nonzero none = false
is_nonzero (some b) = not (b == 0)

-- `np.frombuffer(mask_bytes, dtype=np.uint8).reshape(h, w).astype(bool)`
unfoldable pub mask_of_bytes : Bytes → ℕ → ℕ → Result Raised Mask
mask_of_bytes bytes height width =
    if length bytes == height * width
    then ok (record {
      height = height;
      width = width;
      pixel = λ i j. is_nonzero (get_elem? bytes (i * width + j));
    })
    else err (value_error "cannot reshape array")

module _ (env : Env) (modal : Modal) (image_bytes : Bytes) (prior : Mask) where
  unfoldable pub run_modal : Result Raised Mask
  unfolding mask_of_bytes
  run_modal =
      if not modal.importable
      then err (unavailable "modal package not installed")
      else if str_eq (get env "MODAL_TOKEN_ID" "") ""
      then err (unavailable "MODAL_TOKEN_ID not set")
      else map_err not_reachable
          (modal.remote image_bytes (flat (rows prior)) prior.height prior.width)
        >>= λ bytes. mask_of_bytes bytes prior.height prior.width

  -- The mask, and the backend that made it
  unfoldable pub infer_sam2 : Result Raised (Mask × String)
  unfolding run_modal stub_segmenter sam2_backend
  infer_sam2 =
      if str_eq (sam2_backend env) "modal"
      then (run_modal >>= λ mask. ok (mask, "modal"))
      else ok (stub_segmenter prior, "local")
