-- ===== src/Lidar/Crs.antt =====
-- app/lidar/crs.py: the UTM zone of a building. The texts of its errors leave the number out.
use rooftrace.Prelude.{
  ℕ, ◌+◌, not, ◌&&◌, ltb, if◌then◌else◌, Result, ok, Raised, value_error, raise_if, ◌>>=◌,
}
use rooftrace.Float.{Float, nought, ◌⊕◌}

module _ {F : Type 0} ⦃fl : Float F⦄ where
  open fl use {num, le}

  -- `min(max(int((lon + 180.0) // 6.0) + 1, 1), 60)`
  unfoldable pub clamped_zone : F → ℕ
  clamped_zone lon =
      let zone = fl.int_of (fl.floordiv (lon ⊕ num 180 0) (num 6 0)) + 1 in
      let raised = (if ltb zone 1 then 1 else zone) in if ltb 60 raised then 60 else raised

  unfoldable pub utm_epsg_for : F → F → Result Raised ℕ
  unfolding clamped_zone
  utm_epsg_for lon lat = do
    _ ←
        raise_if (not (le (fl.neg (num 180 0)) lon && le lon (num 180 0)))
          (value_error "lon out of range")
    _ ←
        raise_if (not (le (fl.neg (num 90 0)) lat && le lat (num 90 0)))
          (value_error "lat out of range")
    ok ((if le nought lat then 32600 else 32700) + clamped_zone lon)
