-- ===== src/Picture/Loading.antt =====
-- The pixels that `mtxUL_changeImdata` of common/rtimvBase.cpp takes over from the images, and the
-- marks of those that are saturated.
use rtimv.Common.{
  ℕ, ◌+◌, ◌*◌, Option, none, some, ◌&&◌, ◌==◌, if◌then◌else◌, u32, ◌>>=◌, pure, for_range,
}
use rtimv.Stats.{Source}
use rtimv.Pixels.{BaseImages, PixelF, pixel_no_cal, evaluate}
use rtimv.Picture.State.{Picture}
use rtimv.Picture.Change.{Setting, Inputs, put_flag}

-- m_calDataRaw, m_satData and m_saturated.
pub record Loaded (F : Type 0) : Type 0 where
  pub values : ℕ → F
  pub flags : ℕ → ℕ
  pub saturated : ℕ

module _ {F D : Type 0} (o : Setting F D) where
  unfoldable pub load_pixel : F → PixelF → BaseImages F → ℕ → Loaded F → Option (Loaded F)
  load_pixel level f s n l = do
    plain ← evaluate o.floats pixel_no_cal s n
    value ← evaluate o.floats f s n
    let hit = o.numbers.at_least plain level
    pure (record {
      values = λ k. (if k == n then value else l.values k);
      flags = put_flag n (if hit then 1 else 0) l.flags;
      saturated = if hit then l.saturated + 1 else l.saturated;
    })

  unfoldable pub load_pixels : F → PixelF → BaseImages F → ℕ → Loaded F → Option (Loaded F)
  load_pixels level f s count l = for_range count 0 (λ n r. r >>= load_pixel level f s n) (some l)

  -- The saturation image adds marks.
  unfoldable pub mark_pixel : Source F → ℕ → Loaded F → Loaded F
  mark_pixel s n l =
      if o.numbers.is_positive (s.pixel n) && l.flags n == 0
      then record l { flags = put_flag n 1 l.flags; saturated = l.saturated + 1 }
      else l

  unfoldable pub mark_pixels : ℕ → ℕ → Option (Source F) → Loaded F → Loaded F
  mark_pixels nx ny none l = l
  mark_pixels nx ny (some s) l =
      if s.is_valid && nx == s.width && ny == s.height
      then for_range (u32 (nx * ny)) 0 (mark_pixel s) l
      else l

  unfoldable pub load_images : PixelF → Inputs F → (ℕ → F) → Picture F → Option (Picture F)
  load_images f s old p = do
    l ←
        load_pixels p.sat_level f s.base (u32 (p.nx * p.ny))
          (record { values = old; flags = p.sat_data; saturated = 0 })
    let m = mark_pixels p.nx p.ny s.saturation l
    pure (record p { cal_raw = some m.values; sat_data = m.flags; saturated = m.saturated })
