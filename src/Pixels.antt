-- ===== src/Pixels.antt =====
-- Which pixels are shown: `rawPixel` of common/rtimvBase.cpp with the functions that it chooses from, and
-- the handler GetPixel of server/rtimvServer.cpp. `F` is float, with its operations.
pub mod Choice
mod Tests
use rtimv.Common.{
  ℕ, ◌+◌, ◌-◌, ◌*◌, Option, none, some, Bool, true, false, not, ◌&&◌, ◌||◌, ◌==◌, if◌then◌else◌,
  ltb, u32, ◌>>=◌, pure,
}
use rtimv.Stats.{Source}

-- The image, the dark and the mask; a null pointer is `none`.
pub record BaseImages (F : Type 0) : Type 0 where
  pub image : Option (Source F)
  pub dark : Option (Source F)
  pub mask : Option (Source F)

pub record PixelFloat (F : Type 0) : Type 0 where
  pub minus : F → F → F
  pub times : F → F → F

-- pixel_noCal, pixel_subDark, pixel_applyMask and pixel_subDarkApplyMask
pub data PixelF : Type 0 where
  pixel_no_cal pixel_sub_dark pixel_apply_mask pixel_sub_dark_apply_mask : PixelF

module _ {F : Type 0} where
  abbrev pub same_size : Source F → Source F → Bool
  same_size a b = a.width == b.width && a.height == b.height

  -- Only the dark is wanted.
  unfoldable pub with_dark : Source F → Option (Source F) → PixelF
  with_dark i none = pixel_no_cal
  with_dark i (some d) =
      if not (same_size d i)
      then pixel_no_cal
      else if i.is_valid && d.is_valid
      then pixel_sub_dark
      else pixel_no_cal

  -- Only the mask is wanted.
  unfoldable pub with_mask : Source F → Option (Source F) → PixelF
  with_mask i none = pixel_no_cal
  with_mask i (some m) =
      if not (same_size m i)
      then pixel_no_cal
      else if i.is_valid && m.is_valid
      then pixel_apply_mask
      else pixel_no_cal

  unfoldable pub with_both : Source F → Option (Source F) → Option (Source F) → PixelF
  with_both i none none = pixel_no_cal
  with_both i (some d) none =
      if not (same_size d i)
      then pixel_no_cal
      else if d.is_valid
      then pixel_sub_dark
      else pixel_no_cal
  with_both i none (some m) =
      if not (same_size m i)
      then pixel_no_cal
      else if m.is_valid
      then pixel_apply_mask
      else pixel_no_cal
  with_both i (some d) (some m) =
      if not (same_size d i)
      then pixel_no_cal
      else if not (same_size m i)
      then pixel_no_cal
      else if d.is_valid && m.is_valid
      then pixel_sub_dark_apply_mask
      else pixel_no_cal

  -- `rawPixel`; `none` is a null function.
  unfoldable pub raw_pixel : Bool → Bool → BaseImages F → Option PixelF
  unfolding with_dark with_mask with_both
  raw_pixel subtract_dark apply_mask s = elim s.image [
    | none ↦ none
    | some i ↦
        if not i.is_valid
        then none
        else if subtract_dark && not apply_mask
        then some (with_dark i s.dark)
        else if not subtract_dark && apply_mask
        then some (with_mask i s.mask)
        else if subtract_dark && apply_mask
        then some (with_both i s.dark s.mask)
        else some pixel_no_cal
  ]

  -- The pixel at an index; `none` is the use of a null pointer.
  abbrev pub pixel_at : Option (Source F) → ℕ → Option F
  pixel_at none n = none
  pixel_at (some s) n = some (s.pixel n)

  unfoldable pub evaluate : PixelFloat F → PixelF → BaseImages F → ℕ → Option F
  evaluate o pixel_no_cal s n = pixel_at s.image n
  evaluate o pixel_sub_dark s n = do
    a ← pixel_at s.image n
    d ← pixel_at s.dark n
    pure (o.minus a d)
  evaluate o pixel_apply_mask s n = do
    a ← pixel_at s.image n
    m ← pixel_at s.mask n
    pure (o.times a m)
  evaluate o pixel_sub_dark_apply_mask s n = do
    a ← pixel_at s.image n
    d ← pixel_at s.dark n
    m ← pixel_at s.mask n
    pure (o.times (o.minus a d) m)

-- The guard of GetPixel and the index of `calPixel`, in `uint32_t`; `none` is an answer that is not valid.
unfoldable pub get_pixel : Bool → ℕ → ℕ → ℕ → ℕ → Option ℕ
get_pixel connected nx ny x y =
    if not connected
    then none
    else if ltb (u32 (nx + 4294967295)) x || ltb (u32 (ny + 4294967295)) y
    then none
    else some (u32 (u32 (y * nx) + x))
