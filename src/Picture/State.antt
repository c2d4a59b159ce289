-- ===== src/Picture/State.antt =====
-- The state of a picture: members of rtimvBase in common/rtimvBase.hpp, and the stretches and colour
-- modes of common/rtimvColor.hpp.
use rtimv.Common.{ℕ, ◌+◌, ◌*◌, Option, none, some, Bool, true, false, List, [], ◌∷◌, ◌++◌, u32}
use rtimv.Common.Int.{ℤ}
use rtimv.Box.{Box}
use rtimv.Stats.{Source}
use rtimv.Stats.Refresh.{Monitor}

pub data Stretch : Type 0 where
  linear log pow sqrt square : Stretch

pub data ColorMode : Type 0 where
  minmaxglobal minmaxbox user : ColorMode

-- Where `m_calData` points.
pub data CalData : Type 0 where
  null_data raw_data hp_filtered lp_filtered mtf_image : CalData

-- The indexes of the colour table.
pub record Colors : Type 0 where
  pub min_color : ℤ
  pub max_color : ℤ
  pub nan_color : ℤ
  pub sat_color : ℤ

-- `hp_set`: a filter other than `none` of a width above 0; so for `lp_set`.
pub record Filters : Type 0 where
  pub apply_hp : Bool
  pub apply_lp : Bool
  pub apply_mtf : Bool
  pub hp_set : Bool
  pub lp_set : Bool

pub record StatsBox (F : Type 0) : Type 0 where
  pub enabled : Bool
  pub box : Box
  pub min : F
  pub max : F
  pub mean : F
  pub median : F

-- What the hooks and signals of the class are told.
pub data Told : Type 0 where
  nz_updated : ℕ → Told
  post_set_imsize post_recolor post_change_imdata post_zoom global_stats_updated : Told
  post_colormode : ColorMode → Told

pub record Picture (F : Type 0) : Type 0 where
  pub nx : ℕ
  pub ny : ℕ
  pub nz : ℕ
  pub cal_raw : Option (ℕ → F)  -- m_calDataRaw
  pub cal_data : CalData
  pub hp_image : ℕ → F
  pub lp_image : ℕ → F
  pub mtf : ℕ → F
  pub sat_data : ℕ → ℕ
  pub saturated : ℕ
  pub sat_level : F
  pub qim : Option (ℕ → ℕ → ℤ)  -- m_qim, by column and row
  pub colors : Colors
  pub min_image : F
  pub max_image : F
  pub min_scale : F
  pub max_scale : F
  pub stretch : Stretch
  pub mode : ColorMode
  pub color_box : Box
  pub color_min : F
  pub color_max : F
  pub auto_scale : Bool
  pub subtract_dark : Bool
  pub apply_mask : Bool
  pub apply_sat_mask : Bool
  pub filters : Filters
  pub stats_box : StatsBox F
  pub monitor : Monitor F  -- the global statistics
  pub selection : Source F  -- the mask when they were asked for
  pub told : List Told

abbrev pub is_box : ColorMode → Bool
is_box minmaxbox = true
is_box minmaxglobal = false
is_box user = false

abbrev pub is_user : ColorMode → Bool
is_user user = true
is_user minmaxglobal = false
is_user minmaxbox = false

module _ {F : Type 0} where
  abbrev pub tell : Told → Picture F → Picture F
  tell t p = record p { told = p.told ++ t ∷ [] }

  -- The pixels that `m_calData` points to; `none` is a null pointer.
  abbrev pub shown : Picture F → Option (ℕ → F)
  shown p = elim p.cal_data [
    | null_data ↦ none
    | raw_data ↦ p.cal_raw
    | hp_filtered ↦ some p.hp_image
    | lp_filtered ↦ some p.lp_image
    | mtf_image ↦ some p.mtf
  ]

  -- `calPixel`, whose index is a `uint32_t`.
  abbrev pub pixel_of : Picture F → (ℕ → F) → ℕ → ℕ → F
  pixel_of p pixels x y = pixels (u32 (u32 (y * p.nx) + x))

  abbrev pub with_scale : F → F → Picture F → Picture F
  with_scale low high p = record p { min_scale = low; max_scale = high }
