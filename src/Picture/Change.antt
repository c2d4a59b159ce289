-- ===== src/Picture/Change.antt =====
-- A new image, or new settings: `mtxL_setImsize`, `mtxL_applyFilter`, `mtxL_snapshotGlobalStats` and
-- `mtxUL_changeImdata` of common/rtimvBase.cpp. The two locks make the function one step.
use rtimv.Common.{ℕ, Option, none, some, Bool, false, not, ◌&&◌, ◌||◌, ◌==◌, if◌then◌else◌, is_null}
use rtimv.Common.Int.{ℤ}
use rtimv.Stats.{Source}
use rtimv.Pixels.{BaseImages, PixelFloat}
use rtimv.Picture.{Numbers}
use rtimv.Picture.State.{
  Picture, raw_data, hp_filtered, lp_filtered, mtf_image, shown, tell, nz_updated, post_set_imsize,
}
use rtimv.Picture.Coloring.{Scaling}

-- What is in new memory.
pub record Fresh (F : Type 0) : Type 0 where
  pub values : ℕ → F
  pub flags : ℕ → ℕ
  pub colors : ℕ → ℕ → ℤ

-- The filters of common/rtimvFilters.cpp.
pub record FilterWork (F : Type 0) : Type 0 where
  pub high_pass : (ℕ → F) → ℕ → F
  pub low_pass : (ℕ → F) → ℕ → F
  pub transfer_function : (ℕ → F) → ℕ → F

-- All that the pictures of one program share.
pub record Setting (F D : Type 0) : Type 0 where
  pub numbers : Numbers F D
  pub scaling : Scaling F
  pub floats : PixelFloat F
  pub work : FilterWork F

-- m_images: the image, the dark and the mask, and the saturation mask.
pub record Inputs (F : Type 0) : Type 0 where
  pub base : BaseImages F
  pub saturation : Option (Source F)

abbrev pub at_least_one : ℕ → ℕ
at_least_one n = if n == 0 then 1 else n

abbrev pub put_flag : ℕ → ℕ → (ℕ → ℕ) → ℕ → ℕ
put_flag n v f k = if k == n then v else f k

module _ {F : Type 0} where
  unfoldable pub set_imsize : Fresh F → ℕ → ℕ → ℕ → Picture F → Picture F
  set_imsize new x y z p =
      let q = tell (nz_updated (at_least_one z)) (record p { nz = at_least_one z }) in
      if not (p.nx == at_least_one x)
        || not (p.ny == at_least_one y)
        || is_null p.cal_raw
        || is_null p.qim
      then tell post_set_imsize (record q {
        nx = at_least_one x;
        ny = at_least_one y;
        cal_raw = some new.values;
        cal_data = raw_data;
        sat_data = new.flags;
        qim = some new.colors;
      })
      else q

  -- `imageValid`
  abbrev pub is_valid_source : Option (Source F) → Bool
  is_valid_source none = false
  is_valid_source (some s) = s.is_valid

  -- After the test that some filter is to be applied.
  unfoldable pub apply_filter : FilterWork F → (ℕ → F) → Picture F → Picture F
  apply_filter w raw p =
      let hp = p.filters.apply_hp && p.filters.hp_set in
      let lp = p.filters.apply_lp && p.filters.lp_set in
      let q =
        if hp
        then if lp
          then record p {
            hp_image = w.high_pass raw;
            lp_image = w.low_pass (w.high_pass raw);
            cal_data = lp_filtered;
          }
          else record p { hp_image = w.high_pass raw; cal_data = hp_filtered }
        else if lp
        then record p { lp_image = w.low_pass raw; cal_data = lp_filtered }
        else record p { cal_data = raw_data } in
      if p.filters.apply_mtf
      then elim (shown q) [
        | none ↦ q
        | some pixels ↦ record q { mtf = w.transfer_function pixels; cal_data = mtf_image }
      ]
      else q

  unfoldable pub filtered : FilterWork F → (ℕ → F) → Picture F → Picture F
  filtered w raw p =
      if p.filters.apply_hp || p.filters.apply_lp || p.filters.apply_mtf
      then apply_filter w raw p
      else record p { cal_data = raw_data }
