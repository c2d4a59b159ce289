-- ===== src/Image/Mzmq.antt =====
-- A network stream as a source: `update`, `detach` and `valid` of common/images/mzmqImage.cpp. The
-- thread that receives images writes the pixels, `m_cnt0` and `m_imageTime` between these calls.
pub mod News
mod Tests
use rtimv.Common.{ℕ, Option, none, some, Bool, false, not, ◌&&◌, ◌==◌, if◌then◌else◌}
use rtimv.Image.{age_update, fps_update}
use rtimv.Image.Rate.{FloatOps, Rate, update_fps}
use rtimv.Image.Counters.{Counters, missing, fresh, stale}

pub record Mzmq (F : Type 0) : Type 0 where
  pub timeout : ℕ
  pub has_data : Bool  -- m_data is not null
  pub attached : Bool
  pub cnt0 : ℕ
  pub last_cnt0 : ℕ
  pub counters : Counters
  pub image_time : F
  pub rate : Rate F

-- The branch without pixels.
pub idle : {F : Type 0} → FloatOps F → Mzmq F → Option (Mzmq F × ℕ)
idle o s = elim (missing s.timeout s.counters) [
  | none ↦ none
  | some (c, code) ↦ some (
    record s {
      counters = c;
      rate = if code == age_update then record s.rate { est = o.zero } else s.rate;
    },
    code,
  )
]

-- The branch for a new image.
pub renew : {F : Type 0} → FloatOps F → Mzmq F → Option (Mzmq F × ℕ)
renew o s = elim (fresh s.timeout s.counters) [
  | none ↦ none
  | some (c, code) ↦ some (
    record s {
      last_cnt0 = s.cnt0;
      counters = c;
      rate = if code == fps_update then update_fps o s.image_time s.cnt0 s.rate else s.rate;
    },
    code,
  )
]

-- The branch for an image that was shown.
pub wait : {F : Type 0} → Mzmq F → Option (Mzmq F × ℕ)
wait s = elim (stale s.timeout s.counters) [
  | none ↦ none
  | some (c, code) ↦ some (record s { counters = c }, code)
]

unfoldable pub update : {F : Type 0} → FloatOps F → Mzmq F → Option (Mzmq F × ℕ)
unfolding idle renew wait
update o s =
    if not s.has_data then idle o s else if not (s.cnt0 == s.last_cnt0) then renew o s else wait s

unfoldable pub detach : {F : Type 0} → Mzmq F → Mzmq F
detach s = record s { attached = false; has_data = false; last_cnt0 = 18446744073709551615 }

unfoldable pub valid : {F : Type 0} → Mzmq F → Bool
valid s = s.has_data && s.attached
