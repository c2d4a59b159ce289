-- ===== src/Image/Rate.antt =====
-- The estimate of frames per second: `update_fps` of common/images/shmimImage.cpp and mzmqImage.cpp,
-- the same code twice. Floating-point numbers are a type `F` with the operations that are used.
use rtimv.Common.{ℕ, ◌+◌, ◌-◌, ◌%◌, Bool, not, if◌then◌else◌}

pub record FloatOps (F : Type 0) : Type 0 where
  pub zero : F
  pub same : F → F → Bool  -- ==
  pub minus : F → F → F
  pub below_nano : F → Bool  -- x < 1e-9
  pub per : ℕ → F → F  -- a count, as a float, over a time

pub record Rate (F : Type 0) : Type 0 where
  pub time0 : F  -- m_fpsTime0
  pub frame0 : ℕ  -- m_fpsFrame0
  pub est : F  -- m_fpsEst

-- `m_cnt0 - m_fpsFrame0` on `uint64_t`.
abbrev pub frames_since : ℕ → ℕ → ℕ
frames_since cnt0 frame0 = (cnt0 + 18446744073709551616 - frame0) % 18446744073709551616

-- The reference time and frame, set on the first call.
abbrev pub referenced : {F : Type 0} → FloatOps F → F → ℕ → Rate F → Rate F
referenced o image_time cnt0 r =
    if o.same r.time0 o.zero then record r { time0 = image_time; frame0 = cnt0 } else r

abbrev pub estimated : {F : Type 0} → FloatOps F → F → ℕ → Rate F → Rate F
estimated o image_time cnt0 r =
    if not (o.same image_time r.time0)
    then (if o.below_nano (o.minus image_time r.time0) then r else record {
      time0 = image_time;
      frame0 = cnt0;
      est = o.per (frames_since cnt0 r.frame0) (o.minus image_time r.time0);
    })
    else r

abbrev pub update_fps : {F : Type 0} → FloatOps F → F → ℕ → Rate F → Rate F
update_fps o image_time cnt0 r = estimated o image_time cnt0 (referenced o image_time cnt0 r)
