-- ===== src/Image/Counters.antt =====
-- The counters of `update` in common/images/shmimImage.cpp and mzmqImage.cpp, which decide when the
-- age of an image and the rate of images are reported. `t` is the time between updates,
-- `m_timeout`; a division by zero is `none`.
pub mod Bounds
pub mod Rhythm
pub mod Codes
mod Tests
use rtimv.Common.{ℕ, ◌+◌, ◌/◌, Option, none, some, ltb, ◌==◌, if◌then◌else◌}
use rtimv.Image.{no_update, age_update, im_update, fps_update}

pub record Counters : Type 0 where
  pub age : ℕ
  pub fps : ℕ

-- The branch without an image. The code `age_update` also resets the estimate.
unfoldable pub missing : ℕ → Counters → Option (Counters × ℕ)
missing t c =
    if t == 0
    then none
    else if ltb (1000 / t) c.age
    then some (record { age = 0; fps = 0 }, age_update)
    else some (record c { age = c.age + 1 }, no_update)

-- The branch for a new image. The code `fps_update` also updates the estimate.
unfoldable pub fresh : ℕ → Counters → Option (Counters × ℕ)
fresh t c =
    if t == 0
    then none
    else if ltb (1000 / t) c.fps
    then some (record { age = 0; fps = 0 }, fps_update)
    else some (record { age = 0; fps = c.fps + 1 }, im_update)

-- The branch for an image that was shown.
unfoldable pub stale : ℕ → Counters → Option (Counters × ℕ)
stale t c =
    if t == 0
    then none
    else if ltb (250 / t) c.age
    then some (record { age = 0; fps = 1000 / t + 1 }, age_update)
    else some (record { age = c.age + 1; fps = c.fps + 1 }, no_update)
