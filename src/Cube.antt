-- ===== src/Cube.antt =====
-- The timers of src/common/rtimvBase.cpp that read images and step through the planes of a cube:
-- `setCurrImageTimeout`, the settings that call it, `startup` and `realTimeStopped`. Intervals are in
-- milliseconds; `none` is a timer that is stopped. Float is a parameter.
pub mod Timers
pub mod Updates
mod Tests
use rtimv.Common.{
  ℕ, ◌+◌, ◌*◌, Option, none, some, Bool, true, false, ◌||◌, List, [], ◌∷◌, ◌++◌, leb, if◌then◌else◌,
}
use rtimv.Common.Int.{ℤ, pos, negsuc, pos_part, neg_part, sub_ℕ, leb_ℤ, is_equal_ℤ}

pub record Pacing (F : Type 0) : Type 0 where
  pub nought : F
  pub is_negative : F → Bool
  pub at_most_nought : F → Bool
  pub interval : F → F → ℤ  -- `round( 1000. / ( fps * mult ) )`
  pub rate : ℤ → F → F  -- `( 1000.0 / timeout ) / mult`
  pub multiple : ℤ → ℤ → ℤ  -- `round( ( 1.0 * a ) / b )`

pub data CubeSignal (F : Type 0) : Type 0 where
  cube_fps_updated : F → F → CubeSignal F
  cube_mode_updated : Bool → CubeSignal F
  cube_fps_mult_updated : F → CubeSignal F
  cube_dir_updated : ℤ → CubeSignal F

pub record Cube (F : Type 0) : Type 0 where
  pub nz : ℕ
  pub image_timeout : ℤ
  pub current : ℤ  -- m_currImageTimeout
  pub mode : Bool
  pub fps : F
  pub desired : F
  pub mult : F
  pub dir : ℤ
  pub is_stopped : Bool  -- m_realTimeStopped
  pub image_timer : Option ℤ
  pub cube_timer : Option ℤ
  pub frame_timer : Option ℤ
  pub sources : List (Option ℤ)  -- the interval each was told; `none` is a null pointer
  pub signals : List (CubeSignal F)  -- oldest first

pub record Pace (F : Type 0) : Type 0 where
  pub cube : ℤ
  pub fps : F
  pub image : ℤ

-- Products of `int`; those of the code are small.
abbrev pub int_product : ℤ → ℤ → ℤ
int_product a b =
    sub_ℕ (pos_part a * pos_part b + neg_part a * neg_part b)
      (pos_part a * neg_part b + neg_part a * pos_part b)

abbrev pub positive_of : ℤ → ℤ
positive_of a = if leb_ℤ a (pos 0) then pos 1 else a

-- A source is told the interval, if there is one.
abbrev pub told_sources : ℤ → List (Option ℤ) → List (Option ℤ)
told_sources c [] = []
told_sources c (none ∷ ss) = none ∷ told_sources c ss
told_sources c (some t ∷ ss) = some c ∷ told_sources c ss

module _ {F : Type 0} (o : Pacing F) where
  abbrev pub report_rate : F → Cube F → Cube F
  report_rate fps s = record s {
    fps = fps;
    signals = s.signals ++ cube_fps_updated fps s.desired ∷ [];
  }

  -- There is no cube, or no rate is wanted.
  abbrev pub halted : Cube F → Bool
  halted s = o.at_most_nought s.desired || leb s.nz 1

  abbrev pub halt : Cube F → Cube F
  halt s =
      report_rate o.nought
        (record s { cube_timer = none; frame_timer = if leb s.nz 1 then none else some (pos 250) })

  -- The interval of the cube is that of the rate wanted, if images can be read that often, and about
  -- a multiple of the interval of images if not.
  unfoldable pub pace : Cube F → Pace F
  pace s =
      let wish = positive_of (o.interval s.desired s.mult) in
      if leb_ℤ wish s.image_timeout
      then record { cube = wish; fps = o.rate wish s.mult; image = wish }
      else (let f = positive_of (o.multiple wish s.image_timeout) in
          let fps = o.rate (int_product f s.image_timeout) s.mult in
          record { cube = o.interval fps s.mult; fps = fps; image = s.image_timeout })

  abbrev pub play : Pace F → Cube F → Cube F
  play p s =
      if s.mode
      then report_rate p.fps (record s { cube_timer = some p.cube; frame_timer = some (pos 250) })
      else report_rate o.nought (record s { cube_timer = none })

  -- The timer of images is not restarted if its interval is the current one.
  unfoldable pub take_interval : ℤ → Cube F → Cube F
  take_interval c s =
      if is_equal_ℤ c s.current
      then s
      else record s { current = c; sources = told_sources c s.sources; image_timer = some c }

  unfoldable pub set_curr_image_timeout : Cube F → Cube F
  unfolding pace take_interval
  set_curr_image_timeout s =
      if halted s
      then take_interval s.image_timeout (halt s)
      else take_interval (pace s).image (play (pace s) s)

  unfoldable pub set_image_timeout : ℤ → Cube F → Cube F
  set_image_timeout t s = set_curr_image_timeout (record s { image_timeout = t })

  abbrev pub signal : CubeSignal F → Cube F → Cube F
  signal e s = record s { signals = s.signals ++ e ∷ [] }

  unfoldable pub set_cube_mode : Bool → Cube F → Cube F
  set_cube_mode b s = signal (cube_mode_updated b) (set_curr_image_timeout (record s { mode = b }))

  unfoldable pub set_cube_fps : F → Cube F → Cube F
  set_cube_fps v s =
      let t =
        set_curr_image_timeout (record s { desired = if o.is_negative v then o.nought else v }) in
      signal (cube_fps_updated t.fps t.desired) t

  unfoldable pub set_cube_fps_mult : F → Cube F → Cube F
  set_cube_fps_mult v s =
      signal (cube_fps_mult_updated v) (set_curr_image_timeout (record s { mult = v }))

  unfoldable pub set_cube_dir : ℤ → Cube F → Cube F
  set_cube_dir d s = signal (cube_dir_updated d) (record s { dir = d })

  unfoldable pub startup : Cube F → Cube F
  startup s = record s { image_timer = some s.image_timeout }

  unfoldable pub real_time_stopped : Bool → Cube F → Cube F
  real_time_stopped b s = record s {
    is_stopped = b;
    image_timer = if b then none else some s.image_timeout;
  }
