-- ===== src/Image/Shmim.antt =====
-- A shared memory image as a source: common/images/shmimImage.cpp. What the file system and
-- ImageStreamIO answer, and the metadata that other processes write, are arguments of each call. The
-- pointer into the pixels is modelled by its offset in bytes.
pub mod Watch
pub mod News
mod Tests
use rtimv.Common.{
  ℕ, ◌+◌, ◌-◌, ◌*◌, Option, none, some, Bool, true, false, not, ◌&&◌, ◌||◌, ltb, leb, ◌==◌,
  if◌then◌else◌, is_null,
}
use rtimv.Image.{no_update, age_update, im_update, fps_update}
use rtimv.Image.Rate.{FloatOps, Rate, update_fps}
use rtimv.Image.Counters.{Counters, missing, fresh, stale}

pub record Shmim (F : Type 0) : Type 0 where
  pub inode : ℕ
  pub not_found_logged : Bool
  pub timeout : ℕ
  pub is_open : Bool  -- m_image is opened by ImageStreamIO and not closed
  pub nx : ℕ
  pub ny : ℕ
  pub type_size : ℕ
  pub curr : Option ℕ  -- m_data, as an offset into the pixels
  pub timer_running : Bool
  pub attached : Bool
  pub last_cnt0 : ℕ
  pub counters : Counters
  pub image_time : F
  pub rate : Rate F

-- The metadata of the shared image. `cnt1` is `none` where it is negative.
pub record Metadata (F : Type 0) : Type 0 where
  pub sem : ℕ
  pub width : ℕ
  pub height : ℕ
  pub slices : ℕ
  pub bytes : Option ℕ  -- the size of the data type, if it is a supported one
  pub cnt0 : ℕ
  pub cnt1 : Option ℕ
  pub write_time : F

abbrev pub no_image : ℕ
no_image = 18446744073709551615

-- What `imConnect` is answered: the file can be opened, ImageStreamIO opens it, and its inode.
pub record Attempt (F : Type 0) : Type 0 where
  pub exists_file : Bool
  pub opens : Option (Metadata F)
  pub stat : Option ℕ

abbrev pub unattached : {F : Type 0} → Shmim F → Shmim F
unattached s = record s { curr = none; attached = false }

-- From the metadata on. `none` is the exit on a data type that is not supported.
pub attach : {F : Type 0} → Attempt F → Metadata F → Shmim F → Option (Shmim F)
attach a m s =
    if leb m.sem 1 then some (unattached (record s { is_open = false })) else elim m.bytes [
      | none ↦ none
      | some bytes ↦ some (
          let sized = record s { nx = m.width; ny = m.height; type_size = bytes } in
          elim a.stat [
            | none ↦ unattached (record sized { is_open = false })
            | some inode ↦ record sized { inode = inode; attached = true }
          ])
    ]

unfoldable pub im_connect : {F : Type 0} → Attempt F → Shmim F → Option (Shmim F)
unfolding attach
im_connect a s =
    if not a.exists_file then some (record s { not_found_logged = true }) else elim a.opens [
      | none ↦ some (unattached (record s { not_found_logged = false }))
      | some m ↦ attach a m (record s { not_found_logged = false; is_open = true })
    ]

unfoldable pub shmim_timerout : {F : Type 0} → Attempt F → Shmim F → Option (Shmim F)
unfolding im_connect
shmim_timerout a s = elim (im_connect a (record s { timer_running = false })) [
  | none ↦ none
  | some t ↦ some (if not t.attached then record t { timer_running = true } else t)
]

-- The close of the image, which `detach` and two branches of `update` share.
abbrev pub let_go : {F : Type 0} → Shmim F → Shmim F
let_go s = record s {
  curr = none;
  is_open = false;
  attached = false;
  last_cnt0 = no_image;
  timer_running = true;
}

unfoldable pub detach : {F : Type 0} → Shmim F → Shmim F
detach s = if not s.attached then s else let_go s

-- The slice that was written last.
abbrev pub slice : {F : Type 0} → Metadata F → ℕ
slice m = if ltb 0 m.slices then (elim m.cnt1 [ none ↦ m.slices - 1 | some n ↦ n ]) else 0

-- The branch for a new image.
pub renew : {F : Type 0} → FloatOps F → Metadata F → Shmim F → Option (Shmim F × ℕ)
renew o m s = elim (fresh s.timeout s.counters) [
  | none ↦ none
  | some (c, code) ↦ some (
    record s {
      curr = some (slice m * m.width * m.height * s.type_size);
      image_time = m.write_time;
      last_cnt0 = m.cnt0;
      counters = c;
      rate = if code == fps_update then update_fps o m.write_time m.cnt0 s.rate else s.rate;
    },
    code,
  )
]

-- Two checks: the file is gone, or it is another one. `gone` is a failed `open`, `stat` the inode.
-- After a failed `stat` the image is detached, and the inode that is compared then is not one.
pub recheck : {F : Type 0} → Bool → Option ℕ → Shmim F → Shmim F
unfolding detach
recheck gone stat s =
    let t = if gone then detach s else s in
    elim stat [ none ↦ detach t | some inode ↦ if not (inode == t.inode) then detach t else t ]

-- The branch for an image that was shown.
pub wait : {F : Type 0} → Bool → Option ℕ → Shmim F → Option (Shmim F × ℕ)
unfolding recheck
wait gone stat s = elim (stale s.timeout s.counters) [
  | none ↦ none
  | some (c, code) ↦
      some (record (if code == age_update then recheck gone stat s else s) { counters = c }, code)
]

-- The branch without an image.
pub idle : {F : Type 0} → FloatOps F → Shmim F → Option (Shmim F × ℕ)
idle o s = elim (missing s.timeout s.counters) [
  | none ↦ none
  | some (c, code) ↦ some (
    record s {
      counters = c;
      rate = if code == age_update then record s.rate { est = o.zero } else s.rate;
    },
    code,
  )
]

-- The branches for an attached image.
pub look : {F : Type 0} → FloatOps F → Metadata F → Bool → Option ℕ → Shmim F → Option (Shmim F × ℕ)
unfolding renew wait
look o m gone stat s =
    if m.sem == 0
    then some (let_go s, no_update)
    else if not (m.width == s.nx) || not (m.height == s.ny)
    then some (let_go s, no_update)
    else if not (m.cnt0 == s.last_cnt0)
    then renew o m s
    else wait gone stat s

unfoldable pub update :
    {F : Type 0} → FloatOps F → Metadata F → Bool → Option ℕ → Shmim F → Option (Shmim F × ℕ)
unfolding idle look
update o m gone stat s = if not s.attached then idle o s else look o m gone stat s

unfoldable pub valid : {F : Type 0} → Shmim F → Bool
valid s = s.attached && not (is_null s.curr)
