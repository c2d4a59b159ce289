-- ===== src/Image/Fits.antt =====
-- A FITS file as an image source: common/images/fitsImage.cpp. The buffer is modelled by its size,
-- and the pointer into it by its offset, both in pixels; what cfitsio and the file system answer
-- is an argument of each call that asks them.
pub mod Memory
pub mod Playback
pub mod Faults
pub mod Watch
mod Tests
mod Reformats
use rtimv.Common.{
  ℕ, ◌+◌, ◌*◌, ◌/◌, ◌%◌, Option, none, some, Bool, true, false, not, ◌&&◌, ◌||◌, List, ltb, ◌==◌,
  if◌then◌else◌, get_elem?, is_null,
}
use rtimv.Common.Int.{ℤ, abs}
use rtimv.Image.{no_update, im_update}
use rtimv.Image.Frames.{u32, set_next, inc_next, dec_next, delta_next}

pub record Fits : Type 0 where
  pub reported : ℕ
  pub last_write_time : ℕ
  pub nx : ℕ
  pub ny : ℕ
  pub nz : ℕ
  pub frame : ℕ  -- m_imageNo
  pub next_frame : ℕ  -- m_nextImageNo
  pub type_size : ℕ
  pub buffer : Option ℕ  -- m_data: the pixels that are allocated
  pub curr : Option ℕ  -- m_currData, as an offset into m_data
  pub timer_running : Bool
  pub found : Bool
  pub updated : Bool

-- What the calls of one read answer, in their order. `none` and `false` are an error status.
pub record FitsFile : Type 0 where
  pub opens : Bool
  pub reopens : Bool
  pub naxis : Option ℕ
  pub bitpix : Option ℤ
  pub naxes : Option (List ℕ)  -- the array of `naxis` sizes
  pub reads : Bool
  pub closes : Bool

-- `fault` is a read past the end of the array of sizes.
pub data ReadResult : Type 0 where
  fault : ReadResult
  failed : Fits → ReadResult
  finished : Fits → ReadResult

abbrev pub fail : Fits → ReadResult
fail s = failed (record s { reported = s.reported + 1 })

-- The number of frames: the third size if there is one, and at least 1.
pub depth : ℕ → List ℕ → Option ℕ
depth naxis naxes =
    if ltb 2 naxis
    then elim (get_elem? naxes 2) [ none ↦ none | some n ↦ some (if ltb n 1 then 1 else n) ]
    else some 1

-- The reallocation, and the new sizes. The product of the old ones wraps at 32 bits.
unfoldable pub resize : ℕ → ℕ → ℕ → Fits → Fits
resize x y z s =
    let fits = not (is_null s.buffer) && u32 (s.nx * s.ny * s.nz) == x * y * z in
    record s {
      buffer = if fits then s.buffer else some (x * y * z);
      curr = if fits then s.curr else some 0;
      nx = u32 x;
      ny = u32 y;
      nz = u32 z;
    }

-- From the reallocation on: the pixels are read, and the file is closed.
pub read_pixels : FitsFile → ℕ → ℕ → ℕ → Fits → ReadResult
read_pixels f x y z s =
    let t = resize x y z s in
    if not f.reads || not f.closes then fail t else finished (record t { reported = 0 })

-- The three sizes, in the order of their use. `none` is a read past the end of the array.
pub extents : ℕ → List ℕ → Option (ℕ × ℕ × ℕ)
unfolding depth
extents naxis naxes = elim (depth naxis naxes) [
  | none ↦ none
  | some z ↦ elim (get_elem? naxes 0) [
    | none ↦ none
    | some x ↦ elim (get_elem? naxes 1) [ none ↦ none | some y ↦ some (x, y, z) ]
  ]
]

pub read_axes : FitsFile → ℕ → List ℕ → Fits → ReadResult
read_axes f naxis naxes s = elim (extents naxis naxes) [
  | none ↦ fault
  | some (x, y, z) ↦ read_pixels f x y z s
]

-- From `fits_get_img_size` on.
pub read_sizes : FitsFile → ℕ → Fits → ReadResult
read_sizes f naxis s = elim f.naxes [ none ↦ fail s | some naxes ↦ read_axes f naxis naxes s ]

-- From `fits_get_img_type` on.
pub read_type : FitsFile → ℕ → Fits → ReadResult
read_type f naxis s = elim f.bitpix [
  | none ↦ fail s
  | some b ↦
      if abs b / 8 == 0 then fail s else read_sizes f naxis (record s { type_size = abs b / 8 })
]

unfoldable pub read_image : FitsFile → Fits → ReadResult
unfolding read_type read_sizes read_axes read_pixels extents
read_image f s =
    if not f.opens && not f.reopens
    then fail s
    else elim f.naxis [ none ↦ fail s | some naxis ↦ read_type f naxis s ]

unfoldable pub detach : Fits → Fits
detach s = record s {
  buffer = none;
  curr = if is_null s.buffer then s.curr else none;
  found = false;
  timer_running = true;
}

-- `imConnect`. A fault ends the program: `none`.
unfoldable pub im_connect : FitsFile → ℕ → Fits → Option Fits
im_connect f write_time s = elim (read_image f (record s { found = false; updated = false })) [
  | fault ↦ none
  | failed t ↦ some t
  | finished t ↦ some (record t { found = true; last_write_time = write_time })
]

unfoldable pub image_timerout : FitsFile → ℕ → Fits → Option Fits
unfolding im_connect
image_timerout f write_time s =
    elim (im_connect f write_time (record s { timer_running = false })) [
      | none ↦ none
      | some t ↦ some (if t.found then t else record t { timer_running = true })
    ]

-- The branch of `update` for a file that was written again. The write time is asked once more.
pub reread : FitsFile → ℕ → Fits → Option (Fits × ℕ)
unfolding detach
reread f after s = elim (read_image f s) [
  | fault ↦ none
  | failed t ↦ some (detach t, no_update)
  | finished t ↦ some (record t { last_write_time = after }, im_update)
]

-- The branch for a new frame number.
pub move : Fits → Fits
move s = record s { frame = s.next_frame; curr = some (u32 (s.next_frame * s.nx * s.ny)) }

unfoldable pub update : FitsFile → ℕ → ℕ → Fits → Option (Fits × ℕ)
unfolding reread move
update f before after s =
    if not s.found
    then some (s, no_update)
    else if not s.updated
    then some (record s { updated = true }, im_update)
    else if not (s.last_write_time == before)
    then reread f after s
    else if not (s.next_frame == s.frame)
    then some (move s, im_update)
    else some (s, no_update)

unfoldable pub valid : Fits → Bool
valid s = s.found && not (is_null s.buffer)

-- The commands that choose the next frame.
unfoldable pub image_no : ℕ → Fits → Fits
image_no ino s = record s { next_frame = set_next s.nz ino }

unfoldable pub inc_image_no : Fits → Fits
inc_image_no s = record s { next_frame = inc_next s.nz s.frame }

unfoldable pub dec_image_no : Fits → Fits
dec_image_no s = record s { next_frame = dec_next s.nz s.frame }

unfoldable pub delta_image_no : ℤ → Fits → Option Fits
delta_image_no dino s = elim (delta_next s.nz s.frame s.next_frame dino) [
  | none ↦ none
  | some n ↦ some (record s { next_frame = n })
]
