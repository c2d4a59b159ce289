-- ===== src/Image/Directory.antt =====
-- A directory of FITS files as an image source: common/images/fitsDirectory.cpp. Files are named by
-- numbers, and what cfitsio answers for each is a function of its name. The buffer is modelled by
-- its size in pixels.
pub mod Memory
pub mod Single
pub mod Playback
pub mod Watch
mod Tests
use rtimv.Common.{
  ℕ, ◌*◌, ◌/◌, Option, none, some, Bool, true, false, not, ◌&&◌, ◌||◌, List, ltb, ◌==◌,
  if◌then◌else◌, get_elem?, is_null, length,
}
use rtimv.Common.Int.{ℤ, abs}
use rtimv.Image.{no_update, im_update}
use rtimv.Image.Frames.{u32, set_next, inc_next, dec_next, delta_next}

pub record Directory : Type 0 where
  pub file_list : List ℕ
  pub reported : Bool
  pub last_write_time : ℕ
  pub nx : ℕ
  pub ny : ℕ
  pub frame : ℕ  -- m_imageNo
  pub next_frame : ℕ  -- m_nextImageNo
  pub type_size : ℕ
  pub buffer : Option ℕ  -- m_data: the pixels that are allocated
  pub timer_running : Bool
  pub found : Bool
  pub updated : Bool

-- What the calls of one read answer, in their order. `none` and `false` are an error status.
pub record FrameFile : Type 0 where
  pub opens : Bool
  pub naxis : Option ℕ
  pub bitpix : Option ℤ
  pub naxes : Option (List ℕ)  -- the array of `naxis` sizes
  pub reads : Bool
  pub closes : Bool

-- `fault` is a read past the end of the array of sizes. `status` is what `readImage` returns.
pub data Read : Type 0 where
  fault : Read
  returned : Bool → Directory → Read

abbrev pub report : Directory → Read
report s = returned false (record s { reported = true })

-- The reallocation, and the new sizes. The product of the old ones wraps at 32 bits.
unfoldable pub reshape : ℕ → ℕ → Directory → Directory
reshape x y s = record s {
  buffer = if not (is_null s.buffer) && u32 (s.nx * s.ny) == x * y then s.buffer else some (x * y);
  nx = u32 x;
  ny = u32 y;
}

-- From the reallocation on.
pub load : FrameFile → ℕ → ℕ → Directory → Read
load f x y s =
    let t = reshape x y s in
    if not f.reads || not f.closes then report t else returned true (record t { reported = false })

-- The two sizes that are used, of the first two axes.
pub plane : FrameFile → List ℕ → Directory → Read
unfolding load
plane f naxes s = elim (get_elem? naxes 0) [
  | none ↦ fault
  | some x ↦ elim (get_elem? naxes 1) [ none ↦ fault | some y ↦ load f x y s ]
]

-- From `fits_get_img_type` on.
pub read_header : FrameFile → Directory → Read
unfolding plane
read_header f s = elim f.bitpix [
  | none ↦ report s
  | some b ↦ if abs b / 8 == 0 then report s else elim f.naxes [
    | none ↦ report (record s { type_size = abs b / 8 })
    | some naxes ↦ plane f naxes (record s { type_size = abs b / 8 })
  ]
]

-- The reading of one file.
pub read_file : FrameFile → Directory → Read
unfolding read_header
read_file f s =
    if not f.opens
    then report s
    else elim f.naxis [ none ↦ report s | some naxis ↦ read_header f s ]

-- A number past the end of the list is an error that is not reported.
unfoldable pub read_image : (ℕ → FrameFile) → ℕ → Directory → Read
unfolding read_file
read_image files imno s = elim (get_elem? s.file_list imno) [
  | none ↦ returned false s
  | some path ↦ read_file (files path) s
]

unfoldable pub detach : Directory → Directory
detach s = record s { buffer = none; found = false; timer_running = true }

-- `imConnect`: `listing` is the list that `getFileNames` leaves and whether it succeeded.
unfoldable pub im_connect : Bool → List ℕ → ℕ → Directory → Directory
im_connect listed listing write_time s =
    let t = record s { found = false; updated = false; file_list = listing } in
    if not listed || length listing == 0
    then t
    else record t { frame = 1; next_frame = 0; found = true; last_write_time = write_time }

unfoldable pub image_timerout : Bool → List ℕ → ℕ → Directory → Directory
unfolding im_connect
image_timerout listed listing write_time s =
    let t = im_connect listed listing write_time (record s { timer_running = false }) in
    if t.found then t else record t { timer_running = true }

-- The branch of `update` for a new frame number.
pub advance : (ℕ → FrameFile) → Directory → Option (Directory × ℕ)
unfolding detach
advance files s = elim (read_image files s.next_frame (record s { frame = s.next_frame })) [
  | fault ↦ none
  | returned false t ↦ some (detach t, no_update)
  | returned true t ↦ some (t, im_update)
]

-- `time` is the write time of the directory now. A fault ends the program: `none`.
unfoldable pub update : (ℕ → FrameFile) → ℕ → Directory → Option (Directory × ℕ)
unfolding advance
update files time s =
    if not s.found
    then some (s, no_update)
    else if not (s.last_write_time == time)
    then some (detach s, no_update)
    else if length s.file_list == 1
    then some (s, no_update)
    else if not (s.next_frame == s.frame)
    then advance files s
    else some (s, im_update)

unfoldable pub valid : Directory → Bool
valid s = s.found && not (is_null s.buffer)

-- `nz()`, and the commands that choose the next frame.
abbrev pub nz : Directory → ℕ
nz s = u32 (length s.file_list)

unfoldable pub image_no : ℕ → Directory → Directory
image_no ino s = record s { next_frame = set_next (nz s) ino }

unfoldable pub inc_image_no : Directory → Directory
inc_image_no s = record s { next_frame = inc_next (nz s) s.frame }

unfoldable pub dec_image_no : Directory → Directory
dec_image_no s = record s { next_frame = dec_next (nz s) s.frame }

unfoldable pub delta_image_no : ℤ → Directory → Option Directory
delta_image_no dino s = elim (delta_next (nz s) s.frame s.next_frame dino) [
  | none ↦ none
  | some n ↦ some (record s { next_frame = n })
]
