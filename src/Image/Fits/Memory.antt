-- ===== src/Image/Fits/Memory.antt =====
-- No read or write of pixels leaves the buffer, as long as the file keeps the size of its frames.
use rtimv.Common.{
  ℕ, ◌+◌, ◌*◌, ◌≤◌, ◌<◌, ◌≡◌, Option, none, some, arith, Bool-cases, inl, inr, List, not, is_null,
  ◌==◌, if◌then◌else◌, ◌&&◌, ◌||◌, Option-cases, if_both, ◌/◌,
}
use rtimv.Common.Int.{abs}
use rtimv.Image.Frames.{u32}
use rtimv.Image.Fits.{
  Fits, FitsFile, ReadResult, fault, failed, finished, resize, extents, read_pixels, read_axes,
  read_sizes, read_type, read_image, detach, update, reread, move,
}
use rtimv.Image.{no_update, im_update}

-- The pixels of the current frame lie in the buffer, and so do those of the whole cube.
abbrev Room : Option ℕ → Option ℕ → ℕ → ℕ → Type 0
Room none curr plane total = Unit
Room (some n) none plane total = ⊥
Room (some n) (some c) plane total = (total ≤ n) × (c + plane ≤ n)

pub record IsSafe (s : Fits) : Type 0 where
  pub room : Room s.buffer s.curr (s.nx * s.ny) (s.nx * s.ny * s.nz)

-- The sizes of a file fit 32 bits, and if they reuse the buffer, then no frame has grown.
abbrev pub KeepsFrame : Fits → ℕ → ℕ → ℕ → Type 0
KeepsFrame s x y z =
    (x < 4294967296)
    × (y < 4294967296)
    × (z < 4294967296)
    × (u32 (s.nx * s.ny * s.nz) ≡ x * y * z → x * y ≤ s.nx * s.ny)

abbrev pub KeepsAxes : FitsFile → ℕ → Fits → Type 0
KeepsAxes f naxis s =
    (naxes : List ℕ) (x y z : ℕ)
    → f.naxes ≡ some naxes
    → extents naxis naxes ≡ some (x, y, z)
    → KeepsFrame s x y z

abbrev pub FileKeepsFrame : FitsFile → Fits → Type 0
FileKeepsFrame f s = (naxis : ℕ) → f.naxis ≡ some naxis → KeepsAxes f naxis s

-- After the reallocation the pixels that are read fit the buffer, and so does the current frame.
resize-Room :
    (x y z nx ny nz : ℕ) (buffer curr : Option ℕ)
    → Room buffer curr (nx * ny) (nx * ny * nz)
    → x * y ≤ x * y * z
    → (u32 (nx * ny * nz) ≡ x * y * z → x * y ≤ nx * ny)
    → (let fits = not (is_null buffer) && u32 (nx * ny * nz) == x * y * z in
        Room
          (if fits then buffer else some (x * y * z))
          (if fits then curr else some 0)
          (x * y)
          (x * y * z))
resize-Room x y z nx ny nz none curr r h k = ground arith
resize-Room x y z nx ny nz (some n) none r h k = elim r [ ]
resize-Room x y z nx ny nz (some n) (some c) r h k = ground arith

u32_small : (n : ℕ) → n < 4294967296 → u32 n ≡ n
u32_small n h = omega arith

product-le : (x y z : ℕ) → 0 < z → x * y ≤ x * y * z
product-le x y z h = grind arith

resize-IsSafe :
    (x y z : ℕ) (s : Fits) → IsSafe s → 0 < z → KeepsFrame s x y z → IsSafe (resize x y z s)
unfolding resize
resize-IsSafe x y z s v h k = record {
  room =
      rw (u32_small x k.0, u32_small y k.1, u32_small z k.2)
        (resize-Room x y z s.nx s.ny s.nz s.buffer s.curr v.room (product-le x y z h) k.3);
}

-- Of a read that is no fault, the state that it leaves.
abbrev Leaves : (Fits → Type 0) → ReadResult → Type 0
Leaves P fault = Unit
Leaves P (failed t) = P t
Leaves P (finished t) = P t

extents_pos :
    (naxis : ℕ) (naxes : List ℕ) (x y z : ℕ) → extents naxis naxes ≡ some (x, y, z) → 0 < z
unfolding extents
extents_pos naxis naxes x y z e = ground arith

read_pixels-IsSafe :
    (f : FitsFile) (x y z : ℕ) (s : Fits)
    → IsSafe (resize x y z s)
    → Leaves IsSafe (read_pixels f x y z s)
unfolding read_pixels
read_pixels-IsSafe f x y z s v = elim (Bool-cases (not f.reads || not f.closes)) [
  | inl e ↦ rw e (record { room = v.room })
  | inr e ↦ rw e (record { room = v.room })
]

read_axes-IsSafe :
    (f : FitsFile) (naxis : ℕ) (naxes : List ℕ) (s : Fits)
    → IsSafe s
    → ((x y z : ℕ) → extents naxis naxes ≡ some (x, y, z) → KeepsFrame s x y z)
    → Leaves IsSafe (read_axes f naxis naxes s)
unfolding read_axes
read_axes-IsSafe f naxis naxes s v k = elim (Option-cases (extents naxis naxes)) [
  | inl e ↦ rw (e, read_axes) tt
  | inr (r, e) ↦
      rw (e, read_axes)
        (read_pixels-IsSafe f r.0 r.1 r.2 s
          (resize-IsSafe r.0 r.1 r.2 s v (extents_pos naxis naxes r.0 r.1 r.2 e) (k r.0 r.1 r.2 e)))
]

read_sizes-IsSafe :
    (f : FitsFile) (naxis : ℕ) (s : Fits)
    → IsSafe s
    → KeepsAxes f naxis s
    → Leaves IsSafe (read_sizes f naxis s)
unfolding read_sizes
read_sizes-IsSafe f naxis s v k = elim (Option-cases f.naxes) [
  | inl e ↦ rw (e, read_sizes) (record { room = v.room })
  | inr (naxes, e) ↦
      rw (e, read_sizes) (read_axes-IsSafe f naxis naxes s v (λ x y z. k naxes x y z e))
]

read_type-IsSafe :
    (f : FitsFile) (naxis : ℕ) (s : Fits)
    → IsSafe s
    → KeepsAxes f naxis s
    → Leaves IsSafe (read_type f naxis s)
unfolding read_type
read_type-IsSafe f naxis s v k = elim (Option-cases f.bitpix) [
  | inl e ↦ rw (e, read_type) (record { room = v.room })
  | inr (b, e) ↦
      rw (e, read_type)
        (elim (Bool-cases (abs b / 8 == 0)) [
          | inl z ↦ rw z (record { room = v.room })
          | inr z ↦ rw z (read_sizes-IsSafe f naxis _ (record { room = v.room }) k)
        ])
]

-- A read that finishes or fails leaves the pixels within the buffer.
pub read_image-IsSafe :
    (f : FitsFile) (s : Fits) → IsSafe s → FileKeepsFrame f s → Leaves IsSafe (read_image f s)
unfolding read_image
read_image-IsSafe f s v k = elim (Bool-cases (not f.opens && not f.reopens)) [
  | inl e ↦ rw e (record { room = v.room })
  | inr e ↦ rw e (elim (Option-cases f.naxis) [
    | inl z ↦ rw (z, read_image) (record { room = v.room })
    | inr (naxis, z) ↦ rw (z, read_image) (read_type-IsSafe f naxis s v (k naxis z))
  ])
]

-- Of a call that does not end the program, the state that it leaves.
abbrev pub Ends : (Fits → Type 0) → Option (Fits × ℕ) → Type 0
Ends P none = Unit
Ends P (some (t, code)) = P t

reread-cases :
    (r : ReadResult) (after : ℕ)
    → Leaves IsSafe r
    → Ends IsSafe (elim r [
      | fault ↦ none
      | failed t ↦ some (detach t, no_update)
      | finished t ↦ some (record t { last_write_time = after }, im_update)
    ])
unfolding detach
reread-cases fault after v = tt
reread-cases (failed t) after v = record { room = tt }
reread-cases (finished t) after v = record { room = v.room }

reread-IsSafe :
    (f : FitsFile) (after : ℕ) (s : Fits)
    → IsSafe s
    → FileKeepsFrame f s
    → Ends IsSafe (reread f after s)
unfolding reread
reread-IsSafe f after s v k = reread-cases (read_image f s) after (read_image-IsSafe f s v k)

-- A frame of the cube lies in the buffer, at an offset that may have wrapped.
move-Room :
    (buffer curr : Option ℕ) (nx ny nz frame : ℕ)
    → Room buffer curr (nx * ny) (nx * ny * nz)
    → frame < nz
    → Room buffer (some (u32 (frame * nx * ny))) (nx * ny) (nx * ny * nz)
move-Room none curr nx ny nz frame r h = tt
move-Room (some n) none nx ny nz frame r h = elim r [ ]
move-Room (some n) (some c) nx ny nz frame r h = (r.0, grind arith)

pub move-IsSafe : (s : Fits) → IsSafe s → s.next_frame < s.nz → IsSafe (move s)
unfolding move
move-IsSafe s v h = record { room = move-Room s.buffer s.curr s.nx s.ny s.nz s.next_frame v.room h }

-- If the buffer holds the current frame and the whole cube, the next frame is one of the cube, and a
-- file that is written again has sizes of 32 bits and no larger frame where it reuses the buffer,
-- then the buffer holds the current frame and the whole cube after `update`, on each of its branches.
pub update-IsSafe :
    (f : FitsFile) (before after : ℕ) (s : Fits)
    → IsSafe s
    → FileKeepsFrame f s
    → s.next_frame < s.nz
    → Ends IsSafe (update f before after s)
unfolding update
update-IsSafe f before after s v k h = if_both (Ends IsSafe) (not s.found) v (
    if_both (Ends IsSafe) (not s.updated) (record { room = v.room })
      (if_both (Ends IsSafe) (not (s.last_write_time == before)) (reread-IsSafe f after s v k)
        (if_both (Ends IsSafe) (not (s.next_frame == s.frame)) (move-IsSafe s v h) v)))
