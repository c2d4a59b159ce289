-- ===== src/Image/Fits/Faults.antt =====
-- Where common/images/fitsImage.cpp leaves its arrays.
use rtimv.Common.{ℕ, ◌+◌, ◌*◌, ◌/◌, ◌≡◌, ◌<◌, refl, some, true, false, [], ◌∷◌, ◌==◌, arith}
use rtimv.Common.Int.{ℤ, abs}
use rtimv.Image.Frames.{u32}
use rtimv.Image.Fits.{Fits, FitsFile, fault, resize, read_image}

-- A file that is written again as one frame with as many pixels as the cube had reuses the buffer and
-- keeps the pointer to the frame that was shown: unless that was the first frame, the new frame at
-- that pointer ends past the buffer.
pub resize_outside :
    (x y n c : ℕ) (s : Fits)
    → s.buffer ≡ some n
    → s.curr ≡ some c
    → 0 < c
    → n ≡ x * y
    → u32 (s.nx * s.ny * s.nz) ≡ x * y
    → ((resize x y 1 s).buffer ≡ some n) × ((resize x y 1 s).curr ≡ some c) × (n < c + x * y)
unfolding resize
resize_outside x y n c s b d h e k = ground (arith, b, d)

-- A file of one axis, of a data type of a byte or more, is read past the end of the array of its sizes.
pub read_image_fault :
    (f : FitsFile) (s : Fits) (b : ℤ) (x : ℕ)
    → f.opens ≡ true
    → f.naxis ≡ some 1
    → f.bitpix ≡ some b
    → (abs b / 8 == 0) ≡ false
    → f.naxes ≡ some (x ∷ [])
    → read_image f s ≡ fault
unfolding read_image
read_image_fault f s b x o d t z e = rw (read_image, o, d, t, z, e) refl
