-- ===== src/Image/Frames.antt =====
-- The choice of the next frame of a cube, as common/images/fitsImage.cpp and fitsDirectory.cpp
-- make it: `imageNo`, `incImageNo`, `decImageNo` and `deltaImageNo`. All numbers are `uint32_t`
-- and wrap; the offset is an `int32_t`.
pub mod Wrap
pub mod Faults
mod Tests
pub use rtimv.Common.{u32}
use rtimv.Common.{
  ℕ, ◌+◌, ◌-◌, ◌%◌, ◌^◌, Option, none, some, Bool, ◌&&◌, ltb, leb, ◌==◌, if◌then◌else◌,
}
use rtimv.Common.Int.{ℤ, pos, negsuc, pos_part, neg_part, ltb_ℤ, abs}

-- The bit pattern of an `int32_t`, and the `int32_t` of a bit pattern.
abbrev pub to_u32 : ℤ → ℕ
to_u32 (pos n) = u32 n
to_u32 (negsuc n) = 4294967295 - u32 n

abbrev pub to_i32 : ℕ → ℤ
to_i32 w = if ltb w 2147483648 then pos w else negsuc (4294967295 - w)

-- `nz() - 1`, which is the largest number if there is no frame.
abbrev pub last_frame : ℕ → ℕ
last_frame nz = u32 (nz + 4294967295)

-- The frame that `imageNo( ino )` asks for.
unfoldable pub set_next : ℕ → ℕ → ℕ
set_next nz ino = if ltb (last_frame nz) ino then last_frame nz else ino

unfoldable pub inc_next : ℕ → ℕ → ℕ
inc_next nz cur = if leb (last_frame nz) cur then 0 else u32 (cur + 1)

unfoldable pub dec_next : ℕ → ℕ → ℕ
dec_next nz cur = if cur == 0 then last_frame nz else cur - 1

-- `if( abs( dino ) > nz() ) dino %= nz();` where `nz()` is unsigned, so that `dino` is read as its
-- bit pattern. A division by zero is `none`.
unfoldable pub reduce : ℕ → ℤ → Option ℤ
reduce nz dino =
    if ltb nz (abs dino)
    then (if nz == 0 then none else some (to_i32 (to_u32 dino % nz)))
    else some dino

-- The three branches of `deltaImageNo`, after the reduction.
unfoldable pub offset_next : ℕ → ℕ → ℕ → ℤ → ℕ
offset_next nz cur next dino =
    if ltb_ℤ dino (pos 0) && ltb cur (abs dino)
    then u32 (nz + (cur + to_u32 dino))
    else if ltb_ℤ (pos 0) dino && ltb (u32 (nz + 8589934591 - cur)) (abs dino)
    then u32 (to_u32 dino + 4294967296 - u32 (nz + 4294967296 - cur))
    else u32 (next + to_u32 dino)

unfoldable pub delta_next : ℕ → ℕ → ℕ → ℤ → Option ℕ
unfolding reduce offset_next
delta_next nz cur next dino = elim (reduce nz dino) [
  | none ↦ none
  | some d ↦ some (offset_next nz cur next d)
]
