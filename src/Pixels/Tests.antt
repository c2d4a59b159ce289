-- ===== src/Pixels/Tests.antt =====
-- An image of 3 x 2 pixels with a dark and a mask, of common/rtimvBase.cpp and server/rtimvServer.cpp.
use rtimv.Common.{ℕ, ◌+◌, ◌-◌, ◌*◌, ◌≡◌, refl, none, some, true, ◌&&◌, ltb, arith, if◌then◌else◌}
use rtimv.Stats.{Source}
use rtimv.Pixels.{BaseImages, PixelFloat, evaluate, get_pixel, pixel_sub_dark_apply_mask}
use rtimv.Pixels.Choice.{get_pixel_within}

abbrev frame : ℕ → Source ℕ
frame v = record { is_valid = true; width = 3; height = 2; pixel = λ n. v + n }

abbrev numbers : PixelFloat ℕ
numbers = record { minus = λ a b. a - b; times = λ a b. a * b }

abbrev frames : BaseImages ℕ
frames = record { image = some (frame 10); dark = some (frame 3); mask = some (frame 1) }

corrected : evaluate numbers pixel_sub_dark_apply_mask frames 2 ≡ some 21
unfolding evaluate
corrected = refl

get_pixel_within_example :
    get_pixel true 3 2 2 1 ≡ (if ltb 2 3 && ltb 1 2 then some (1 * 3 + 2) else none)
get_pixel_within_example =
    get_pixel_within 3 2 2 1 (omega arith) (omega arith) (omega arith) (omega arith) (omega arith)

last_pixel : get_pixel true 3 2 2 1 ≡ some 5
unfolding get_pixel
last_pixel = refl
