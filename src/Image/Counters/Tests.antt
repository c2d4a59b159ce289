-- ===== src/Image/Counters/Tests.antt =====
-- The theorems on the counters at ten updates a second.
use rtimv.Common.{◌≡◌, some, refl}
use rtimv.Image.{im_update}
use rtimv.Image.Counters.{Counters, fresh}

abbrev start : Counters
start = record { age = 0; fps = 0 }

one_image : fresh 100 start ≡ some (record { age = 0; fps = 1 }, im_update)
unfolding fresh
one_image = refl
