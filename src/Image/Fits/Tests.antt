-- ===== src/Image/Fits/Tests.antt =====
-- A cube of three frames of 2 x 2 pixels.
use rtimv.Common.{ℕ, ◌≡◌, refl, some, none, true, false, [], ◌∷◌, arith}
use rtimv.Common.Int.{negsuc}
use rtimv.Image.{im_update}
use rtimv.Image.Frames.{inc_next}
use rtimv.Image.Fits.{Fits, FitsFile, extents, im_connect, update, inc_image_no, read_image, resize}
use rtimv.Image.Fits.Memory.{IsSafe, FileKeepsFrame, Ends, update-IsSafe}
use rtimv.Image.Fits.Playback.{here, next, stepped, shown, IsPlaying, Plays-IsPlaying}

abbrev empty : Fits
empty = record {
  reported = 0;
  last_write_time = 0;
  nx = 0;
  ny = 0;
  nz = 0;
  frame = 0;
  next_frame = 0;
  type_size = 4;
  buffer = none;
  curr = none;
  timer_running = false;
  found = false;
  updated = false;
}

abbrev cube_file : ℕ → FitsFile
cube_file n = record {
  opens = true;
  reopens = true;
  naxis = some 3;
  bitpix = some (negsuc 31);
  naxes = some (2 ∷ 2 ∷ n ∷ []);
  reads = true;
  closes = true;
}

abbrev cube : Fits
cube = record empty {
  last_write_time = 7;
  nx = 2;
  ny = 2;
  nz = 3;
  buffer = some 12;
  curr = some 0;
  found = true;
}

cube_connects : im_connect (cube_file 3) 7 empty ≡ some cube
unfolding im_connect read_image resize
cube_connects = refl

abbrev shown_cube : Fits
shown_cube = record cube { updated = true }

cube_shows : update (cube_file 3) 7 7 cube ≡ some (shown_cube, im_update)
unfolding update
cube_shows = refl

cube_steps :
    update (cube_file 3) 7 7 (inc_image_no shown_cube)
    ≡ some (record shown_cube { frame = 1; next_frame = 1; curr = some 4 }, im_update)
unfolding update inc_image_no inc_next
cube_steps = refl

cube-IsPlaying : IsPlaying cube
cube-IsPlaying = record {
  safe = record { room = omega arith };
  sized = omega arith;
  on_cube = omega arith;
  next_on_cube = omega arith;
}

Plays-IsPlaying_example : IsPlaying (record shown_cube { frame = 1; next_frame = 1; curr = some 4 })
unfolding inc_image_no inc_next
Plays-IsPlaying_example = Plays-IsPlaying cube-IsPlaying (
    next
      (next (next here (shown cube shown_cube (cube_file 3) im_update cube_shows))
        (stepped shown_cube))
      (shown (inc_image_no shown_cube) _ (cube_file 3) im_update cube_steps))

cube_file-FileKeepsFrame : FileKeepsFrame (cube_file 4) shown_cube
unfolding extents
cube_file-FileKeepsFrame naxis a naxes x y z e h = ground arith

update-IsSafe_example : Ends IsSafe (update (cube_file 4) 8 8 shown_cube)
update-IsSafe_example =
    update-IsSafe (cube_file 4) 8 8 shown_cube (record { room = omega arith })
      cube_file-FileKeepsFrame (omega arith)
