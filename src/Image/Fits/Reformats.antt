-- ===== src/Image/Fits/Reformats.antt =====
-- A cube whose file is written again: its timer, and the two faults.
use rtimv.Common.{◌≡◌, refl, some, none, true, false, [], ◌∷◌}
use rtimv.Common.Int.{negsuc}
use rtimv.Image.Fits.{Fits, FitsFile, read_image, update, image_timerout, im_connect, detach}

-- Frame 2 of three frames of 2 x 2 pixels is shown.
abbrev last_shown : Fits
last_shown = record {
  reported = 0;
  last_write_time = 7;
  nx = 2;
  ny = 2;
  nz = 3;
  frame = 2;
  next_frame = 2;
  type_size = 4;
  buffer = some 12;
  curr = some 8;
  timer_running = false;
  found = true;
  updated = true;
}

abbrev row_file : FitsFile
row_file = record {
  opens = true;
  reopens = true;
  naxis = some 1;
  bitpix = some (negsuc 31);
  naxes = some (5 ∷ []);
  reads = true;
  closes = true;
}

abbrev no_file : FitsFile
no_file = record row_file { opens = false; reopens = false }

abbrev lost : Fits
lost = record last_shown {
  reported = 1;
  buffer = none;
  curr = none;
  found = false;
  timer_running = true;
}

loses : update no_file 8 9 last_shown ≡ some (lost, 0)
unfolding update read_image detach
loses = refl

abbrev lost_still : Fits
lost_still = record lost { reported = 2; updated = false }

looks_again : image_timerout no_file 9 lost ≡ some lost_still
unfolding image_timerout im_connect read_image
looks_again = refl
