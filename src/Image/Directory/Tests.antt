-- ===== src/Image/Directory/Tests.antt =====
-- The theorems on the directory source at directories of one file and of three.
use rtimv.Common.{ℕ, ◌≡◌, ◌%◌, refl, some, none, true, false, [], ◌∷◌, arith, subst}
use rtimv.Common.Int.{negsuc}
use rtimv.Image.{im_update}
use rtimv.Image.Directory.{
  Directory, FrameFile, image_timerout, im_connect, update, reshape, read_image, inc_image_no,
  valid,
}
use rtimv.Image.Directory.Watch.{Steps, here, next, looked, shown, stepped}
use rtimv.Image.Directory.Single.{AtMostOne}
use rtimv.Image.Directory.Playback.{IsRead, IsReadable, rounds, rounds_show}

abbrev unopened : Directory
unopened = record {
  file_list = [];
  reported = false;
  last_write_time = 0;
  nx = 0;
  ny = 0;
  frame = 0;
  next_frame = 0;
  type_size = 4;
  buffer = none;
  timer_running = false;
  found = false;
  updated = false;
}

-- Every file is an image of 3 x 2 pixels.
abbrev small_files : ℕ → FrameFile
small_files p = record {
  opens = true;
  naxis = some 2;
  bitpix = some (negsuc 31);
  naxes = some (3 ∷ 2 ∷ []);
  reads = true;
  closes = true;
}

readable : (p : ℕ) → IsReadable (small_files p)
readable p = record {
  opens = refl;
  naxis = 2;
  dims = refl;
  bitpix = negsuc 31;
  typed = refl;
  bytes = refl;
  x = 3;
  y = 2;
  rest = [];
  sizes = refl;
  reads = refl;
  closes = refl;
}

abbrev opened : Directory
opened = record unopened {
  file_list = 8 ∷ [];
  last_write_time = 5;
  frame = 1;
  next_frame = 0;
  found = true;
}

opens_one : image_timerout true (8 ∷ []) 5 unopened ≡ opened
unfolding image_timerout im_connect
opens_one = refl

-- The directory has one file, and an update does nothing.
not_read : update small_files 5 opened ≡ some (opened, 0)
unfolding update
not_read = refl

one_file : Steps AtMostOne unopened (inc_image_no opened)
one_file =
    next
      (next
        (subst (Steps AtMostOne unopened) opens_one
          (next here (looked unopened true (8 ∷ []) 5 (omega arith))))
        (shown opened opened small_files 5 0 not_read))
      (stepped opened)

abbrev ready : Directory
ready = record opened { file_list = 8 ∷ 9 ∷ 7 ∷ [] }

abbrev shown_first : Directory
shown_first = record ready { frame = 0; nx = 3; ny = 2; buffer = some 6 }

reads_first : update small_files 5 ready ≡ some (shown_first, im_update)
unfolding update read_image reshape
reads_first = refl

-- The fifth update of three files shows the second file again.
rounds_show_example :
    (t u : Directory) × (rounds small_files 5 4 (im_connect true (8 ∷ 9 ∷ 7 ∷ []) 5 unopened)
      ≡ some t)
    × (update small_files 5 t ≡ some (u, im_update))
    × IsRead small_files (8 ∷ 9 ∷ 7 ∷ []) (4 % 3) t u
    × (u.frame ≡ 4 % 3)
    × (valid u ≡ true)
rounds_show_example =
    rounds_show small_files (8 ∷ 9 ∷ 7 ∷ []) 5 4 unopened readable (omega arith) (omega arith)
