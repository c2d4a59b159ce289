-- ===== src/Image/Directory/Memory.antt =====
-- The buffer of common/images/fitsDirectory.cpp holds every pixel that is read into it and shown.
use rtimv.Common.{
  ℕ, ◌*◌, ◌/◌, ◌≤◌, Option, none, some, Bool, true, false, not, ◌&&◌, ◌||◌, ◌==◌, List, arith,
  if◌then◌else◌, if_both, option_both, subst, get_elem?, length, is_null,
}
use rtimv.Common.Int.{abs}
use rtimv.Image.{no_update, im_update}
use rtimv.Image.Frames.{u32}
use rtimv.Image.Directory.{
  Directory, FrameFile, Read, fault, returned, reshape, load, plane, read_header, read_file,
  read_image, detach, advance, update, image_timerout, im_connect, image_no, inc_image_no,
  dec_image_no,
}
use rtimv.Image.Directory.Watch.{
  Leaves, Ends, Step, looked, shown, chosen, stepped, stepped_back, moved, Steps, here, next, Stays,
  delta_image_no-Stays,
}

-- The pixels of the image lie in the buffer.
abbrev pub Room : Option ℕ → ℕ → Type 0
Room none total = Unit
Room (some n) total = total ≤ n

pub record IsSafe (s : Directory) : Type 0 where
  pub room : Room s.buffer (s.nx * s.ny)

reused-Room :
    (x y a b : ℕ) (buffer : Option ℕ)
    → Room buffer (a * b)
    → Room (if not (is_null buffer) && u32 (a * b) == x * y then buffer else some (x * y)) (x * y)
reused-Room x y a b none r = ground arith
reused-Room x y a b (some n) r = ground arith

product-le : (a b x y : ℕ) → a ≤ x → b ≤ y → a * b ≤ x * y
product-le a b x y h k = grind arith

smaller-Room : (buffer : Option ℕ) (m n : ℕ) → m ≤ n → Room buffer n → Room buffer m
smaller-Room none m n h r = tt
smaller-Room (some k) m n h r = omega (arith, r)

-- After the reallocation the buffer has room for what is read, whatever the sizes of the file.
reshape-Room : (x y : ℕ) (s : Directory) → IsSafe s → Room (reshape x y s).buffer (x * y)
unfolding reshape
reshape-Room x y s v = reused-Room x y s.nx s.ny s.buffer v.room

reshape-IsSafe : (x y : ℕ) (s : Directory) → IsSafe s → IsSafe (reshape x y s)
unfolding reshape
reshape-IsSafe x y s v = record {
  room =
      smaller-Room _ _ _ (product-le (u32 x) (u32 y) x y (omega arith) (omega arith))
        (reused-Room x y s.nx s.ny s.buffer v.room);
}

load-IsSafe : (f : FrameFile) (x y : ℕ) (s : Directory) → IsSafe s → Leaves IsSafe (load f x y s)
unfolding load
load-IsSafe f x y s v =
    let w = reshape-IsSafe x y s v in
    if_both (Leaves IsSafe) (not f.reads || not f.closes) (record { room = w.room })
      (record { room = w.room })

read_header-IsSafe : (f : FrameFile) (s : Directory) → IsSafe s → Leaves IsSafe (read_header f s)
unfolding read_header plane
read_header-IsSafe f s v =
    option_both (Leaves IsSafe) f.bitpix (record { room = v.room })
      (λ b.
        if_both (Leaves IsSafe) (abs b / 8 == 0) (record { room = v.room })
          (option_both (Leaves IsSafe) f.naxes (record { room = v.room })
            (λ naxes. option_both (Leaves IsSafe) (get_elem? naxes 0) tt (λ x.
              option_both (Leaves IsSafe) (get_elem? naxes 1) tt (λ y.
                load-IsSafe f x y (record s { type_size = abs b / 8 })
                  (record { room = v.room }))))))

-- A read that returns leaves the pixels within the buffer.
read_image-IsSafe :
    (files : ℕ → FrameFile) (imno : ℕ) (s : Directory)
    → IsSafe s
    → Leaves IsSafe (read_image files imno s)
unfolding read_image read_file
read_image-IsSafe files imno s v =
    option_both (Leaves IsSafe) (get_elem? s.file_list imno) v (λ path.
      if_both (Leaves IsSafe) (not (files path).opens) (record { room = v.room })
        (option_both (Leaves IsSafe) (files path).naxis (record { room = v.room })
          (λ _. read_header-IsSafe (files path) s v)))

after_read :
    (r : Read)
    → Leaves IsSafe r
    → Ends IsSafe (elim r [
      | fault ↦ none
      | returned false t ↦ some (detach t, no_update)
      | returned true t ↦ some (t, im_update)
    ])
unfolding detach
after_read fault v = tt
after_read (returned false t) v = record { room = tt }
after_read (returned true t) v = v

update-IsSafe :
    (files : ℕ → FrameFile) (time : ℕ) (s : Directory)
    → IsSafe s
    → Ends IsSafe (update files time s)
unfolding update advance detach
update-IsSafe files time s v = if_both (Ends IsSafe) (not s.found) v (
    if_both (Ends IsSafe) (not (s.last_write_time == time)) (record { room = tt })
      (if_both (Ends IsSafe) (length s.file_list == 1) v (
        if_both (Ends IsSafe) (not (s.next_frame == s.frame))
          (after_read _ (
            read_image-IsSafe files s.next_frame (record s { frame = s.next_frame })
              (record { room = v.room })))
          v)))

im_connect-IsSafe :
    (listed : Bool) (listing : List ℕ) (time : ℕ) (s : Directory)
    → IsSafe s
    → IsSafe (im_connect listed listing time s)
unfolding im_connect
im_connect-IsSafe listed listing time s v =
    if_both IsSafe (not listed || length listing == 0) (record { room = v.room })
      (record { room = v.room })

Step-IsSafe : (allowed : List ℕ → Type 0) {s t : Directory} → Step allowed s t → IsSafe s → IsSafe t
unfolding image_no inc_image_no dec_image_no image_timerout
Step-IsSafe allowed (looked s listed listing time a) v =
    let w =
      im_connect-IsSafe listed listing time (record s { timer_running = false })
        (record { room = v.room }) in
    if_both IsSafe (im_connect listed listing time (record s { timer_running = false })).found w
      (record { room = w.room })
Step-IsSafe allowed (shown s t files time code e) v =
    subst (Ends IsSafe) e (update-IsSafe files time s v)
Step-IsSafe allowed (chosen s ino) v = record { room = v.room }
Step-IsSafe allowed (stepped s) v = record { room = v.room }
Step-IsSafe allowed (stepped_back s) v = record { room = v.room }
Step-IsSafe allowed (moved s t dino e) v =
    subst (Stays IsSafe) e (delta_image_no-Stays IsSafe dino s (λ n. record { room = v.room }))

-- Starting from a state in which the pixels of the image lie within the buffer, they stay within it
-- whatever the timer, the file system, the files and the commands do, even where a product of two
-- sizes wraps at 32 bits.
pub Steps-IsSafe :
    (allowed : List ℕ → Type 0) {s t : Directory} → Steps allowed s t → IsSafe s → IsSafe t
Steps-IsSafe allowed here v = v
Steps-IsSafe allowed (next r p) v = Step-IsSafe allowed p (Steps-IsSafe allowed r v)
