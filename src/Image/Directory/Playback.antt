-- ===== src/Image/Directory/Playback.antt =====
-- Playing a directory of readable FITS files that stays as it is: common/images/fitsDirectory.cpp.
use rtimv.Common.{
  ℕ, zero, suc, ◌+◌, ◌%◌, ◌/◌, ◌≡◌, ◌≢◌, ◌≤◌, ◌<◌, refl, Option, none, some, true, false, not, ◌==◌,
  List, [], ◌∷◌, arith, if_cases, subst, sym, ap, ◌∙◌, get_elem?, length, is_null,
}
use rtimv.Common.Int.{ℤ, abs}
use rtimv.Image.{im_update}
use rtimv.Image.Frames.{u32, inc_next}
use rtimv.Image.Frames.Wrap.{step_next_wraps}
use native.Mathlib.Nat.{mod-lt, mod-add-mod, mod-eq_of_lt}
use rtimv.Image.Directory.{
  Directory, FrameFile, returned, reshape, load, plane, read_header, read_file, read_image,
  im_connect, advance, update, inc_image_no, valid, nz,
}

-- A file that cfitsio reads, of at least two axes.
pub record IsReadable (f : FrameFile) : Type 0 where
  pub opens : f.opens ≡ true
  pub naxis : ℕ
  pub dims : f.naxis ≡ some naxis
  pub bitpix : ℤ
  pub typed : f.bitpix ≡ some bitpix
  pub bytes : (abs bitpix / 8 == 0) ≡ false
  pub x : ℕ
  pub y : ℕ
  pub rest : List ℕ
  pub sizes : f.naxes ≡ some (x ∷ y ∷ rest)
  pub reads : f.reads ≡ true
  pub closes : f.closes ≡ true

-- What a good read leaves of the state before.
pub read_result : (f : FrameFile) → IsReadable f → Directory → Directory
unfolding reshape
read_result f r s = record (reshape r.x r.y (record s { type_size = abs r.bitpix / 8 })) {
  reported = false;
}

read_file_good :
    (f : FrameFile) (r : IsReadable f) (s : Directory)
    → read_file f s ≡ returned true (read_result f r s)
unfolding read_file read_header plane load read_result
read_file_good f r s =
    rw
      (
        r.opens, r.dims, r.typed, r.bytes, r.sizes, r.reads, r.closes, read_file, read_header,
        plane, load,
      )
      refl

in_range : {A : Type 0} (is : List A) (n : ℕ) → n < length is → (a : A) × (get_elem? is n ≡ some a)
in_range [] n h = absurd (omega (arith, h))
in_range (a ∷ is) zero h = (a, refl)
in_range (a ∷ is) (suc n) h = in_range is n (omega arith)

module _ (files : ℕ → FrameFile) (readable : (p : ℕ) → IsReadable (files p)) where
  -- A number that is in the list is read.
  read_image_good :
      (n : ℕ) (s : Directory)
      → n < length s.file_list
      → (p : ℕ) × (get_elem? s.file_list n ≡ some p)
        × (read_image files n s ≡ returned true (read_result (files p) (readable p) s))
  unfolding read_image
  read_image_good n s h =
      let (p, e) = in_range s.file_list n h in
      (p, e, rw (e, read_image) (read_file_good (files p) (readable p) s))

-- One round: an update, then a step to the next file.
pub round : (ℕ → FrameFile) → ℕ → Directory → Option Directory
round files time s = elim (update files time s) [
  | none ↦ none
  | some (t, code) ↦ some (inc_image_no t)
]

pub rounds : (ℕ → FrameFile) → ℕ → ℕ → Directory → Option Directory
unfolding round
rounds files time zero s = some s
rounds files time (suc k) s = elim (rounds files time k s) [
  | none ↦ none
  | some t ↦ round files time t
]

-- The directory of these files is connected, unchanged since `time`, and goes to file `k`.
pub record IsBefore (listing : List ℕ) (time k : ℕ) (s : Directory) : Type 0 where
  pub found : s.found ≡ true
  pub time_same : s.last_write_time ≡ time
  pub files : s.file_list ≡ listing
  pub next_file : s.next_frame ≡ k
  pub new : s.next_frame ≢ s.frame

-- It shows file `k`, read into a buffer.
pub record IsShowing (listing : List ℕ) (time k : ℕ) (s : Directory) : Type 0 where
  pub found : s.found ≡ true
  pub time_same : s.last_write_time ≡ time
  pub files : s.file_list ≡ listing
  pub frame : s.frame ≡ k
  pub filled : is_null s.buffer ≡ false

read_result-IsShowing :
    (f : FrameFile) (r : IsReadable f) (listing : List ℕ) (time k : ℕ) (s : Directory)
    → IsBefore listing time k s
    → IsShowing listing time k (read_result f r (record s { frame = s.next_frame }))
unfolding read_result reshape
read_result-IsShowing f r listing time k s v = record {
  found = v.found;
  time_same = v.time_same;
  files = v.files;
  frame = v.next_file;
  filled = ground arith;
}

-- What a read of the file in place `k` of the list leaves, after the frame number was set.
pub record IsRead (files : ℕ → FrameFile) (listing : List ℕ) (k : ℕ) (s t : Directory)
    : Type 0 where
  pub path : ℕ
  pub listed : get_elem? listing k ≡ some path
  pub reads : read_file (files path) (record s { frame = s.next_frame }) ≡ returned true t

module _ (files : ℕ → FrameFile) (readable : (p : ℕ) → IsReadable (files p)) (listing : List ℕ)
    (time : ℕ) where
  -- The update of a directory that goes to file `k` reads it.
  update_shows :
      (k : ℕ) (s : Directory)
      → 2 ≤ length listing
      → k < length listing
      → IsBefore listing time k s
      → (t : Directory) × (update files time s ≡ some (t, im_update))
        × IsShowing listing time k t
        × IsRead files listing k s t
  unfolding update advance
  update_shows k s m h v = (
    t,
    if_cases Same (not s.found) (λ e. absurd (connected e))
        (λ _.
          if_cases Same (not (s.last_write_time == time)) (λ e. absurd (unchanged e))
            (λ _.
              if_cases Same (length s.file_list == 1) (λ e. absurd (several e))
                (λ _.
                  if_cases Same (not (s.next_frame == s.frame)) (λ _. read)
                    (λ e. absurd (waits e))))),
    read_result-IsShowing (files p) (readable p) listing time k s v,
    record {
      path = p;
      listed =
          ap (get_elem? listing) (sym v.next_file)
          ∙ ap (λ l. get_elem? l s.next_frame) (sym v.files)
          ∙ good.1;
      reads = read_file_good (files p) (readable p) moved;
    },
  )
    where
      moved : Directory
      moved = record s { frame = s.next_frame }

      on_list : s.next_frame < length s.file_list
      on_list = omega (arith, ap length v.files, v.next_file)

      good :
          (p : ℕ) × (get_elem? s.file_list s.next_frame ≡ some p)
          × (read_image files s.next_frame moved
              ≡ returned true (read_result (files p) (readable p) moved))
      good = read_image_good files readable s.next_frame moved on_list

      p : ℕ
      p = good.0

      t : Directory
      t = read_result (files p) (readable p) moved

      Same : Option (Directory × ℕ) → Type 0
      Same o = o ≡ some (t, im_update)

      connected : not s.found ≡ true → ⊥
      connected e = ground (arith, v.found)

      unchanged : not (s.last_write_time == time) ≡ true → ⊥
      unchanged e = ground (arith, v.time_same)

      several : (length s.file_list == 1) ≡ true → ⊥
      several e = ground (arith, ap length v.files)

      waits : not (s.next_frame == s.frame) ≡ false → ⊥
      waits e = ground (arith, v.new)

      read : Same (advance files s)
      read = rw (advance, good.2) refl

inc_step : (n r : ℕ) → r < n → n < 4294967296 → inc_next n r ≡ (r + 1) % n
inc_step n r h m = let (_, step, _) = step_next_wraps n r 0 h m in step

next_of_mod : (n k : ℕ) → k % n < n → n < 4294967296 → inc_next n (k % n) ≡ suc k % n
next_of_mod n k h m = inc_step n (k % n) h m ∙ mod-add-mod k n 1 ∙ ap (λ j. j % n) (omega arith)

inc_next_moves : (n r : ℕ) → 2 ≤ n → r < n → n < 4294967296 → inc_next n r ≢ r
unfolding inc_next
inc_next_moves n r m h b e = ground arith

inc-IsBefore :
    (listing : List ℕ) (time k : ℕ) (s : Directory)
    → 2 ≤ length listing
    → length listing < 4294967296
    → IsShowing listing time (k % length listing) s
    → IsBefore listing time (suc k % length listing) (inc_image_no s)
unfolding inc_image_no
inc-IsBefore listing time k s m b v = record {
  found = v.found;
  time_same = v.time_same;
  files = v.files;
  next_file = stepped ∙ next_of_mod n k on_list b;
  new = λ e. inc_next_moves n (k % n) m on_list b (sym stepped ∙ e ∙ v.frame);
}
  where
    n : ℕ
    n = length listing

    on_list : k % n < n
    on_list = mod-lt k (omega arith)

    stepped : inc_next (nz s) s.frame ≡ inc_next n (k % n)
    stepped =
        ap (inc_next (nz s)) v.frame
        ∙ ap (λ j. inc_next j (k % n)) (ap (λ l. u32 (length l)) v.files ∙ omega arith)

module _ (files : ℕ → FrameFile) (readable : (p : ℕ) → IsReadable (files p)) (listing : List ℕ)
    (time : ℕ) (several : 2 ≤ length listing) (small : length listing < 4294967296) where
  rounds-IsBefore :
      (k : ℕ) (s : Directory)
      → IsBefore listing time 0 s
      → (t : Directory) × (rounds files time k s ≡ some t)
        × IsBefore listing time (k % length listing) t
  unfolding rounds
  rounds-IsBefore zero s v =
      (s, refl, subst (λ j. IsBefore listing time j s) (sym (mod-eq_of_lt {n = 0} (omega arith))) v)
  rounds-IsBefore (suc k) s v =
      let n = length listing in
      let (t, e, b) = rounds-IsBefore k s v in
      let (u, shown, w, _) =
        update_shows files readable listing time (k % n) t several (mod-lt k (omega arith)) b in
      (
        inc_image_no u,
        rw (e, rounds, round, shown) refl,
        inc-IsBefore listing time k u several small w,
      )

connect-IsBefore :
    (listing : List ℕ) (time : ℕ) (s : Directory)
    → 2 ≤ length listing
    → IsBefore listing time 0 (im_connect true listing time s)
unfolding im_connect
connect-IsBefore listing time s h =
    if_cases (IsBefore listing time 0) (length listing == 0) (λ e. absurd (some_file e))
      (λ _. record {
        found = refl;
        time_same = refl;
        files = refl;
        next_file = refl;
        new = λ e. cc;
      })
  where
    some_file : (length listing == 0) ≡ true → ⊥
    some_file e = ground arith

-- A directory of two readable files or more that connects and then stays as it is, is played in
-- order and from the start again: after `k` rounds of an update and a step, the next update leaves
-- what a read of the file in place `k` of the list, modulo their number, leaves. It reports that as
-- an image, which is valid, and has the number of that place.
pub rounds_show :
    (files : ℕ → FrameFile) (listing : List ℕ) (time k : ℕ) (s : Directory)
    → ((p : ℕ) → IsReadable (files p))
    → 2 ≤ length listing
    → length listing < 4294967296
    → (t u : Directory) × (rounds files time k (im_connect true listing time s) ≡ some t)
      × (update files time t ≡ some (u, im_update))
      × IsRead files listing (k % length listing) t u
      × (u.frame ≡ k % length listing)
      × (valid u ≡ true)
unfolding valid
rounds_show files listing time k s readable several small =
    let n = length listing in
    let (t, e, b) =
      rounds-IsBefore files readable listing time several small k (im_connect true listing time s)
        (connect-IsBefore listing time s several) in
    let (u, shown, w, r) =
      update_shows files readable listing time (k % n) t several (mod-lt k (omega arith)) b in
    (t, u, e, shown, r, w.frame, ground (arith, w.found, w.filled))
