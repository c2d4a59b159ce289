-- ===== src/Image/Directory/Watch.antt =====
-- The timer of common/images/fitsDirectory.cpp runs exactly while the directory is not connected.
use rtimv.Common.{
  ℕ, ◌≡◌, refl, Option, none, some, Bool, true, false, not, ◌||◌, ◌==◌, List, arith, if_both, subst,
  sym, ap, ◌∙◌, ◌/◌, get_elem?, length, option_both,
}
use rtimv.Common.Int.{ℤ, abs}
use rtimv.Image.{no_update, im_update}
use rtimv.Image.Frames.{delta_next}
use rtimv.Image.Directory.{
  nz, Directory, FrameFile, Read, fault, returned, report, reshape, load, plane, read_header,
  read_file, read_image, detach, im_connect, image_timerout, advance, update, image_no,
  inc_image_no, dec_image_no, delta_image_no,
}

-- Timer events and `imageKey` with a listing that is allowed, updates, and commands.
pub data Step (allowed : List ℕ → Type 0) : Directory → Directory → Type 0 where
  looked :
      (s : Directory) (listed : Bool) (listing : List ℕ) (time : ℕ)
      → allowed listing
      → Step allowed s (image_timerout listed listing time s)
  shown :
      (s t : Directory) (files : ℕ → FrameFile) (time code : ℕ)
      → update files time s ≡ some (t, code)
      → Step allowed s t
  chosen : (s : Directory) (ino : ℕ) → Step allowed s (image_no ino s)
  stepped : (s : Directory) → Step allowed s (inc_image_no s)
  stepped_back : (s : Directory) → Step allowed s (dec_image_no s)
  moved : (s t : Directory) (dino : ℤ) → delta_image_no dino s ≡ some t → Step allowed s t

pub data Steps (allowed : List ℕ → Type 0) (s : Directory) : Directory → Type 0 where
  here : Steps allowed s s
  next : {t u : Directory} → Steps allowed s t → Step allowed t u → Steps allowed s u

-- What a read leaves, if it returns.
abbrev pub Leaves : (Directory → Type 0) → Read → Type 0
Leaves P fault = Unit
Leaves P (returned ok t) = P t

abbrev pub Ends : (Directory → Type 0) → Option (Directory × ℕ) → Type 0
Ends P none = Unit
Ends P (some (t, code)) = P t

-- A read changes neither the timer nor the connection.
pub record IsAlike (s t : Directory) : Type 0 where
  pub timer : t.timer_running ≡ s.timer_running
  pub found : t.found ≡ s.found
  pub files : t.file_list ≡ s.file_list
  pub frame : t.frame ≡ s.frame
  pub next_frame : t.next_frame ≡ s.next_frame
  pub time : t.last_write_time ≡ s.last_write_time

load-IsAlike : (f : FrameFile) (x y : ℕ) (s : Directory) → Leaves (IsAlike s) (load f x y s)
unfolding load reshape
load-IsAlike f x y s =
    if_both (Leaves (IsAlike s)) (not f.reads || not f.closes)
      (record {
        timer = refl;
        found = refl;
        files = refl;
        frame = refl;
        next_frame = refl;
        time = refl;
      })
      (record {
        timer = refl;
        found = refl;
        files = refl;
        frame = refl;
        next_frame = refl;
        time = refl;
      })

report-IsAlike : (s t : Directory) → IsAlike s t → Leaves (IsAlike s) (report t)
report-IsAlike s t e = record {
  timer = e.timer;
  found = e.found;
  files = e.files;
  frame = e.frame;
  next_frame = e.next_frame;
  time = e.time;
}

typed-IsAlike : (n : ℕ) (s : Directory) → IsAlike s (record s { type_size = n })
typed-IsAlike n s = record {
  timer = refl;
  found = refl;
  files = refl;
  frame = refl;
  next_frame = refl;
  time = refl;
}

self-IsAlike : (s : Directory) → IsAlike s s
self-IsAlike s = record {
  timer = refl;
  found = refl;
  files = refl;
  frame = refl;
  next_frame = refl;
  time = refl;
}

plane-IsAlike :
    (f : FrameFile) (naxes : List ℕ) (s : Directory) → Leaves (IsAlike s) (plane f naxes s)
unfolding plane
plane-IsAlike f naxes s =
    option_both (Leaves (IsAlike s)) (get_elem? naxes 0) tt
      (λ x. option_both (Leaves (IsAlike s)) (get_elem? naxes 1) tt (λ y. load-IsAlike f x y s))

IsAlike-trans : {s t u : Directory} → IsAlike s t → IsAlike t u → IsAlike s u
IsAlike-trans e f = record {
  timer = f.timer ∙ e.timer;
  found = f.found ∙ e.found;
  files = f.files ∙ e.files;
  frame = f.frame ∙ e.frame;
  next_frame = f.next_frame ∙ e.next_frame;
  time = f.time ∙ e.time;
}

Leaves-trans :
    (s t : Directory) (r : Read) → IsAlike s t → Leaves (IsAlike t) r → Leaves (IsAlike s) r
Leaves-trans s t fault e v = tt
Leaves-trans s t (returned ok u) e v = IsAlike-trans e v

read_header-IsAlike : (f : FrameFile) (s : Directory) → Leaves (IsAlike s) (read_header f s)
unfolding read_header
read_header-IsAlike f s =
    option_both (Leaves (IsAlike s)) f.bitpix (report-IsAlike s s (self-IsAlike s)) (λ b.
      if_both (Leaves (IsAlike s)) (abs b / 8 == 0) (report-IsAlike s s (self-IsAlike s)) (
        let t = record s { type_size = abs b / 8 } in
        option_both (Leaves (IsAlike s)) f.naxes (report-IsAlike s t (typed-IsAlike (abs b / 8) s))
          (λ naxes.
            Leaves-trans s t (plane f naxes t) (typed-IsAlike (abs b / 8) s)
              (plane-IsAlike f naxes t))))

pub read_image-IsAlike :
    (files : ℕ → FrameFile) (imno : ℕ) (s : Directory)
    → Leaves (IsAlike s) (read_image files imno s)
unfolding read_image read_file
read_image-IsAlike files imno s =
    option_both (Leaves (IsAlike s)) (get_elem? s.file_list imno) (self-IsAlike s) (λ path.
      if_both (Leaves (IsAlike s)) (not (files path).opens) (report-IsAlike s s (self-IsAlike s)) (
        option_both (Leaves (IsAlike s)) (files path).naxis (report-IsAlike s s (self-IsAlike s))
          (λ _. read_header-IsAlike (files path) s)))

-- The timer runs exactly while there is no connection.
pub record IsWatched (s : Directory) : Type 0 where
  pub timed : s.timer_running ≡ not s.found

detach-IsWatched : (s : Directory) → IsWatched (detach s)
unfolding detach
detach-IsWatched s = record { timed = refl }

advanced :
    (s : Directory) (r : Read)
    → IsWatched s
    → Leaves (IsAlike s) r
    → Ends IsWatched (elim r [
      | fault ↦ none
      | returned false t ↦ some (detach t, no_update)
      | returned true t ↦ some (t, im_update)
    ])
advanced s fault v e = tt
advanced s (returned false t) v e = detach-IsWatched t
advanced s (returned true t) v e = record { timed = e.timer ∙ v.timed ∙ ap not (sym e.found) }

update-IsWatched :
    (files : ℕ → FrameFile) (time : ℕ) (s : Directory)
    → IsWatched s
    → Ends IsWatched (update files time s)
unfolding update advance
update-IsWatched files time s v = if_both (Ends IsWatched) (not s.found) v (
    if_both (Ends IsWatched) (not (s.last_write_time == time)) (detach-IsWatched s) (
      if_both (Ends IsWatched) (length s.file_list == 1) v (
        if_both (Ends IsWatched) (not (s.next_frame == s.frame))
          (let t = record s { frame = s.next_frame } in
            advanced t (read_image files s.next_frame t) (record { timed = v.timed })
              (read_image-IsAlike files s.next_frame t))
          v)))

-- An event of the timer, or a new path, starts the watch whatever the state was.
image_timerout-IsWatched :
    (listed : Bool) (listing : List ℕ) (time : ℕ) (s : Directory)
    → IsWatched (image_timerout listed listing time s)
unfolding image_timerout im_connect
image_timerout-IsWatched listed listing time s = ground arith

abbrev pub Stays : (Directory → Type 0) → Option Directory → Type 0
Stays P none = Unit
Stays P (some t) = P t

-- An offset changes the next frame alone.
pub delta_image_no-Stays :
    (P : Directory → Type 0) (dino : ℤ) (s : Directory)
    → ((n : ℕ) → P (record s { next_frame = n }))
    → Stays P (delta_image_no dino s)
unfolding delta_image_no
delta_image_no-Stays P dino s h =
    option_both (Stays P) (delta_next (nz s) s.frame s.next_frame dino) tt h

Step-IsWatched :
    (allowed : List ℕ → Type 0) {s t : Directory} → Step allowed s t → IsWatched s → IsWatched t
unfolding image_no inc_image_no dec_image_no delta_image_no
Step-IsWatched allowed (looked s listed listing time a) v =
    image_timerout-IsWatched listed listing time s
Step-IsWatched allowed (shown s t files time code e) v =
    subst (Ends IsWatched) e (update-IsWatched files time s v)
Step-IsWatched allowed (chosen s ino) v = record { timed = v.timed }
Step-IsWatched allowed (stepped s) v = record { timed = v.timed }
Step-IsWatched allowed (stepped_back s) v = record { timed = v.timed }
Step-IsWatched allowed (moved s t dino e) v =
    subst (Stays IsWatched) e
      (delta_image_no-Stays IsWatched dino s (λ n. record { timed = v.timed }))

-- Once a path was given, whatever the timer, the file system, the files and the commands do, the timer
-- runs exactly while the directory is not connected: the source always looks again.
pub Steps-IsWatched :
    (allowed : List ℕ → Type 0) (listed : Bool) (listing : List ℕ) (time : ℕ) (s : Directory)
    {t : Directory}
    → Steps allowed (image_timerout listed listing time s) t
    → IsWatched t
Steps-IsWatched allowed listed listing time s here = image_timerout-IsWatched listed listing time s
Steps-IsWatched allowed listed listing time s (next r p) =
    Step-IsWatched allowed p (Steps-IsWatched allowed listed listing time s r)
