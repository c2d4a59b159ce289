-- ===== src/Image/Directory/Single.antt =====
-- A directory of one FITS file is never shown by common/images/fitsDirectory.cpp.
use rtimv.Common.{
  ℕ, ◌≡◌, ◌≤◌, refl, none, false, not, ◌==◌, List, [], ◌∷◌, arith, if_both, if_cases, subst,
  get_elem?, length,
}
use rtimv.Image.Directory.{
  Directory, FrameFile, returned, read_image, detach, im_connect, image_timerout, advance, update,
  image_no, inc_image_no, dec_image_no, valid,
}
use rtimv.Image.Directory.Watch.{
  Step, looked, shown, chosen, stepped, stepped_back, moved, Steps, here, next, Ends, Stays,
  delta_image_no-Stays,
}

abbrev pub AtMostOne : List ℕ → Type 0
AtMostOne listing = length listing ≤ 1

pub record IsUnread (s : Directory) : Type 0 where
  pub files : AtMostOne s.file_list
  pub empty : s.buffer ≡ none

short : (is : List ℕ) (n : ℕ) → length is ≤ 1 → (length is == 1) ≡ false → get_elem? is n ≡ none
short [] n h k = refl
short (i ∷ is) n h k = ground arith

past_end :
    (files : ℕ → FrameFile) (n : ℕ) (s : Directory)
    → get_elem? s.file_list n ≡ none
    → read_image files n s ≡ returned false s
unfolding read_image
past_end files n s e = rw (e, read_image) refl

advance-IsUnread :
    (files : ℕ → FrameFile) (s : Directory)
    → IsUnread s
    → (length s.file_list == 1) ≡ false
    → Ends IsUnread (advance files s)
unfolding advance detach
advance-IsUnread files s v k =
    rw
      (
        advance,
        past_end files s.next_frame (record s { frame = s.next_frame })
            (short s.file_list s.next_frame v.files k),
        Ends,
      )
      (record { files = v.files; empty = refl })

update-IsUnread :
    (files : ℕ → FrameFile) (time : ℕ) (s : Directory)
    → IsUnread s
    → Ends IsUnread (update files time s)
unfolding update detach
update-IsUnread files time s v = if_both (Ends IsUnread) (not s.found) v (
    if_both (Ends IsUnread) (not (s.last_write_time == time))
      (record { files = v.files; empty = refl })
      (if_cases (Ends IsUnread) (length s.file_list == 1) (λ _. v)
        (λ k.
          if_both (Ends IsUnread) (not (s.next_frame == s.frame)) (advance-IsUnread files s v k)
            v)))

Step-IsUnread : {s t : Directory} → Step AtMostOne s t → IsUnread s → IsUnread t
unfolding image_no inc_image_no dec_image_no image_timerout im_connect
Step-IsUnread (looked s listed listing time a) v = ground (arith, v.empty)
Step-IsUnread (shown s t files time code e) v =
    subst (Ends IsUnread) e (update-IsUnread files time s v)
Step-IsUnread (chosen s ino) v = record { files = v.files; empty = v.empty }
Step-IsUnread (stepped s) v = record { files = v.files; empty = v.empty }
Step-IsUnread (stepped_back s) v = record { files = v.files; empty = v.empty }
Step-IsUnread (moved s t dino e) v =
    subst (Stays IsUnread) e
      (delta_image_no-Stays IsUnread dino s (λ n. record { files = v.files; empty = v.empty }))

steps : {s t : Directory} → Steps AtMostOne s t → IsUnread s → IsUnread t
steps here v = v
steps (next r p) v = Step-IsUnread p (steps r v)

-- From a state without pixels and with one file or none, if every listing of the directory finds at
-- most one file, then nothing is ever read: after any steps the image is not valid.
pub Steps-not_valid : {s t : Directory} → Steps AtMostOne s t → IsUnread s → valid t ≡ false
unfolding valid
Steps-not_valid r v = ground (arith, (steps r v).empty)
