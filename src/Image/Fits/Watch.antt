-- ===== src/Image/Fits/Watch.antt =====
-- The timer of common/images/fitsImage.cpp runs exactly while the file is not connected.
use rtimv.Common.{
  ℕ, ◌/◌, ◌≡◌, refl, Option, none, some, true, false, not, ◌&&◌, ◌||◌, ◌==◌, if◌then◌else◌, if_both,
  if_cases, option_both, subst, sym, ap, ◌∙◌,
}
use rtimv.Common.Int.{ℤ, abs}
use rtimv.Image.{no_update, im_update}
use rtimv.Image.Frames.{delta_next}
use rtimv.Image.Fits.{
  Fits, FitsFile, ReadResult, fault, failed, finished, resize, extents, read_pixels, read_axes,
  read_sizes, read_type, read_image, detach, im_connect, image_timerout, reread, move, update,
  image_no, inc_image_no, dec_image_no, delta_image_no,
}
use rtimv.Image.Fits.Memory.{Ends}

-- An event of the timer, an update, and a command.
pub data Event : Fits → Fits → Type 0 where
  looked : (s t : Fits) (f : FitsFile) (time : ℕ) → image_timerout f time s ≡ some t → Event s t
  shown :
      (s t : Fits) (f : FitsFile) (before after code : ℕ)
      → update f before after s ≡ some (t, code)
      → Event s t
  chosen : (s : Fits) (ino : ℕ) → Event s (image_no ino s)
  stepped : (s : Fits) → Event s (inc_image_no s)
  stepped_back : (s : Fits) → Event s (dec_image_no s)
  moved : (s t : Fits) (dino : ℤ) → delta_image_no dino s ≡ some t → Event s t

pub data Events (s : Fits) : Fits → Type 0 where
  here : Events s s
  next : {t u : Fits} → Events s t → Event t u → Events s u

pub record IsWatched (s : Fits) : Type 0 where
  pub timed : s.timer_running ≡ not s.found

-- A read keeps both.
record IsAlike (s t : Fits) : Type 0 where
  timer : t.timer_running ≡ s.timer_running
  found : t.found ≡ s.found

abbrev Reads : Fits → ReadResult → Type 0
Reads s fault = Unit
Reads s (failed t) = IsAlike s t
Reads s (finished t) = IsAlike s t

read_pixels-Reads :
    (f : FitsFile) (x y z n : ℕ) (s : Fits)
    → Reads s (read_pixels f x y z (record s { type_size = n }))
unfolding read_pixels resize
read_pixels-Reads f x y z n s =
    if_both (Reads s) (not f.reads || not f.closes) (record { timer = refl; found = refl })
      (record { timer = refl; found = refl })

read_image-Reads : (f : FitsFile) (s : Fits) → Reads s (read_image f s)
unfolding read_image read_type read_sizes read_axes
read_image-Reads f s =
    if_both (Reads s) (not f.opens && not f.reopens) (record { timer = refl; found = refl })
      (option_both (Reads s) f.naxis (record { timer = refl; found = refl })
        (λ naxis.
          option_both (Reads s) f.bitpix (record { timer = refl; found = refl })
            (λ b.
              if_both (Reads s) (abs b / 8 == 0) (record { timer = refl; found = refl })
                (option_both (Reads s) f.naxes (record { timer = refl; found = refl })
                  (λ naxes.
                    option_both (Reads s) (extents naxis naxes) tt
                      (λ e. read_pixels-Reads f e.0 e.1 e.2 (abs b / 8) s))))))

abbrev Stays : (Fits → Type 0) → Option Fits → Type 0
Stays P none = Unit
Stays P (some t) = P t

detach-IsWatched : (s : Fits) → IsWatched (detach s)
unfolding detach
detach-IsWatched s = record { timed = refl }

-- The end of `imConnect`, from a state that is not found.
connected :
    (time : ℕ) (s : Fits) (r : ReadResult)
    → s.timer_running ≡ false
    → s.found ≡ false
    → Reads s r
    → Stays
        (λ t. t.timer_running ≡ false)
        (elim r [
          | fault ↦ none
          | failed t ↦ some t
          | finished t ↦ some (record t { found = true; last_write_time = time })
        ])
connected time s fault h k v = tt
connected time s (failed t) h k v = v.timer ∙ h
connected time s (finished t) h k v = v.timer ∙ h

restarted :
    (r : Option Fits)
    → Stays (λ t. t.timer_running ≡ false) r
    → Stays IsWatched (elim r [
      | none ↦ none
      | some t ↦ some (if t.found then t else record t { timer_running = true })
    ])
restarted none v = tt
restarted (some t) v =
    if_cases IsWatched t.found (λ e. record { timed = v ∙ sym (ap not e) })
      (λ e. record { timed = sym (ap not e) })

image_timerout-IsWatched :
    (f : FitsFile) (time : ℕ) (s : Fits) → Stays IsWatched (image_timerout f time s)
unfolding image_timerout im_connect
image_timerout-IsWatched f time s =
    let t : Fits = record s { timer_running = false; found = false; updated = false } in
    restarted (im_connect f time (record s { timer_running = false }))
      (connected time t (read_image f t) refl refl (read_image-Reads f t))

reread_end :
    (after : ℕ) (s : Fits) (r : ReadResult)
    → IsWatched s
    → Reads s r
    → Ends IsWatched (elim r [
      | fault ↦ none
      | failed t ↦ some (detach t, no_update)
      | finished t ↦ some (record t { last_write_time = after }, im_update)
    ])
reread_end after s fault v e = tt
reread_end after s (failed t) v e = detach-IsWatched t
reread_end after s (finished t) v e = record { timed = e.timer ∙ v.timed ∙ ap not (sym e.found) }

update-IsWatched :
    (f : FitsFile) (before after : ℕ) (s : Fits)
    → IsWatched s
    → Ends IsWatched (update f before after s)
unfolding update reread move
update-IsWatched f before after s v = if_both (Ends IsWatched) (not s.found) v (
    if_both (Ends IsWatched) (not s.updated) (record { timed = v.timed })
      (if_both (Ends IsWatched) (not (s.last_write_time == before))
        (reread_end after s (read_image f s) v (read_image-Reads f s))
        (if_both (Ends IsWatched) (not (s.next_frame == s.frame)) (record { timed = v.timed }) v)))

Event-IsWatched : {s t : Fits} → Event s t → IsWatched s → IsWatched t
unfolding image_no inc_image_no dec_image_no delta_image_no
Event-IsWatched (looked s t f time e) v =
    subst (Stays IsWatched) e (image_timerout-IsWatched f time s)
Event-IsWatched (shown s t f before after code e) v =
    subst (Ends IsWatched) e (update-IsWatched f before after s v)
Event-IsWatched (chosen s ino) v = record { timed = v.timed }
Event-IsWatched (stepped s) v = record { timed = v.timed }
Event-IsWatched (stepped_back s) v = record { timed = v.timed }
Event-IsWatched (moved s t dino e) v = subst (Stays IsWatched) e (
    option_both (Stays IsWatched) (delta_next s.nz s.frame s.next_frame dino) tt
      (λ n. record { timed = v.timed }))

-- From a state in which the timer runs exactly while the file is not connected, that stays so
-- whatever the timer, the file system, the file and the commands do: a file that is lost is looked
-- for again.
pub Events-IsWatched : {s t : Fits} → Events s t → IsWatched s → IsWatched t
Events-IsWatched here v = v
Events-IsWatched (next r p) v = Event-IsWatched p (Events-IsWatched r v)
