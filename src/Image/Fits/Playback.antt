-- ===== src/Image/Fits/Playback.antt =====
-- Playing a cube whose file stays as it is.
use rtimv.Common.{
  ℕ, ◌+◌, ◌-◌, ◌%◌, ◌≤◌, ◌<◌, ◌≡◌, some, arith, true, not, if_cases, if_both, ◌==◌, some_cancel, ap,
  sym, subst, ◌∙◌,
}
use rtimv.Common.Int.{ℤ, pos_part, neg_part}
use rtimv.Image.Frames.{set_next, inc_next, dec_next, delta_next}
use rtimv.Image.Frames.Wrap.{delta_next_wraps, step_next_wraps}
use native.Mathlib.Nat.{mod-lt}
use rtimv.Image.Fits.{
  Fits, FitsFile, image_no, inc_image_no, dec_image_no, delta_image_no, update, move,
}
use rtimv.Image.Fits.Memory.{IsSafe, Ends, move-IsSafe}

-- A command, or an `update` that finds the file as it was when it was read. An offset is given
-- while no other frame is pending, and is not below minus one turn.
pub data Play : Fits → Fits → Type 0 where
  chosen : (s : Fits) (ino : ℕ) → Play s (image_no ino s)
  stepped : (s : Fits) → Play s (inc_image_no s)
  stepped_back : (s : Fits) → Play s (dec_image_no s)
  moved :
      (s t : Fits) (dino : ℤ)
      → s.next_frame ≡ s.frame
      → pos_part dino < 2147483648
      → neg_part dino ≤ s.nz
      → delta_image_no dino s ≡ some t
      → Play s t
  shown :
      (s t : Fits) (f : FitsFile) (code : ℕ)
      → update f s.last_write_time s.last_write_time s ≡ some (t, code)
      → Play s t

pub data Plays (s : Fits) : Fits → Type 0 where
  here : Plays s s
  next : {t u : Fits} → Plays s t → Play t u → Plays s u

-- The current frame and the pending one are frames of the cube, and the buffer holds them.
pub record IsPlaying (s : Fits) : Type 0 where
  pub safe : IsSafe s
  pub sized : s.nz < 2147483648
  pub on_cube : s.frame < s.nz
  pub next_on_cube : s.next_frame < s.nz

pub next_on_cube-step :
    (nz cur ino : ℕ)
    → cur < nz
    → nz < 2147483648
    → (set_next nz ino < nz) × (inc_next nz cur < nz) × (dec_next nz cur < nz)
next_on_cube-step nz cur ino h k = omega (
  arith,
  step_next_wraps nz cur ino h (omega arith),
  mod-lt (cur + 1) {m = nz},
  mod-lt (cur + nz - 1) {m = nz},
)

same_time : (n : ℕ) → not (n == n) ≡ true → ⊥
same_time n h = ground arith

update_same :
    (f : FitsFile) (s : Fits)
    → IsPlaying s
    → Ends IsPlaying (update f s.last_write_time s.last_write_time s)
unfolding update
update_same f s v = if_both (Ends IsPlaying) (not s.found) v (
    if_both (Ends IsPlaying) (not s.updated) kept (
      if_cases (Ends IsPlaying) (not (s.last_write_time == s.last_write_time))
        (λ e. absurd (same_time s.last_write_time e))
        λ _. if_both (Ends IsPlaying) (not (s.next_frame == s.frame)) moved_on v))
  where
    kept : IsPlaying (record s { updated = true })
    kept = record {
      safe = record { room = v.safe.room };
      sized = v.sized;
      on_cube = v.on_cube;
      next_on_cube = v.next_on_cube;
    }

    moved_on : IsPlaying (move s)
    moved_on = record {
      safe = move-IsSafe s v.safe v.next_on_cube;
      sized = v.sized;
      on_cube = v.next_on_cube;
      next_on_cube = v.next_on_cube;
    }

-- A command changes the pending frame alone.
pending : (s : Fits) (n : ℕ) → IsPlaying s → n < s.nz → IsPlaying (record s { next_frame = n })
pending s n v h = record {
  safe = record { room = v.safe.room };
  sized = v.sized;
  on_cube = v.on_cube;
  next_on_cube = h;
}

delta_image_no_settled :
    (s : Fits) (dino : ℤ)
    → IsPlaying s
    → s.next_frame ≡ s.frame
    → pos_part dino < 2147483648
    → neg_part dino ≤ s.nz
    → delta_image_no dino s
      ≡ some (record s { next_frame = (s.frame + s.nz + pos_part dino - neg_part dino) % s.nz })
unfolding delta_image_no
delta_image_no_settled s dino v p h b = rw (
  ap (λ n. delta_next s.nz s.frame n dino) p
      ∙ delta_next_wraps s.nz s.frame dino v.on_cube v.sized h b,
  delta_image_no,
)

Play-IsPlaying : {s t : Fits} → Play s t → IsPlaying s → IsPlaying t
unfolding image_no inc_image_no dec_image_no
Play-IsPlaying (chosen s ino) v =
    pending s _ v (next_on_cube-step s.nz s.frame ino v.on_cube v.sized).0
Play-IsPlaying (stepped s) v = pending s _ v (next_on_cube-step s.nz s.frame 0 v.on_cube v.sized).1
Play-IsPlaying (stepped_back s) v =
    pending s _ v (next_on_cube-step s.nz s.frame 0 v.on_cube v.sized).2
Play-IsPlaying (moved s t dino p h b e) v =
    subst IsPlaying (some_cancel _ t (sym (delta_image_no_settled s dino v p h b) ∙ e))
      (pending s _ v (mod-lt _ (omega arith)))
Play-IsPlaying (shown s t f code e) v = subst (Ends IsPlaying) e (update_same f s v)

-- A cube whose file stays as it is, played from frames of the cube by updates, choices of a frame,
-- steps in both directions and offsets, where an offset is given only while no other frame is
-- pending, is below 2 ^ 31 and not below minus one turn: the current frame and the pending one stay
-- on the cube, and the buffer holds the current frame.
pub Plays-IsPlaying : {s t : Fits} → IsPlaying s → Plays s t → IsPlaying t
Plays-IsPlaying v here = v
Plays-IsPlaying v (next r p) = Play-IsPlaying p (Plays-IsPlaying v r)
