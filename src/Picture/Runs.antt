-- ===== src/Picture/Runs.antt =====
-- Sequences of operations on a picture of common/rtimvBase.cpp, and its first image.
use rtimv.Common.{
  ℕ, ◌≡◌, refl, none, some, Bool, true, false, ◌&&◌, List, [], ◌∷◌, if◌then◌else◌, if_both, arith,
}
use rtimv.Stats.{Source}
use rtimv.Picture.State.{
  Picture, ColorMode, minmaxglobal, minmaxbox, user, is_user, shown, post_recolor, post_colormode,
}
use rtimv.Picture.Change.{Fresh, Setting, Inputs}
use rtimv.Picture.Update.{change_imdata}
use rtimv.Picture.Modes.{
  enter_mode, colormode, recolor, set_auto_scale, auto_scale_on, scale_of_mode, re_stretch, Op,
  perform, run, changes_image, sets_mode, sets_auto_scale, stretches_again, recolors, sets_stretch,
  sets_scale,
}
use rtimv.Picture.Soundness.{
  Gives, Gives-bind, Gives-there, IsSound, tell-IsSound, recolor_impl-IsSound,
}
use rtimv.Picture.Total.{IsReady, renew-IsSound, change_imdata-Gives}

module _ {F D : Type 0} (o : Setting F D) where
  enter_mode-IsSound :
      (m : ColorMode) (p : Picture F) → IsSound p → Gives IsSound (enter_mode o m p)
  unfolding enter_mode
  enter_mode-IsSound minmaxbox p h =
      Gives-there IsSound (shown p) _ h.pointer (λ pixels k. record {
        raw = h.raw;
        colors = h.colors;
        pointer = h.pointer;
        exclusive = refl;
      })
  enter_mode-IsSound user p h = record {
    raw = h.raw;
    colors = h.colors;
    pointer = h.pointer;
    exclusive = refl;
  }
  enter_mode-IsSound minmaxglobal p h = record {
    raw = h.raw;
    colors = h.colors;
    pointer = h.pointer;
    exclusive = refl;
  }

  colormode-IsSound : (m : ColorMode) (p : Picture F) → IsSound p → Gives IsSound (colormode o m p)
  unfolding colormode
  colormode-IsSound m p h = Gives-bind IsSound IsSound _ _ (enter_mode-IsSound m p h) (λ q k.
      Gives-bind IsSound IsSound _ _ (recolor_impl-IsSound o.numbers o.scaling q k)
        (λ r l. tell-IsSound (post_colormode m) _ (tell-IsSound post_recolor r l)))

  recolor-IsSound :
      (changing : Bool) (p : Picture F) → IsSound p → Gives IsSound (recolor o changing p)
  unfolding recolor
  recolor-IsSound true p h = h
  recolor-IsSound false p h =
      Gives-bind IsSound IsSound _ _ (recolor_impl-IsSound o.numbers o.scaling p h)
        (λ r l. tell-IsSound post_recolor r l)

  set_auto_scale-IsSound :
      (changing on : Bool) (p : Picture F)
      → IsSound p
      → Gives IsSound (set_auto_scale o changing on p)
  unfolding set_auto_scale auto_scale_on
  set_auto_scale-IsSound changing true p h = if_both (Gives IsSound) p.auto_scale h (
      recolor-IsSound changing _ (record {
        raw = h.raw;
        colors = h.colors;
        pointer = h.pointer;
        exclusive = left_user p.mode;
      }))
    where
      left_user :
          (m : ColorMode) → (is_user (if is_user m then minmaxglobal else m) && true) ≡ false
      left_user minmaxglobal = refl
      left_user minmaxbox = refl
      left_user user = refl
  set_auto_scale-IsSound changing false p h = record {
    raw = h.raw;
    colors = h.colors;
    pointer = h.pointer;
    exclusive = ground arith;
  }

  scale_of_mode-IsSound : (p : Picture F) → IsSound p → IsSound (scale_of_mode o p)
  unfolding scale_of_mode
  scale_of_mode-IsSound p h = record {
    raw = ground (arith, h.raw);
    colors = ground (arith, h.colors);
    pointer = ground (arith, h.pointer);
    exclusive = ground (arith, h.exclusive);
  }

  re_stretch-IsSound :
      (changing : Bool) (p : Picture F) → IsSound p → Gives IsSound (re_stretch o changing p)
  unfolding re_stretch
  re_stretch-IsSound changing p h =
      Gives-bind IsSound IsSound _ _
        (if_both (Gives IsSound) (is_user p.mode) (colormode-IsSound minmaxglobal p h) h)
        (λ q k. recolor-IsSound changing _ (scale_of_mode-IsSound q k))

  perform-IsSound : (a : Op o) (p : Picture F) → IsSound p → Gives IsSound (perform o a p)
  unfolding perform
  perform-IsSound (changes_image new s nz changing newdata) p h =
      change_imdata-Gives o IsSound new s nz changing newdata p (λ q k. k)
        (record { exclusive = h.exclusive; sound = λ _. h }) h
  perform-IsSound (sets_mode m) p h = colormode-IsSound m p h
  perform-IsSound (sets_auto_scale changing on) p h = set_auto_scale-IsSound changing on p h
  perform-IsSound (stretches_again changing) p h = re_stretch-IsSound changing p h
  perform-IsSound (recolors changing) p h = recolor-IsSound changing p h
  perform-IsSound (sets_stretch t) p h = record {
    raw = h.raw;
    colors = h.colors;
    pointer = h.pointer;
    exclusive = h.exclusive;
  }
  perform-IsSound (sets_scale low high) p h = record {
    raw = h.raw;
    colors = h.colors;
    pointer = h.pointer;
    exclusive = h.exclusive;
  }

  -- From a picture whose image data and colours are there, and that does not scale itself in the mode
  -- of the user, any new images and settings in any order use no null pointer, and leave such a
  -- picture.
  pub run-IsSound : (ops : List (Op o)) (p : Picture F) → IsSound p → Gives IsSound (run o ops p)
  unfolding run
  run-IsSound [] p h = h
  run-IsSound (a ∷ ops) p h =
      Gives-bind IsSound IsSound (perform o a p) (run o ops) (perform-IsSound a p h)
        (λ q k. run-IsSound ops q k)

  -- A new image that is valid, unless another call is under way, makes a picture complete: from one
  -- that is complete or has no colours yet, and that does not scale itself in the mode of the user,
  -- no null pointer is used, and the image data and the colours are there.
  pub change_imdata-IsSound :
      (new : Fresh F) (s : Inputs F) (image : Source F) (nz : ℕ) (p : Picture F)
      → IsReady o p
      → s.base.image ≡ some image
      → image.is_valid ≡ true
      → Gives IsSound (change_imdata o new s nz false true p)
  unfolding change_imdata
  change_imdata-IsSound new s image nz p h e v = rw (e, v) (renew-IsSound o new s image nz p e h)

  -- The mode of the colour box uses a null pointer if no image was loaded yet.
  pub colormode_faults : (p : Picture F) → shown p ≡ none → colormode o minmaxbox p ≡ none
  unfolding colormode enter_mode
  colormode_faults p e = rw (e) refl
