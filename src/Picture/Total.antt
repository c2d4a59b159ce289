-- ===== src/Picture/Total.antt =====
-- What is done to a picture in common/rtimvBase.cpp, step by step, succeeds once an image was loaded.
use rtimv.Common.{
  ℕ, ◌≡◌, inl, inr, refl, Option, none, some, Bool, false, not, ◌&&◌, ◌||◌, ◌==◌, if_cases, if_both,
  Bool-cases, ◌>>=◌, is_null, arith, sym, ap, subst, for_range_inv, option_cases,
}
use rtimv.Pixels.{BaseImages, PixelFloat, PixelF, raw_pixel, pixel_at, evaluate}
use rtimv.Pixels.Choice.{raw_pixel_evaluates}
use rtimv.Stats.{Source}
use rtimv.Picture.State.{Picture, is_user, shown}
use rtimv.Picture.Change.{Fresh, Setting, Inputs, set_imsize, at_least_one, filtered}
use rtimv.Picture.Loading.{load_pixel, load_pixels, load_images}
use rtimv.Picture.Update.{
  snapshot_global_stats, update_global_stats, finish, take_over, is_resized, renew, change_imdata,
}
use rtimv.Picture.State.{post_change_imdata, post_recolor, post_zoom, global_stats_updated}
use rtimv.Picture.Loading.{Loaded}
use rtimv.Picture.Soundness.{
  Gives, Gives-weaken, Gives-bind, Gives-there, IsSound, tell-IsSound, recolor_impl-IsSound,
  calc_stats_box-IsSound, filtered-IsSound, rescale-IsSound,
}

pub chosen_runs :
    {F : Type 0} (o : PixelFloat F) (f : PixelF) (s : BaseImages F) (i : Source F)
    → s.image ≡ some i
    → (x y : Bool) → raw_pixel x y s ≡ some f
    → (n : ℕ) → is_null (evaluate o f s n) ≡ false
chosen_runs o f s i e x y h n =
    subst (λ b. is_null (evaluate o f b n) ≡ false) (sym same)
      (raw_pixel_evaluates o x y i s.dark s.mask n f (subst (λ b. raw_pixel x y b ≡ some f) same h))
  where
    same : s ≡ record { image = some i; dark = s.dark; mask = s.mask }
    same = λ k. record { image = e k; dark = s.dark; mask = s.mask }

last_false : (a b : Bool) → (a || b) ≡ false → b ≡ false
last_false a b e = ground arith

there_bind :
    {A B : Type 0} (r : Option A) (f : A → Option B)
    → is_null r ≡ false
    → ((a : A) → is_null (f a) ≡ false)
    → is_null (r >>= f) ≡ false
there_bind none f h k = absurd (ground arith)
there_bind (some a) f h k = k a

module _ {F D : Type 0} (o : Setting F D) where
  finish-IsSound : (resized : Bool) (p : Picture F) → IsSound p → Gives IsSound (finish o resized p)
  unfolding finish update_global_stats
  finish-IsSound resized p h = if_both (Gives IsSound) (is_null p.qim) h (
      Gives-there IsSound p.cal_raw _ h.raw (λ raw k.
        let ready = filtered-IsSound o o.work raw p h in
        Gives-there IsSound (shown (filtered o.work raw p)) _ ready.pointer (λ pixels l.
          Gives-bind IsSound IsSound _ _
            (calc_stats_box-IsSound o.numbers o.scaling _
              (rescale-IsSound o resized pixels _ ready))
            (λ boxed b.
              Gives-bind IsSound IsSound _ _
                (recolor_impl-IsSound o.numbers o.scaling _ (
                  if_both IsSound boxed.monitor.result.enabled
                    (record {
                      raw = b.raw;
                      colors = b.colors;
                      pointer = b.pointer;
                      exclusive = b.exclusive;
                    })
                    b))
                (λ colored c.
                  let done =
                    tell-IsSound post_change_imdata _ (tell-IsSound post_recolor colored c) in
                  let zoomed = if_both IsSound resized (tell-IsSound post_zoom _ done) done in
                  if_both IsSound _ (tell-IsSound global_stats_updated _ zoomed) zoomed)))))

  -- A function that is chosen can read the image itself, too.
  load_pixel_runs :
      (level : F) (f : PixelF) (x y : Bool) (i : Source F) (s : BaseImages F) (n : ℕ) (l : Loaded F)
      → s.image ≡ some i
      → raw_pixel x y s ≡ some f
      → is_null (load_pixel o level f s n l) ≡ false
  unfolding load_pixel evaluate
  load_pixel_runs level f x y i s n l e h =
      there_bind _ _ (ap is_null (ap (λ q. pixel_at q n) e))
        (λ plain. there_bind _ _ (chosen_runs o.floats f s i e x y h n) (λ value. refl))

  load_pixels_run :
      (level : F) (f : PixelF) (x y : Bool) (i : Source F) (s : BaseImages F) (count : ℕ)
      (l : Loaded F)
      → s.image ≡ some i
      → raw_pixel x y s ≡ some f
      → is_null (load_pixels o level f s count l) ≡ false
  unfolding load_pixels
  load_pixels_run level f x y i s count l e h =
      for_range_inv (λ k r. is_null r ≡ false) count _ count 0 (some l) (omega arith)
        (λ k r lo hi t. there_bind r _ t (λ m. load_pixel_runs level f x y i s k m e h)) refl

  load_images-IsSound :
      (f : PixelF) (x y : Bool) (i : Source F) (s : Inputs F) (old : ℕ → F) (p : Picture F)
      → s.base.image ≡ some i
      → raw_pixel x y s.base ≡ some f
      → IsSound p
      → Gives IsSound (load_images o f s old p)
  unfolding load_images
  load_images-IsSound f x y i s old p e h k =
      Gives-there IsSound _ _ (load_pixels_run p.sat_level f x y i s.base _ _ e h) (λ l m. record {
        raw = refl;
        colors = k.colors;
        pointer = ground (arith, k.pointer);
        exclusive = k.exclusive;
      })

  -- Nothing may be there yet.
  pub record IsReady (p : Picture F) : Type 0 where
    pub exclusive : (is_user p.mode && p.auto_scale) ≡ false
    pub sound : is_null p.qim ≡ false → IsSound p

  finish_ready :
      (P : Picture F → Type 0) (p : Picture F)
      → ((q : Picture F) → IsSound q → P q)
      → IsReady p
      → P p
      → Gives P (finish o false p)
  finish_ready P p f h k = elim (Bool-cases (is_null p.qim)) [
    | inl e ↦ unfold finish in rw (e) k
    | inr e ↦ Gives-weaken f _ (finish-IsSound false p (h.sound e))
  ]

  set_imsize-IsSound :
      (new : Fresh F) (x y z : ℕ) (p : Picture F) → IsReady p → IsSound (set_imsize new x y z p)
  unfolding set_imsize
  set_imsize-IsSound new x y z p h =
      if_cases IsSound
        (not (p.nx == at_least_one x)
          || not (p.ny == at_least_one y)
          || is_null p.cal_raw
          || is_null p.qim)
        (λ e. record { raw = refl; colors = refl; pointer = refl; exclusive = h.exclusive })
        (λ e.
          let k = h.sound (last_false _ _ e) in
          record { raw = k.raw; colors = k.colors; pointer = k.pointer; exclusive = k.exclusive })

  snapshot-IsSound :
      (s : Inputs F) (p : Picture F) → IsSound p → IsSound (snapshot_global_stats o s p)
  unfolding snapshot_global_stats
  snapshot-IsSound s p g = record {
    raw = g.raw;
    colors = g.colors;
    pointer = g.pointer;
    exclusive = g.exclusive;
  }

  take_over-IsSound :
      (s : Inputs F) (image : Source F) (resized : Bool) (p : Picture F)
      → s.base.image ≡ some image
      → IsSound p
      → Gives IsSound (take_over o s image resized p)
  unfolding take_over
  take_over-IsSound s image resized p e h =
      option_cases (Gives IsSound) (raw_pixel p.subtract_dark p.apply_mask s.base) (λ _. h)
        (λ f k.
          if_both (Gives IsSound) (not (p.nx == image.width) || not (p.ny == image.height)) h (
            Gives-there IsSound p.cal_raw _ h.raw (λ raw m.
              Gives-bind IsSound IsSound _ _
                (load_images-IsSound f p.subtract_dark p.apply_mask image s raw p e k h)
                (λ l g.
                  finish-IsSound resized _
                    (if_both IsSound l.monitor.result.enabled (snapshot-IsSound s l g) g)))))

  pub renew-IsSound :
      (new : Fresh F) (s : Inputs F) (image : Source F) (nz : ℕ) (p : Picture F)
      → s.base.image ≡ some image
      → IsReady p
      → Gives IsSound (renew o new s image nz p)
  unfolding renew
  renew-IsSound new s image nz p e h = take_over-IsSound s image (is_resized o image p) _ e (
      if_cases IsSound (is_resized o image p)
        (λ _. set_imsize-IsSound new image.width image.height nz p h)
        (λ k. h.sound (last_false _ _ k)))

  pub change_imdata-Gives :
      (P : Picture F → Type 0) (new : Fresh F) (s : Inputs F) (nz : ℕ) (changing newdata : Bool)
      (p : Picture F)
      → ((q : Picture F) → IsSound q → P q)
      → IsReady p
      → P p
      → Gives P (change_imdata o new s nz changing newdata p)
  unfolding change_imdata
  change_imdata-Gives P new s nz changing newdata p f h k = if_both (Gives P) changing k (
      if_both (Gives P) (not (newdata || p.monitor.refresh)) (finish_ready P p f h k) (
        option_cases (Gives P) s.base.image (λ _. k)
          (λ image e.
            if_both (Gives P) (not image.is_valid) k
              (Gives-weaken f _ (renew-IsSound new s image nz p e h)))))
