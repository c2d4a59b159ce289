-- ===== src/Picture/Scales.antt =====
-- The scale that `mtxUL_changeImdata` of common/rtimvBase.cpp gives to a new image.
use rtimv.Common.{
  ℕ, ◌≡◌, refl, some, Bool, true, false, ◌||◌, List, if_cases, is_null, Among, arith, sym, subst,
}
use rtimv.Box.{Box, normalize_color_box}
use rtimv.Stats.{Source}
use rtimv.Picture.{Range, span, visited, no_range, scan, if_finite}
use rtimv.Picture.State.{Picture, is_box, pixel_of}
use rtimv.Picture.Scans.{IsFloat, finite, scan-Bounds}
use rtimv.Picture.Boxes.{finite_source, low_attained, high_attained}
use rtimv.Picture.Agreement.{IsRange, box_pixels, scans_agree}
use rtimv.Picture.Change.{Fresh, Setting, Inputs}
use rtimv.Picture.Update.{rescale, is_resized, renew, change_imdata}

module _ {F D : Type 0} (o : Setting F D) where
  -- The finite pixels of the whole image.
  abbrev pub image_pixels : (ℕ → F) → Picture F → List F
  image_pixels pixels p =
      finite o.numbers (visited (λ j i. pixel_of p pixels i j) (span p.nx 0) (span p.ny 0))

  abbrev pub box_of : Picture F → Box
  box_of p = normalize_color_box p.nx p.ny p.color_box

  -- The ranges and the scale of a picture `q` that was `p`.
  pub record IsRescaled (resized : Bool) (pixels : ℕ → F) (p q : Picture F) : Type 0 where
    pub image :
        IsRange o.numbers (image_pixels pixels p) (record { low = q.min_image; high = q.max_image })
    pub follows :
        is_box p.mode ≡ false
        → (resized || p.auto_scale) ≡ true
        → (q.min_scale ≡ q.min_image) × (q.max_scale ≡ q.max_image)
    pub stays :
        is_box p.mode ≡ false
        → (resized || p.auto_scale) ≡ false
        → (q.min_scale ≡ p.min_scale) × (q.max_scale ≡ p.max_scale)
    pub box :
        is_box p.mode ≡ true
        → (v : F) → Among v (box_pixels o.numbers (pixel_of p pixels) (box_of p))
        → IsRange o.numbers
            (box_pixels o.numbers (pixel_of p pixels) (box_of p))
            (record { low = q.min_scale; high = q.max_scale })

  kept_finite :
      (r : Range F)
      → o.numbers.arithmetic.is_finite r.high ≡ true
      → o.numbers.arithmetic.is_finite r.low ≡ true
      → if_finite o.numbers r ≡ r
  unfolding if_finite
  kept_finite r h k = rw (h, k) refl

  image-IsRange :
      (laws : IsFloat o.numbers) (vs : List F) (v : F)
      → Among v (finite o.numbers vs)
      → IsRange o.numbers
          (finite o.numbers vs)
          (if_finite o.numbers (scan o.numbers vs (no_range o.numbers)))
  image-IsRange laws vs v m =
      let b = scan-Bounds o.numbers laws vs in
      let f = λ (a : F) (h : Among a (finite o.numbers vs)). (finite_source o.numbers a vs h).1 in
      let low = low_attained o.numbers laws v _ _ f m b in
      let high = high_attained o.numbers laws v _ _ f m b in
      subst (IsRange o.numbers (finite o.numbers vs)) (sym (kept_finite _ (f _ high) (f _ low)))
        (record { below = b.below; above = b.above; low = low; high = high })

  -- On an image with a finite pixel, the range of the image is that of its finite pixels. In the mode
  -- of the colour box the scale becomes the range of the finite pixels of the box, if it has one. In
  -- the other modes it becomes the range of the image if the size changed or the picture scales
  -- itself, and otherwise stays.
  pub rescale-IsRescaled :
      (laws : IsFloat o.numbers) (resized : Bool) (pixels : ℕ → F) (p : Picture F) (v : F)
      → Among v (image_pixels pixels p)
      → IsRescaled resized pixels p (rescale o resized pixels p)
  unfolding rescale
  rescale-IsRescaled laws resized pixels p v m =
      let image = image-IsRange laws _ v m in
      if_cases (IsRescaled resized pixels p) (is_box p.mode)
        (λ e. record {
          image = image;
          follows = λ f g. absurd (clash e f);
          stays = λ f g. absurd (clash e f);
          box = λ f w n. (scans_agree o.numbers laws (pixel_of p pixels) (box_of p) w n).1;
        })
        (λ e.
          if_cases (IsRescaled resized pixels p) (resized || p.auto_scale)
            (λ g. record {
              image = image;
              follows = λ f h. (refl, refl);
              stays = λ f h. absurd (clash g h);
              box = λ f w n. absurd (clash f e);
            })
            (λ g. record {
              image = image;
              follows = λ f h. absurd (clash h g);
              stays = λ f h. (refl, refl);
              box = λ f w n. absurd (clash f e);
            }))
    where
      clash : {b : Bool} → b ≡ true → b ≡ false → ⊥
      clash h k = cc

  -- A valid image of the same size as the picture is taken over without a look at its number of
  -- planes: with any two numbers the result is the same.
  pub change_ignores_planes :
      (new : Fresh F) (s : Inputs F) (image : Source F) (nz other : ℕ) (changing newdata : Bool)
      (p : Picture F)
      → s.base.image ≡ some image
      → image.width ≡ p.nx
      → image.height ≡ p.ny
      → is_null p.qim ≡ false
      → change_imdata o new s nz changing newdata p ≡ change_imdata o new s other changing newdata p
  unfolding change_imdata renew
  change_ignores_planes new s image nz other changing newdata p e x y h = rw (e, same) refl
    where
      same : is_resized o image p ≡ false
      same = ground (arith, x, y, h)
