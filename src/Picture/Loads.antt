-- ===== src/Picture/Loads.antt =====
-- What `mtxUL_changeImdata` of common/rtimvBase.cpp takes over from its images.
use rtimv.Common.{
  ℕ, ◌*◌, ◌<◌, ◌≡◌, refl, Option, none, some, Bool, false, ◌&&◌, ◌||◌, ◌==◌, if◌then◌else◌,
  Bool-cases, inl, inr, u32, arith, ap, ◌∙◌,
}
use rtimv.Stats.{Source}
use rtimv.Pixels.{PixelF, raw_pixel, evaluate}
use rtimv.Picture.State.{Picture}
use rtimv.Picture.Change.{Setting, Inputs}
use rtimv.Picture.Loading.{Loaded, mark_pixels, load_images}
use rtimv.Picture.Soundness.{Gives, Gives-bind}
use rtimv.Picture.Saturation.{flagged, hits, IsLoaded, load_pixels-IsLoaded, mark_pixels-IsMarked}

module _ {F D : Type 0} (o : Setting F D) where
  -- The saturation image is valid, of the right size, and positive at a pixel.
  abbrev pub is_marked : ℕ → ℕ → Option (Source F) → ℕ → Bool
  is_marked nx ny none n = false
  is_marked nx ny (some s) n =
      s.is_valid && nx == s.width && ny == s.height && o.numbers.is_positive (s.pixel n)

  -- The pixels and flags of a picture after an image was loaded.
  pub record IsLoad (f : PixelF) (s : Inputs F) (i : Source F) (count : ℕ) (p q : Picture F)
      : Type 0 where
    pub values : ℕ → F
    pub raw : q.cal_raw ≡ some values
    pub value : (n : ℕ) → n < count → evaluate o.floats f s.base n ≡ some (values n)
    pub flag :
        (n : ℕ)
        → n < count
        → q.sat_data n
          ≡ (if hits o p.sat_level i n || is_marked p.nx p.ny s.saturation n then 1 else 0)
    pub saturated : q.saturated ≡ flagged q.sat_data count

  marked_all :
      (f : PixelF) (s : Inputs F) (i : Source F) (p : Picture F) (m : Option (Source F))
      (l : Loaded F)
      → IsLoaded o p.sat_level f s.base i (u32 (p.nx * p.ny)) l
      → IsLoad f
          (record s { saturation = m })
          i
          (u32 (p.nx * p.ny))
          p
          (record p {
            cal_raw = some (mark_pixels o p.nx p.ny m l).values;
            sat_data = (mark_pixels o p.nx p.ny m l).flags;
            saturated = (mark_pixels o p.nx p.ny m l).saturated;
          })
  unfolding mark_pixels
  marked_all f s i p none l h = record {
    values = l.values;
    raw = refl;
    value = h.values;
    flag = λ n k. h.flags n k ∙ ground arith;
    saturated = h.saturated;
  }
  marked_all f s i p (some m) l h =
      elim (Bool-cases (m.is_valid && p.nx == m.width && p.ny == m.height)) [
        | inl e ↦
            let g =
              mark_pixels-IsMarked o (hits o p.sat_level i) m (u32 (p.nx * p.ny)) l h.flags
                h.saturated in
            rw (e) (record {
              values = l.values;
              raw = ap some g.same;
              value = h.values;
              flag = λ n k. g.flags n k ∙ ground (arith, e);
              saturated = g.saturated;
            })
        | inr e ↦ rw (e) (record {
          values = l.values;
          raw = refl;
          value = h.values;
          flag = λ n k. h.flags n k ∙ ground (arith, e);
          saturated = h.saturated;
        })
      ]

  -- Once a function is chosen for the pixels of an image, loading it succeeds. Each pixel has the
  -- value of that function, and is flagged 1 exactly if the image itself reaches the saturation level
  -- there or a saturation image that is valid and of the same size is positive there, and otherwise
  -- 0; the number of saturated pixels is that of the flags.
  pub load_images_lem :
      (f : PixelF) (x y : Bool) (s : Inputs F) (i : Source F) (old : ℕ → F) (p : Picture F)
      → s.base.image ≡ some i
      → raw_pixel x y s.base ≡ some f
      → Gives (IsLoad f s i (u32 (p.nx * p.ny)) p) (load_images o f s old p)
  unfolding load_images
  load_images_lem f x y s i old p e h =
      Gives-bind (IsLoaded o p.sat_level f s.base i (u32 (p.nx * p.ny)))
        (IsLoad f s i (u32 (p.nx * p.ny)) p) _ _
        (load_pixels-IsLoaded o p.sat_level f x y s.base i (u32 (p.nx * p.ny)) old p.sat_data e h)
        (λ l k. marked_all f s i p s.saturation l k)
