-- ===== src/Picture/Coloring.antt =====
-- The colours of the pixels: `calcPixIndex_linear` to `calcPixIndex_square` and `mtxL_recolorImpl` of
-- common/rtimvBase.cpp.
use rtimv.Common.{
  ℕ, ◌+◌, ◌-◌, ◌*◌, Option, none, some, Bool, not, ◌&&◌, ◌==◌, if◌then◌else◌, u32, ◌>>=◌, pure,
  for_range,
}
use rtimv.Common.Int.{ℤ, pos}
use rtimv.Picture.{Numbers}
use rtimv.Picture.State.{Stretch, linear, log, pow, sqrt, square, Picture, shown, pixel_of}

-- `spread` is the colour `mincol + p * (maxcol - mincol) + 0.5`, as an `int`.
pub record Scaling (F : Type 0) : Type 0 where
  pub minus : F → F → F
  pub over : F → F → F
  pub times : F → F → F
  pub plus : F → F → F
  pub is_negative : F → Bool
  pub is_above_one : F → Bool
  pub one : F
  pub thousand : F
  pub log10 : F → F
  pub power : F → F → F
  pub root : F → F
  pub spread : ℤ → ℤ → F → ℤ

module _ {F : Type 0} (s : Scaling F) where
  -- The part in which the five functions differ.
  unfoldable pub stretched : Stretch → F → F
  stretched linear p = p
  stretched log p = s.over (s.log10 (s.plus (s.times p s.thousand) s.one)) (s.log10 s.thousand)
  stretched pow p = s.over (s.power s.thousand p) s.thousand
  stretched sqrt p = s.root p
  stretched square p = s.times p p

  abbrev pub at_most_one : F → F
  at_most_one p = if s.is_above_one p then s.one else p

  unfoldable pub calc_pix_index : Stretch → F → F → F → ℤ → ℤ → ℤ
  calc_pix_index t v low high a b =
      let p = s.over (s.minus v low) (s.minus high low) in
      if s.is_negative p then pos 0 else s.spread a b (at_most_one (stretched t p))

abbrev pub set_pixel : ℕ → ℕ → ℤ → (ℕ → ℕ → ℤ) → ℕ → ℕ → ℤ
set_pixel x y c q i j = if i == x && j == y then c else q i j

abbrev pub set_if : ℕ → ℕ → Option ℤ → (ℕ → ℕ → ℤ) → ℕ → ℕ → ℤ
set_if x y none q = q
set_if x y (some c) q = set_pixel x y c q

-- The two loops over the pixels. The body sets the pixel, from the bottom row on, or leaves it.
unfoldable pub paint : ℕ → ℕ → (ℕ → ℕ → Option ℤ) → (ℕ → ℕ → ℤ) → ℕ → ℕ → ℤ
paint nx ny color q =
    for_range ny 0 (λ i q. for_range nx 0 (λ j q. set_if j (ny - i - 1) (color j i) q) q) q

module _ {F D : Type 0} (o : Numbers F D) (s : Scaling F) where
  -- The body of the first loops.
  unfoldable pub color_of : Picture F → F → ℤ
  color_of p v =
      if not (o.arithmetic.is_finite v)
      then p.colors.nan_color
      else if o.is_equal p.min_scale p.max_scale
      then pos 0
      else calc_pix_index s p.stretch v p.min_scale p.max_scale p.colors.min_color
          p.colors.max_color

  -- The body of the second loops, over `satPixel`.
  unfoldable pub saturation_of : Picture F → ℕ → ℕ → Option ℤ
  saturation_of p i j =
      if p.sat_data (u32 (u32 (j * p.nx) + i)) == 1 then some p.colors.sat_color else none

  unfoldable pub recolor_impl : Picture F → Option (Picture F)
  recolor_impl p = elim p.qim [
    | none ↦ some p
    | some q ↦ do
      pixels ← shown p
      let first = paint p.nx p.ny (λ j i. some (color_of p (pixel_of p pixels j i))) q
      pure (record p {
        qim = some (if p.apply_sat_mask then paint p.nx p.ny (saturation_of p) first else first);
      })
  ]
