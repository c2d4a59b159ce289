-- ===== src/Picture/Painting.antt =====
-- What `mtxL_recolorImpl` of common/rtimvBase.cpp paints, pixel by pixel.
use rtimv.Common.{
  ℕ, suc, ◌+◌, ◌-◌, ◌*◌, ◌<◌, ◌≡◌, refl, Option, none, some, Bool, true, false, ◌&&◌, ◌==◌,
  if◌then◌else◌, u32, for_range, for_range_inv, arith, ltb, ◌∙◌,
}
use rtimv.Common.Int.{ℤ}
use rtimv.Picture.{Numbers}
use rtimv.Picture.State.{Picture, shown, pixel_of}
use rtimv.Picture.Coloring.{Scaling, set_if, paint, color_of, saturation_of, recolor_impl}

abbrev over : Option ℤ → ℤ → ℤ
over none k = k
over (some c) k = c

-- Rows below `i`, and in row `i` the columns below `j`, are painted; the rest is not.
abbrev Painted : ℕ → ℕ → (ℕ → ℕ → Option ℤ) → (ℕ → ℕ → ℤ) → ℕ → ℕ → (ℕ → ℕ → ℤ) → Type 0
Painted nx ny color q i j r =
    (x y : ℕ)
    → x < nx
    → y < ny
    → r x (ny - y - 1) ≡ (
        if ltb y i
        then over (color x y) (q x (ny - y - 1))
        else if y == i && ltb x j
        then over (color x y) (q x (ny - y - 1))
        else q x (ny - y - 1))

set_if-eq :
    (j k : ℕ) (c : Option ℤ) (r : ℕ → ℕ → ℤ) (x z : ℕ)
    → set_if j k c r x z ≡ (if x == j && z == k then over c (r x z) else r x z)
set_if-eq j k none r x z = ground arith
set_if-eq j k (some c) r x z = refl

module _ (nx ny : ℕ) (color : ℕ → ℕ → Option ℤ) (q : ℕ → ℕ → ℤ) where
  set_one :
      (i j : ℕ) (r : ℕ → ℕ → ℤ)
      → i < ny
      → Painted nx ny color q i j r
      → Painted nx ny color q i (suc j) (set_if j (ny - i - 1) (color j i) r)
  set_one i j r h p x y a b =
      set_if-eq j (ny - i - 1) (color j i) r x (ny - y - 1) ∙ at_pixel (p x y a b)
    where
      at_pixel :
          r x (ny - y - 1) ≡ (
            if ltb y i
            then over (color x y) (q x (ny - y - 1))
            else if y == i && ltb x j
            then over (color x y) (q x (ny - y - 1))
            else q x (ny - y - 1))
          → (if x == j && (ny - y - 1) == (ny - i - 1)
              then over (color j i) (r x (ny - y - 1))
              else r x (ny - y - 1))
            ≡ (if ltb y i
                then over (color x y) (q x (ny - y - 1))
                else if y == i && ltb x (suc j)
                then over (color x y) (q x (ny - y - 1))
                else q x (ny - y - 1))
      at_pixel e = ground arith

  row :
      (i : ℕ) (r : ℕ → ℕ → ℤ)
      → i < ny
      → Painted nx ny color q i 0 r
      → Painted nx ny color q i nx (for_range nx 0 (λ j q. set_if j (ny - i - 1) (color j i) q) r)
  row i r h p =
      for_range_inv (λ j r. Painted nx ny color q i j r) nx _ nx 0 r (omega arith)
        (λ j r lo hi p. set_one i j r h p) p

  next_row :
      (i : ℕ) (r : ℕ → ℕ → ℤ) → Painted nx ny color q i nx r → Painted nx ny color q (suc i) 0 r
  next_row i r p x y a b = p x y a b ∙ ground arith

  all_rows : Painted nx ny color q ny 0 (paint nx ny color q)
  unfolding paint
  all_rows =
      for_range_inv (λ i r. Painted nx ny color q i 0 r) ny _ ny 0 q (omega arith)
        (λ i r lo hi p.
          next_row i (for_range nx 0 (λ j t. set_if j (ny - i - 1) (color j i) t) r) (row i r hi p))
        (λ x y a b. ground arith)

  pub paint_lem :
      (x y : ℕ)
      → x < nx
      → y < ny
      → paint nx ny color q x (ny - y - 1) ≡ over (color x y) (q x (ny - y - 1))
  paint_lem x y a b = all_rows x y a b ∙ ground arith

marked : (b : Bool) (c k l : ℤ) → k ≡ l → over (if b then some c else none) k ≡ (if b then c else l)
marked true c k l e = refl
marked false c k l e = e

module _ {F D : Type 0} (o : Numbers F D) (s : Scaling F) where
  -- The colour that a pixel is to have.
  abbrev pub intended : Picture F → (ℕ → F) → ℕ → ℕ → ℤ
  intended p pixels x y =
      if p.apply_sat_mask && p.sat_data (u32 (u32 (y * p.nx) + x)) == 1
      then p.colors.sat_color
      else color_of o s p (pixel_of p pixels x y)

  -- Coloring the pixels that are shown gives each its own colour, upside down: that of a saturated
  -- pixel if these are marked, and otherwise that of its value. Nothing but the colours changes.
  pub recolor_impl_lem :
      (p : Picture F) (q : ℕ → ℕ → ℤ) (pixels : ℕ → F)
      → p.qim ≡ some q
      → shown p ≡ some pixels
      → (r : ℕ → ℕ → ℤ) × (recolor_impl o s p ≡ some (record p { qim = some r }))
        × ((x y : ℕ) → x < p.nx → y < p.ny → r x (p.ny - y - 1) ≡ intended p pixels x y)
  unfolding recolor_impl saturation_of
  recolor_impl_lem p q pixels e h =
      (painted p.apply_sat_mask, rw (e, h) refl, each p.apply_sat_mask)
    where
      first : ℕ → ℕ → ℤ
      first = paint p.nx p.ny (λ j i. some (color_of o s p (pixel_of p pixels j i))) q

      painted : Bool → ℕ → ℕ → ℤ
      painted b = if b then paint p.nx p.ny (saturation_of o s p) first else first

      each :
          (b : Bool) (x y : ℕ)
          → x < p.nx
          → y < p.ny
          → painted b x (p.ny - y - 1) ≡ (
              if b && p.sat_data (u32 (u32 (y * p.nx) + x)) == 1
              then p.colors.sat_color
              else color_of o s p (pixel_of p pixels x y))
      each true x y a b =
          paint_lem p.nx p.ny (saturation_of o s p) first x y a b
          ∙ marked (p.sat_data (u32 (u32 (y * p.nx) + x)) == 1) _ _ _
              (paint_lem p.nx p.ny (λ j i. some (color_of o s p (pixel_of p pixels j i))) q x y a b)
      each false x y a b =
          paint_lem p.nx p.ny (λ j i. some (color_of o s p (pixel_of p pixels j i))) q x y a b
