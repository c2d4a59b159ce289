-- ===== src/Pixels/Choice.antt =====
-- `rawPixel` of common/rtimvBase.cpp chooses a function that its images can serve, and GetPixel of
-- server/rtimvServer.cpp reads inside the image.
use rtimv.Common.{
  ℕ, ◌+◌, ◌-◌, ◌*◌, ◌<◌, ◌≡◌, refl, Option, none, some, Bool, true, false, not, ◌&&◌, ◌||◌,
  if◌then◌else◌, ltb, u32, is_null, arith, Bool-cases, some_cancel, inl, inr, ◌∙◌, sym, subst, ap,
}
use native.Mathlib.Nat.{mod-eq_of_lt}
use rtimv.Stats.{Source}
use rtimv.Pixels.{
  PixelFloat, PixelF, pixel_no_cal, pixel_sub_dark, pixel_apply_mask, pixel_sub_dark_apply_mask,
  same_size, with_dark, with_mask, with_both, raw_pixel, pixel_at, evaluate, get_pixel,
}

abbrev pub chosen : Bool → Bool → PixelF
chosen true true = pixel_sub_dark_apply_mask
chosen true false = pixel_sub_dark
chosen false true = pixel_apply_mask
chosen false false = pixel_no_cal

guarded :
    (b : Bool) (x y : PixelF)
    → (b ≡ true → x ≡ y)
    → (if not b then none else some x) ≡ (if b then some y else none)
guarded true x y h = ap some (h refl)
guarded false x y h = refl

module _ {F : Type 0} where
  -- A correction that can be used with an image: there, valid and of the same size.
  abbrev pub is_usable : Source F → Option (Source F) → Bool
  is_usable i none = false
  is_usable i (some c) = same_size c i && c.is_valid

  -- A wanted correction that is absent does not disturb the other one; one that is there and unusable does.
  abbrev pub allows : Source F → Bool → Option (Source F) → Bool
  allows i wanted c = not wanted || is_null c || is_usable i c

  both_chosen :
      (i : Source F) (d m : Option (Source F))
      → with_both i d m
        ≡ chosen (is_usable i d && allows i true m) (is_usable i m && allows i true d)
  unfolding with_both
  both_chosen i none none = refl
  both_chosen i (some d) none = ground arith
  both_chosen i none (some m) = ground arith
  both_chosen i (some d) (some m) = ground arith

  dark_chosen :
      (i : Source F) (d m : Option (Source F))
      → i.is_valid ≡ true
      → with_dark i d ≡ chosen (is_usable i d && allows i false m) false
  unfolding with_dark
  dark_chosen i none m t = refl
  dark_chosen i (some d) m t = ground arith

  mask_chosen :
      (i : Source F) (d m : Option (Source F))
      → i.is_valid ≡ true
      → with_mask i m ≡ chosen false (is_usable i m && allows i false d)
  unfolding with_mask
  mask_chosen i d none t = refl
  mask_chosen i d (some m) t = ground arith

  -- With an image that is there and valid, the function is chosen by the corrections that are wanted and
  -- usable, each only if the other is not wanted, is absent or is usable too; without one none is.
  pub raw_pixel-chosen :
      (subtract_dark apply_mask : Bool) (i : Source F) (d m : Option (Source F))
      → raw_pixel subtract_dark apply_mask (record { image = some i; dark = d; mask = m }) ≡ (
          if i.is_valid
          then some (
              chosen
                (subtract_dark && is_usable i d && allows i apply_mask m)
                (apply_mask && is_usable i m && allows i subtract_dark d))
          else none)
  unfolding raw_pixel
  raw_pixel-chosen true true i d m = guarded i.is_valid _ _ (λ t. both_chosen i d m)
  raw_pixel-chosen true false i d m = guarded i.is_valid _ _ (λ t. dark_chosen i d m t)
  raw_pixel-chosen false true i d m = guarded i.is_valid _ _ (λ t. mask_chosen i d m t)
  raw_pixel-chosen false false i d m = guarded i.is_valid _ _ (λ t. refl)

  at_usable :
      (i : Source F) (o : Option (Source F)) (n : ℕ)
      → is_usable i o ≡ true
      → is_null (pixel_at o n) ≡ false
  at_usable i none n h = absurd (ground arith)
  at_usable i (some c) n h = refl

  evaluates :
      (o : PixelFloat F) (x y : Bool) (i : Source F) (d m : Option (Source F)) (n : ℕ)
      → (x ≡ true → is_usable i d ≡ true)
      → (y ≡ true → is_usable i m ≡ true)
      → is_null (evaluate o (chosen x y) (record { image = some i; dark = d; mask = m }) n) ≡ false
  unfolding evaluate
  evaluates o true true i none m n h k = absurd (ground arith)
  evaluates o true true i (some d) none n h k = absurd (ground arith)
  evaluates o true true i (some d) (some m) n h k = refl
  evaluates o true false i none m n h k = absurd (ground arith)
  evaluates o true false i (some d) m n h k = refl
  evaluates o false true i d none n h k = absurd (ground arith)
  evaluates o false true i d (some m) n h k = refl
  evaluates o false false i d m n h k = refl

  -- The function that is chosen, if one is, never uses an image that is not there.
  pub raw_pixel_evaluates :
      (o : PixelFloat F) (subtract_dark apply_mask : Bool) (i : Source F) (d m : Option (Source F))
      (n : ℕ) (p : PixelF)
      → raw_pixel subtract_dark apply_mask (record { image = some i; dark = d; mask = m }) ≡ some p
      → is_null (evaluate o p (record { image = some i; dark = d; mask = m }) n) ≡ false
  raw_pixel_evaluates o x y i d m n p h = elim (Bool-cases i.is_valid) [
    | inl t ↦
        subst
          (λ f. is_null (evaluate o f (record { image = some i; dark = d; mask = m }) n) ≡ false)
          (some_cancel _ p (sym (raw_pixel-chosen x y i d m ∙ rw (t) refl) ∙ h))
          (evaluates o (x && is_usable i d && allows i y m) (y && is_usable i m && allows i x d) i d
            m n (λ k. ground arith) (λ k. ground arith))
    | inr t ↦ absurd (no_function (sym (raw_pixel-chosen x y i d m ∙ rw (t) refl) ∙ h))
  ]
    where
      no_function : none ≡ some p → ⊥
      no_function e = ground arith

last_index : (n : ℕ) → 0 < n → n < 4294967296 → u32 (n + 4294967295) ≡ n - 1
last_index n a p = omega arith

index_fits : (nx ny x y : ℕ) → x < nx → y < ny → y * nx + x < nx * ny
index_fits nx ny x y h k = grind arith

wraps_nothing :
    (nx ny x y : ℕ) → x < nx → y < ny → nx * ny < 4294967296 → u32 (u32 (y * nx) + x) ≡ y * nx + x
wraps_nothing nx ny x y h k m =
    let f = index_fits nx ny x y h k in
    let e : u32 (y * nx) ≡ y * nx = mod-eq_of_lt (omega arith) in
    rw (e) (mod-eq_of_lt (omega arith))

-- Of an image that is connected and has pixels, fewer than 2 ^ 32 of them, GetPixel reads exactly the pixels
-- inside, each at its own index; other positions are answered as not valid.
pub get_pixel_within :
    (nx ny x y : ℕ)
    → 0 < nx
    → 0 < ny
    → nx < 4294967296
    → ny < 4294967296
    → nx * ny < 4294967296
    → get_pixel true nx ny x y ≡ (if ltb x nx && ltb y ny then some (y * nx + x) else none)
unfolding get_pixel
get_pixel_within nx ny x y a b p q h =
    rw (last_index nx a p, last_index ny b q)
      (elim (Bool-cases (ltb x nx && ltb y ny)) [
        | inl t ↦
            rw (t, inside t) (ap some (wraps_nothing nx ny x y (ground arith) (ground arith) h))
        | inr t ↦ rw (t, outside t) refl
      ])
  where
    inside : (ltb x nx && ltb y ny) ≡ true → (ltb (nx - 1) x || ltb (ny - 1) y) ≡ false
    inside t = ground arith

    outside : (ltb x nx && ltb y ny) ≡ false → (ltb (nx - 1) x || ltb (ny - 1) y) ≡ true
    outside t = ground arith
