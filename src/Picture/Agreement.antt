-- ===== src/Picture/Agreement.antt =====
-- `mtxL_colormode` and `mtxUL_changeImdata` of common/rtimvBase.cpp look through the colour box in
-- two orders, with two tests for a box of no finite pixel.
use rtimv.Common.{ℕ, ◌≡◌, refl, true, false, List, [], if_cases, All, Among, sym, subst, ◌∙◌}
use rtimv.Box.{Box}
use rtimv.Picture.{
  Numbers, Range, visited, columns_of, rows_of, no_range, scan, scan_rows, scan_columns, if_finite,
}
use rtimv.Picture.Scans.{IsFloat, finite, Bounds, scan-Bounds}
use rtimv.Picture.Boxes.{
  turned, Among-finite, finite_source, no_member, no_values-Bounds, AllFinite, low_attained,
  high_attained, same_range, not_start,
}

module _ {F D : Type 0} (o : Numbers F D) where
  -- The finite pixels of a box, by rows.
  abbrev pub box_pixels : (ℕ → ℕ → F) → Box → List F
  box_pixels at b = finite o (visited (λ j i. at i j) (columns_of b) (rows_of b))

  abbrev by_columns : (ℕ → ℕ → F) → Box → List F
  by_columns at b = finite o (visited at (rows_of b) (columns_of b))

  -- The range of values that are there: no value lies outside, and both ends are values.
  pub record IsRange (vs : List F) (r : Range F) : Type 0 where
    pub below : All (λ v. o.arithmetic.less v r.low ≡ false) vs
    pub above : All (λ v. o.arithmetic.less r.high v ≡ false) vs
    pub low : Among r.low vs
    pub high : Among r.high vs

  box_finite : (at : ℕ → ℕ → F) (b : Box) → AllFinite o (box_pixels at b)
  box_finite at b a h = (finite_source o a (visited (λ j i. at i j) (columns_of b) (rows_of b)) h).1

  to_columns :
      (at : ℕ → ℕ → F) (b : Box) (a : F) → Among a (box_pixels at b) → Among a (by_columns at b)
  to_columns at b a h =
      let s = finite_source o a (visited (λ j i. at i j) (columns_of b) (rows_of b)) h in
      Among-finite o a (visited at (rows_of b) (columns_of b))
        (turned (λ j i. at i j) a (columns_of b) (rows_of b) s.0) s.1

  to_rows :
      (at : ℕ → ℕ → F) (b : Box) (a : F) → Among a (by_columns at b) → Among a (box_pixels at b)
  to_rows at b a h =
      let s = finite_source o a (visited at (rows_of b) (columns_of b)) h in
      Among-finite o a (visited (λ j i. at i j) (columns_of b) (rows_of b))
        (turned at a (rows_of b) (columns_of b) s.0) s.1

module _ {F D : Type 0} (o : Numbers F D) (laws : IsFloat o) (at : ℕ → ℕ → F) (b : Box) where
  rows-Bounds : Bounds o (box_pixels o at b) (scan_rows o at b)
  unfolding scan_rows
  rows-Bounds = scan-Bounds o laws (visited (λ j i. at i j) (columns_of b) (rows_of b))

  abbrev columns_scan : Range F
  columns_scan = scan o (visited at (rows_of b) (columns_of b)) (no_range o)

  columns-Bounds : Bounds o (by_columns o at b) columns_scan
  columns-Bounds = scan-Bounds o laws (visited at (rows_of b) (columns_of b))

  columns_found : (v : F) → Among v (box_pixels o at b) → scan_columns o at b ≡ columns_scan
  unfolding scan_columns
  columns_found v m =
      if_cases (λ r. r ≡ columns_scan) (o.is_equal columns_scan.low o.largest)
        (λ e.
          if_cases (λ r. r ≡ columns_scan) (o.is_equal columns_scan.high o.lowest)
            (λ f. absurd (
              not_start o laws v (by_columns o at b) columns_scan
                (λ a h. box_finite o at b a (to_rows o at b a h)) (to_columns o at b v m)
                columns-Bounds (laws.equal_sound _ _ e) (laws.equal_sound _ _ f)))
            (λ f. refl))
        (λ e. refl)

  -- With a finite pixel in the box, both loops find the same range, that of the finite pixels.
  pub scans_agree :
      (v : F)
      → Among v (box_pixels o at b)
      → (scan_columns o at b ≡ if_finite o (scan_rows o at b))
        × IsRange o (box_pixels o at b) (if_finite o (scan_rows o at b))
  scans_agree v m =
      let low = low_attained o laws v _ (scan_rows o at b) (box_finite o at b) m rows-Bounds in
      let high = high_attained o laws v _ (scan_rows o at b) (box_finite o at b) m rows-Bounds in
      let kept = kept_finite (box_finite o at b _ high) (box_finite o at b _ low) in
      (
        columns_found v m
            ∙ same_range o laws v (by_columns o at b) (box_pixels o at b) columns_scan
                (scan_rows o at b) (λ a h. box_finite o at b a (to_rows o at b a h))
                (to_rows o at b) (to_columns o at b) (to_columns o at b v m) columns-Bounds
                rows-Bounds
            ∙ sym kept,
        subst (IsRange o (box_pixels o at b)) (sym kept) (record {
          below = rows-Bounds.below;
          above = rows-Bounds.above;
          low = low;
          high = high;
        }),
      )
    where
      kept_finite :
          {r : Range F}
          → o.arithmetic.is_finite r.high ≡ true
          → o.arithmetic.is_finite r.low ≡ true
          → if_finite o r ≡ r
      kept_finite h k = unfold if_finite in rw (h, k) refl

  -- With none, the one writes 0 twice, and the other keeps the values that its loops start from.
  pub scans_differ :
      box_pixels o at b ≡ []
      → (scan_columns o at b ≡ record { low = o.arithmetic.nought; high = o.arithmetic.nought })
        × (if_finite o (scan_rows o at b) ≡ record { low = o.largest; high = o.lowest })
  unfolding scan_columns if_finite
  scans_differ e =
      let rows : scan_rows o at b ≡ no_range o =
        no_values-Bounds o laws (scan_rows o at b)
          (subst (λ vs. Bounds o vs (scan_rows o at b)) e rows-Bounds) in
      let columns : columns_scan ≡ no_range o = no_values-Bounds o laws columns_scan (
        subst (λ vs. Bounds o vs columns_scan)
          (no_member _ (λ a h. subst (λ vs. Among a vs) e (to_rows o at b a h))) columns-Bounds) in
      (
        rw
            (
              columns,
              laws.equal_same o.largest laws.largest_finite,
              laws.equal_same o.lowest laws.lowest_finite,
            )
            refl,
        rw (rows, laws.lowest_finite, laws.largest_finite) refl,
      )
