-- ===== src/Handlers/Boxes.antt =====
-- What ColorBox and StatsBox of server/rtimvServer.cpp answer.
use rtimv.Common.{ℕ, ◌≤◌, ◌<◌, ◌≡◌, refl, some, true, false, ◌||◌, leb, Among, arith, sym, subst}
use rtimv.Common.Int.{ℤ}
use rtimv.Box.{Box, normalize_stats_box, normalize_color_box}
use rtimv.Picture.{Range, scan_columns}
use rtimv.Picture.State.{
  Picture, StatsBox, minmaxbox, shown, pixel_of, with_scale, tell, post_colormode, post_recolor,
}
use rtimv.Picture.Scans.{IsFloat}
use rtimv.Picture.Agreement.{IsRange, box_pixels, scans_agree}
use rtimv.Picture.StatsBoxes.{IsBoxSummary, calc_stats_box_lem}
use rtimv.Picture.Painting.{recolor_impl_lem}
use rtimv.Picture.Change.{Setting}
use rtimv.Picture.Modes.{enter_mode, colormode}
use rtimv.Handlers.{BoxRequest, MinMax, box_of_request, color_box_call, stats_box_call}

module _ {F D : Type 0} (o : Setting F D) (laws : IsFloat o.numbers) where
  -- Of an image that is connected, with at least two columns and rows and its pixels there, a box whose
  -- second corner is right of and below the first is put inside the image, and the answer is valid and
  -- has that box with the statistics of its finite pixels. The picture keeps them.
  pub stats_box_call_lem :
      (r : BoxRequest) (p : Picture F) (pixels : ℕ → F)
      → r.left < r.right
      → r.top < r.bottom
      → 2 ≤ p.nx
      → 2 ≤ p.ny
      → shown p ≡ some pixels
      → (b : StatsBox F) × (stats_box_call o true r p ≡ some (record p { stats_box = b }, some b))
        × (b.enabled ≡ true)
        × (b.box ≡ normalize_stats_box p.nx p.ny (box_of_request r))
        × IsBoxSummary o.numbers (box_pixels o.numbers (pixel_of p pixels) b.box) b
  unfolding stats_box_call
  stats_box_call_lem r p pixels a c x y e =
      let asked : Picture F = record p {
        stats_box = record (p.stats_box) { enabled = true; box = box_of_request r };
      } in
      let s = calc_stats_box_lem o.numbers laws asked pixels refl x y e in
      (s.0, rw (in_order, s.1) refl, s.2, s.3, s.4)
    where
      in_order : (leb r.right r.left || leb r.bottom r.top) ≡ false
      in_order = ground arith

  -- Of an image that is connected, whose colours and pixels are there, with a finite pixel in the box
  -- that is put inside the image: the answer is valid, and its range is that of the finite pixels of
  -- the box. It is the range and the scale of the picture, which is in the mode of the box.
  pub color_box_call_lem :
      (r : BoxRequest) (p : Picture F) (pixels : ℕ → F) (q : ℕ → ℕ → ℤ) (v : F)
      → p.qim ≡ some q
      → shown p ≡ some pixels
      → Among v (
          box_pixels o.numbers
            (pixel_of p pixels)
            (normalize_color_box p.nx p.ny (box_of_request r)))
      → (t : Picture F) × (a : MinMax F) × (color_box_call o true r p ≡ some (t, a))
        × (a.is_valid ≡ true)
        × IsRange o.numbers
            (box_pixels o.numbers
              (pixel_of p pixels)
              (normalize_color_box p.nx p.ny (box_of_request r)))
            (record { low = a.min; high = a.max })
        × (t.color_box ≡ normalize_color_box p.nx p.ny (box_of_request r))
        × (t.color_min ≡ a.min)
        × (t.color_max ≡ a.max)
        × (t.min_scale ≡ a.min)
        × (t.max_scale ≡ a.max)
        × (t.mode ≡ minmaxbox)
  unfolding color_box_call colormode enter_mode
  color_box_call_lem r p pixels q v e h m =
      let painted = recolor_impl_lem o.numbers o.scaling entered q pixels e h in
      let agreed = scans_agree o.numbers laws (pixel_of p pixels) box v m in
      (
        tell (post_colormode minmaxbox)
            (tell post_recolor (record entered { qim = some painted.0 })),
        record { is_valid = true; min = found.low; max = found.high },
        rw (h, painted.1) refl,
        refl,
        subst (IsRange o.numbers (box_pixels o.numbers (pixel_of p pixels) box)) (sym agreed.0)
            agreed.1,
        refl,
        refl,
        refl,
        refl,
        refl,
        refl,
      )
    where
      box : Box
      box = normalize_color_box p.nx p.ny (box_of_request r)

      found : Range F
      found = scan_columns o.numbers (pixel_of p pixels) box

      entered : Picture F
      entered = with_scale found.low found.high (record p {
        color_box = box;
        color_min = found.low;
        color_max = found.high;
        mode = minmaxbox;
      })
