-- ===== src/Handlers/Tests.antt =====
-- Calls of server/rtimvServer.cpp on a picture of three columns and two rows.
use rtimv.Common.{ℕ, ◌≡◌, refl, some, true, inl, Among, arith}
use rtimv.Common.Int.{pos}
use rtimv.Box.{columns, rows, normalize_stats_box, normalize_color_box}
use rtimv.Picture.State.{Picture, StatsBox, minmaxbox, pixel_of}
use rtimv.Picture.Agreement.{IsRange, box_pixels}
use rtimv.Picture.StatsBoxes.{IsBoxSummary}
use rtimv.Picture.Samples.{numbers, numbers-IsFloat, setting, sample_pixel, loaded_picture}
use rtimv.Handlers.{BoxRequest, MinMax, box_of_request, color_box_call, stats_box_call}
use rtimv.Handlers.Boxes.{stats_box_call_lem, color_box_call_lem}

abbrev wide : Picture ℕ
wide = record loaded_picture { nx = 3 }

abbrev asked_box : BoxRequest
asked_box = record { left = 0; top = 0; right = 9; bottom = 1 }

stats_box_call_lem_example :
    (b : StatsBox ℕ) × (stats_box_call setting true asked_box wide
      ≡ some (record wide { stats_box = b }, some b))
    × (b.enabled ≡ true)
    × (b.box ≡ normalize_stats_box 3 2 (box_of_request asked_box))
    × IsBoxSummary numbers (box_pixels numbers (pixel_of wide sample_pixel) b.box) b
stats_box_call_lem_example =
    stats_box_call_lem setting numbers-IsFloat asked_box wide sample_pixel (omega arith)
      (omega arith) (omega arith) (omega arith) refl

color_box_call_lem_example :
    (t : Picture ℕ) × (a : MinMax ℕ) × (color_box_call setting true asked_box wide ≡ some (t, a))
    × (a.is_valid ≡ true)
    × IsRange numbers
        (box_pixels numbers
          (pixel_of wide sample_pixel)
          (normalize_color_box 3 2 (box_of_request asked_box)))
        (record { low = a.min; high = a.max })
    × (t.color_box ≡ normalize_color_box 3 2 (box_of_request asked_box))
    × (t.color_min ≡ a.min)
    × (t.color_max ≡ a.max)
    × (t.min_scale ≡ a.min)
    × (t.max_scale ≡ a.max)
    × (t.mode ≡ minmaxbox)
color_box_call_lem_example =
    color_box_call_lem setting numbers-IsFloat asked_box wide sample_pixel (λ x y. pos 0) 40 refl
      refl found
  where
    found : Among 40 (
        box_pixels numbers
          (pixel_of wide sample_pixel)
          (normalize_color_box 3 2 (box_of_request asked_box)))
    found = unfold normalize_color_box columns rows in inl refl
