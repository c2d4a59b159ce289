-- ===== src/Box/Tests.antt =====
-- Boxes on a small image.
use rtimv.Common.{◌≡◌, refl}
use rtimv.Common.Int.{pos, negsuc}
use rtimv.Box.{Box, normalize_color_box, normalize_stats_box}

abbrev dragged : Box
dragged = record { i0 = pos 9; i1 = negsuc 3; j0 = pos 1; j1 = pos 2 }

abbrev inside : Box
inside = record { i0 = pos 0; i1 = pos 2; j0 = pos 1; j1 = pos 2 }

stats_box_clamps :
    normalize_stats_box 6 5 dragged ≡ record { i0 = pos 0; i1 = pos 4; j0 = pos 1; j1 = pos 2 }
unfolding normalize_stats_box rtimv.Box.columns rtimv.Box.rows
stats_box_clamps = refl
