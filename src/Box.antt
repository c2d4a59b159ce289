-- ===== src/Box.antt =====
-- The colour box and the statistics box of an image: common/rtimvBase.cpp, `normalizeColorBox` and
-- `normalizeStatsBox`. Corners are `int64_t`, image sizes `uint32_t`.
pub mod Bounds
mod Tests
use rtimv.Common.{ℕ, ◌-◌, Bool, ◌||◌, ltb, if◌then◌else◌}
use rtimv.Common.Int.{ℤ, pos, ltb_ℤ, leb_ℤ}

-- Corners of a box, inclusive: columns `i0` to `i1`, rows `j0` to `j1`.
pub record Box : Type 0 where
  pub i0 : ℤ
  pub i1 : ℤ
  pub j0 : ℤ
  pub j1 : ℤ

-- The clamp of one corner. It is called only for `n ≥ 2`, where the truncated `-` is exact.
unfoldable pub clamp : ℕ → ℤ → ℤ
clamp n x = if ltb_ℤ x (pos 0) then pos 0 else if leb_ℤ (pos (n - 1)) x then pos (n - 2) else x

-- The clamp of `j1`, which the source tests by `<=`.
unfoldable pub clamp_last : ℕ → ℤ → ℤ
clamp_last n x = if leb_ℤ x (pos 0) then pos 0 else if leb_ℤ (pos (n - 1)) x then pos (n - 2) else x

-- `if( a > b ) std::swap( a, b )`
unfoldable pub ordered : ℤ → ℤ → ℤ × ℤ
ordered a b = if ltb_ℤ b a then (b, a) else (a, b)

-- Both corners of one axis: the columns, and the rows.
unfoldable pub columns : ℕ → ℤ → ℤ → ℤ × ℤ
unfolding clamp ordered
columns nx a b = ordered (clamp nx a) (clamp nx b)

unfoldable pub rows : ℕ → ℤ → ℤ → ℤ × ℤ
unfolding clamp clamp_last ordered
rows ny a b = ordered (clamp ny a) (clamp_last ny b)

abbrev pub origin : Box
origin = record { i0 = pos 0; i1 = pos 0; j0 = pos 0; j1 = pos 0 }

unfoldable pub normalize_color_box : ℕ → ℕ → Box → Box
normalize_color_box nx ny b = if ltb nx 2 || ltb ny 2 then origin else record {
  i0 = (columns nx b.i0 b.i1).0;
  i1 = (columns nx b.i0 b.i1).1;
  j0 = (rows ny b.j0 b.j1).0;
  j1 = (rows ny b.j0 b.j1).1;
}

-- The source repeats the code of `normalizeColorBox` over the other four members.
unfoldable pub normalize_stats_box : ℕ → ℕ → Box → Box
normalize_stats_box nx ny b = if ltb nx 2 || ltb ny 2 then origin else record {
  i0 = (columns nx b.i0 b.i1).0;
  i1 = (columns nx b.i0 b.i1).1;
  j0 = (rows ny b.j0 b.j1).0;
  j1 = (rows ny b.j0 b.j1).1;
}
