-- ===== src/Box/Bounds.antt =====
-- A normalised box lies inside the image, and a box that lies there is left alone.
use rtimv.Common.{ℕ, ◌+◌, ◌-◌, ◌*◌, ◌≤◌, ◌<◌, ◌≡◌, arith}
use rtimv.Common.Int.{ℤ, pos, ◌≤ℤ◌}
use rtimv.Box.{Box, columns, rows, normalize_color_box, normalize_stats_box}

-- The span from `a` to `b` is in order and lies on 0 to `m`.
abbrev IsSpan : ℕ → ℤ → ℤ → Type 0
IsSpan m a b = (pos 0 ≤ℤ a) × (a ≤ℤ b) × (b ≤ℤ pos m)

pub record IsWithin (m n : ℕ) (b : Box) : Type 0 where
  pub across : IsSpan m b.i0 b.i1
  pub up : IsSpan n b.j0 b.j1

columns-IsSpan : (n : ℕ) (a b : ℤ) → 2 ≤ n → IsSpan (n - 2) (columns n a b).0 (columns n a b).1
unfolding columns
columns-IsSpan n a b h = ground arith

rows-IsSpan : (n : ℕ) (a b : ℤ) → 2 ≤ n → IsSpan (n - 2) (rows n a b).0 (rows n a b).1
unfolding rows
rows-IsSpan n a b h = ground arith

columns_fixed : (n : ℕ) (a b : ℤ) → 2 ≤ n → IsSpan (n - 2) a b → columns n a b ≡ (a, b)
unfolding columns
columns_fixed n a b h s = ground arith

rows_fixed : (n : ℕ) (a b : ℤ) → 2 ≤ n → IsSpan (n - 2) a b → rows n a b ≡ (a, b)
unfolding rows
rows_fixed n a b h s = ground arith

-- For every image size and every box, whatever its corners, the normalised box is in order, and
-- ends at least one pixel short of the last column and the last row.
pub normalize_color_box-IsWithin :
    (nx ny : ℕ) (b : Box) → IsWithin (nx - 2) (ny - 2) (normalize_color_box nx ny b)
unfolding normalize_color_box
normalize_color_box-IsWithin nx ny b =
    ground (arith, columns-IsSpan nx b.i0 b.i1, rows-IsSpan ny b.j0 b.j1)

-- For every image size and every box, whatever its corners, the normalised statistics box is in
-- order, and ends at least one pixel short of the last column and the last row.
pub normalize_stats_box-IsWithin :
    (nx ny : ℕ) (b : Box) → IsWithin (nx - 2) (ny - 2) (normalize_stats_box nx ny b)
unfolding normalize_stats_box
normalize_stats_box-IsWithin nx ny b =
    ground (arith, columns-IsSpan nx b.i0 b.i1, rows-IsSpan ny b.j0 b.j1)

-- On an image of two columns and rows or more, the boxes that lie before the last column and the
-- last row are exactly those that normalising leaves as they are.
pub normalize_color_box_fixed_iff :
    (nx ny : ℕ) (b : Box)
    → 2 ≤ nx
    → 2 ≤ ny
    → (IsWithin (nx - 2) (ny - 2) b → normalize_color_box nx ny b ≡ b)
      × (normalize_color_box nx ny b ≡ b → IsWithin (nx - 2) (ny - 2) b)
unfolding normalize_color_box
normalize_color_box_fixed_iff nx ny b h k = (
  λ v. ground (arith, columns_fixed nx b.i0 b.i1 h v.across, rows_fixed ny b.j0 b.j1 k v.up),
  λ e. ground (arith, columns-IsSpan nx b.i0 b.i1 h, rows-IsSpan ny b.j0 b.j1 k),
)

-- Every pixel of a normalised box has an index inside the image's array.
pub normalize_color_box_index :
    (nx ny x y : ℕ) (b : Box)
    → 0 < nx
    → 0 < ny
    → pos x ≤ℤ (normalize_color_box nx ny b).i1
    → pos y ≤ℤ (normalize_color_box nx ny b).j1
    → y * nx + x < nx * ny
normalize_color_box_index nx ny x y b h k p q = grind (arith, inside.across, inside.up)
  where
    inside : IsWithin (nx - 2) (ny - 2) (normalize_color_box nx ny b)
    inside = normalize_color_box-IsWithin nx ny b
