-- ===== src/Picture.antt =====
-- The picture that is made of an image: its state in common/rtimvBase.hpp, and the smallest and the
-- greatest pixel in common/rtimvBase.cpp. `F` is float and `D` double, with the operations used.
pub mod Scans
pub mod Boxes
pub mod Agreement
pub mod State
pub mod Coloring
pub mod Painting
pub mod StatsBoxes
pub mod Change
pub mod Loading
pub mod Update
pub mod Modes
pub mod Soundness
pub mod Total
pub mod Runs
pub mod Saturation
pub mod Loads
pub mod Filtering
pub mod Scales
pub mod Samples
mod Tests
use rtimv.Common.{
  ℕ, zero, suc, ◌+◌, ◌-◌, ◌*◌, Option, none, some, Bool, true, false, not, List, [], ◌∷◌, ◌++◌, map,
  if◌then◌else◌, u32,
}
use rtimv.Common.Int.{ℤ, pos_part}
use rtimv.Box.{Box}
use rtimv.Stats.{Arithmetic, Source}
use rtimv.Stats.Refresh.{Monitor}

-- `largest` and `lowest` are FLT_MAX and -FLT_MAX.
pub record Numbers (F D : Type 0) : Type 0 where
  pub arithmetic : Arithmetic F D
  pub largest : F
  pub lowest : F
  pub is_equal : F → F → Bool  -- ==
  pub at_least : F → F → Bool  -- >=
  pub is_positive : F → Bool  -- > 0

pub record Range (F : Type 0) : Type 0 where
  pub low : F
  pub high : F

-- `i`, `i + 1` and so on, `n` of them.
abbrev pub span : ℕ → ℕ → List ℕ
span zero i = []
span (suc n) i = i ∷ span n (suc i)

-- The pixels that two loops visit, the outer one over `js`.
abbrev pub visited : {A : Type 0} → (ℕ → ℕ → A) → List ℕ → List ℕ → List A
visited at js [] = []
visited at js (k ∷ ks) = map (at k) js ++ visited at js ks

-- The columns and the rows of a normalised box.
abbrev pub columns_of : Box → List ℕ
columns_of b = span (pos_part b.i1 + 1 - pos_part b.i0) (pos_part b.i0)

abbrev pub rows_of : Box → List ℕ
rows_of b = span (pos_part b.j1 + 1 - pos_part b.j0) (pos_part b.j0)

module _ {F D : Type 0} (o : Numbers F D) where
  abbrev pub no_range : Range F
  no_range = record { low = o.largest; high = o.lowest }

  -- The body of the loops, over one pixel.
  unfoldable pub widen : F → Range F → Range F
  widen v r = if not (o.arithmetic.is_finite v) then r else record {
    low = if o.arithmetic.less v r.low then v else r.low;
    high = if o.arithmetic.less r.high v then v else r.high;
  }

  pub scan : List F → Range F → Range F
  scan [] r = r
  scan (v ∷ vs) r = scan vs (widen v r)

  -- The rows of a box, one after the other, as in `mtxUL_changeImdata`.
  unfoldable pub scan_rows : (ℕ → ℕ → F) → Box → Range F
  scan_rows at b = scan (visited (λ j i. at i j) (columns_of b) (rows_of b)) no_range

  -- The columns, as in `mtxL_colormode`, and the test after the loops.
  unfoldable pub scan_columns : (ℕ → ℕ → F) → Box → Range F
  scan_columns at b =
      let r = scan (visited at (rows_of b) (columns_of b)) no_range in
      if o.is_equal r.low o.largest
      then if o.is_equal r.high o.lowest
        then record { low = o.arithmetic.nought; high = o.arithmetic.nought }
        else r
      else r

  -- The test after the loops of `mtxUL_changeImdata`.
  unfoldable pub if_finite : Range F → Range F
  if_finite r =
      if not (o.arithmetic.is_finite r.high)
      then record { low = o.arithmetic.nought; high = o.arithmetic.nought }
      else if not (o.arithmetic.is_finite r.low)
      then record { low = o.arithmetic.nought; high = o.arithmetic.nought }
      else r
