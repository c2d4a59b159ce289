-- ===== src/Handlers.antt =====
-- Calls of a client that the server answers from its picture: ColorBox, StatsBox, SetColormode,
-- SetColorstretch, SetAutoscale, Restretch and Recolor of server/rtimvServer.cpp, after their preparation.
-- `none` is the use of a null pointer.
pub mod Boxes
mod Tests
use rtimv.Common.{
  ℕ, Option, none, some, Bool, true, false, not, ◌||◌, leb, if◌then◌else◌, ◌>>=◌, pure,
}
use rtimv.Common.Int.{ℤ, pos}
use rtimv.Box.{Box}
use rtimv.Picture.State.{Picture, StatsBox, ColorMode, Stretch, minmaxglobal, minmaxbox}
use rtimv.Picture.StatsBoxes.{no_stats, calc_stats_box}
use rtimv.Picture.Change.{Setting}
use rtimv.Picture.Modes.{colormode, set_auto_scale, re_stretch, recolor}
use rtimv.Mirror.Codes.{ColormodeCode, StretchCode, grpc2colormode, grpc2stretch}

-- Two corners, whose coordinates are `uint32_t`.
pub record BoxRequest : Type 0 where
  pub left : ℕ
  pub top : ℕ
  pub right : ℕ
  pub bottom : ℕ

-- The status of an answer.
pub data Answer : Type 0 where
  ok invalid_argument : Answer

pub record MinMax (F : Type 0) : Type 0 where
  pub is_valid : Bool
  pub min : F
  pub max : F

abbrev pub box_of_request : BoxRequest → Box
box_of_request r = record { i0 = pos r.left; i1 = pos r.right; j0 = pos r.top; j1 = pos r.bottom }

module _ {F D : Type 0} (o : Setting F D) where
  unfoldable pub color_box_call : Bool → BoxRequest → Picture F → Option (Picture F × MinMax F)
  color_box_call connected r p =
      if not connected
      then some (
        p,
        record {
          is_valid = false;
          min = o.numbers.arithmetic.nought;
          max = o.numbers.arithmetic.nought;
        },
      )
      else do
        q ← colormode o minmaxbox (record p { color_box = box_of_request r })
        pure (q, record { is_valid = true; min = q.color_min; max = q.color_max })

  -- An answer that is not valid is `none`.
  unfoldable pub stats_box_call :
      Bool → BoxRequest → Picture F → Option (Picture F × Option (StatsBox F))
  stats_box_call connected r p =
      if not connected
      then some (p, none)
      else if leb r.right r.left || leb r.bottom r.top
      then (let q = record p {
        stats_box = no_stats o.numbers (record (p.stats_box) { enabled = false });
      } in
          some (q, some q.stats_box))
      else do
        q ← calc_stats_box o.numbers (record p {
          stats_box = record (p.stats_box) { enabled = true; box = box_of_request r };
        })
        pure (q, some q.stats_box)

  -- A mode that is not known is answered as invalid, and the global mode is set.
  unfoldable pub colormode_call : ColormodeCode → Picture F → Option (Picture F × Answer)
  unfolding grpc2colormode
  colormode_call c p = elim (grpc2colormode c) [
    | some m ↦ do q ← colormode o m p; pure (q, ok)
    | none ↦ do q ← colormode o minmaxglobal p; pure (q, invalid_argument)
  ]

  unfoldable pub colorstretch_call : StretchCode → Picture F → Picture F × Answer
  unfolding grpc2stretch
  colorstretch_call c p = elim (grpc2stretch c) [
    | some t ↦ (record p { stretch = t }, ok)
    | none ↦ (p, invalid_argument)
  ]
