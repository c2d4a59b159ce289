-- ===== src/Picture/Modes.antt =====
-- The settings that choose the colours: `mtxL_colormode`, `mtxL_recolor`, `mtxUL_autoScale` and
-- `mtxUL_reStretch` of common/rtimvBase.cpp.
use rtimv.Common.{Option, some, Bool, true, false, ℕ, List, [], ◌∷◌, if◌then◌else◌, ◌>>=◌, pure}
use rtimv.Box.{normalize_color_box}
use rtimv.Picture.{scan_columns}
use rtimv.Picture.State.{
  Picture, ColorMode, minmaxglobal, minmaxbox, user, is_user, shown, pixel_of, with_scale, tell,
  post_recolor, post_colormode, Stretch,
}
use rtimv.Picture.Coloring.{recolor_impl}
use rtimv.Picture.Change.{Fresh, Setting, Inputs}
use rtimv.Picture.Update.{change_imdata}

module _ {F D : Type 0} (o : Setting F D) where
  -- The part before the colours are made; the loops read a pixel through `m_calData`.
  unfoldable pub enter_mode : ColorMode → Picture F → Option (Picture F)
  enter_mode minmaxbox p = do
    pixels ← shown p
    let box = normalize_color_box p.nx p.ny p.color_box
    let r = scan_columns o.numbers (pixel_of p pixels) box
    pure (
        with_scale r.low r.high
          (record p { color_box = box; color_min = r.low; color_max = r.high; mode = minmaxbox }))
  enter_mode user p = some (record p { auto_scale = false; mode = user })
  enter_mode minmaxglobal p = some (record p { mode = minmaxglobal })

  unfoldable pub colormode : ColorMode → Picture F → Option (Picture F)
  unfolding enter_mode recolor_impl
  colormode m p = do
    q ← enter_mode m p
    r ← recolor_impl o.numbers o.scaling q
    pure (tell (post_colormode m) (tell post_recolor r))

  -- `changing`: `mtxUL_changeImdata` is under way, and will make the colours.
  unfoldable pub recolor : Bool → Picture F → Option (Picture F)
  unfolding recolor_impl
  recolor true p = some p
  recolor false p = do r ← recolor_impl o.numbers o.scaling p; pure (tell post_recolor r)

  unfoldable pub auto_scale_on : Bool → Picture F → Option (Picture F)
  unfolding recolor
  auto_scale_on changing p =
      if p.auto_scale
      then some p
      else recolor changing
          (record p { auto_scale = true; mode = if is_user p.mode then minmaxglobal else p.mode })

  -- `mtxUL_autoScale`
  unfoldable pub set_auto_scale : Bool → Bool → Picture F → Option (Picture F)
  unfolding auto_scale_on
  set_auto_scale changing true p = auto_scale_on changing p
  set_auto_scale changing false p = some (record p { auto_scale = false })

  -- The scale of the mode.
  unfoldable pub scale_of_mode : Picture F → Picture F
  scale_of_mode p = elim p.mode [
    | minmaxglobal ↦ with_scale p.min_image p.max_image p
    | minmaxbox ↦ with_scale p.color_min p.color_max p
    | user ↦ p
  ]

  unfoldable pub re_stretch : Bool → Picture F → Option (Picture F)
  unfolding colormode recolor scale_of_mode
  re_stretch changing p = do
    q ← (if is_user p.mode then colormode minmaxglobal p else some p)
    recolor changing (scale_of_mode q)

  -- What is done to a picture.
  pub data Op : Type 0 where
    changes_image : Fresh F → Inputs F → ℕ → Bool → Bool → Op
    sets_mode : ColorMode → Op
    sets_auto_scale : Bool → Bool → Op
    stretches_again recolors : Bool → Op
    sets_stretch : Stretch → Op
    sets_scale : F → F → Op

  unfoldable pub perform : Op → Picture F → Option (Picture F)
  perform (changes_image new s nz changing newdata) p = change_imdata o new s nz changing newdata p
  perform (sets_mode m) p = colormode m p
  perform (sets_auto_scale changing on) p = set_auto_scale changing on p
  perform (stretches_again changing) p = re_stretch changing p
  perform (recolors changing) p = recolor changing p
  perform (sets_stretch t) p = some (record p { stretch = t })
  perform (sets_scale low high) p = some (with_scale low high p)

  unfoldable pub run : List Op → Picture F → Option (Picture F)
  run [] p = some p
  run (a ∷ rest) p = perform a p >>= run rest
