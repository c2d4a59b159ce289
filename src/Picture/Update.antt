-- ===== src/Picture/Update.antt =====
-- `mtxUL_changeImdata` of common/rtimvBase.cpp, with what it calls.
use rtimv.Common.{
  ℕ, Option, none, some, Bool, false, not, ◌&&◌, ◌||◌, ◌==◌, if◌then◌else◌, ◌>>=◌, pure, is_null,
}
use rtimv.Box.{normalize_color_box}
use rtimv.Stats.{Source, Input, valid, input_status, calc_global_stats}
use rtimv.Stats.Refresh.{is_status}
use rtimv.Pixels.{raw_pixel}
use rtimv.Picture.{span, visited, no_range, scan, scan_rows, if_finite}
use rtimv.Picture.State.{
  Picture, shown, pixel_of, with_scale, is_box, tell, post_recolor, post_change_imdata, post_zoom,
  global_stats_updated,
}
use rtimv.Picture.Coloring.{recolor_impl}
use rtimv.Picture.StatsBoxes.{calc_stats_box}
use rtimv.Picture.Change.{Fresh, Setting, Inputs, set_imsize, filtered}
use rtimv.Picture.Loading.{load_images}

module _ {F D : Type 0} (o : Setting F D) where
  -- The range of the whole image, and the scale by the colour mode.
  unfoldable pub rescale : Bool → (ℕ → F) → Picture F → Picture F
  rescale resized pixels p =
      let at = pixel_of p pixels in
      let image = if_finite o.numbers (
        scan o.numbers (visited (λ j i. at i j) (span p.nx 0) (span p.ny 0))
          (no_range o.numbers)) in
      let q = record p { min_image = image.low; max_image = image.high } in
      if is_box p.mode
      then (let box = normalize_color_box p.nx p.ny p.color_box in
          let r = if_finite o.numbers (scan_rows o.numbers at box) in
          with_scale r.low r.high
            (record q { color_box = box; color_min = r.low; color_max = r.high }))
      else if resized || p.auto_scale
      then with_scale image.low image.high q
      else q

  abbrev no_source : Source F
  no_source = record {
    is_valid = false;
    width = 0;
    height = 0;
    pixel = λ n. o.numbers.arithmetic.nought;
  }

  abbrev source_of : Option (Source F) → Source F
  source_of none = no_source
  source_of (some s) = s

  -- The input of the global statistics.
  abbrev pub input_of : Picture F → Source F → Source F → Input F
  input_of p image mask = record {
    nx = p.nx;
    ny = p.ny;
    has_data = not (is_null (shown p));
    cal_data = elim (shown p) [ none ↦ λ n. o.numbers.arithmetic.nought | some pixels ↦ pixels ];
    image = image;
    mask = mask;
  }

  unfoldable pub snapshot_global_stats : Inputs F → Picture F → Picture F
  unfolding input_status
  snapshot_global_stats s p =
      let mask = source_of s.base.mask in
      let status =
        input_status p.monitor.result.use_mask (input_of p (source_of s.base.image) mask) in
      record p {
        monitor = record (p.monitor) { last_status = status; refresh = false };
        selection = if is_status status valid && p.monitor.result.use_mask then mask else no_source;
      }

  unfoldable pub update_global_stats : Picture F → Picture F
  unfolding calc_global_stats
  update_global_stats p = record p {
    monitor = record (p.monitor) {
      result =
          calc_global_stats o.numbers.arithmetic p.monitor.result.use_mask p.monitor.last_status
            (input_of p no_source p.selection);
    };
  }

  -- The part under the shared lock, and after it.
  unfoldable pub finish : Bool → Picture F → Option (Picture F)
  unfolding recolor_impl calc_stats_box update_global_stats rescale
  finish resized p = if is_null p.qim then some p else do
    raw ← p.cal_raw
    let ready = filtered o.work raw p
    pixels ← shown ready
    boxed ← calc_stats_box o.numbers (rescale resized pixels ready)
    let counted = if boxed.monitor.result.enabled then update_global_stats boxed else boxed
    colored ← recolor_impl o.numbers o.scaling counted
    let done = tell post_change_imdata (tell post_recolor colored)
    let zoomed = if resized then tell post_zoom done else done
    pure (if zoomed.monitor.result.enabled then tell global_stats_updated zoomed else zoomed)

  -- The part under the unique lock, once the sizes are set.
  unfoldable pub take_over : Inputs F → Source F → Bool → Picture F → Option (Picture F)
  unfolding raw_pixel load_images snapshot_global_stats finish
  take_over s image resized p = elim (raw_pixel p.subtract_dark p.apply_mask s.base) [
    | none ↦ some p
    | some f ↦ if not (p.nx == image.width) || not (p.ny == image.height) then some p else do
      raw ← p.cal_raw
      loaded ← load_images o f s raw p
      finish resized
          (if loaded.monitor.result.enabled then snapshot_global_stats s loaded else loaded)
  ]

  abbrev pub is_resized : Source F → Picture F → Bool
  is_resized image p = not (image.width == p.nx) || not (image.height == p.ny) || is_null p.qim

  unfoldable pub renew : Fresh F → Inputs F → Source F → ℕ → Picture F → Option (Picture F)
  unfolding set_imsize take_over
  renew new s image nz p =
      take_over s image (is_resized image p)
        (if is_resized image p then set_imsize new image.width image.height nz p else p)

  -- `changing`: another call is under way. `nz` is the number of planes of the image.
  unfoldable pub change_imdata :
      Fresh F → Inputs F → ℕ → Bool → Bool → Picture F → Option (Picture F)
  unfolding renew finish
  change_imdata new s nz changing newdata p =
      if changing
      then some p
      else if not (newdata || p.monitor.refresh)
      then finish false p
      else elim s.base.image [
        | none ↦ some p
        | some image ↦ if not image.is_valid then some p else renew new s image nz p
      ]
