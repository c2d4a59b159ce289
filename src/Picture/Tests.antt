-- ===== src/Picture/Tests.antt =====
-- Pictures of common/rtimvBase.cpp on concrete runs.
use rtimv.Common.{ℕ, ◌-◌, ◌*◌, ◌<◌, ◌≡◌, refl, some, true, false, List, [], ◌∷◌, inl, u32, arith}
use rtimv.Box.{origin, normalize_stats_box}
use rtimv.Common.Int.{ℤ, pos}
use rtimv.Picture.{scan_rows, scan_columns, if_finite}
use rtimv.Picture.State.{Picture, StatsBox, minmaxbox, user, shown, pixel_of}
use rtimv.Picture.Coloring.{recolor_impl}
use rtimv.Picture.Painting.{intended, recolor_impl_lem}
use rtimv.Picture.StatsBoxes.{calc_stats_box, IsBoxSummary, calc_stats_box_lem}
use rtimv.Picture.Agreement.{IsRange, box_pixels, scans_agree, scans_differ}
use rtimv.Picture.Change.{filtered}
use rtimv.Picture.Loading.{load_images}
use rtimv.Picture.Update.{rescale, change_imdata}
use rtimv.Picture.Modes.{Op, changes_image, sets_mode, sets_auto_scale, stretches_again, run}
use rtimv.Picture.Soundness.{Gives, IsSound}
use rtimv.Picture.Total.{IsReady}
use rtimv.Picture.Runs.{run-IsSound, change_imdata-IsSound}
use rtimv.Picture.Loads.{IsLoad, load_images_lem}
use rtimv.Picture.Filtering.{through, filtered_shows}
use rtimv.Picture.Scales.{IsRescaled, rescale-IsRescaled}
use rtimv.Picture.Samples.{
  numbers, numbers-IsFloat, setting, empty_picture, sample_pixel, sample_image, sample_inputs,
  fresh_memory, loaded_picture,
}
use rtimv.Pixels.{pixel_no_cal, raw_pixel}

recolor_impl_lem_example :
    (r : ℕ → ℕ → ℤ) × (recolor_impl numbers setting.scaling loaded_picture
      ≡ some (record loaded_picture { qim = some r }))
    × ((x y : ℕ)
        → x < 2
        → y < 2
        → r x (2 - y - 1) ≡ intended numbers setting.scaling loaded_picture sample_pixel x y)
recolor_impl_lem_example =
    recolor_impl_lem numbers setting.scaling loaded_picture (λ x y. pos 0) sample_pixel refl refl

empty-IsReady : IsReady setting empty_picture
empty-IsReady = record { exclusive = refl; sound = λ e. cc }

change_imdata-IsSound_example :
    Gives IsSound (change_imdata setting fresh_memory sample_inputs 1 false true empty_picture)
change_imdata-IsSound_example =
    change_imdata-IsSound setting fresh_memory sample_inputs sample_image 1 empty_picture
      empty-IsReady refl refl

abbrev ops : List (Op setting)
ops =
    sets_mode user
    ∷ sets_auto_scale false true
    ∷ sets_mode minmaxbox
    ∷ stretches_again false
    ∷ changes_image fresh_memory sample_inputs 3 false true
    ∷ []

loaded-IsSound : IsSound loaded_picture
loaded-IsSound = record { raw = refl; colors = refl; pointer = refl; exclusive = refl }

run-IsSound_example : Gives IsSound (run setting ops loaded_picture)
run-IsSound_example = run-IsSound setting ops loaded_picture loaded-IsSound

load_images_lem_example :
    Gives
      (IsLoad setting pixel_no_cal sample_inputs sample_image (u32 (2 * 2)) loaded_picture)
      (load_images setting pixel_no_cal sample_inputs (λ n. 0) loaded_picture)
load_images_lem_example =
    load_images_lem setting pixel_no_cal false false sample_inputs sample_image (λ n. 0)
      loaded_picture refl chosen
  where
    chosen : raw_pixel false false (sample_inputs.base) ≡ some pixel_no_cal
    chosen = unfold raw_pixel in refl

rescale-IsRescaled_example :
    IsRescaled setting true sample_pixel loaded_picture
      (rescale setting true sample_pixel loaded_picture)
rescale-IsRescaled_example =
    rescale-IsRescaled setting numbers-IsFloat true sample_pixel loaded_picture 40 (inl refl)

calc_stats_box_lem_example :
    (b : StatsBox ℕ) × (calc_stats_box numbers loaded_picture
      ≡ some (record loaded_picture { stats_box = b }))
    × (b.enabled ≡ true)
    × (b.box ≡ normalize_stats_box 2 2 origin)
    × IsBoxSummary numbers (box_pixels numbers (pixel_of loaded_picture sample_pixel) b.box) b
calc_stats_box_lem_example =
    calc_stats_box_lem numbers numbers-IsFloat loaded_picture sample_pixel refl (omega arith)
      (omega arith) refl

abbrev at : ℕ → ℕ → ℕ
at = pixel_of loaded_picture sample_pixel

scans_agree_example :
    (scan_columns numbers at origin ≡ if_finite numbers (scan_rows numbers at origin))
    × IsRange numbers
        (box_pixels numbers at origin)
        (if_finite numbers (scan_rows numbers at origin))
scans_agree_example = scans_agree numbers numbers-IsFloat at origin 40 (inl refl)

-- No pixel is finite.
abbrev no_value : ℕ → ℕ → ℕ
no_value x y = 100

scans_differ_example :
    (scan_columns numbers no_value origin ≡ record { low = 0; high = 0 })
    × (if_finite numbers (scan_rows numbers no_value origin) ≡ record { low = 99; high = 0 })
scans_differ_example = scans_differ numbers numbers-IsFloat no_value origin refl

abbrev high_passed : Picture ℕ
high_passed = record loaded_picture {
  filters = record (loaded_picture.filters) { apply_hp = true; hp_set = true; apply_lp = true };
}

filtered_shows_example :
    (shown (filtered setting.work sample_pixel high_passed)
      ≡ some (through setting.work high_passed.filters sample_pixel))
    × ((filtered setting.work sample_pixel high_passed).cal_raw ≡ some sample_pixel)
filtered_shows_example = filtered_shows setting.work sample_pixel high_passed refl
