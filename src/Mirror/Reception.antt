-- ===== src/Mirror/Reception.antt =====
-- The part of `ImageReceived` of server/rtimvClientBase.cpp that takes over a reply. A value of the scale that
-- the user set and that waits for the picture is sent by it.
use rtimv.Common.{
  ℕ, Option, none, some, Bool, true, false, not, ◌||◌, ◌&&◌, List, [], ◌∷◌, ◌++◌, ◌==◌,
}
use rtimv.Common.Int.{ℤ, pos, is_equal_ℤ}
use rtimv.Box.{Box}
use rtimv.Stats.{GlobalStatsState}
use rtimv.Client.{Floats}
use rtimv.Client.Statistics.{read_stats}
use rtimv.Client.Scale.{Scale, image_scale}
use rtimv.Picture.State.{ColorMode, Stretch}
use rtimv.Picture.Change.{at_least_one}
use rtimv.Mirror.Codes.{
  Colorbar, HpFilter, LpFilter, grpc2colorbar, grpc2colormode, grpc2stretch, grpc2hp_filter,
  grpc2lp_filter,
}
use rtimv.Mirror.Message.{Message, WireBox}

pub data MirrorEffect : Type 0 where
  nz_updated : ℕ → MirrorEffect
  cube_dir_updated : ℤ → MirrorEffect
  stats_box_updated color_box_updated : Bool → MirrorEffect
  post_set_imsize post_recolor post_change_imdata zooms_to_one : MirrorEffect
  sets_image_timeout updates_fps image_needed : MirrorEffect

-- What the client keeps; -1 in an enumeration is `none`. The limits of the scale are with the calls that set
-- them.
pub record Mirror (F D : Type 0) : Type 0 where
  pub nx : ℕ
  pub ny : ℕ
  pub nz : ℕ
  pub image_no : ℕ
  pub image_time : D
  pub fps_est : F
  pub saturated : ℕ
  pub min_image : F
  pub max_image : F
  pub min_scale : Scale F
  pub max_scale : Scale F
  pub colorbar : Option Colorbar
  pub mode : Option ColorMode
  pub stretch : Option Stretch
  pub auto_scale : Bool
  pub subtract_dark : Bool
  pub apply_mask : Bool
  pub apply_sat_mask : Bool
  pub image_timeout : ℤ
  pub cube_dir : ℤ
  pub quality : ℤ
  pub hp_filter : HpFilter
  pub hpf_fw : F
  pub apply_hp : Bool
  pub lp_filter : LpFilter
  pub lpf_fw : F
  pub apply_lp : Bool
  pub apply_mtf : Bool
  pub stats_box : Bool
  pub stats_corners : Box
  pub stats_min : F
  pub stats_max : F
  pub stats_mean : F
  pub stats_median : F
  pub color_corners : Box
  pub color_min : F
  pub color_max : F
  pub stats : GlobalStatsState F
  pub effects : List MirrorEffect

abbrev pub read_box : WireBox → Box
read_box b = record { i0 = pos b.i0; i1 = pos b.i1; j0 = pos b.j0; j1 = pos b.j1 }

abbrev pub or_else : {A : Type 0} → Option A → A → A
or_else none a = a
or_else (some b) a = b

abbrev pub only_if : Bool → List MirrorEffect → List MirrorEffect
only_if true es = es
only_if false es = []

-- `narrow` turns a double into a float, and `matched` compares scales up to a tolerance. `has_payload`: there are JPEG data, and they can be read.
unfoldable pub receive :
    {F D : Type 0}
    → Floats F
    → (D → F)
    → (F → F → Bool)
    → Bool
    → Message F D
    → Mirror F D
    → Mirror F D
unfolding read_stats image_scale
receive o narrow matched has_payload g m =
    let resized = not (at_least_one g.nx == m.nx) || not (at_least_one g.ny == m.ny) in
    record {
      nx = at_least_one g.nx;
      ny = at_least_one g.ny;
      nz = at_least_one g.nz;
      image_no = g.no;
      image_time = g.atime;
      fps_est = narrow g.fps;
      saturated = g.saturated;
      min_image = g.min_image_data;
      max_image = g.max_image_data;
      min_scale = image_scale matched g.min_scale_data m.min_scale;
      max_scale = image_scale matched g.max_scale_data m.max_scale;
      colorbar = grpc2colorbar g.colorbar;
      mode = grpc2colormode g.color_mode;
      stretch = grpc2stretch g.colorstretch;
      auto_scale = g.autoscale;
      subtract_dark = g.subtract_dark;
      apply_mask = g.apply_mask;
      apply_sat_mask = g.apply_sat_mask;
      image_timeout = g.image_timeout;
      cube_dir = g.cube_dir;
      quality = g.quality;
      hp_filter = or_else (grpc2hp_filter g.hp_filter) m.hp_filter;
      hpf_fw = g.hpf_fw;
      apply_hp = g.apply_hp_filter;
      lp_filter = or_else (grpc2lp_filter g.lp_filter) m.lp_filter;
      lpf_fw = g.lpf_fw;
      apply_lp = g.apply_lp_filter;
      apply_mtf = g.apply_mtf;
      stats_box = g.stats_box;
      stats_corners = read_box g.stats_box_corners;
      stats_min = g.stats_box_min;
      stats_max = g.stats_box_max;
      stats_mean = g.stats_box_mean;
      stats_median = g.stats_box_median;
      color_corners = read_box g.color_box_corners;
      color_min = g.color_box_min;
      color_max = g.color_box_max;
      stats = read_stats o (some g.stats_reply);
      effects =
          m.effects
          ++ nz_updated (at_least_one g.nz)
            ∷ (only_if resized (post_set_imsize ∷ [])
                ++ (only_if (not (is_equal_ℤ m.cube_dir g.cube_dir))
                      (cube_dir_updated g.cube_dir ∷ [])
                    ++ (stats_box_updated g.stats_box
                        ∷ color_box_updated g.color_box
                        ∷ (only_if has_payload (post_recolor ∷ post_change_imdata ∷ [])
                            ++ (only_if (resized && has_payload) (zooms_to_one ∷ [])
                                ++ (only_if (not (is_equal_ℤ m.image_timeout g.image_timeout))
                                      (sets_image_timeout ∷ [])
                                    ++ updates_fps ∷ image_needed ∷ []))))));
    }
