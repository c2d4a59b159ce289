-- ===== src/Mirror/Message.antt =====
-- The message `Image` of proto/rtimv.proto and `populateImageReply` of server/rtimvServerThread.cpp.
use rtimv.Common.{ℕ, ◌-◌, ◌%◌, Bool}
use rtimv.Common.Int.{ℤ, pos, negsuc}
use rtimv.Box.{Box}
use rtimv.Stats.{GlobalStatsState}
use rtimv.Client.Statistics.{WireStats}
use rtimv.Picture.State.{Picture, is_box}
use rtimv.Mirror.Codes.{
  Colorbar, HpFilter, LpFilter, ColorbarCode, ColormodeCode, StretchCode, HpFilterCode,
  LpFilterCode, colorbar2grpc, colormode2grpc, stretch2grpc, hp_filter2grpc, lp_filter2grpc,
  status2grpc,
}

-- Corners are `uint32_t`.
pub record WireBox : Type 0 where
  pub i0 : ℕ
  pub i1 : ℕ
  pub j0 : ℕ
  pub j1 : ℕ

pub record Message (F D : Type 0) : Type 0 where
  pub nx : ℕ
  pub ny : ℕ
  pub nz : ℕ
  pub no : ℕ
  pub atime : D
  pub fps : D
  pub saturated : ℕ
  pub min_image_data : F
  pub max_image_data : F
  pub min_scale_data : F
  pub max_scale_data : F
  pub source_bytes_per_pixel : ℕ
  pub colorbar : ColorbarCode
  pub color_mode : ColormodeCode
  pub colorstretch : StretchCode
  pub autoscale : Bool
  pub subtract_dark : Bool
  pub apply_mask : Bool
  pub apply_sat_mask : Bool
  pub image_timeout : ℤ
  pub cube_dir : ℤ
  pub quality : ℤ
  pub hp_filter : HpFilterCode
  pub hpf_fw : F
  pub apply_hp_filter : Bool
  pub lp_filter : LpFilterCode
  pub lpf_fw : F
  pub apply_lp_filter : Bool
  pub apply_mtf : Bool
  pub stats_box : Bool
  pub stats_box_corners : WireBox
  pub stats_box_min : F
  pub stats_box_max : F
  pub stats_box_mean : F
  pub stats_box_median : F
  pub color_box : Bool
  pub color_box_corners : WireBox
  pub color_box_min : F
  pub color_box_max : F
  pub stats_reply : WireStats F

-- What the server has besides its picture.
pub record Stream (F D : Type 0) : Type 0 where
  pub picture : Picture F
  pub image_no : ℕ
  pub image_time : D
  pub fps_est : D
  pub bytes_per_pixel : ℕ
  pub colorbar : Colorbar
  pub image_timeout : ℤ
  pub cube_dir : ℤ
  pub quality : ℤ
  pub hp_filter : HpFilter
  pub hpf_fw : F
  pub lp_filter : LpFilter
  pub lpf_fw : F

-- An `int64_t` as a `uint32_t`.
abbrev pub as_u32 : ℤ → ℕ
as_u32 (pos n) = n % 4294967296
as_u32 (negsuc n) = 4294967295 - n % 4294967296

abbrev pub wire_box : Box → WireBox
wire_box b = record { i0 = as_u32 b.i0; i1 = as_u32 b.i1; j0 = as_u32 b.j0; j1 = as_u32 b.j1 }

abbrev pub wire_stats : {F : Type 0} → GlobalStatsState F → WireStats F
wire_stats g = record {
  enabled = g.enabled;
  use_mask = g.use_mask;
  status = status2grpc g.status;
  count = g.count;
  min = g.min;
  max = g.max;
  mean = g.mean;
  median = g.median;
}

unfoldable pub populate_image_reply : {F D : Type 0} → Stream F D → Message F D
populate_image_reply s =
    let p = s.picture in
    record {
      nx = p.nx;
      ny = p.ny;
      nz = p.nz;
      no = s.image_no;
      atime = s.image_time;
      fps = s.fps_est;
      saturated = p.saturated;
      min_image_data = p.min_image;
      max_image_data = p.max_image;
      min_scale_data = p.min_scale;
      max_scale_data = p.max_scale;
      source_bytes_per_pixel = s.bytes_per_pixel;
      colorbar = colorbar2grpc s.colorbar;
      color_mode = colormode2grpc p.mode;
      colorstretch = stretch2grpc p.stretch;
      autoscale = p.auto_scale;
      subtract_dark = p.subtract_dark;
      apply_mask = p.apply_mask;
      apply_sat_mask = p.apply_sat_mask;
      image_timeout = s.image_timeout;
      cube_dir = s.cube_dir;
      quality = s.quality;
      hp_filter = hp_filter2grpc s.hp_filter;
      hpf_fw = s.hpf_fw;
      apply_hp_filter = p.filters.apply_hp;
      lp_filter = lp_filter2grpc s.lp_filter;
      lpf_fw = s.lpf_fw;
      apply_lp_filter = p.filters.apply_lp;
      apply_mtf = p.filters.apply_mtf;
      stats_box = p.stats_box.enabled;
      stats_box_corners = wire_box p.stats_box.box;
      stats_box_min = p.stats_box.min;
      stats_box_max = p.stats_box.max;
      stats_box_mean = p.stats_box.mean;
      stats_box_median = p.stats_box.median;
      color_box = is_box p.mode;
      color_box_corners = wire_box p.color_box;
      color_box_min = p.color_min;
      color_box_max = p.color_max;
      stats_reply = wire_stats p.monitor.result;
    }
