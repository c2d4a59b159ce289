-- ===== src/Mirror/Tests.antt =====
-- A reply of server/rtimvServerThread.cpp on a concrete picture, and the client that takes it over.
use rtimv.Common.{ℕ, ◌≡◌, refl, Option, none, some, true, false, List, [], ◌∷◌, ◌==◌, ltb, arith}
use rtimv.Common.Int.{pos}
use rtimv.Stats.{Arithmetic, valid, Input, calc_global_stats}
use rtimv.Stats.Tally.{IsOrder, total}
use rtimv.Client.{Floats, default_stats}
use rtimv.Client.Statistics.{read_stats}
use rtimv.Client.Scale.{Scale}
use rtimv.Picture.Samples.{loaded_picture, sample_image}
use rtimv.Box.{origin}
use rtimv.Mirror.Codes.{bone, hp_gaussian, lp_none}
use rtimv.Mirror.Message.{Stream, populate_image_reply, wire_stats}
use rtimv.Mirror.Reception.{Mirror, receive}
use rtimv.Mirror.Agreement.{Mirrors, IsWireBox, receive-populate_image_reply}
use rtimv.Mirror.Statistics.{floats_of, KeepsFinite, read_stats-calc_global_stats}

abbrev stream : Stream ℕ ℕ
stream = record {
  picture = loaded_picture;
  image_no = 3;
  image_time = 1000;
  fps_est = 20;
  bytes_per_pixel = 2;
  colorbar = bone;
  image_timeout = pos 50;
  cube_dir = pos 1;
  quality = pos 75;
  hp_filter = hp_gaussian;
  hpf_fw = 10;
  lp_filter = lp_none;
  lpf_fw = 3;
}

-- Values below 100 are finite; means and medians are the first value.
abbrev first : List ℕ → ℕ
first [] = 0
first (v ∷ vs) = v

abbrev numbers : Arithmetic ℕ (Option ℕ)
numbers = record {
  nought = 0;
  is_finite = λ a. ltb a 100;
  is_one = λ a. a == 1;
  less = ltb;
  start = none;
  plus = λ d v. elim d [ none ↦ some v | some u ↦ some u ];
  mean = λ d n. elim d [ none ↦ 0 | some u ↦ u ];
  median = first;
}

abbrev floats : Floats ℕ
floats = record { nought = 0; is_finite = λ a. ltb a 100 }

-- No value of the scale was set.
abbrev unset : Scale ℕ
unset = record {
  connected = true;
  shutting_down = false;
  value = 0;
  pending = false;
  queued = false;
  desired = 0;
  inflight = 0;
  prev_at_send = 0;
  awaits_image = false;
  has_context = false;
  calls = [];
  timers = [];
}

-- Before the first reply.
abbrev blank_mirror : Mirror ℕ ℕ
blank_mirror = record {
  nx = 0;
  ny = 0;
  nz = 0;
  image_no = 0;
  image_time = 0;
  fps_est = 0;
  saturated = 0;
  min_image = 0;
  max_image = 0;
  min_scale = unset;
  max_scale = unset;
  colorbar = none;
  mode = none;
  stretch = none;
  auto_scale = false;
  subtract_dark = false;
  apply_mask = false;
  apply_sat_mask = false;
  image_timeout = pos 0;
  cube_dir = pos 0;
  quality = pos 50;
  hp_filter = hp_gaussian;
  hpf_fw = 0;
  apply_hp = false;
  lp_filter = lp_none;
  lpf_fw = 0;
  apply_lp = false;
  apply_mtf = false;
  stats_box = false;
  stats_corners = origin;
  stats_min = 0;
  stats_max = 0;
  stats_mean = 0;
  stats_median = 0;
  color_corners = origin;
  color_min = 0;
  color_max = 0;
  stats = default_stats floats;
  effects = [];
}

origin-IsWireBox : IsWireBox origin
origin-IsWireBox = record {
  left = (omega arith, omega arith);
  right = (omega arith, omega arith);
  low = (omega arith, omega arith);
  high = (omega arith, omega arith);
}

receive-populate_image_reply_example :
    Mirrors
      (λ d. d)
      stream
      (receive floats (λ d. d) (λ a b. a == b) true (populate_image_reply stream) blank_mirror)
receive-populate_image_reply_example =
    receive-populate_image_reply floats (λ d. d) (λ a b. a == b) true stream blank_mirror refl refl
      (omega arith) (omega arith) (omega arith) origin-IsWireBox origin-IsWireBox

numbers-IsOrder : IsOrder numbers
numbers-IsOrder = record { irreflexive = λ a. ground arith; transitive = λ a b c h k. ground arith }

total_first : (v : ℕ) (vs : List ℕ) → total numbers (some v) vs ≡ some v
total_first v [] = refl
total_first v (u ∷ us) = total_first v us

numbers-KeepsFinite : KeepsFinite numbers
numbers-KeepsFinite = record { mean = λ v vs f. rw (total_first v vs) f.0; median = λ v vs f. f.0 }

abbrev input : Input ℕ
input = record {
  nx = 2;
  ny = 2;
  has_data = true;
  cal_data = sample_image.pixel;
  image = sample_image;
  mask = sample_image;
}

read_stats-calc_global_stats_example :
    read_stats (floats_of numbers) (some (wire_stats (calc_global_stats numbers false valid input)))
    ≡ calc_global_stats numbers false valid input
read_stats-calc_global_stats_example =
    read_stats-calc_global_stats numbers false valid input numbers-IsOrder numbers-KeepsFinite
      (λ k. ground (arith, k))
