-- ===== src/Picture/Samples.antt =====
-- Pictures of common/rtimvBase.cpp with numbers as floats, those below 100 being the finite ones.
use rtimv.Common.{
  ℕ, ◌+◌, ◌-◌, ◌*◌, ◌/◌, none, some, true, false, [], ◌∷◌, ◌==◌, if◌then◌else◌, ltb, leb, arith,
}
use rtimv.Common.Int.{pos}
use rtimv.Box.{origin}
use rtimv.Stats.{Arithmetic, Source, blank, valid}
use rtimv.Stats.Tally.{IsOrder}
use rtimv.Picture.{Numbers}
use rtimv.Picture.State.{Picture, linear, minmaxglobal, null_data, raw_data}
use rtimv.Picture.Change.{Fresh, Setting, Inputs}
use rtimv.Picture.Scans.{IsFloat}

abbrev pub arithmetic : Arithmetic ℕ ℕ
arithmetic = record {
  nought = 0;
  is_finite = λ a. ltb a 100;
  is_one = λ a. a == 1;
  less = ltb;
  start = 0;
  plus = λ d v. d + v;
  mean = λ d n. d / n;
  median = λ vs. elim vs [ [] ↦ 0 | v ∷ rest ↦ v ];
}

abbrev pub numbers : Numbers ℕ ℕ
numbers = record {
  arithmetic = arithmetic;
  largest = 99;
  lowest = 0;
  is_equal = λ a b. a == b;
  at_least = λ a b. leb b a;
  is_positive = λ a. ltb 0 a;
}

pub numbers-IsOrder : IsOrder arithmetic
numbers-IsOrder = record { irreflexive = λ a. ground arith; transitive = λ a b c h k. ground arith }

pub numbers-IsFloat : IsFloat numbers
numbers-IsFloat = record {
  order = numbers-IsOrder;
  total = λ a b f g h k. ground arith;
  largest_finite = ground arith;
  lowest_finite = ground arith;
  none_above = λ a f. ground arith;
  none_below = λ a f. ground arith;
  apart = ground arith;
  equal_sound = λ a b h. ground arith;
  equal_same = λ a f. ground arith;
}

abbrev pub setting : Setting ℕ ℕ
setting = record {
  numbers = numbers;
  scaling = record {
    minus = λ a b. a - b;
    over = λ a b. a / b;
    times = λ a b. a * b;
    plus = λ a b. a + b;
    is_negative = λ a. false;
    is_above_one = λ a. ltb 1 a;
    one = 1;
    thousand = 1000;
    log10 = λ a. if ltb a 1000 then 0 else 3;
    power = λ a b. if b == 0 then 1 else a;
    root = λ a. a;
    spread = λ a b v. if v == 0 then a else b;
  };
  floats = record { minus = λ a b. a - b; times = λ a b. a * b };
  work = record {
    high_pass = λ f n. f n + 1;
    low_pass = λ f n. f n * 2;
    transfer_function = λ f n. 7;
  };
}

-- Before the first image.
abbrev pub empty_picture : Picture ℕ
empty_picture = record {
  nx = 0;
  ny = 0;
  nz = 0;
  cal_raw = none;
  cal_data = null_data;
  hp_image = λ n. 0;
  lp_image = λ n. 0;
  mtf = λ n. 0;
  sat_data = λ n. 0;
  saturated = 0;
  sat_level = 60;
  qim = none;
  colors = record {
    min_color = pos 0;
    max_color = pos 253;
    nan_color = pos 254;
    sat_color = pos 255;
  };
  min_image = 0;
  max_image = 0;
  min_scale = 0;
  max_scale = 0;
  stretch = linear;
  mode = minmaxglobal;
  color_box = origin;
  color_min = 0;
  color_max = 0;
  auto_scale = false;
  subtract_dark = false;
  apply_mask = false;
  apply_sat_mask = true;
  filters = record {
    apply_hp = false;
    apply_lp = false;
    apply_mtf = false;
    hp_set = false;
    lp_set = false;
  };
  stats_box = record { enabled = true; box = origin; min = 0; max = 0; mean = 0; median = 0 };
  monitor = record { result = blank arithmetic; last_status = valid; refresh = false };
  selection = record { is_valid = false; width = 0; height = 0; pixel = λ n. 0 };
  told = [];
}

-- Two columns and two rows, of which one pixel is not finite and one is saturated.
abbrev pub sample_pixel : ℕ → ℕ
sample_pixel n = if n == 0 then 40 else if n == 1 then 100 else if n == 2 then 7 else 70

abbrev pub sample_image : Source ℕ
sample_image = record { is_valid = true; width = 2; height = 2; pixel = sample_pixel }

abbrev pub sample_inputs : Inputs ℕ
sample_inputs = record {
  base = record { image = some sample_image; dark = none; mask = none };
  saturation = none;
}

abbrev pub fresh_memory : Fresh ℕ
fresh_memory = record { values = λ n. 0; flags = λ n. 0; colors = λ x y. pos 0 }

abbrev pub loaded_picture : Picture ℕ
loaded_picture = record empty_picture {
  nx = 2;
  ny = 2;
  nz = 1;
  cal_raw = some sample_pixel;
  cal_data = raw_data;
  qim = some (λ x y. pos 0);
  min_scale = 7;
  max_scale = 40;
}
