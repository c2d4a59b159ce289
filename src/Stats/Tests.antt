-- ===== src/Stats/Tests.antt =====
-- The global statistics of an image of 2 x 2 pixels, with numbers below 100 as the finite values.
use rtimv.Common.{ℕ, ◌+◌, ◌/◌, ◌*◌, ◌≡◌, refl, true, List, [], ◌∷◌, ◌==◌, ltb, arith, if◌then◌else◌}
use rtimv.Stats.{Arithmetic, valid, unavailable, Input, blank, calc_global_stats}
use rtimv.Stats.Tally.{contributing, IsOrder}
use rtimv.Stats.Global.{IsSummary, calc-IsSummary}
use rtimv.Stats.Refresh.{Monitor}

abbrev first_of : List ℕ → ℕ
first_of [] = 0
first_of (v ∷ vs) = v

abbrev numbers : Arithmetic ℕ ℕ
numbers = record {
  nought = 0;
  is_finite = λ a. ltb a 100;
  is_one = λ a. a == 1;
  less = ltb;
  start = 0;
  plus = λ d v. d + v;
  mean = λ d n. d / n;
  median = first_of;
}

numbers-IsOrder : IsOrder numbers
numbers-IsOrder = record { irreflexive = λ a. ground arith; transitive = λ a b c h k. ground arith }

abbrev pixels : ℕ → ℕ
pixels n = if n == 0 then 40 else if n == 1 then 100 else if n == 2 then 7 else 50

abbrev mask_pixels : ℕ → ℕ
mask_pixels n = if n == 3 then 0 else 1

abbrev masked : Input ℕ
masked = record {
  nx = 2;
  ny = 2;
  has_data = true;
  cal_data = pixels;
  image = record { is_valid = true; width = 2; height = 2; pixel = pixels };
  mask = record { is_valid = true; width = 2; height = 2; pixel = mask_pixels };
}

-- Pixel 1 is not finite, and the mask leaves pixel 3 out.
two_pixels : contributing numbers true masked 0 4 ≡ 40 ∷ 7 ∷ []
two_pixels = refl

calc-IsSummary_example :
    IsSummary numbers
      (contributing numbers true masked 0 (2 * 2))
      (calc_global_stats numbers true valid masked)
calc-IsSummary_example = calc-IsSummary numbers true masked numbers-IsOrder

abbrev enabled_monitor : Monitor ℕ
enabled_monitor = record {
  result = record (blank numbers) { enabled = true };
  last_status = unavailable;
  refresh = true;
}
