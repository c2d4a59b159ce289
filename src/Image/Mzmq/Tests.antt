-- ===== src/Image/Mzmq/Tests.antt =====
-- The theorems on the network source, with times in whole nanoseconds.
use rtimv.Common.{ℕ, ◌-◌, ◌*◌, ◌/◌, true, ◌==◌, ltb}
use rtimv.Image.Rate.{FloatOps}
use rtimv.Image.Mzmq.{Mzmq}

abbrev nanos : FloatOps ℕ
nanos = record {
  zero = 0;
  same = λ a b. a == b;
  minus = λ a b. a - b;
  below_nano = λ a. ltb a 1;
  per = λ n d. n * 1000000000 / d;
}

abbrev stream : Mzmq ℕ
stream = record {
  timeout = 50;
  has_data = true;
  attached = true;
  cnt0 = 12;
  last_cnt0 = 11;
  counters = record { age = 2; fps = 21 };
  image_time = 900;
  rate = record { time0 = 400; frame0 = 2; est = 0 };
}
