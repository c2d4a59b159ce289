-- ===== src/Image/Shmim/Tests.antt =====
-- The theorems on the shared memory source at a ring of images, with times in whole nanoseconds.
use rtimv.Common.{ℕ, ◌-◌, ◌*◌, ◌/◌, ◌≡◌, ◌≤◌, true, false, some, none, refl, ◌==◌, ltb, arith}
use rtimv.Image.{no_update, age_update, im_update, fps_update}
use rtimv.Image.Rate.{FloatOps}
use rtimv.Image.Shmim.{
  Shmim, Metadata, Attempt, shmim_timerout, im_connect, update, slice, valid, detach,
}
use rtimv.Image.Shmim.News.{IsShown, update_once}

abbrev nanoseconds : FloatOps ℕ
nanoseconds = record {
  zero = 0;
  same = λ a b. a == b;
  minus = λ a b. a - b;
  below_nano = λ a. ltb a 1;
  per = λ n d. n * 1000000000 / d;
}

abbrev new_shmim : Shmim ℕ
new_shmim = record {
  inode = 0;
  not_found_logged = false;
  timeout = 100;
  is_open = false;
  nx = 0;
  ny = 0;
  type_size = 0;
  curr = none;
  timer_running = true;
  attached = false;
  last_cnt0 = 18446744073709551615;
  counters = record { age = 0; fps = 0 };
  image_time = 0;
  rate = record { time0 = 0; frame0 = 0; est = 0 };
}

-- A ring of four images of 3 x 2 pixels of 2 bytes.
abbrev ring : Metadata ℕ
ring = record {
  sem = 10;
  width = 3;
  height = 2;
  slices = 4;
  bytes = some 2;
  cnt0 = 7;
  cnt1 = some 3;
  write_time = 5000;
}

abbrev attached_shmim : Shmim ℕ
attached_shmim = record new_shmim {
  inode = 40;
  is_open = true;
  nx = 3;
  ny = 2;
  type_size = 2;
  timer_running = false;
  attached = true;
}

attaches :
    shmim_timerout (record { exists_file = true; opens = some ring; stat = some 40 }) new_shmim
    ≡ some attached_shmim
unfolding shmim_timerout im_connect rtimv.Image.Shmim.attach
attaches = refl

update_once_example :
    (t u : Shmim ℕ) × (code again : ℕ) × (update nanoseconds ring false (some 40) attached_shmim
      ≡ some (t, code))
    × (2 ≤ code)
    × IsShown ring attached_shmim t
    × (update nanoseconds ring false (some 40) t ≡ some (u, again))
    × (again ≤ 1)
update_once_example =
    update_once nanoseconds ring false (some 40) attached_shmim
      (record { attached = refl; served = refl; width = refl; height = refl; period = omega arith })
      (λ e. omega (arith, e))
