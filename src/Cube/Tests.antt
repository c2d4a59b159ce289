-- ===== src/Cube/Tests.antt =====
-- A cube of ten planes whose rates are numbers per second.
use rtimv.Common.{
  ℕ, ◌/◌, ◌*◌, ◌≡◌, ◌≢◌, refl, inl, none, some, true, false, List, [], ◌∷◌, ◌==◌, arith,
}
use rtimv.Common.Int.{pos, pos_part}
use rtimv.Cube.{Pacing, Cube, pace, set_cube_mode}
use rtimv.Cube.Updates.{Reading}
use rtimv.Cube.Updates.Runs.{tally_by, is_change, is_check, is_connect, run_reads}
use rtimv.Cube.Updates.Runs
use rtimv.Cube.Timers.{IsPaced, Change, run, restarted, run-IsPaced, restart_lags}

abbrev rates : Pacing ℕ
rates = record {
  nought = 0;
  is_negative = λ f. false;
  at_most_nought = λ f. f == 0;
  interval = λ f m. pos (1000 / (f * m));
  rate = λ t m. 1000 / pos_part t / m;
  multiple = λ a b. pos (pos_part a / pos_part b);
}

abbrev still : Cube ℕ
still = record {
  nz = 10;
  image_timeout = pos 50;
  current = pos 50;
  mode = false;
  fps = 20;
  desired = 20;
  mult = 1;
  dir = pos 1;
  is_stopped = false;
  image_timer = some (pos 50);
  cube_timer = none;
  frame_timer = none;
  sources = some (pos 50) ∷ none ∷ [];
  signals = [];
}

-- The cube at a hundred planes a second, above the rate of images.
abbrev fast : Cube ℕ
fast = record still {
  mode = true;
  fps = 100;
  desired = 100;
  current = pos 10;
  image_timer = some (pos 10);
  cube_timer = some (pos 10);
  frame_timer = some (pos 250);
}

abbrev changes : List (Change rates)
changes =
    Change.mode true
    ∷ Change.fps 100
    ∷ Change.image_timeout (pos 5)
    ∷ Change.planes 1
    ∷ Change.mult 2
    ∷ []

still-IsPaced : IsPaced rates still
still-IsPaced = record {
  positive = omega arith;
  bounded = omega arith;
  runs = refl;
  sources = (refl, (tt, tt));
  cube = inl refl;
}

run-IsPaced_example : IsPaced rates (run rates changes still)
run-IsPaced_example =
    run-IsPaced rates changes still (tt, (tt, (omega arith, (tt, (tt, tt))))) still-IsPaced

fifty_more : pos 10 ≢ pos 50
fifty_more e = absurd (ground (arith, e))

fast_paced : (pace rates fast).image ≡ pos 10
unfolding pace
fast_paced = refl

restart_lags_example :
    ((restarted rates fast).image_timer ≡ some (pos 50))
    × ((restarted rates fast).current ≢ pos 50)
    × ((set_cube_mode rates true (restarted rates fast)).image_timer ≡ some (pos 50))
    × ((set_cube_mode rates true (restarted rates fast)).cube_timer ≡ some (pace rates fast).cube)
restart_lags_example = restart_lags rates fast refl fast_paced fifty_more

-- A reading of an image, and of a new dark frame before it.
abbrev readings : List Reading
readings =
    record { image = none; supports = some 2 ∷ none ∷ [] }
    ∷ record {
      image = some (record { code = 3; nz = 10; default_mode = true });
      supports = some 0 ∷ none ∷ [];
    }
    ∷ []

run_reads_example :
    (tally_by is_change (Runs.run readings false).1 ≡ 2)
    × (tally_by is_check (Runs.run readings false).1 ≡ 2)
    × ((Runs.run readings false).0 ≡ true)
    × (tally_by is_connect (Runs.run readings false).1 ≡ 1)
run_reads_example = run_reads readings false
