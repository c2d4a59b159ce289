-- ===== src/Client/Tests.antt =====
-- The client of server/rtimvClientBase.cpp on concrete runs.
use rtimv.Common.{ℕ, ◌≤◌, ◌<◌, ◌≡◌, refl, inl, true, false, List, [], ◌∷◌, none, some, arith}
use rtimv.Stats.{valid}
use rtimv.Client.{Client, Status, ok, failed_precondition, probe}
use rtimv.Client.Samples.{floats, start, connected}
use rtimv.Client.Window.{image_valid, image_please, count_of, request_one, choose_from}
use rtimv.Client.Statistics.{WireStats, wire_valid, rests_stats, global_stats}
use rtimv.Client.Events.{
  Event, Answer, timer_reconnects, connection_ends, connection_is_received, image_is_wanted,
  image_ends, image_is_received, stats_are_set, stats_end, stats_are_received, run,
}
use rtimv.Client.Handshake.{stage, IsLinked}
use rtimv.Client.Handshake.Follows.{IsFollowed, run-IsFollowed}
use rtimv.Client.Handshake.Ends.{rank, is_settled, rounds, rounds_settle, rounds_connect}
use rtimv.Client.Credits.Bounds.{IsWithin}
use rtimv.Client.Credits.Steps.{run-IsWithin}
use rtimv.Client.Intents.Kept.{last_call}
use rtimv.Client.Intents.Calls.{IsIdle, run_sends}
use rtimv.Client.Believed.{is_believable, run_believes}
use rtimv.Client.Newest.{Chosen, choose_from-Chosen}

abbrev answer : Status → ℕ → Answer
answer status name = record { status = status; id = some 7; is_named = true; name = some name }

-- An unknown client: it is configured, and asks for four names.
abbrev answers : List Answer
answers =
    answer failed_precondition 0
    ∷ answer ok 0
    ∷ answer ok 1
    ∷ answer ok 2
    ∷ answer ok 3
    ∷ answer ok 4
    ∷ []

abbrev good_answers : List Answer
good_answers =
    answer ok 0 ∷ answer ok 0 ∷ answer ok 1 ∷ answer ok 2 ∷ answer ok 3 ∷ answer ok 4 ∷ []

abbrev handshake : List (Event ℕ)
handshake =
    timer_reconnects
    ∷ connection_ends (answer failed_precondition 0)
    ∷ connection_is_received
    ∷ connection_ends (answer ok 0)
    ∷ connection_is_received
    ∷ connection_ends (answer ok 1)
    ∷ connection_is_received
    ∷ connection_ends (answer ok 2)
    ∷ connection_is_received
    ∷ connection_ends (answer ok 3)
    ∷ connection_is_received
    ∷ connection_ends (answer ok 4)
    ∷ connection_is_received
    ∷ []

handshake_connects : (run floats handshake start).link.connected ≡ true
unfolding run
handshake_connects = refl

handshake_names :
    (run floats handshake start).link.image_names ≡ some 1 ∷ some 2 ∷ some 3 ∷ some 4 ∷ []
unfolding run
handshake_names = refl

start-IsLinked : IsLinked start
start-IsLinked = record { current = tt }

run-IsFollowed_example : IsFollowed floats handshake start
run-IsFollowed_example = run-IsFollowed floats handshake start start-IsLinked

abbrev begun : Client ℕ
begun = record start {
  link = record (start.link) {
    connections = 1;
    rpc_pending = true;
    pending = some (record {
      phase = probe;
      image = 0;
      generation = 1;
      status = ok;
      reply_id = none;
      reply_valid = false;
      reply_name = none;
    });
  };
}

begun-IsLinked : IsLinked begun
begun-IsLinked = record { current = (refl, refl, omega arith, refl) }

begun_rank : rank (stage begun.link) ≤ 6
unfolding rank stage
begun_rank = omega arith

rounds_settle_example : is_settled (stage (rounds floats answers begun).link) ≡ true
rounds_settle_example = rounds_settle floats answers begun begun-IsLinked refl begun_rank

rounds_connect_example : (rounds floats good_answers begun).link.connected ≡ true
rounds_connect_example =
    rounds_connect floats good_answers begun begun-IsLinked refl refl
      (refl, (refl, (refl, (refl, (refl, (refl, tt)))))) begun_rank

connected-IsWithin : IsWithin connected
connected-IsWithin = record {
  window_low = omega arith;
  window_high = omega arith;
  backoff_low = omega arith;
  backoff_high = omega arith;
  known = ((omega arith, omega arith), ((omega arith, omega arith), tt));
  unique = (refl, (refl, tt));
  credits = omega arith;
}

ten_in_flight : count_of 2 (image_please connected).images.inflight ≡ 10
unfolding image_please request_one
ten_in_flight = refl

choose_from-Chosen_example : Chosen 4 (6 ∷ 3 ∷ 8 ∷ 7 ∷ []) (choose_from 4 (6 ∷ 3 ∷ 8 ∷ 7 ∷ []))
choose_from-Chosen_example = choose_from-Chosen 4 (6 ∷ 3 ∷ 8 ∷ 7 ∷ [])

newest_shown : choose_from 4 (6 ∷ 3 ∷ 8 ∷ 7 ∷ []) ≡ some 8
unfolding choose_from
newest_shown = refl

abbrev wire : WireStats ℕ
wire = record {
  enabled = true;
  use_mask = false;
  status = wire_valid;
  count = 12;
  min = 1;
  max = 9;
  mean = 4;
  median = 5;
}

-- A picture with statistics, while others are wanted.
abbrev viewing : List (Event ℕ)
viewing =
    image_is_wanted
    ∷ stats_are_set true false
    ∷ image_ends 3 2 ok (image_valid 9)
    ∷ image_is_received (some wire)
    ∷ stats_end ok
    ∷ stats_are_received
    ∷ image_is_wanted
    ∷ []

run-IsWithin_example : IsWithin (run floats viewing connected)
run-IsWithin_example =
    run-IsWithin floats viewing connected (record { connections = omega arith; ids = omega arith })
      connected-IsWithin

viewing-IsIdle : IsIdle (run floats viewing connected)
unfolding run request_one
viewing-IsIdle = record {
  running = refl;
  connected = refl;
  stub = refl;
  supported = refl;
  no_call = refl;
}

connected_rests : rests_stats connected ≡ true
unfolding rests_stats
connected_rests = refl

run_sends_example :
    last_call (run floats viewing connected).effects
    ≡ some (record { enabled = true; use_mask = false })
run_sends_example =
    run_sends floats viewing connected (record { enabled = true; use_mask = false }) connected_rests
      (inl refl) refl viewing-IsIdle

viewing-valid : (global_stats floats (run floats viewing connected)).status ≡ valid
unfolding run global_stats request_one
viewing-valid = refl

connected_believable : is_believable floats connected.sync.stats ≡ true
unfolding is_believable
connected_believable = refl

run_believes_example :
    (0 < (global_stats floats (run floats viewing connected)).count)
    × (floats.is_finite (global_stats floats (run floats viewing connected)).min ≡ true)
    × (floats.is_finite (global_stats floats (run floats viewing connected)).max ≡ true)
    × (floats.is_finite (global_stats floats (run floats viewing connected)).mean ≡ true)
    × (floats.is_finite (global_stats floats (run floats viewing connected)).median ≡ true)
run_believes_example = run_believes floats viewing connected connected_believable refl viewing-valid

nine_shown : (run floats viewing connected).images.applied ≡ 9
unfolding run request_one
nine_shown = refl
