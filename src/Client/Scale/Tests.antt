-- ===== src/Client/Scale/Tests.antt =====
-- A client of server/rtimvClientBase.cpp whose user moves the scale.
use rtimv.Common.{ℕ, ◌≡◌, inl, refl, Bool, true, false, List, [], ◌∷◌, ◌==◌}
use rtimv.Client.{ok}
use rtimv.Client.Scale.{Scale, set_scale, send_scale}
use rtimv.Client.Scale.Values.{Event, user_sets, call_ends, image_shows, run}
use rtimv.Client.Scale.Covers.{IsLast, IsCovered}
use rtimv.Client.Scale.Rests.{IsTimely, rest_sent}

-- The scale 5 was sent, and seen in a picture.
abbrev shown : Scale ℕ
shown = record {
  connected = true;
  shutting_down = false;
  value = 5;
  pending = false;
  queued = false;
  desired = 5;
  inflight = 5;
  prev_at_send = 5;
  awaits_image = false;
  has_context = false;
  calls = 5 ∷ [];
  timers = [];
}

abbrev same : ℕ → ℕ → Bool
same a b = a == b

-- 6 is sent; 7 is queued until a picture comes; it is sent, and seen.
abbrev moves : List (Event ℕ)
moves = user_sets 6 ∷ user_sets 7 ∷ call_ends ok ∷ image_shows 6 ∷ call_ends ok ∷ image_shows 7 ∷ []

it_waited : (run same (user_sets 6 ∷ call_ends ok ∷ []) shown).awaits_image ≡ true
unfolding run
it_waited = refl

shown-IsCovered : IsCovered shown
shown-IsCovered = record {
  connected = refl;
  running = refl;
  context = refl;
  waits = refl;
  sent = inl refl;
}

moved_rests :
    ((run same moves shown).pending ≡ false)
    × ((run same moves shown).awaits_image ≡ false)
    × ((run same moves shown).timers ≡ [])
unfolding run
moved_rests = (refl, refl, refl)

seven_sent : (run same moves shown).calls ≡ 7 ∷ 6 ∷ 5 ∷ []
unfolding run
seven_sent = refl

moves-IsTimely : IsTimely same moves shown
unfolding set_scale send_scale
moves-IsTimely = (refl, (refl, tt))

rest_sent_example : IsLast 7 (run same moves shown).calls
rest_sent_example =
    rest_sent same moves shown (refl, (refl, (refl, (refl, (refl, (refl, tt)))))) moves-IsTimely
      shown-IsCovered refl moved_rests.0 moved_rests.1 moved_rests.2
