-- ===== src/Client/Newest.antt =====
-- Which of the replies that have arrived is shown: ImageReceived of server/rtimvClientBase.cpp. No
-- picture is shown that is older than one that was shown on the same connection.
use rtimv.Common.{
  ℕ, zero, suc, ◌≤◌, ◌<◌, ◌≡◌, ◌⊎◌, inl, refl, Bool, true, false, not, ◌&&◌, ◌||◌, List, [], ◌∷◌,
  ◌==◌, ltb, leb, arith, Option, none, some, All, is_null, if_cases, if_both,
}
use rtimv.Common.Int.{ℤ}
use rtimv.Client.{Client, Floats, Images, Status}
use rtimv.Client.Connection.{
  reconnect, dispatch_ping, dispatch_connection, open_generation, launch, connection_callback,
  ping_callback, drop_connection, is_transport_error,
}
use rtimv.Client.Window.{
  ImageReply, newest, choose_from, choose_reply, take_reply, missing_requests, request_all,
  request_one, image_please, image_callback, judge, judge_reply, follow, Action, nothing, shows,
  again, retries, holds_id, erase, image_request_window,
}
use rtimv.Client.Statistics.{
  WireStats, set_global_stats, put_intent, dispatch_stats, send_stats, stats_callback,
  stats_received, stats_unavailable, receive_stats, put_stats, fail_stats, rests_stats,
}
use rtimv.Client.Events.{
  Event, timer_reconnects, connection_ends, connection_is_received, ping_ends, image_is_wanted,
  image_ends, image_is_received, window_is_set, stats_are_set, stats_end, stats_are_received,
  stats_are_unavailable, shutdown_begins, image_received, step, run, is_empty,
}

abbrev pub arrived : ℕ → List ℕ → Bool
arrived s [] = false
arrived s (r ∷ rs) = r == s || arrived s rs

abbrev pub NoneAbove : ℕ → List ℕ → Type 0
NoneAbove s rs = All (λ r. r ≤ s) rs

below_later : (s t : ℕ) (rs : List ℕ) → s ≤ t → NoneAbove s rs → NoneAbove t rs
below_later s t [] h v = tt
below_later s t (r ∷ rs) h v = (omega arith, below_later s t rs h v.1)

newest_low : (b : ℕ) (rs : List ℕ) → b ≤ newest b rs
newest_low b [] = omega arith
newest_low b (r ∷ rs) =
    if_cases (λ x. b ≤ newest x rs) (leb b r) (λ t. (let h = newest_low r rs in ground arith))
      (λ t. newest_low b rs)

newest-arrived : (b : ℕ) (rs : List ℕ) → (newest b rs ≡ b) ⊎ (arrived (newest b rs) rs ≡ true)
newest-arrived b [] = inl refl
newest-arrived b (r ∷ rs) =
    if_cases (λ x. (newest x rs ≡ b) ⊎ (arrived (newest x rs) (r ∷ rs) ≡ true)) (leb b r)
      (λ t. (let h = newest-arrived r rs in ground arith))
      (λ t. (let h = newest-arrived b rs in ground arith))

newest_high : (b : ℕ) (rs : List ℕ) → NoneAbove (newest b rs) rs
newest_high b [] = tt
newest_high b (r ∷ rs) =
    if_cases (λ x. NoneAbove (newest x rs) (r ∷ rs)) (leb b r)
      (λ t. (newest_low r rs, newest_high r rs))
      (λ t. ((let h = newest_low b rs in ground arith), newest_high b rs))

-- What a choice among replies is, after the serial that was shown last.
pub Chosen : ℕ → List ℕ → Option ℕ → Type 0
Chosen applied rs none = NoneAbove applied rs
Chosen applied rs (some s) = (arrived s rs ≡ true) × NoneAbove s rs × (applied < s)

-- The reply that is shown has arrived, none that has arrived has a later serial, and it is later than the
-- picture that was shown last; where none is shown, no reply is later than that picture.
pub choose_from-Chosen : (applied : ℕ) (rs : List ℕ) → Chosen applied rs (choose_from applied rs)
unfolding choose_from Chosen
choose_from-Chosen applied [] = tt
choose_from-Chosen applied (r ∷ rs) =
    if_cases (Chosen applied (r ∷ rs)) (ltb applied (newest r rs))
      (λ t. (
        (let h = newest-arrived r rs in ground arith),
        (newest_low r rs, newest_high r rs),
        ground arith,
      ))
      (λ t.
        below_later (newest r rs) applied (r ∷ rs) (ground arith)
          (newest_low r rs, newest_high r rs))

same_le : {a b : ℕ} → b ≡ a → a ≤ b
same_le e = omega (arith, e)

request_all-applied : (k n : ℕ) (i : Images) → (request_all k n i).applied ≡ i.applied
unfolding request_one
request_all-applied zero n i = refl
request_all-applied (suc k) n i = request_all-applied k n (request_one n i)

judge-applied :
    (b : Bool) (s : Status) (r : ImageReply) (i : Images) → (judge b s r i).0.applied ≡ i.applied
unfolding judge judge_reply
judge-applied b s r i = ground arith

Chosen-later :
    (a : ℕ) (rs : List ℕ) (o : Option ℕ) → Chosen a rs o → a ≤ (elim o [ none ↦ a | some s ↦ s ])
unfolding Chosen
Chosen-later a rs none v = omega arith
Chosen-later a rs (some s) v = omega (arith, v.2)

taken_later : (i : Images) → i.applied ≤ (take_reply i).applied
unfolding take_reply choose_reply
taken_later i =
    Chosen-later i.applied i.replies (choose_from i.applied i.replies)
      (choose_from-Chosen i.applied i.replies)

module _ {F : Type 0} where
  -- The serial of the picture shown last is as it was.
  abbrev Same : ℕ → Client F → Type 0
  Same a c = c.images.applied ≡ a

  reconnect-applied : (c : Client F) → (reconnect c).images.applied ≡ c.images.applied
  unfolding reconnect dispatch_ping dispatch_connection open_generation launch
  reconnect-applied c = ground arith

  follow-Same : (a n : ℕ) (x : Action) (c : Client F) → Same a c → Same a (follow n x c)
  unfolding follow
  follow-Same a n nothing c v = v
  follow-Same a n shows c v = v
  follow-Same a n again c v = v
  follow-Same a n (retries ms) c v = v

  drop-Same : (a n : ℕ) (c : Client F) → Same a c → Same a (drop_connection n c)
  unfolding drop_connection
  drop-Same a n c v = if_both (Same a) (n == c.link.connections) v v

  callback-applied :
      (id n : ℕ) (s : Status) (r : ImageReply) (c : Client F)
      → (image_callback id n s r c).images.applied ≡ c.images.applied
  unfolding image_callback
  callback-applied id n s r c =
      let is_stale = not (n == c.link.connections) in
      let judged = judge is_stale s r c.images in
      let erased : Client F = record c {
        images = record (judged.0) { inflight = erase id judged.0.inflight };
      } in
      let same : Same c.images.applied erased = judge-applied is_stale s r c.images in
      let dropped =
        if_both (Same c.images.applied) (is_transport_error s && not is_stale)
          (drop-Same c.images.applied c.link.connections erased same) same in
      if_both (Same c.images.applied) (not (holds_id id c.images.inflight)) refl (
        if_both (Same c.images.applied) c.shutting_down dropped
          (follow-Same c.images.applied c.link.connections judged.1 _ dropped))

  please-applied : (c : Client F) → (image_please c).images.applied ≡ c.images.applied
  unfolding image_please
  please-applied c = if_both (Same c.images.applied) (not c.link.connected) refl (
      if_both (Same c.images.applied) c.shutting_down refl (
        request_all-applied (missing_requests c.link.connections c.images) c.link.connections
          c.images))

  dispatch-Same : (a : ℕ) (c : Client F) → Same a c → Same a (dispatch_stats c)
  unfolding dispatch_stats send_stats
  dispatch-Same a c v = if_both (Same a) (rests_stats c) v v

  received_later :
      (o : Floats F) (g : Option (WireStats F)) (c : Client F)
      → c.images.applied ≤ (image_received o g c).images.applied
  unfolding image_received receive_stats put_stats
  received_later o g c = if_both Later c.shutting_down (omega arith) (
      if_both Later (is_empty c.images.replies) (omega arith) (
        if_both Later (is_null (choose_reply c.images)) (taken_later c.images) (
          omega (
            arith,
            taken_later c.images,
            dispatch-Same (take_reply c.images).applied
                (put_stats o g (record c { images = take_reply c.images })) refl,
          ))))
    where
      Later : Client F → Type 0
      Later d = c.images.applied ≤ d.images.applied

  stats_received-Same :
      (a : ℕ) (o : Floats F) (c : Client F) → Same a c → Same a (stats_received o c)
  unfolding stats_received fail_stats dispatch_stats send_stats
  stats_received-Same a o c v = ground arith

  abbrev pub is_handshake : Event F → Bool
  is_handshake connection_is_received = true
  is_handshake _ = false

  connection_callback-applied :
      (s : Status) (id : Option ℕ) (b : Bool) (name : Option ℕ) (c : Client F)
      → (connection_callback s id b name c).images.applied ≡ c.images.applied
  unfolding connection_callback
  connection_callback-applied s id b name c = ground arith

  ping_callback-applied :
      (s : Status) (c : Client F) → (ping_callback s c).images.applied ≡ c.images.applied
  unfolding ping_callback drop_connection
  ping_callback-applied s c = ground arith

  window-applied :
      (w : ℤ) (c : Client F) → (image_request_window w c).images.applied ≡ c.images.applied
  unfolding image_request_window
  window-applied w c = ground arith

  stats_callback-applied :
      (s : Status) (c : Client F) → (stats_callback s c).images.applied ≡ c.images.applied
  unfolding stats_callback
  stats_callback-applied s c = ground arith

  unavailable-applied :
      (o : Floats F) (n : ℕ) (c : Client F)
      → (stats_unavailable o n c).images.applied ≡ c.images.applied
  unfolding stats_unavailable
  unavailable-applied o n c = ground arith

  set-applied :
      (x y : Bool) (c : Client F) → (set_global_stats x y c).images.applied ≡ c.images.applied
  unfolding set_global_stats put_intent
  set-applied x y c = dispatch-Same c.images.applied (put_intent x y c) refl

  step_later :
      (o : Floats F) (e : Event F) (c : Client F)
      → is_handshake e ≡ false
      → c.images.applied ≤ (step o e c).images.applied
  unfolding step
  step_later o timer_reconnects c h = same_le (reconnect-applied c)
  step_later o (connection_ends a) c h =
      same_le (connection_callback-applied a.status a.id a.is_named a.name c)
  step_later o connection_is_received c h = absurd (ground arith)
  step_later o (ping_ends s) c h = same_le (ping_callback-applied s c)
  step_later o image_is_wanted c h = same_le (please-applied c)
  step_later o (image_ends id n s r) c h = same_le (callback-applied id n s r c)
  step_later o (image_is_received g) c h = received_later o g c
  step_later o (window_is_set w) c h = same_le (window-applied w c)
  step_later o (stats_are_set x y) c h = same_le (set-applied x y c)
  step_later o (stats_end s) c h = same_le (stats_callback-applied s c)
  step_later o stats_are_received c h = same_le (stats_received-Same c.images.applied o c refl)
  step_later o (stats_are_unavailable n) c h = same_le (unavailable-applied o n c)
  step_later o shutdown_begins c h = omega arith

  -- As long as no answer of the handshake is received, whatever else happens, the serial of the picture
  -- shown last does not fall: no older picture replaces a newer one.
  pub run_later :
      (o : Floats F) (es : List (Event F)) (c : Client F)
      → All (λ (e : Event F). is_handshake e ≡ false) es
      → c.images.applied ≤ (run o es c).images.applied
  unfolding run
  run_later o [] c h = omega arith
  run_later o (e ∷ es) c h = omega (arith, step_later o e c h.0, run_later o es (step o e c) h.1)
