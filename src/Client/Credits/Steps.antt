-- ===== src/Client/Credits/Steps.antt =====
-- Every event of a client of server/rtimvClientBase.cpp keeps the bounds of its window of image requests.
use rtimv.Common.{ℕ, suc, ◌≡◌, refl, not, ◌&&◌, List, [], ◌∷◌, ◌==◌, ltb, arith, if_both, length}
use rtimv.Common.Int.{ℤ}
use rtimv.Client.{Client, Floats, Status}
use rtimv.Client.Connection.{drop_connection, is_transport_error}
use rtimv.Client.Window.{
  Action, nothing, shows, again, retries, follow, holds_id, erase, judge, image_callback,
  image_request_window, clamp_window, ImageReply,
}
use rtimv.Client.Events.{
  Event, timer_reconnects, connection_ends, connection_is_received, ping_ends, image_is_wanted,
  image_ends, image_is_received, window_is_set, stats_are_set, stats_end, stats_are_received,
  stats_are_unavailable, shutdown_begins, step, run,
}
use rtimv.Client.Credits.Bounds.{HasRoom, IsWithin, IsSound, later_room, please-IsSound}
use rtimv.Client.Credits.Kept.{
  erase-IsBounded, judge-IsBounded, judge_next_id, Kept-IsSound, reconnect-Kept,
  connection_received-Kept, connection_callback-Kept, ping_callback-Kept, image_received-Kept,
  stats_are_set-Kept, stats_callback-Kept, stats_received-Kept, unavailable-Kept,
}

module _ {F : Type 0} where
  same_images :
      (k : ℕ) (c d : Client F)
      → d.images ≡ c.images
      → d.link.connections ≡ c.link.connections
      → IsSound k c
      → IsSound k d
  same_images k c d e f v = record {
    room = record { connections = rw (f) v.room.connections; ids = rw (e) v.room.ids };
    within = rw (e, f) v.within;
  }

  later : (k : ℕ) (c : Client F) → IsSound (suc k) c → IsSound k c
  later k c v = record { room = later_room k c v.room; within = v.within }

  drop-IsSound : (k n : ℕ) (c : Client F) → IsSound k c → IsSound k (drop_connection n c)
  unfolding drop_connection
  drop-IsSound k n c v =
      if_both (IsSound k) (n == c.link.connections)
        (record {
          room = record { connections = v.room.connections; ids = v.room.ids };
          within = v.within;
        })
        v

  follow-IsSound : (k n : ℕ) (a : Action) (c : Client F) → IsSound k c → IsSound k (follow n a c)
  unfolding follow
  follow-IsSound k n nothing c v = v
  follow-IsSound k n shows c v = same_images k c _ refl refl v
  follow-IsSound k n again c v = same_images k c _ refl refl v
  follow-IsSound k n (retries ms) c v = same_images k c _ refl refl v

  callback-IsSound :
      (k id generation : ℕ) (status : Status) (reply : ImageReply) (c : Client F)
      → IsSound k c
      → IsSound k (image_callback id generation status reply c)
  unfolding image_callback
  callback-IsSound k id generation status reply c v =
      let is_stale = not (generation == c.link.connections) in
      let judged = judge is_stale status reply c.images in
      let erased : IsSound k
          (record c { images = record (judged.0) { inflight = erase id judged.0.inflight } }) =
        record {
          room = record {
            connections = v.room.connections;
            ids = omega (arith, v.room.ids, judge_next_id is_stale status reply c.images);
          };
          within =
              erase-IsBounded id c.link.connections judged.0
                (judge-IsBounded c.link.connections is_stale status reply c.images v.within);
        } in
      let dropped =
        if_both (IsSound k) (is_transport_error status && not is_stale)
          (drop-IsSound k c.link.connections _ erased) erased in
      if_both (IsSound k) (not (holds_id id c.images.inflight)) v (
        if_both (IsSound k) c.shutting_down dropped
          (follow-IsSound k c.link.connections judged.1 _ dropped))

  window-IsSound :
      (k : ℕ) (w : ℤ) (c : Client F) → IsSound k c → IsSound k (image_request_window w c)
  unfolding image_request_window
  window-IsSound k w c v =
      if_both (IsSound k) (not c.shutting_down && ltb c.images.target_window (clamp_window w))
        (same_images k sized _ refl refl set) set
    where
      sized : Client F
      sized = record c { images = record (c.images) { target_window = clamp_window w } }

      set : IsSound k sized
      set = record {
        room = record { connections = v.room.connections; ids = v.room.ids };
        within = record {
          window_low = ground arith;
          window_high = ground arith;
          backoff_low = v.within.backoff_low;
          backoff_high = v.within.backoff_high;
          known = v.within.known;
          unique = v.within.unique;
          credits = v.within.credits;
        };
      }

  pub step-IsSound :
      (o : Floats F) (e : Event F) (k : ℕ) (c : Client F)
      → IsSound (suc k) c
      → IsSound k (step o e c)
  unfolding step
  step-IsSound o timer_reconnects k c v = Kept-IsSound k c _ v.room v.within (reconnect-Kept c)
  step-IsSound o (connection_ends a) k c v =
      Kept-IsSound k c _ v.room v.within
        (connection_callback-Kept a.status a.id a.is_named a.name c)
  step-IsSound o connection_is_received k c v =
      Kept-IsSound k c _ v.room v.within (connection_received-Kept o c)
  step-IsSound o (ping_ends status) k c v =
      Kept-IsSound k c _ v.room v.within (ping_callback-Kept status c)
  step-IsSound o image_is_wanted k c v = please-IsSound k c v.room v.within
  step-IsSound o (image_ends id n status reply) k c v =
      callback-IsSound k id n status reply c (later k c v)
  step-IsSound o (image_is_received g) k c v =
      Kept-IsSound k c _ v.room v.within (image_received-Kept o g c)
  step-IsSound o (window_is_set w) k c v = window-IsSound k w c (later k c v)
  step-IsSound o (stats_are_set x y) k c v =
      Kept-IsSound k c _ v.room v.within (stats_are_set-Kept x y c)
  step-IsSound o (stats_end status) k c v =
      Kept-IsSound k c _ v.room v.within (stats_callback-Kept status c)
  step-IsSound o stats_are_received k c v =
      Kept-IsSound k c _ v.room v.within (stats_received-Kept o c)
  step-IsSound o (stats_are_unavailable n) k c v =
      Kept-IsSound k c _ v.room v.within (unavailable-Kept o n c)
  step-IsSound o shutdown_begins k c v = same_images k c _ refl refl (later k c v)

  -- From a client within its bounds, after any events, as many as its counters of 64 bits have room for,
  -- the window has 1 to 128 requests, at most 128 of the current connection are in flight, their
  -- ids differ, and the delay of a retry is between half a second and five.
  pub run-IsWithin :
      (o : Floats F) (es : List (Event F)) (c : Client F)
      → HasRoom (length es) c
      → IsWithin c
      → IsWithin (run o es c)
  unfolding run
  run-IsWithin o [] c h v = v
  run-IsWithin o (e ∷ es) c h v =
      (let w = step-IsSound o e (length es) c (record { room = h; within = v }) in
        run-IsWithin o es (step o e c) w.room w.within)
