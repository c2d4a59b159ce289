-- ===== src/Client/Handshake/Losses.antt =====
-- The operations of server/rtimvClientBase.cpp that do nothing to the handshake but lose a connection.
use rtimv.Common.{
  ℕ, inl, inr, refl, Option, none, Bool, false, not, ◌&&◌, ◌||◌, ◌==◌, if_both, option_both,
  is_null, arith, ltb,
}
use rtimv.Common.Int.{ℤ}
use rtimv.Client.{
  Client, emit, emits_image_needed, emits_global_stats_updated, Floats, Status, ok, unimplemented,
}
use rtimv.Client.Connection.{dispatch_ping, ping_callback, drop_connection, is_transport_error}
use rtimv.Client.Window.{
  ImageReply, Action, nothing, shows, again, retries, image_please, image_callback, follow, judge,
  holds_id, erase, take_reply, choose_reply, clamp_window, image_request_window,
}
use rtimv.Client.Statistics.{
  WireStats, dispatch_stats, send_stats, set_global_stats, stats_callback, stats_received,
  stats_unavailable, receive_stats, fail_stats, rests_stats, put_intent, put_stats,
}
use rtimv.Client.Events.{image_received, is_empty}
use rtimv.Client.Handshake.{Idles, same_link, same_after}

module _ {F : Type 0} where
  pub ping-Idles : (c : Client F) → Idles c (dispatch_ping c)
  unfolding dispatch_ping
  ping-Idles c = record {
    stub = ground arith;
    pending = ground arith;
    connections = ground arith;
    connected = ground arith;
  }

  drop-Idles : (n : ℕ) (c d : Client F) → Idles c d → Idles c (drop_connection n d)
  unfolding drop_connection
  drop-Idles n c d v = if_both (Idles c) (n == d.link.connections) dropped v
    where
      dropped : Idles c (record d { link = record (d.link) { connected = false } })
      dropped = record {
        stub = v.stub;
        pending = v.pending;
        connections = v.connections;
        connected = inr refl;
      }

  pub ping_callback-Idles : (status : Status) (c : Client F) → Idles c (ping_callback status c)
  unfolding ping_callback
  ping_callback-Idles status c =
      if_both (Idles c) (not c.link.ping_pending) (same_link c c refl refl) (
        if_both (Idles c) (c.shutting_down || not (is_transport_error status)) ended
          (drop-Idles c.link.connections c _ ended))
    where
      ended :
          Idles c
            (record c { link = record (c.link) { has_ping_context = false; ping_pending = false } })
      ended = record { stub = refl; pending = refl; connections = refl; connected = inl refl }

  pub please-Idles : (c : Client F) → Idles c (image_please c)
  unfolding image_please
  please-Idles c =
      if_both (Idles c) (not c.link.connected) (same_link c c refl refl)
        (if_both (Idles c) c.shutting_down (same_link c c refl refl) (same_link c _ refl refl))

  follow-Idles : (n : ℕ) (a : Action) (c d : Client F) → Idles c d → Idles c (follow n a d)
  unfolding follow
  follow-Idles n nothing c d v = v
  follow-Idles n shows c d v = same_after c d _ v refl refl
  follow-Idles n again c d v = same_after c d _ v refl refl
  follow-Idles n (retries ms) c d v = same_after c d _ v refl refl

  dispatch-Idles : (c d : Client F) → Idles c d → Idles c (dispatch_stats d)
  unfolding dispatch_stats send_stats
  dispatch-Idles c d v = if_both (Idles c) (rests_stats d) v (same_after c d _ v refl refl)

  fail-Idles :
      (o : Floats F) (status : Status) (c d : Client F)
      → Idles c d
      → Idles c (fail_stats o status d)
  unfolding fail_stats
  fail-Idles o ok c d v = v
  fail-Idles o unimplemented c d v = same_after c d _ v refl refl
  fail-Idles o _ c d v = record {
    stub = v.stub;
    pending = v.pending;
    connections = v.connections;
    connected = inr refl;
  }

  pub image_callback-Idles :
      (id generation : ℕ) (status : Status) (reply : ImageReply) (c : Client F)
      → Idles c (image_callback id generation status reply c)
  unfolding image_callback
  image_callback-Idles id generation status reply c =
      let is_stale = not (generation == c.link.connections) in
      let judged = judge is_stale status reply c.images in
      let erased : Idles c _ =
        same_link c
          (record c { images = record (judged.0) { inflight = erase id judged.0.inflight } }) refl
          refl in
      let dropped =
        if_both (Idles c) (is_transport_error status && not is_stale)
          (drop-Idles c.link.connections c _ erased) erased in
      if_both (Idles c) (not (holds_id id c.images.inflight)) (same_link c c refl refl) (
        if_both (Idles c) c.shutting_down dropped
          (follow-Idles c.link.connections judged.1 c _ dropped))

  receive-Idles :
      (o : Floats F) (g : Option (WireStats F)) (c d : Client F)
      → Idles c d
      → Idles c (receive_stats o g d)
  unfolding receive_stats put_stats
  receive-Idles o g c d v =
      same_after c (dispatch_stats (put_stats o g d)) _
        (dispatch-Idles c (put_stats o g d) (same_after c d _ v refl refl)) refl refl

  pub received-Idles :
      (o : Floats F) (g : Option (WireStats F)) (c : Client F) → Idles c (image_received o g c)
  unfolding image_received
  received-Idles o g c =
      let taken = same_link c (record c { images = take_reply c.images }) refl refl in
      if_both (Idles c) c.shutting_down (same_link c c refl refl) (
        if_both (Idles c) (is_empty c.images.replies) (same_link c c refl refl) (
          shown (
            if_both (Idles c) (is_null (choose_reply c.images)) taken
              (receive-Idles o g c _ taken))))
    where
      shown : {d : Client F} → Idles c d → Idles c (emit emits_image_needed d)
      shown {d = d} v = same_after c d _ v refl refl

  pub window-Idles : (w : ℤ) (c : Client F) → Idles c (image_request_window w c)
  unfolding image_request_window
  window-Idles w c =
      if_both (Idles c) (not c.shutting_down && ltb c.images.target_window (clamp_window w))
        (same_link c _ refl refl) (same_link c _ refl refl)

  pub set-Idles :
      (enabled use_mask : Bool) (c : Client F) → Idles c (set_global_stats enabled use_mask c)
  unfolding set_global_stats put_intent
  set-Idles enabled use_mask c =
      same_after c (dispatch_stats (put_intent enabled use_mask c)) _
        (dispatch-Idles c (put_intent enabled use_mask c) (same_link c _ refl refl)) refl refl

  pub stats_callback-Idles : (status : Status) (c : Client F) → Idles c (stats_callback status c)
  unfolding stats_callback
  stats_callback-Idles status c =
      if_both (Idles c) c.shutting_down (same_link c _ refl refl) (same_link c _ refl refl)

  pub stats_received-Idles : (o : Floats F) (c : Client F) → Idles c (stats_received o c)
  unfolding stats_received
  stats_received-Idles o c =
      if_both (Idles c) (c.shutting_down || c.sync.rpc_pending) (same_link c c refl refl) (
        option_both (Idles c) c.sync.pending (same_link c c refl refl) (λ r. dispatched (
          if_both (Idles c) (r.generation == c.link.connections) (fail-Idles o r.status c _ taken)
            taken)))
    where
      dispatched :
          {d : Client F} → Idles c d → Idles c (emit emits_global_stats_updated (dispatch_stats d))
      dispatched {d = d} v = same_after c (dispatch_stats d) _ (dispatch-Idles c d v) refl refl

      taken : Idles c (record c { sync = record (c.sync) { pending = none } })
      taken = same_link c _ refl refl

  pub unavailable-Idles : (o : Floats F) (n : ℕ) (c : Client F) → Idles c (stats_unavailable o n c)
  unfolding stats_unavailable
  unavailable-Idles o n c =
      if_both (Idles c) (c.shutting_down || not (n == c.link.connections)) (same_link c c refl refl)
        (same_link c _ refl refl)
