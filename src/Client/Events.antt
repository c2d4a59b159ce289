-- ===== src/Client/Events.antt =====
-- What happens to a client, in any order: its timer, the callbacks of gRPC, the slots that they
-- queue, what the user asks, and the destructor of server/rtimvClientBase.cpp.
use rtimv.Common.{ℕ, Option, Bool, true, List, [], ◌∷◌, if◌then◌else◌, false, is_null}
use rtimv.Common.Int.{ℤ}
use rtimv.Client.{Client, Floats, Status, emit, emits_image_needed}
use rtimv.Client.Connection.{reconnect, connection_callback, connection_received, ping_callback}
use rtimv.Client.Window.{
  ImageReply, image_please, image_callback, take_reply, choose_reply, image_request_window,
}
use rtimv.Client.Statistics.{
  WireStats, set_global_stats, stats_callback, stats_received, stats_unavailable, receive_stats,
}

-- The answer of the server to a request of the handshake.
pub record Answer : Type 0 where
  pub status : Status
  pub id : Option ℕ
  pub is_named : Bool
  pub name : Option ℕ

pub data Event (F : Type 0) : Type 0 where
  timer_reconnects : Event F
  connection_ends : Answer → Event F
  connection_is_received : Event F
  ping_ends : Status → Event F
  image_is_wanted : Event F
  image_ends : ℕ → ℕ → Status → ImageReply → Event F
  image_is_received : Option (WireStats F) → Event F
  window_is_set : ℤ → Event F
  stats_are_set : Bool → Bool → Event F
  stats_end : Status → Event F
  stats_are_received : Event F
  stats_are_unavailable : ℕ → Event F
  shutdown_begins : Event F

abbrev pub is_empty : List ℕ → Bool
is_empty [] = true
is_empty (s ∷ ss) = false

module _ {F : Type 0} where
  -- `ImageReceived`, with the statistics that the newest reply has.
  unfoldable pub image_received : Floats F → Option (WireStats F) → Client F → Client F
  unfolding take_reply choose_reply receive_stats
  image_received o g c =
      (let taken = record c { images = take_reply c.images } in
        if c.shutting_down
        then c
        else if is_empty c.images.replies
        then c
        else emit emits_image_needed
            (if is_null (choose_reply c.images) then taken else receive_stats o g taken))

  unfoldable pub step : Floats F → Event F → Client F → Client F
  unfolding reconnect connection_callback connection_received ping_callback image_please
      image_callback image_request_window set_global_stats stats_callback stats_received
      stats_unavailable image_received
  step o timer_reconnects c = reconnect c
  step o (connection_ends a) c = connection_callback a.status a.id a.is_named a.name c
  step o connection_is_received c = connection_received o c
  step o (ping_ends status) c = ping_callback status c
  step o image_is_wanted c = image_please c
  step o (image_ends id generation status reply) c = image_callback id generation status reply c
  step o (image_is_received g) c = image_received o g c
  step o (window_is_set window) c = image_request_window window c
  step o (stats_are_set enabled use_mask) c = set_global_stats enabled use_mask c
  step o (stats_end status) c = stats_callback status c
  step o stats_are_received c = stats_received o c
  step o (stats_are_unavailable generation) c = stats_unavailable o generation c
  step o shutdown_begins c = record c { shutting_down = true }

  unfoldable pub run : Floats F → List (Event F) → Client F → Client F
  unfolding step
  run o [] c = c
  run o (e ∷ es) c = run o es (step o e c)
