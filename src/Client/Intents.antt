-- ===== src/Client/Intents.antt =====
-- A client of server/rtimvClientBase.cpp has no global statistics left to send, over all events.
pub mod Kept
pub mod Calls
use rtimv.Common.{
  ℕ, ◌≡◌, refl, Bool, true, false, ◌||◌, List, [], ◌∷◌, arith, ◌∙◌, sym, Option, none,
}
use rtimv.Common.Int.{ℤ}
use rtimv.Client.{Client, Sync, Floats, Status}
use rtimv.Client.Connection.{
  answered, probed, configured, named, finish_connection, dispatch_connection, open_generation,
  launch, reconnect, dispatch_ping, connection_callback, connection_received, ping_callback,
  drop_connection,
}
use rtimv.Client.Window.{follow, ImageReply, image_please, image_callback, image_request_window}
use rtimv.Client.Statistics.{
  WireStats, dispatch_stats, send_stats, set_global_stats, put_intent, put_stats, receive_stats,
  stats_callback, stats_received, stats_unavailable, fail_stats, rests_stats, was_sent,
  stats_requested, mask_requested,
}
use rtimv.Client.Events.{
  Event, timer_reconnects, connection_ends, connection_is_received, ping_ends, image_is_wanted,
  image_ends, image_is_received, window_is_set, stats_are_set, stats_end, stats_are_received,
  stats_are_unavailable, shutdown_begins, image_received, step, run,
}

module _ {F : Type 0} where
  abbrev pub Rests : Client F → Type 0
  Rests c = rests_stats c ≡ true

  dispatch-Rests : (c : Client F) → Rests (dispatch_stats c)
  unfolding dispatch_stats send_stats rests_stats was_sent
  dispatch-Rests c = ground arith

  reconnect-Rests : (c : Client F) → Rests c → Rests (reconnect c)
  unfolding reconnect dispatch_ping dispatch_connection open_generation launch rests_stats was_sent
  reconnect-Rests c v = ground arith

  connection-Rests : (o : Floats F) (c : Client F) → Rests c → Rests (connection_received o c)
  unfolding connection_received answered probed configured named finish_connection
      dispatch_connection open_generation launch rests_stats was_sent
  connection-Rests o c v = ground arith

  image_callback-Rests :
      (id n : ℕ) (s : Status) (r : ImageReply) (c : Client F)
      → Rests c
      → Rests (image_callback id n s r c)
  unfolding image_callback follow drop_connection rests_stats was_sent
  image_callback-Rests id n s r c v = ground arith

  received-Rests :
      (o : Floats F) (g : Option (WireStats F)) (c : Client F)
      → Rests c
      → Rests (image_received o g c)
  unfolding image_received receive_stats put_stats dispatch_stats send_stats rests_stats was_sent
  received-Rests o g c v = ground arith

  callback-Rests :
      (s : Status) (id : Option ℕ) (b : Bool) (name : Option ℕ) (c : Client F)
      → Rests c
      → Rests (connection_callback s id b name c)
  unfolding connection_callback rests_stats was_sent
  callback-Rests s id b name c v = ground arith

  ping-Rests : (s : Status) (c : Client F) → Rests c → Rests (ping_callback s c)
  unfolding ping_callback drop_connection rests_stats was_sent
  ping-Rests s c v = ground arith

  please-Rests : (c : Client F) → Rests c → Rests (image_please c)
  unfolding image_please rests_stats was_sent
  please-Rests c v = ground arith

  window-Rests : (w : ℤ) (c : Client F) → Rests c → Rests (image_request_window w c)
  unfolding image_request_window rests_stats was_sent
  window-Rests w c v = ground arith

  set-Rests : (x y : Bool) (c : Client F) → Rests (set_global_stats x y c)
  unfolding set_global_stats put_intent dispatch_stats send_stats rests_stats was_sent
  set-Rests x y c = ground arith

  ended-Rests : (s : Status) (c : Client F) → Rests c → Rests (stats_callback s c)
  unfolding stats_callback rests_stats was_sent
  ended-Rests s c v = ground arith

  stats_received-Rests : (o : Floats F) (c : Client F) → Rests c → Rests (stats_received o c)
  unfolding stats_received fail_stats dispatch_stats send_stats rests_stats was_sent
  stats_received-Rests o c v = ground arith

  unavailable-Rests :
      (o : Floats F) (n : ℕ) (c : Client F) → Rests c → Rests (stats_unavailable o n c)
  unfolding stats_unavailable rests_stats was_sent stats_requested mask_requested
  unavailable-Rests o n c v = ground arith

  shutdown-Rests : (c : Client F) → Rests (record c { shutting_down = true })
  unfolding rests_stats
  shutdown-Rests c = refl

  step-Rests : (o : Floats F) (e : Event F) (c : Client F) → Rests c → Rests (step o e c)
  unfolding step
  step-Rests o timer_reconnects c v = reconnect-Rests c v
  step-Rests o (connection_ends a) c v = callback-Rests a.status a.id a.is_named a.name c v
  step-Rests o connection_is_received c v = connection-Rests o c v
  step-Rests o (ping_ends s) c v = ping-Rests s c v
  step-Rests o image_is_wanted c v = please-Rests c v
  step-Rests o (image_ends id n s r) c v = image_callback-Rests id n s r c v
  step-Rests o (image_is_received g) c v = received-Rests o g c v
  step-Rests o (window_is_set w) c v = window-Rests w c v
  step-Rests o (stats_are_set x y) c v = set-Rests x y c
  step-Rests o (stats_end s) c v = ended-Rests s c v
  step-Rests o stats_are_received c v = stats_received-Rests o c v
  step-Rests o (stats_are_unavailable n) c v = unavailable-Rests o n c v
  step-Rests o shutdown_begins c v = shutdown-Rests c

  pub run-Rests : (o : Floats F) (es : List (Event F)) (c : Client F) → Rests c → Rests (run o es c)
  unfolding run
  run-Rests o [] c v = v
  run-Rests o (e ∷ es) c v = run-Rests o es (step o e c) (step-Rests o e c v)
