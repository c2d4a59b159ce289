-- ===== src/Client/Believed.antt =====
-- What comes back of the global statistics is believed only where it can be, and a server that refused
-- the call is not asked again: server/rtimvClientBase.cpp.
use rtimv.Common.{
  ℕ, ◌<◌, ◌≡◌, Bool, true, false, not, ◌&&◌, ◌||◌, List, [], ◌∷◌, ◌==◌, if◌then◌else◌, ltb, arith,
  if_both, Option, none, option_both,
}
use rtimv.Common.Int.{ℤ, pos}
use rtimv.Stats.{GlobalStatsState, GlobalStatsStatus, valid}
use rtimv.Client.{Client, Sync, Floats, Status, ok}
use rtimv.Client.Connection.{
  answered, probed, configured, named, finish_connection, dispatch_connection, open_generation,
  launch, reconnect, dispatch_ping, connection_callback, connection_received, ping_callback,
  drop_connection,
}
use rtimv.Client.Window.{follow, ImageReply, image_please, image_callback, image_request_window}
use rtimv.Client.Statistics.{
  WireStats, dispatch_stats, send_stats, set_global_stats, put_intent, put_stats, receive_stats,
  stats_callback, stats_received, stats_unavailable, fail_stats, read_stats, status_of,
  global_stats,
}
use rtimv.Client.Events.{
  Event, timer_reconnects, connection_ends, connection_is_received, ping_ends, image_is_wanted,
  image_ends, image_is_received, window_is_set, stats_are_set, stats_end, stats_are_received,
  stats_are_unavailable, shutdown_begins, image_received, step, run,
}

abbrev pub is_valid : GlobalStatsStatus → Bool
is_valid valid = true
is_valid _ = false

module _ {F : Type 0} where
  -- A result that is called valid is of some pixel, and finite.
  unfoldable pub is_believable : Floats F → GlobalStatsState F → Bool
  is_believable o g =
      not (is_valid g.status)
      || ltb 0 g.count
        && o.is_finite g.min
        && o.is_finite g.max
        && o.is_finite g.mean
        && o.is_finite g.median

  abbrev Honest : Floats F → Client F → Type 0
  Honest o c =
      (is_believable o c.sync.stats ≡ true) × ((c.sync.rpc_unsupported && c.sync.supported) ≡ false)

  read-believable :
      (o : Floats F) (g : Option (WireStats F)) → is_believable o (read_stats o g) ≡ true
  unfolding read_stats is_believable status_of
  read-believable o g = ground arith

  same_sync :
      {y z : Sync F} (o : Floats F)
      → z ≡ y
      → (is_believable o y.stats ≡ true) × ((y.rpc_unsupported && y.supported) ≡ false)
      → (is_believable o z.stats ≡ true) × ((z.rpc_unsupported && z.supported) ≡ false)
  same_sync o e v = rw (e) v

  dispatch-Honest : (o : Floats F) (c : Client F) → Honest o c → Honest o (dispatch_stats c)
  unfolding dispatch_stats send_stats
  dispatch-Honest o c v = ground arith

  reconnect-sync : (c : Client F) → (reconnect c).sync ≡ c.sync
  unfolding reconnect dispatch_ping dispatch_connection open_generation launch
  reconnect-sync c = ground arith

  connection-Honest :
      (o : Floats F) (c : Client F) → Honest o c → Honest o (connection_received o c)
  unfolding connection_received answered probed configured named finish_connection
      dispatch_connection open_generation launch is_believable
  connection-Honest o c v = ground arith

  image_callback-sync :
      (id n : ℕ) (s : Status) (r : ImageReply) (c : Client F)
      → (image_callback id n s r c).sync ≡ c.sync
  unfolding image_callback follow drop_connection
  image_callback-sync id n s r c = ground arith

  put-Honest : (o : Floats F) (g : Option (WireStats F)) (c : Client F) → Honest o (put_stats o g c)
  unfolding put_stats is_believable
  put-Honest o g c = (let w = read-believable o g in ground arith)

  received-Honest :
      (o : Floats F) (g : Option (WireStats F)) (c : Client F)
      → Honest o c
      → Honest o (image_received o g c)
  unfolding image_received receive_stats
  received-Honest o g c v =
      (let w = dispatch-Honest o (put_stats o g c) (put-Honest o g c) in ground arith)

  set-Honest :
      (o : Floats F) (x y : Bool) (c : Client F) → Honest o c → Honest o (set_global_stats x y c)
  unfolding set_global_stats put_intent
  set-Honest o x y c v = dispatch-Honest o (put_intent x y c) v

  ended-Honest :
      (o : Floats F) (s : Status) (c : Client F) → Honest o c → Honest o (stats_callback s c)
  unfolding stats_callback
  ended-Honest o s c v = ground arith

  failed-Honest :
      (o : Floats F) (s : Status) (c : Client F) → Honest o c → Honest o (fail_stats o s c)
  unfolding fail_stats is_believable
  failed-Honest o s c v = ground arith

  stats_received-Honest : (o : Floats F) (c : Client F) → Honest o c → Honest o (stats_received o c)
  unfolding stats_received
  stats_received-Honest o c v = if_both (Honest o) (c.shutting_down || c.sync.rpc_pending) v (
      option_both (Honest o) c.sync.pending v (λ r.
        dispatch-Honest o
          (if r.generation == c.link.connections then fail_stats o r.status taken else taken)
          (if_both (Honest o) (r.generation == c.link.connections)
            (failed-Honest o r.status taken v) v)))
    where
      taken : Client F
      taken = record c { sync = record (c.sync) { pending = none } }

  unavailable-Honest :
      (o : Floats F) (n : ℕ) (c : Client F) → Honest o c → Honest o (stats_unavailable o n c)
  unfolding stats_unavailable is_believable
  unavailable-Honest o n c v = ground arith

  small-sync :
      (s : Status) (id : Option ℕ) (b : Bool) (name : Option ℕ) (w : ℤ) (c : Client F)
      → ((connection_callback s id b name c).sync ≡ c.sync)
        × ((ping_callback s c).sync ≡ c.sync)
        × ((image_please c).sync ≡ c.sync)
        × ((image_request_window w c).sync ≡ c.sync)
  unfolding connection_callback ping_callback drop_connection image_please image_request_window
  small-sync s id b name w c = (ground arith, ground arith, ground arith, ground arith)

  step-Honest : (o : Floats F) (e : Event F) (c : Client F) → Honest o c → Honest o (step o e c)
  unfolding step
  step-Honest o timer_reconnects c v = same_sync o (reconnect-sync c) v
  step-Honest o (connection_ends a) c v =
      same_sync o (small-sync a.status a.id a.is_named a.name (pos 0) c).0 v
  step-Honest o connection_is_received c v = connection-Honest o c v
  step-Honest o (ping_ends s) c v = same_sync o (small-sync s none true none (pos 0) c).1 v
  step-Honest o image_is_wanted c v = same_sync o (small-sync ok none true none (pos 0) c).2 v
  step-Honest o (image_ends id n s r) c v = same_sync o (image_callback-sync id n s r c) v
  step-Honest o (image_is_received g) c v = received-Honest o g c v
  step-Honest o (window_is_set w) c v = same_sync o (small-sync ok none true none w c).3 v
  step-Honest o (stats_are_set x y) c v = set-Honest o x y c v
  step-Honest o (stats_end s) c v = ended-Honest o s c v
  step-Honest o stats_are_received c v = stats_received-Honest o c v
  step-Honest o (stats_are_unavailable n) c v = unavailable-Honest o n c v
  step-Honest o shutdown_begins c v = v

  run-Honest :
      (o : Floats F) (es : List (Event F)) (c : Client F) → Honest o c → Honest o (run o es c)
  unfolding run
  run-Honest o [] c v = v
  run-Honest o (e ∷ es) c v = run-Honest o es (step o e c) (step-Honest o e c v)

  reported-believable :
      (o : Floats F) (c : Client F) → Honest o c → is_believable o (global_stats o c) ≡ true
  unfolding global_stats is_believable
  reported-believable o c v = ground arith

  believable_all :
      (o : Floats F) (g : GlobalStatsState F)
      → is_believable o g ≡ true
      → g.status ≡ valid
      → (0 < g.count)
        × (o.is_finite g.min ≡ true)
        × (o.is_finite g.max ≡ true)
        × (o.is_finite g.mean ≡ true)
        × (o.is_finite g.median ≡ true)
  unfolding is_believable
  believable_all o g v e = ground arith

  -- If a client starts with statistics that can be believed, then after any events a result that it
  -- reports as valid is of at least one pixel, and its four values are finite.
  pub run_believes :
      (o : Floats F) (es : List (Event F)) (c : Client F)
      → is_believable o c.sync.stats ≡ true
      → (c.sync.rpc_unsupported && c.sync.supported) ≡ false
      → (global_stats o (run o es c)).status ≡ valid
      → (0 < (global_stats o (run o es c)).count)
        × (o.is_finite (global_stats o (run o es c)).min ≡ true)
        × (o.is_finite (global_stats o (run o es c)).max ≡ true)
        × (o.is_finite (global_stats o (run o es c)).mean ≡ true)
        × (o.is_finite (global_stats o (run o es c)).median ≡ true)
  run_believes o es c h k e =
      believable_all o (global_stats o (run o es c))
        (reported-believable o (run o es c) (run-Honest o es c (h, k))) e
