-- ===== src/Client/Intents/Calls.antt =====
-- What the user asks of the global statistics reaches the server in a call, over all events of a client of
-- server/rtimvClientBase.cpp.
use rtimv.Common.{
  ◌≡◌, inl, inr, refl, Bool, true, false, List, [], ◌∷◌, arith, ◌∙◌, sym, Option, none, some, ap,
  subst,
}
use rtimv.Client.{Client, Sync, Intent, Floats}
use rtimv.Client.Connection.{reconnect, connection_callback, connection_received, ping_callback}
use rtimv.Client.Window.{image_please, image_callback, image_request_window}
use rtimv.Client.Statistics.{
  dispatch_stats, send_stats, set_global_stats, put_intent, stats_callback, stats_received,
  stats_unavailable, rests_stats, was_sent, stats_requested, mask_requested,
}
use rtimv.Client.Events.{
  Event, timer_reconnects, connection_ends, connection_is_received, ping_ends, image_is_wanted,
  image_ends, image_is_received, window_is_set, stats_are_set, stats_end, stats_are_received,
  stats_are_unavailable, shutdown_begins, image_received, step, run,
}
use rtimv.Client.Intents.{Rests, run-Rests}
use rtimv.Client.Intents.Kept.{
  last_call, noted_intent, Asks, LastSent, Keeps, reconnect-Keeps, connection-Keeps, callback-Keeps,
  ping-Keeps, please-Keeps, image_callback-Keeps, received-Keeps, window-Keeps, ended-Keeps,
  stats_received-Keeps, unavailable-Keeps,
}

module _ {F : Type 0} where
  -- What the user asked last, from what was asked before.
  abbrev pub last_asked : Option Intent → List (Event F) → Option Intent
  last_asked w [] = w
  last_asked w (stats_are_set x y ∷ es) =
      last_asked (some (record { enabled = x; use_mask = y })) es
  last_asked w (_ ∷ es) = last_asked w es

  set-LastSent : (x y : Bool) (c : Client F) → LastSent c → LastSent (set_global_stats x y c)
  unfolding set_global_stats put_intent dispatch_stats send_stats
  set-LastSent x y c v = ground arith

  set-noted :
      (x y : Bool) (c : Client F) → noted_intent (set_global_stats x y c).sync ≡ (true, x, true, y)
  unfolding set_global_stats put_intent dispatch_stats send_stats
  set-noted x y c = ground arith

  kept : (w : Option Intent) (c d : Client F) → Keeps c d → Asks w c.sync → Asks w d.sync
  kept none c d k a = tt
  kept (some w) c d k a = k.noted ∙ a

  run-Asks :
      (o : Floats F) (es : List (Event F)) (w : Option Intent) (c : Client F)
      → Asks w c.sync
      → LastSent c
      → Asks (last_asked w es) (run o es c).sync × LastSent (run o es c)
  unfolding run step
  run-Asks o [] w c a l = (a, l)
  run-Asks o (stats_are_set x y ∷ es) w c a l =
      run-Asks o es _ (set_global_stats x y c) (set-noted x y c) (set-LastSent x y c l)
  run-Asks o (timer_reconnects ∷ es) w c a l =
      let k = reconnect-Keeps c l in run-Asks o es w (reconnect c) (kept w c _ k a) k.sent
  run-Asks o (connection_ends e ∷ es) w c a l =
      let k = callback-Keeps e.status e.id e.is_named e.name c l in
      run-Asks o es w (connection_callback e.status e.id e.is_named e.name c) (kept w c _ k a)
        k.sent
  run-Asks o (connection_is_received ∷ es) w c a l =
      let k = connection-Keeps o c l in
      run-Asks o es w (connection_received o c) (kept w c _ k a) k.sent
  run-Asks o (ping_ends s ∷ es) w c a l =
      let k = ping-Keeps s c l in run-Asks o es w (ping_callback s c) (kept w c _ k a) k.sent
  run-Asks o (image_is_wanted ∷ es) w c a l =
      let k = please-Keeps c l in run-Asks o es w (image_please c) (kept w c _ k a) k.sent
  run-Asks o (image_ends id n s r ∷ es) w c a l =
      let k = image_callback-Keeps id n s r c l in
      run-Asks o es w (image_callback id n s r c) (kept w c _ k a) k.sent
  run-Asks o (image_is_received g ∷ es) w c a l =
      let k = received-Keeps o g c l in
      run-Asks o es w (image_received o g c) (kept w c _ k a) k.sent
  run-Asks o (window_is_set z ∷ es) w c a l =
      let k = window-Keeps z c l in
      run-Asks o es w (image_request_window z c) (kept w c _ k a) k.sent
  run-Asks o (stats_end s ∷ es) w c a l =
      let k = ended-Keeps s c l in run-Asks o es w (stats_callback s c) (kept w c _ k a) k.sent
  run-Asks o (stats_are_received ∷ es) w c a l =
      let k = stats_received-Keeps o c l in
      run-Asks o es w (stats_received o c) (kept w c _ k a) k.sent
  run-Asks o (stats_are_unavailable n ∷ es) w c a l =
      let k = unavailable-Keeps o n c l in
      run-Asks o es w (stats_unavailable o n c) (kept w c _ k a) k.sent
  run-Asks o (shutdown_begins ∷ es) w c a l = run-Asks o es w _ a l

  -- There is nothing to wait for: a connection to a server with statistics and no call under way.
  pub record IsIdle (c : Client F) : Type 0 where
    pub running : c.shutting_down ≡ false
    pub connected : c.link.connected ≡ true
    pub stub : c.has_stub ≡ true
    pub supported : c.sync.supported ≡ true
    pub no_call : c.sync.pending ≡ none

  -- What was sent last is what is wanted, if the client has noted it.
  was_sent-last :
      (y : Sync F) (w : Intent)
      → was_sent y ≡ true
      → noted_intent y ≡ (true, w.enabled, true, w.use_mask)
      → (y.sent ≡ true) × (y.last ≡ w)
  unfolding was_sent stats_requested mask_requested
  was_sent-last y w s a =
      let h = ap (λ t. t.0) a in
      let d = ap (λ t. t.1) a in
      let k = ap (λ t. t.2) a in
      let m = ap (λ t. t.3) a in
      let enabled : y.last.enabled ≡ w.enabled = ground arith in
      let use_mask : y.last.use_mask ≡ w.use_mask = ground arith in
      (ground arith, λ i. record { enabled = enabled i; use_mask = use_mask i })

  idle_sent :
      (c : Client F) → Rests c → IsIdle c → c.sync.have_intent ≡ true → was_sent c.sync ≡ true
  unfolding rests_stats
  idle_sent c v i h =
      let s : rests_stats c ≡ was_sent c.sync =
        rw (i.running, i.connected, i.stub, i.supported, h, i.no_call) refl in
      sym s ∙ v

  idle_call :
      (c : Client F) (w : Intent)
      → IsIdle c
      → Rests c
      → LastSent c
      → noted_intent c.sync ≡ (true, w.enabled, true, w.use_mask)
      → last_call c.effects ≡ some w
  idle_call c w i v l a =
      let s = was_sent-last c.sync w (idle_sent c v i (ap (λ t. t.0) a)) a in
      elim l [ inl n ↦ absurd (ground (arith, n, s.0)) | inr e ↦ e ∙ ap some s.1 ]

  -- From a client that has nothing left to send and knows what it sent last: after any events in which the
  -- user asked something, whenever the client is idle, its newest call of `SetGlobalStats` asked for
  -- what the user asked last.
  pub run_sends :
      (o : Floats F) (es : List (Event F)) (c : Client F) (w : Intent)
      → rests_stats c ≡ true
      → LastSent c
      → last_asked none es ≡ some w
      → IsIdle (run o es c)
      → last_call (run o es c).effects ≡ some w
  run_sends o es c w v l e i =
      let k = run-Asks o es none c tt l in
      idle_call (run o es c) w i (run-Rests o es c v) k.1
        (subst (λ q. Asks q (run o es c).sync) e k.0)
