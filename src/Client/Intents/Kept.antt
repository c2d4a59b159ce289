-- ===== src/Client/Intents/Kept.antt =====
-- What every event but a wish of the user leaves of what a client of server/rtimvClientBase.cpp notes of
-- the global statistics that are asked for.
use rtimv.Common.{
  ℕ, zero, suc, ◌≡◌, ◌⊎◌, refl, Bool, true, false, List, [], ◌∷◌, arith, Option, none, some,
}
use rtimv.Common.Int.{ℤ}
use rtimv.Client.{
  Client, Sync, Intent, Effect, Floats, Status, ImageRequest, Images, calls_set_global_stats,
  cancels_image_please, calls_image_please,
}
use rtimv.Client.Connection.{
  answered, probed, configured, named, finish_connection, dispatch_connection, open_generation,
  launch, reconnect, dispatch_ping, connection_callback, connection_received, ping_callback,
  drop_connection, cancel_all,
}
use rtimv.Client.Window.{
  follow, ImageReply, image_please, image_callback, image_request_window, call_all, request_one,
  missing_requests,
}
use rtimv.Client.Statistics.{
  WireStats, dispatch_stats, send_stats, put_stats, receive_stats, stats_callback, stats_received,
  stats_unavailable, fail_stats,
}
use rtimv.Client.Events.{image_received}

-- What the newest call of `SetGlobalStats` asks for.
abbrev pub last_call : List Effect → Option Intent
last_call [] = none
last_call (calls_set_global_stats i ∷ es) = some i
last_call (_ ∷ es) = last_call es

cancel_quiet :
    (rs : List ImageRequest) (es : List Effect) → last_call (cancel_all rs es) ≡ last_call es
cancel_quiet [] es = refl
cancel_quiet (r ∷ rs) es = cancel_quiet rs (cancels_image_please r.id ∷ es)

call_quiet :
    (n generation : ℕ) (i : Images) (es : List Effect)
    → last_call (call_all n generation i es) ≡ last_call es
call_quiet zero g i es = refl
call_quiet (suc n) g i es = call_quiet n g (request_one g i) (calls_image_please i.next_id ∷ es)

module _ {F : Type 0} where
  -- What the client has noted of what the user asks.
  abbrev pub noted_intent : Sync F → Bool × Bool × Bool × Bool
  noted_intent y = (y.have_intent, y.desired, y.have_mask_intent, y.mask_desired)

  -- What the user asked is what the client has noted.
  abbrev pub Asks : Option Intent → Sync F → Type 0
  Asks none y = Unit
  Asks (some w) y = noted_intent y ≡ (true, w.enabled, true, w.use_mask)

  -- What is noted as sent last is what the newest call asked for.
  abbrev pub LastSent : Client F → Type 0
  LastSent c = (c.sync.sent ≡ false) ⊎ (last_call c.effects ≡ some c.sync.last)

  -- Nothing happens to the intent, and what was sent stays known.
  pub record Keeps (c d : Client F) : Type 0 where
    pub noted : noted_intent d.sync ≡ noted_intent c.sync
    pub sent : LastSent d

  pub reconnect-Keeps : (c : Client F) → LastSent c → Keeps c (reconnect c)
  unfolding reconnect dispatch_ping dispatch_connection open_generation launch
  reconnect-Keeps c v = record {
    noted = ground arith;
    sent = ground (arith, cancel_quiet c.images.inflight c.effects);
  }

  pub connection-Keeps :
      (o : Floats F) (c : Client F) → LastSent c → Keeps c (connection_received o c)
  unfolding connection_received answered probed configured named finish_connection
      dispatch_connection open_generation launch
  connection-Keeps o c v = record {
    noted = ground arith;
    sent = ground (arith, cancel_quiet c.images.inflight c.effects);
  }

  pub callback-Keeps :
      (s : Status) (id : Option ℕ) (b : Bool) (name : Option ℕ) (c : Client F)
      → LastSent c
      → Keeps c (connection_callback s id b name c)
  unfolding connection_callback
  callback-Keeps s id b name c v = record { noted = ground arith; sent = ground arith }

  pub ping-Keeps : (s : Status) (c : Client F) → LastSent c → Keeps c (ping_callback s c)
  unfolding ping_callback drop_connection
  ping-Keeps s c v = record { noted = ground arith; sent = ground arith }

  pub please-Keeps : (c : Client F) → LastSent c → Keeps c (image_please c)
  unfolding image_please
  please-Keeps c v = record {
    noted = ground arith;
    sent = ground (
      arith,
      call_quiet (missing_requests c.link.connections c.images) c.link.connections c.images
          c.effects,
    );
  }

  pub image_callback-Keeps :
      (id n : ℕ) (s : Status) (r : ImageReply) (c : Client F)
      → LastSent c
      → Keeps c (image_callback id n s r c)
  unfolding image_callback follow drop_connection
  image_callback-Keeps id n s r c v = record { noted = ground arith; sent = ground arith }

  pub received-Keeps :
      (o : Floats F) (g : Option (WireStats F)) (c : Client F)
      → LastSent c
      → Keeps c (image_received o g c)
  unfolding image_received receive_stats put_stats dispatch_stats send_stats
  received-Keeps o g c v = record { noted = ground arith; sent = ground arith }

  pub window-Keeps : (w : ℤ) (c : Client F) → LastSent c → Keeps c (image_request_window w c)
  unfolding image_request_window
  window-Keeps w c v = record { noted = ground arith; sent = ground arith }

  pub ended-Keeps : (s : Status) (c : Client F) → LastSent c → Keeps c (stats_callback s c)
  unfolding stats_callback
  ended-Keeps s c v = record { noted = ground arith; sent = ground arith }

  pub stats_received-Keeps :
      (o : Floats F) (c : Client F) → LastSent c → Keeps c (stats_received o c)
  unfolding stats_received fail_stats dispatch_stats send_stats
  stats_received-Keeps o c v = record { noted = ground arith; sent = ground arith }

  pub unavailable-Keeps :
      (o : Floats F) (n : ℕ) (c : Client F) → LastSent c → Keeps c (stats_unavailable o n c)
  unfolding stats_unavailable
  unavailable-Keeps o n c v = record { noted = ground arith; sent = ground arith }
