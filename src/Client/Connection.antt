-- ===== src/Client/Connection.antt =====
-- The handshake of the client and the ping that watches a connection: reconnect,
-- dispatchConnectionRequest, connectionRequest_callback, ConnectionReceived, finishConnection,
-- dispatchPingAsync and Ping_callback of server/rtimvClientBase.cpp.
use rtimv.Common.{
  ℕ, zero, suc, ◌+◌, ◌-◌, Option, none, some, Bool, true, false, not, ◌&&◌, ◌||◌, List, [], ◌∷◌,
  ◌++◌, ◌==◌, if◌then◌else◌, is_null, ltb, length, replicate, u64,
}
use rtimv.Client.{
  Client, Connecting, ImageRequest, Phase, probe, configure, image_name, Status, ok,
  failed_precondition, deadline_exceeded, Effect, Floats, emit, is_ok, calls_get_image_name,
  calls_configure, calls_ping, cancels_image_please, queues_connection_received, emits_image_needed,
  emits_global_stats_updated, default_stats,
}

abbrev pub is_naming : Phase → Bool
is_naming image_name = true
is_naming _ = false

abbrev pub is_configuring : Phase → Bool
is_configuring configure = true
is_configuring _ = false

-- The request as it is launched, with an answer that means nothing yet.
abbrev pub asking : Phase → ℕ → ℕ → Connecting
asking phase image generation = record {
  phase = phase;
  image = image;
  generation = generation;
  status = ok;
  reply_id = none;
  reply_valid = false;
  reply_name = none;
}

abbrev pub call_of : Phase → ℕ → Effect
call_of configure image = calls_configure
call_of _ image = calls_get_image_name image

abbrev pub store : Status → Option ℕ → Bool → Option ℕ → Connecting → Connecting
store status reply_id reply_valid reply_name p = record p {
  status = status;
  reply_id = reply_id;
  reply_valid = reply_valid;
  reply_name = reply_name;
}

abbrev pub map_pending : (Connecting → Connecting) → Option Connecting → Option Connecting
map_pending f none = none
map_pending f (some p) = some (f p)

-- `resize( 4 )` of a shorter vector.
abbrev pub resized : List (Option ℕ) → List (Option ℕ)
resized names = if ltb (length names) 4 then names ++ replicate (4 - length names) none else names

-- Puts a name where there is none.
abbrev pub fill_name : ℕ → Option ℕ → List (Option ℕ) → List (Option ℕ)
fill_name i name [] = []
fill_name zero name (none ∷ names) = name ∷ names
fill_name zero name (some n ∷ names) = some n ∷ names
fill_name (suc i) name (n ∷ names) = n ∷ fill_name i name names

unfoldable pub take_name : Connecting → List (Option ℕ) → List (Option ℕ)
take_name p names =
    if is_ok p.status && p.reply_valid
    then fill_name p.image p.reply_name (resized names)
    else resized names

abbrev pub is_transport_error : Status → Bool
is_transport_error ok = false
is_transport_error deadline_exceeded = false
is_transport_error _ = true

-- `TryCancel` of every image request in flight.
abbrev pub cancel_all : List ImageRequest → List Effect → List Effect
cancel_all [] es = es
cancel_all (r ∷ rs) es = cancel_all rs (cancels_image_please r.id ∷ es)

module _ {F : Type 0} where
  -- A probe and a configuration start a new connection.
  unfoldable pub open_generation : Client F → Client F
  open_generation c = record c {
    link = record (c.link) { connections = u64 (c.link.connections + 1); connected = false };
    images = record (c.images) { replies = []; primed = false };
    effects = cancel_all c.images.inflight c.effects;
  }

  unfoldable pub launch : Phase → ℕ → Client F → Client F
  launch phase image c = emit (call_of phase image) (record c {
    link = record (c.link) {
      pending = some (asking phase image c.link.connections);
      rpc_pending = true;
    };
  })

  -- `dispatchConnectionRequest`
  unfoldable pub dispatch_connection : Phase → ℕ → Client F → Client F
  unfolding open_generation launch
  dispatch_connection phase image c =
      if c.shutting_down || not c.has_stub || not (is_null c.link.pending)
      then c
      else (let opened = if is_naming phase then c else open_generation c in
          if is_configuring phase && not opened.link.has_config
          then opened
          else launch phase image opened)

  -- `dispatchPingAsync`
  unfoldable pub dispatch_ping : Client F → Client F
  dispatch_ping c =
      if not c.link.connected || not c.has_stub
      then c
      else if c.shutting_down || c.link.ping_pending
      then c
      else if c.link.has_ping_context
      then c
      else emit calls_ping
          (record c { link = record (c.link) { has_ping_context = true; ping_pending = true } })

  unfoldable pub reconnect : Client F → Client F
  unfolding dispatch_connection dispatch_ping
  reconnect c =
      if c.shutting_down || not c.has_stub
      then c
      else if c.link.connected
      then dispatch_ping c
      else dispatch_connection probe 0 c

  -- `connectionRequest_callback`. The state that it holds is the pending one: this is set with the
  -- call, and neither replaced nor taken before the callback.
  unfoldable pub connection_callback : Status → Option ℕ → Bool → Option ℕ → Client F → Client F
  connection_callback status reply_id reply_valid reply_name c =
      (let stored = record c {
        link = record (c.link) {
          pending = map_pending (store status reply_id reply_valid reply_name) c.link.pending;
          rpc_pending = false;
        };
      } in
        if c.shutting_down then stored else emit queues_connection_received stored)

  unfoldable pub finish_connection : Floats F → Client F → Client F
  finish_connection o c =
      if c.shutting_down
      then c
      else emit emits_image_needed (
          emit emits_global_stats_updated (record c {
            link = record (c.link) { connected = true; fail_reported = false };
            images = record (c.images) { replies = []; applied = 0; primed = false };
            sync = record (c.sync) {
              stats = default_stats o;
              supported = false;
              rpc_unsupported = false;
              sent = false;
            };
          }))

  -- The answer to a probe, to a configuration and to a request for a name.
  unfoldable pub probed : Floats F → Status → Client F → Client F
  unfolding finish_connection dispatch_connection
  probed o ok c = finish_connection o c
  probed o failed_precondition c = dispatch_connection configure 0 c
  probed o _ c = c

  unfoldable pub configured : Connecting → Client F → Client F
  unfolding dispatch_connection
  configured p c =
      if not (is_ok p.status)
      then record c {
        link = record (c.link) { client_id = none; connected = false; fail_reported = true };
      }
      else dispatch_connection image_name 0
          (record c { link = record (c.link) { client_id = p.reply_id } })

  unfoldable pub named : Floats F → Connecting → Client F → Client F
  unfolding finish_connection dispatch_connection take_name
  named o p c =
      (let kept = record c {
        link = record (c.link) { image_names = take_name p c.link.image_names };
      } in
        if ltb p.image 3
        then dispatch_connection image_name (p.image + 1) kept
        else finish_connection o kept)

  unfoldable pub answered : Floats F → Phase → Connecting → Client F → Client F
  unfolding probed configured named
  answered o probe p c = probed o p.status c
  answered o configure p c = configured p c
  answered o image_name p c = named o p c

  -- `ConnectionReceived`
  unfoldable pub connection_received : Floats F → Client F → Client F
  unfolding answered
  connection_received o c =
      if c.shutting_down || c.link.rpc_pending then c else elim c.link.pending [
        | none ↦ c
        | some p ↦
            let taken = record c { link = record (c.link) { pending = none } } in
            if p.generation == c.link.connections then answered o p.phase p taken else taken
      ]

  -- `m_connected` is cleared if no new connection was started meanwhile.
  unfoldable pub drop_connection : ℕ → Client F → Client F
  drop_connection generation c =
      if generation == c.link.connections
      then record c { link = record (c.link) { connected = false } }
      else c

  -- `Ping_callback`, without the average of the round trips.
  unfoldable pub ping_callback : Status → Client F → Client F
  unfolding drop_connection
  ping_callback status c =
      if not c.link.ping_pending
      then c
      else (let ended = record c {
        link = record (c.link) { has_ping_context = false; ping_pending = false };
      } in
          if c.shutting_down || not (is_transport_error status)
          then ended
          else drop_connection c.link.connections ended)
