-- ===== src/Client/Samples.antt =====
-- A client before its first request, and one that is connected and has asked for two images, of
-- server/rtimvClientBase.cpp.
use rtimv.Common.{ℕ, true, false, [], ◌∷◌, none}
use rtimv.Client.{Client, Floats, default_stats}

abbrev pub floats : Floats ℕ
floats = record { nought = 0; is_finite = λ x. true }

abbrev pub start : Client ℕ
start = record {
  shutting_down = false;
  has_stub = true;
  link = record {
    connected = false;
    connections = 0;
    pending = none;
    rpc_pending = false;
    has_config = true;
    image_names = [];
    fail_reported = false;
    client_id = none;
    ping_pending = false;
    has_ping_context = false;
  };
  images = record {
    target_window = 10;
    primed = false;
    retry_backoff = 500;
    next_id = 1;
    inflight = [];
    replies = [];
    applied = 0;
  };
  sync = record {
    stats = default_stats floats;
    supported = false;
    rpc_unsupported = false;
    have_intent = false;
    desired = false;
    have_mask_intent = false;
    mask_desired = true;
    sent = false;
    last = record { enabled = false; use_mask = false };
    pending = none;
    rpc_pending = false;
  };
  effects = [];
}

abbrev pub connected : Client ℕ
connected = record start {
  link = record (start.link) { connected = true; connections = 2 };
  images = record (start.images) {
    primed = true;
    next_id = 4;
    inflight = record { id = 3; generation = 2 } ∷ record { id = 2; generation = 1 } ∷ [];
  };
}
