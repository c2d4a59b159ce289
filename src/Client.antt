-- ===== src/Client.antt =====
-- The client of a remote server: server/rtimvClientBase.cpp and .hpp. The state of its connection, of
-- its window of image requests and of the global statistics that it asks for, with what it does
-- outside: calls of gRPC, signals and slots queued for the Qt thread are `Effect`s, newest first.
-- Strings are numbers, the empty one is `none`. Times, the text that is logged, the caches of
-- ages and paths, the rolling averages and the pixels of a picture are left out.
pub mod Connection
pub mod Window
pub mod Statistics
pub mod Events
pub mod Handshake
pub mod Credits
mod Samples
mod Tests
pub mod Callbacks
pub mod Scale
pub mod Intents
pub mod Newest
pub mod Believed
use rtimv.Common.{
  ℕ, Option, none, some, Bool, true, false, not, ◌&&◌, List, [], ◌∷◌, ◌==◌, if◌then◌else◌,
}
use rtimv.Stats.{GlobalStatsState, GlobalStatsStatus, unavailable}

-- The status of a call of gRPC: the codes that the client tells apart.
pub data Status : Type 0 where
  ok failed_precondition deadline_exceeded unimplemented other : Status

pub data Phase : Type 0 where
  probe configure image_name : Phase

-- A request of the handshake, with the answer that its callback stores: the reply to `Configure` is
-- `reply_id`, the reply to `GetImageName` is `reply_valid` and `reply_name`.
pub record Connecting : Type 0 where
  pub phase : Phase
  pub image : ℕ
  pub generation : ℕ
  pub status : Status
  pub reply_id : Option ℕ
  pub reply_valid : Bool
  pub reply_name : Option ℕ

pub record Link : Type 0 where
  pub connected : Bool
  pub connections : ℕ  -- uint64_t
  pub pending : Option Connecting
  pub rpc_pending : Bool
  pub has_config : Bool
  pub image_names : List (Option ℕ)
  pub fail_reported : Bool
  pub client_id : Option ℕ
  pub ping_pending : Bool
  pub has_ping_context : Bool

-- A request for an image in flight, under its id.
pub record ImageRequest : Type 0 where
  pub id : ℕ
  pub generation : ℕ

pub record Images : Type 0 where
  pub target_window : ℕ
  pub primed : Bool
  pub retry_backoff : ℕ  -- ms
  pub next_id : ℕ  -- uint64_t
  pub inflight : List ImageRequest
  pub replies : List ℕ  -- the serials of m_completedImageReplies, oldest first
  pub applied : ℕ  -- m_lastAppliedResponseSerial

-- A call of `SetGlobalStats` that the Qt thread has not yet seen the end of.
pub record StatsRequest : Type 0 where
  pub generation : ℕ
  pub status : Status

-- What was asked, and what was sent last.
pub record Intent : Type 0 where
  pub enabled : Bool
  pub use_mask : Bool

pub record Sync (F : Type 0) : Type 0 where
  pub stats : GlobalStatsState F
  pub supported : Bool
  pub rpc_unsupported : Bool
  pub have_intent : Bool
  pub desired : Bool
  pub have_mask_intent : Bool
  pub mask_desired : Bool
  pub sent : Bool
  pub last : Intent
  pub pending : Option StatsRequest
  pub rpc_pending : Bool

pub data Effect : Type 0 where
  calls_get_image_name : ℕ → Effect
  calls_configure : Effect
  calls_ping : Effect
  calls_image_please : ℕ → Effect
  calls_set_global_stats : Intent → Effect
  cancels_image_please : ℕ → Effect
  queues_connection_received : Effect
  queues_global_stats_received : Effect
  queues_global_stats_unavailable : ℕ → Effect
  queues_image_please : ℕ → Effect  -- after so many ms
  emits_image_needed : Effect
  emits_image_waiting : Effect
  emits_global_stats_updated : Effect

pub record Client (F : Type 0) : Type 0 where
  pub shutting_down : Bool
  pub has_stub : Bool
  pub link : Link
  pub images : Images
  pub sync : Sync F
  pub effects : List Effect

-- The operations of float that the client uses.
pub record Floats (F : Type 0) : Type 0 where
  pub nought : F
  pub is_finite : F → Bool

abbrev pub emit : {F : Type 0} → Effect → Client F → Client F
emit e c = record c { effects = e ∷ c.effects }

abbrev pub is_ok : Status → Bool
is_ok ok = true
is_ok _ = false

-- A state of the statistics without a result.
abbrev pub without_result :
    {F : Type 0} → Floats F → Bool → Bool → GlobalStatsStatus → GlobalStatsState F
without_result o enabled use_mask status = record {
  enabled = enabled;
  use_mask = use_mask;
  status = status;
  count = 0;
  min = o.nought;
  max = o.nought;
  mean = o.nought;
  median = o.nought;
}

abbrev pub default_stats : {F : Type 0} → Floats F → GlobalStatsState F
default_stats o = without_result o false true unavailable
