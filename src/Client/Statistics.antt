-- ===== src/Client/Statistics.antt =====
-- The global statistics of the client: the request for them and what the server answers.
-- mtxUL_globalStats to receiveGlobalStats of server/rtimvClientBase.cpp. The statistics
-- themselves come with the pictures.
use rtimv.Common.{
  ℕ, Option, none, some, Bool, true, false, not, ◌&&◌, ◌||◌, ◌==◌, if◌then◌else◌, is_null, ltb,
}
use rtimv.Stats.{
  GlobalStatsState, GlobalStatsStatus, unavailable, valid, no_image, no_mask, size_mismatch, empty,
  unsupported,
}
use rtimv.Client.{
  Client, Sync, Intent, StatsRequest, Status, ok, unimplemented, Floats, emit,
  calls_set_global_stats, queues_global_stats_received, emits_global_stats_updated, without_result,
}

abbrev pub equal : Bool → Bool → Bool
equal true b = b
equal false b = not b

abbrev pub end_request : Status → Option StatsRequest → Option StatsRequest
end_request status none = none
end_request status (some r) = some (record r { status = status })

-- The statistics of a picture on the wire.
pub data WireStatus : Type 0 where
  wire_unavailable wire_valid wire_no_image wire_no_mask wire_size_mismatch wire_empty : WireStatus
  wire_unsupported wire_unknown : WireStatus

pub record WireStats (F : Type 0) : Type 0 where
  pub enabled : Bool
  pub use_mask : Bool
  pub status : WireStatus
  pub count : ℕ
  pub min : F
  pub max : F
  pub mean : F
  pub median : F

unfoldable pub status_of : WireStatus → GlobalStatsStatus
status_of wire_valid = valid
status_of wire_no_image = no_image
status_of wire_no_mask = no_mask
status_of wire_size_mismatch = size_mismatch
status_of wire_empty = empty
status_of wire_unsupported = unsupported
status_of _ = unavailable

module _ {F : Type 0} where
  -- `globalStatsRequested`
  unfoldable pub stats_requested : Sync F → Bool
  stats_requested y = if y.have_intent then y.desired else y.stats.enabled

  -- `globalStatsUseMaskRequested`
  unfoldable pub mask_requested : Sync F → Bool
  mask_requested y = if y.have_mask_intent then y.mask_desired else y.stats.use_mask

  -- `globalStatsPending`
  unfoldable pub stats_pending : Client F → Bool
  stats_pending c =
      c.link.connected
      && c.sync.supported
      && (not (is_null c.sync.pending)
          || c.sync.have_intent && not (equal c.sync.desired c.sync.stats.enabled)
          || c.sync.have_mask_intent && not (equal c.sync.mask_desired c.sync.stats.use_mask))

  -- What was sent last is what is wanted.
  unfoldable pub was_sent : Sync F → Bool
  unfolding stats_requested mask_requested
  was_sent y =
      y.sent && equal y.last.enabled (stats_requested y) && equal y.last.use_mask (mask_requested y)

  unfoldable pub send_stats : Client F → Client F
  unfolding stats_requested mask_requested
  send_stats c =
      (let wanted : Intent = record {
        enabled = stats_requested c.sync;
        use_mask = mask_requested c.sync;
      } in
        emit (calls_set_global_stats wanted) (record c {
          sync = record (c.sync) {
            pending = some (record { generation = c.link.connections; status = ok });
            rpc_pending = true;
            sent = true;
            last = wanted;
          };
        }))

  -- `dispatchGlobalStats` has nothing to do.
  unfoldable pub rests_stats : Client F → Bool
  unfolding was_sent
  rests_stats c =
      c.shutting_down
      || not c.link.connected
      || not c.has_stub
      || not c.sync.supported
      || not (c.sync.have_intent || c.sync.have_mask_intent)
      || not (is_null c.sync.pending)
      || was_sent c.sync

  -- `dispatchGlobalStats`
  unfoldable pub dispatch_stats : Client F → Client F
  unfolding rests_stats send_stats
  dispatch_stats c = if rests_stats c then c else send_stats c

  -- `mtxL_globalStats`
  unfoldable pub put_intent : Bool → Bool → Client F → Client F
  put_intent enabled use_mask c = record c {
    sync = record (c.sync) {
      have_intent = true;
      desired = enabled;
      have_mask_intent = true;
      mask_desired = use_mask;
    };
  }

  -- `mtxUL_globalStats`
  unfoldable pub set_global_stats : Bool → Bool → Client F → Client F
  unfolding dispatch_stats put_intent
  set_global_stats enabled use_mask c =
      emit emits_global_stats_updated (dispatch_stats (put_intent enabled use_mask c))

  -- `globalStats`
  unfoldable pub global_stats : Floats F → Client F → GlobalStatsState F
  global_stats o c =
      if c.link.connected
      then c.sync.stats
      else without_result o c.sync.stats.enabled c.sync.stats.use_mask no_image

  -- `globalStats_callback`: the state that it holds is the pending one.
  unfoldable pub stats_callback : Status → Client F → Client F
  stats_callback status c =
      (let ended = record c {
        sync = record (c.sync) { pending = end_request status c.sync.pending; rpc_pending = false };
      } in
        if c.shutting_down then ended else emit queues_global_stats_received ended)

  -- A server without the call, and a call that failed.
  unfoldable pub fail_stats : Floats F → Status → Client F → Client F
  fail_stats o ok c = c
  fail_stats o unimplemented c = record c {
    sync = record (c.sync) {
      supported = false;
      rpc_unsupported = true;
      stats = without_result o false true unsupported;
    };
  }
  fail_stats o _ c = record c {
    link = record (c.link) { connected = false };
    sync = record (c.sync) { sent = false; stats = without_result o false true no_image };
  }

  -- `GlobalStatsReceived`
  unfoldable pub stats_received : Floats F → Client F → Client F
  unfolding fail_stats dispatch_stats
  stats_received o c = if c.shutting_down || c.sync.rpc_pending then c else elim c.sync.pending [
    | none ↦ c
    | some r ↦
        let taken = record c { sync = record (c.sync) { pending = none } } in
        emit emits_global_stats_updated (
          dispatch_stats
            (if r.generation == c.link.connections then fail_stats o r.status taken else taken))
  ]

  -- `GlobalStatsUnavailable`
  unfoldable pub stats_unavailable : Floats F → ℕ → Client F → Client F
  stats_unavailable o generation c =
      if c.shutting_down || not (generation == c.link.connections)
      then c
      else emit emits_global_stats_updated (record c {
        sync = record (c.sync) {
          stats = without_result o c.sync.stats.enabled c.sync.stats.use_mask no_image;
        };
      })

  abbrev pub is_believed : Floats F → WireStats F → Bool
  is_believed o g =
      g.enabled
      && ltb 0 g.count
      && o.is_finite g.min
      && o.is_finite g.max
      && o.is_finite g.mean
      && o.is_finite g.median

  -- A valid result that is not believed is none.
  unfoldable pub read_stats : Floats F → Option (WireStats F) → GlobalStatsState F
  unfolding status_of
  read_stats o none = without_result o false true unsupported
  read_stats o (some g) = elim (status_of g.status) [
    | valid ↦
        if is_believed o g
        then record {
          enabled = g.enabled;
          use_mask = g.use_mask;
          status = valid;
          count = g.count;
          min = g.min;
          max = g.max;
          mean = g.mean;
          median = g.median;
        }
        else without_result o g.enabled g.use_mask unavailable
    | status ↦ without_result o g.enabled g.use_mask status
  ]

  -- A server that refused the call has no statistics until the next connection.
  unfoldable pub put_stats : Floats F → Option (WireStats F) → Client F → Client F
  unfolding read_stats
  put_stats o g c = record c {
    sync = record (c.sync) {
      supported = not (is_null g) && not c.sync.rpc_unsupported;
      stats =
          if c.sync.rpc_unsupported
          then without_result o false true unsupported
          else read_stats o g;
    };
  }

  -- `receiveGlobalStats`, of the statistics in a picture, if it has them.
  unfoldable pub receive_stats : Floats F → Option (WireStats F) → Client F → Client F
  unfolding put_stats dispatch_stats
  receive_stats o g c = emit emits_global_stats_updated (dispatch_stats (put_stats o g c))
