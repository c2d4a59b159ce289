-- ===== src/Client/Scale.antt =====
-- The minimum of the colour scale that the user of a client sets: minScaleData, SetMinScale_callback and the
-- part of ImageReceived that ends the wait for a picture, in server/rtimvClientBase.cpp. The
-- maximum has the same code. One call is under way at a time; a later value waits in `desired`.
pub mod Values
pub mod Covers
pub mod Rests
mod Tests
use rtimv.Common.{ℕ, Bool, true, false, not, ◌&&◌, ◌||◌, List, [], ◌∷◌, ◌++◌, if◌then◌else◌}
use rtimv.Client.{Status, ok, is_ok}
use rtimv.Client.Connection.{is_transport_error}

pub record Scale (F : Type 0) : Type 0 where
  pub connected : Bool
  pub shutting_down : Bool
  pub value : F  -- m_minScaleData
  pub pending : Bool
  pub queued : Bool
  pub desired : F
  pub inflight : F
  pub prev_at_send : F
  pub awaits_image : Bool
  pub has_context : Bool
  pub calls : List F  -- the values of the calls of `SetMinScale`, newest first
  pub timers : List F  -- the `singleShot`s that have not fired, oldest first

module _ {F : Type 0} where
  unfoldable pub send_scale : Scale F → Scale F
  send_scale s = record s {
    inflight = s.desired;
    prev_at_send = s.value;
    has_context = true;
    pending = true;
    calls = s.desired ∷ s.calls;
  }

  -- `minScaleData( float )`
  unfoldable pub set_scale : F → Scale F → Scale F
  unfolding send_scale
  set_scale v s =
      if not s.connected || s.shutting_down
      then s
      else (let put = record s { desired = v; value = v } in
          if s.pending || s.awaits_image
          then record put { queued = true }
          else if s.has_context
          then put
          else send_scale put)

  -- How the call ends: a good end waits for a picture, a bad one sends a queued value by a timer.
  unfoldable pub end_call : Status → Scale F → Scale F
  end_call status s =
      (let ended = record s { has_context = false; pending = false } in
        if is_ok status
        then record ended { awaits_image = true }
        else if s.queued && not s.shutting_down
        then record ended { queued = false; timers = s.timers ++ s.desired ∷ [] }
        else record ended { queued = false })

  -- `SetMinScale_callback`
  unfoldable pub scale_callback : Status → Scale F → Scale F
  unfolding end_call
  scale_callback status s =
      if not s.pending
      then s
      else if is_transport_error status
      then record (end_call status s) { connected = false }
      else end_call status s

  -- A picture shows the scale `v`. `matched` compares up to a tolerance.
  unfoldable pub image_scale : (F → F → Bool) → F → Scale F → Scale F
  unfolding set_scale
  image_scale matched v s =
      (let shown = record s { value = v } in
        if s.awaits_image && (not (matched v s.prev_at_send) || matched v s.inflight)
        then (if s.queued && not s.pending && not s.shutting_down
            then set_scale s.desired (record shown { awaits_image = false; queued = false })
            else record shown { awaits_image = false })
        else shown)

  -- The oldest timer sets its value.
  unfoldable pub fire : Scale F → Scale F
  unfolding set_scale
  fire s = elim s.timers [ [] ↦ s | v ∷ vs ↦ set_scale v (record s { timers = vs }) ]
