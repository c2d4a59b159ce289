-- ===== src/Client/Scale/Values.antt =====
-- Which value of the scale the server is sent at last, and when the client of
-- server/rtimvClientBase.cpp stops waiting for a picture that shows it.
use rtimv.Common.{
  ◌≡◌, refl, Bool, true, false, not, ◌&&◌, ◌||◌, List, [], ◌∷◌, arith, if_both, subst,
}
use rtimv.Client.{Status, deadline_exceeded, is_ok}
use rtimv.Client.Connection.{is_transport_error}
use rtimv.Client.Scale.{Scale, send_scale, set_scale, end_call, scale_callback, image_scale, fire}

pub data Event (F : Type 0) : Type 0 where
  user_sets : F → Event F
  call_ends : Status → Event F
  image_shows : F → Event F
  timer_fires : Event F
  link_changes : Bool → Event F
  shutdown_begins : Event F

module _ {F : Type 0} where
  unfoldable pub step : (F → F → Bool) → Event F → Scale F → Scale F
  unfolding set_scale scale_callback image_scale fire
  step matched (user_sets v) s = set_scale v s
  step matched (call_ends status) s = scale_callback status s
  step matched (image_shows v) s = image_scale matched v s
  step matched timer_fires s = fire s
  step matched (link_changes b) s = record s { connected = b }
  step matched shutdown_begins s = record s { shutting_down = true }

  unfoldable pub run : (F → F → Bool) → List (Event F) → Scale F → Scale F
  unfolding step
  run matched [] s = s
  run matched (e ∷ es) s = run matched es (step matched e s)

  -- What was remembered as the value before the call is the value of the call.
  abbrev Twin : Scale F → Type 0
  Twin s = s.prev_at_send ≡ s.inflight

  set-Twin : (v : F) (s : Scale F) → Twin s → Twin (set_scale v s)
  unfolding set_scale send_scale
  set-Twin v s h =
      if_both Twin (not s.connected || s.shutting_down) h
        (if_both Twin (s.pending || s.awaits_image) h (if_both Twin s.has_context h refl))

  end-Twin : (status : Status) (s : Scale F) → Twin s → Twin (end_call status s)
  unfolding end_call
  end-Twin status s h =
      if_both Twin (is_ok status) h (if_both Twin (s.queued && not s.shutting_down) h h)

  image-Twin : (m : F → F → Bool) (v : F) (s : Scale F) → Twin s → Twin (image_scale m v s)
  unfolding image_scale
  image-Twin m v s h =
      if_both Twin (s.awaits_image && (not (m v s.prev_at_send) || m v s.inflight))
        (if_both Twin (s.queued && not s.pending && not s.shutting_down)
          (set-Twin s.desired (record s { value = v; awaits_image = false; queued = false }) h) h)
        h

  fire-Twin : (s : Scale F) → Twin s → Twin (fire s)
  unfolding fire
  fire-Twin s h = fired s.timers
    where
      fired :
          (vs : List F)
          → Twin (elim vs [ [] ↦ s | w ∷ ws ↦ set_scale w (record s { timers = ws }) ])
      fired [] = h
      fired (w ∷ ws) = set-Twin w (record s { timers = ws }) h

  step-Twin : (m : F → F → Bool) (e : Event F) (s : Scale F) → Twin s → Twin (step m e s)
  unfolding step scale_callback
  step-Twin m (user_sets v) s h = set-Twin v s h
  step-Twin m (call_ends status) s h =
      if_both Twin (not s.pending) h
        (if_both Twin (is_transport_error status) (end-Twin status s h) (end-Twin status s h))
  step-Twin m (image_shows v) s h = image-Twin m v s h
  step-Twin m timer_fires s h = fire-Twin s h
  step-Twin m (link_changes b) s h = h
  step-Twin m shutdown_begins s h = h

  run-Twin : (m : F → F → Bool) (es : List (Event F)) (s : Scale F) → Twin s → Twin (run m es s)
  unfolding run
  run-Twin m [] s h = h
  run-Twin m (e ∷ es) s h = run-Twin m es (step m e s) (step-Twin m e s h)

  tautology : (m : F → F → Bool) (v a b : F) → a ≡ b → (not (m v a) || m v b) ≡ true
  tautology m v a b e = subst (λ c. (not (m v a) || m v c) ≡ true) e (either (m v a))
    where
      either : (t : Bool) → (not t || t) ≡ true
      either true = refl
      either false = refl

  set-awaits : (v : F) (s : Scale F) → (set_scale v s).awaits_image ≡ s.awaits_image
  unfolding set_scale send_scale
  set-awaits v s = ground arith

  image_ends :
      (m : F → F → Bool) (v : F) (s : Scale F) → Twin s → (image_scale m v s).awaits_image ≡ false
  unfolding image_scale
  image_ends m v s h =
      (let t = tautology m v s.prev_at_send s.inflight h in
        let k =
          set-awaits s.desired (record s { value = v; awaits_image = false; queued = false }) in
        ground arith)

  -- From a state in which no value was sent yet, after any events, any picture ends the wait for a picture
  -- that shows the new scale, whatever scale it shows.
  pub any_image_ends_wait :
      (m : F → F → Bool) (es : List (Event F)) (v : F) (s : Scale F)
      → s.prev_at_send ≡ s.inflight
      → (image_scale m v (run m es s)).awaits_image ≡ false
  any_image_ends_wait m es v s h = image_ends m v (run m es s) (run-Twin m es s h)

  -- A connected client with a call under way and a later value `v` queued.
  abbrev pub with_queued : F → F → F → F → List F → Scale F
  with_queued v value sent prev calls = record {
    connected = true;
    shutting_down = false;
    value = value;
    pending = true;
    queued = true;
    desired = v;
    inflight = sent;
    prev_at_send = prev;
    awaits_image = false;
    has_context = true;
    calls = calls;
    timers = [];
  }

  -- The call ends at its deadline, the user sets `w`, and the timer fires.
  abbrev pub overridden : F → F → F → F → F → List F → Scale F
  overridden v w value sent prev calls =
      fire (set_scale w (scale_callback deadline_exceeded (with_queued v value sent prev calls)))

  -- When a call ends at its deadline while the value `v` is queued, and the user sets `w` before the timer
  -- fires, the timer puts the older value back: `w` is sent, and `v` is wanted and queued after it.
  pub late_timer_overrides :
      (v w value sent prev : F) (calls : List F)
      → ((overridden v w value sent prev calls).calls ≡ w ∷ calls)
        × ((overridden v w value sent prev calls).desired ≡ v)
        × ((overridden v w value sent prev calls).queued ≡ true)
  unfolding fire set_scale send_scale scale_callback end_call
  late_timer_overrides v w value sent prev calls = (refl, refl, refl)
