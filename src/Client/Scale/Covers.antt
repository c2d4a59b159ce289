-- ===== src/Client/Scale/Covers.antt =====
-- The value of the scale that a client of server/rtimvClientBase.cpp wants was sent last or will be, as
-- long as the connection holds.
use rtimv.Common.{
  ◌≡◌, ◌⊎◌, inl, inr, refl, Bool, true, false, not, ◌&&◌, ◌||◌, List, [], ◌∷◌, ◌++◌, arith,
  if_cases, if_both, All,
}
use rtimv.Client.{Status, is_ok}
use rtimv.Client.Connection.{is_transport_error}
use rtimv.Client.Scale.{Scale, send_scale, set_scale, end_call, scale_callback, image_scale, fire}
use rtimv.Client.Scale.Values.{
  Event, user_sets, call_ends, image_shows, timer_fires, link_changes, shutdown_begins, step, run,
}

module _ {F : Type 0} where
  abbrev pub IsLast : F → List F → Type 0
  IsLast v [] = ⊥
  IsLast v (w ∷ ws) = w ≡ v

  abbrev pub has_timer : List F → Bool
  has_timer [] = false
  has_timer (v ∷ vs) = true

  -- The connection holds, and the wanted value was sent last or is on its way to be.
  pub record IsCovered (s : Scale F) : Type 0 where
    pub connected : s.connected ≡ true
    pub running : s.shutting_down ≡ false
    pub context : s.has_context ≡ s.pending
    pub waits : (s.queued && not (s.pending || s.awaits_image)) ≡ false
    pub sent : IsLast s.desired s.calls ⊎ ((s.queued || has_timer s.timers) ≡ true)

  timer_added : (vs : List F) (v : F) → has_timer (vs ++ v ∷ []) ≡ true
  timer_added [] v = refl
  timer_added (w ∷ ws) v = refl

  set-IsCovered :
      (v : F) (s : Scale F)
      → s.connected ≡ true
      → s.shutting_down ≡ false
      → s.has_context ≡ s.pending
      → IsCovered (set_scale v s)
  unfolding set_scale send_scale
  set-IsCovered v s c r x =
      if_cases IsCovered (not s.connected || s.shutting_down) (λ t. absurd (ground arith))
        (λ _.
          if_cases IsCovered (s.pending || s.awaits_image)
            (λ t. record {
              connected = c;
              running = r;
              context = x;
              waits = ground arith;
              sent = inr refl;
            })
            (λ t.
              if_cases IsCovered s.has_context (λ u. absurd (ground arith))
                (λ u. record {
                  connected = c;
                  running = r;
                  context = refl;
                  waits = ground arith;
                  sent = inl refl;
                })))

  end-IsCovered :
      (status : Status) (s : Scale F)
      → is_transport_error status ≡ false
      → IsCovered s
      → IsCovered (end_call status s)
  unfolding end_call
  end-IsCovered status s e v =
      if_cases IsCovered (is_ok status)
        (λ t. record {
          connected = v.connected;
          running = v.running;
          context = refl;
          waits = ground arith;
          sent = v.sent;
        })
        (λ t.
          if_cases IsCovered (s.queued && not s.shutting_down)
            (λ q. record {
              connected = v.connected;
              running = v.running;
              context = refl;
              waits = refl;
              sent = inr (timer_added s.timers s.desired);
            })
            (λ q. record {
              connected = v.connected;
              running = v.running;
              context = refl;
              waits = refl;
              sent = elim (v.sent) [ inl l ↦ inl l | inr w ↦ inr (timer_left w q) ];
            }))
    where
      timer_left :
          (s.queued || has_timer s.timers) ≡ true
          → (s.queued && not s.shutting_down) ≡ false
          → has_timer s.timers ≡ true
      timer_left w q = (let r = v.running in ground arith)

  image-IsCovered :
      (m : F → F → Bool) (x : F) (s : Scale F) → IsCovered s → IsCovered (image_scale m x s)
  unfolding image_scale
  image-IsCovered m x s v =
      if_cases IsCovered (s.awaits_image && (not (m x s.prev_at_send) || m x s.inflight))
        (λ t.
          if_cases IsCovered (s.queued && not s.pending && not s.shutting_down)
            (λ q.
              set-IsCovered s.desired (record s { value = x; awaits_image = false; queued = false })
                v.connected v.running v.context)
            (λ q. record {
              connected = v.connected;
              running = v.running;
              context = v.context;
              waits = free q;
              sent = v.sent;
            }))
        (λ t. record {
          connected = v.connected;
          running = v.running;
          context = v.context;
          waits = v.waits;
          sent = v.sent;
        })
    where
      free :
          (s.queued && not s.pending && not s.shutting_down) ≡ false
          → (s.queued && not (s.pending || false)) ≡ false
      free q = (let r = v.running in ground arith)

  fire-IsCovered : (s : Scale F) → IsCovered s → IsCovered (fire s)
  unfolding fire
  fire-IsCovered s v = fired s.timers refl
    where
      fired :
          (vs : List F)
          → s.timers ≡ vs
          → IsCovered (elim vs [ [] ↦ s | w ∷ ws ↦ set_scale w (record s { timers = ws }) ])
      fired [] e = v
      fired (w ∷ ws) e = set-IsCovered w (record s { timers = ws }) v.connected v.running v.context

  -- The connection is not lost and the client does not end.
  abbrev pub is_calm : Event F → Bool
  is_calm (call_ends status) = not (is_transport_error status)
  is_calm (link_changes b) = b
  is_calm shutdown_begins = false
  is_calm _ = true

  pub step-IsCovered :
      (m : F → F → Bool) (e : Event F) (s : Scale F)
      → is_calm e ≡ true
      → IsCovered s
      → IsCovered (step m e s)
  unfolding step scale_callback
  step-IsCovered m (user_sets x) s h v = set-IsCovered x s v.connected v.running v.context
  step-IsCovered m (call_ends status) s h v = if_both IsCovered (not s.pending) v (
      if_cases IsCovered (is_transport_error status) (λ t. absurd (ground arith))
        (λ t. end-IsCovered status s t v))
  step-IsCovered m (image_shows x) s h v = image-IsCovered m x s v
  step-IsCovered m timer_fires s h v = fire-IsCovered s v
  step-IsCovered m (link_changes b) s h v = record {
    connected = h;
    running = v.running;
    context = v.context;
    waits = v.waits;
    sent = v.sent;
  }
  step-IsCovered m shutdown_begins s h v = absurd (ground arith)

  pub run-IsCovered :
      (m : F → F → Bool) (es : List (Event F)) (s : Scale F)
      → All (λ (e : Event F). is_calm e ≡ true) es
      → IsCovered s
      → IsCovered (run m es s)
  unfolding run
  run-IsCovered m [] s h v = v
  run-IsCovered m (e ∷ es) s h v = run-IsCovered m es (step m e s) h.1 (step-IsCovered m e s h.0 v)
