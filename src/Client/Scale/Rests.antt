-- ===== src/Client/Scale/Rests.antt =====
-- When a client of server/rtimvClientBase.cpp rests, the scale that is wanted was sent last.
use rtimv.Common.{
  ◌≡◌, inl, inr, refl, Bool, true, false, not, ◌&&◌, ◌||◌, List, [], ◌∷◌, arith, if_cases, if_both,
  All, All-append, subst, sym,
}
use rtimv.Client.{Status, is_ok}
use rtimv.Client.Connection.{is_transport_error}
use rtimv.Client.Scale.{Scale, send_scale, set_scale, end_call, scale_callback, image_scale, fire}
use rtimv.Client.Scale.Values.{
  Event, user_sets, call_ends, image_shows, timer_fires, link_changes, shutdown_begins, step, run,
}
use rtimv.Client.Scale.Covers.{IsLast, IsCovered, has_timer, is_calm, step-IsCovered, run-IsCovered}

module _ {F : Type 0} where
  no_timer : (vs : List F) → vs ≡ [] → has_timer vs ≡ false
  no_timer vs e = rw (e) refl

  resting :
      (s : Scale F)
      → IsCovered s
      → s.pending ≡ false
      → s.awaits_image ≡ false
      → s.timers ≡ []
      → IsLast s.desired s.calls
  resting s v p a t = elim (v.sent) [ inl l ↦ l | inr w ↦ absurd (none_left v.waits w) ]
    where
      none_left :
          (s.queued && not (s.pending || s.awaits_image)) ≡ false
          → (s.queued || has_timer s.timers) ≡ true
          → ⊥
      none_left x w = (let k = no_timer s.timers t in ground arith)

  -- The value that the user set last, from one that was set before.
  abbrev pub last_set : F → List (Event F) → F
  last_set v [] = v
  last_set v (user_sets w ∷ es) = last_set w es
  last_set v (call_ends status ∷ es) = last_set v es
  last_set v (image_shows w ∷ es) = last_set v es
  last_set v (timer_fires ∷ es) = last_set v es
  last_set v (link_changes b ∷ es) = last_set v es
  last_set v (shutdown_begins ∷ es) = last_set v es

  -- The user sets no value while a timer holds an older one.
  abbrev pub IsTimely : (F → F → Bool) → List (Event F) → Scale F → Type 0
  IsTimely m [] s = Unit
  IsTimely m (user_sets v ∷ es) s = (s.timers ≡ []) × IsTimely m es (set_scale v s)
  IsTimely m (call_ends status ∷ es) s = IsTimely m es (scale_callback status s)
  IsTimely m (image_shows v ∷ es) s = IsTimely m es (image_scale m v s)
  IsTimely m (timer_fires ∷ es) s = IsTimely m es (fire s)
  IsTimely m (link_changes b ∷ es) s = IsTimely m es (record s { connected = b })
  IsTimely m (shutdown_begins ∷ es) s = IsTimely m es (record s { shutting_down = true })

  -- The value is wanted, and no timer holds another.
  record Wants (v : F) (s : Scale F) : Type 0 where
    pub wanted : s.desired ≡ v
    pub timed : All (λ w. w ≡ v) s.timers

  set-Wants :
      (v : F) (s : Scale F)
      → s.connected ≡ true
      → s.shutting_down ≡ false
      → All (λ w. w ≡ v) s.timers
      → Wants v (set_scale v s)
  unfolding set_scale send_scale
  set-Wants v s c r t =
      if_cases (Wants v) (not s.connected || s.shutting_down) (λ e. absurd (ground arith))
        (λ _.
          if_both (Wants v) (s.pending || s.awaits_image) (record { wanted = refl; timed = t })
            (if_both (Wants v) s.has_context (record { wanted = refl; timed = t })
              (record { wanted = refl; timed = t })))

  end-Wants : (v : F) (status : Status) (s : Scale F) → Wants v s → Wants v (end_call status s)
  unfolding end_call
  end-Wants v status s w =
      if_both (Wants v) (is_ok status) (record { wanted = w.wanted; timed = w.timed })
        (if_both (Wants v) (s.queued && not s.shutting_down)
          (record {
            wanted = w.wanted;
            timed = All-append (λ u. u ≡ v) s.desired s.timers w.timed w.wanted;
          })
          (record { wanted = w.wanted; timed = w.timed }))

  image-Wants :
      (v : F) (m : F → F → Bool) (x : F) (s : Scale F)
      → IsCovered s
      → Wants v s
      → Wants v (image_scale m x s)
  unfolding image_scale
  image-Wants v m x s c w =
      if_both (Wants v) (s.awaits_image && (not (m x s.prev_at_send) || m x s.inflight))
        (if_both (Wants v) (s.queued && not s.pending && not s.shutting_down)
          (subst (λ u. Wants v (set_scale u begun)) (sym w.wanted)
            (set-Wants v begun c.connected c.running w.timed))
          (record { wanted = w.wanted; timed = w.timed }))
        (record { wanted = w.wanted; timed = w.timed })
    where
      begun : Scale F
      begun = record s { value = x; awaits_image = false; queued = false }

  fire-Wants : (v : F) (s : Scale F) → IsCovered s → Wants v s → Wants v (fire s)
  unfolding fire
  fire-Wants v s c w = fired s.timers w.timed
    where
      fired :
          (ws : List F)
          → All (λ u. u ≡ v) ws
          → Wants v (elim ws [ [] ↦ s | u ∷ us ↦ set_scale u (record s { timers = us }) ])
      fired [] a = w
      fired (u ∷ us) a =
          let left : Scale F = record s { timers = us } in
          subst (λ x. Wants v (set_scale x left)) (sym a.0)
            (set-Wants v left c.connected c.running a.1)

  run-Wants :
      (m : F → F → Bool) (es : List (Event F)) (v : F) (s : Scale F)
      → All (λ (e : Event F). is_calm e ≡ true) es
      → IsTimely m es s
      → IsCovered s
      → Wants v s
      → Wants (last_set v es) (run m es s)
  unfolding run step scale_callback
  run-Wants m [] v s h o c w = w
  run-Wants m (user_sets x ∷ es) v s h o c w =
      run-Wants m es x (set_scale x s) h.1 o.1 (step-IsCovered m (user_sets x) s h.0 c)
        (set-Wants x s c.connected c.running (rw (o.0) tt))
  run-Wants m (call_ends status ∷ es) v s h o c w =
      run-Wants m es v (scale_callback status s) h.1 o (step-IsCovered m (call_ends status) s h.0 c)
        (if_both (Wants v) (not s.pending) w (
          if_both (Wants v) (is_transport_error status)
            (record {
              wanted = (end-Wants v status s w).wanted;
              timed = (end-Wants v status s w).timed;
            })
            (end-Wants v status s w)))
  run-Wants m (image_shows x ∷ es) v s h o c w =
      run-Wants m es v (image_scale m x s) h.1 o (step-IsCovered m (image_shows x) s h.0 c)
        (image-Wants v m x s c w)
  run-Wants m (timer_fires ∷ es) v s h o c w =
      run-Wants m es v (fire s) h.1 o (step-IsCovered m timer_fires s h.0 c) (fire-Wants v s c w)
  run-Wants m (link_changes b ∷ es) v s h o c w =
      run-Wants m es v (record s { connected = b }) h.1 o
        (step-IsCovered m (link_changes b) s h.0 c) (record { wanted = w.wanted; timed = w.timed })
  run-Wants m (shutdown_begins ∷ es) v s h o c w = absurd (ground (arith, h.0))

  -- As long as the connection holds, and if the user sets no value while a timer is set: from a state
  -- without timers whose wanted value was sent last or is queued, after any events, if no call is under
  -- way, no picture is waited for and no timer is set, then the last call sent the value that the user
  -- set last, or the one that was wanted at the start if the user set none.
  pub rest_sent :
      (m : F → F → Bool) (es : List (Event F)) (s : Scale F)
      → All (λ (e : Event F). is_calm e ≡ true) es
      → IsTimely m es s
      → IsCovered s
      → s.timers ≡ []
      → (run m es s).pending ≡ false
      → (run m es s).awaits_image ≡ false
      → (run m es s).timers ≡ []
      → IsLast (last_set s.desired es) (run m es s).calls
  rest_sent m es s h o v e p a t =
      let w = run-Wants m es s.desired s h o v (record { wanted = refl; timed = rw (e) tt }) in
      subst (λ x. IsLast x (run m es s).calls) w.wanted
        (resting (run m es s) (run-IsCovered m es s h v) p a t)
