-- ===== src/Client/Handshake/Received.antt =====
-- ConnectionReceived of server/rtimvClientBase.cpp, and the requests that it launches, move the
-- handshake from stage to stage.
use rtimv.Common.{
  ℕ, ◌+◌, ◌≤◌, ◌≡◌, inl, inr, refl, option_at, option_cases, Option-cases, none, some, true, false,
  not, ◌||◌, ◌==◌, if◌then◌else◌, ltb, arith, if_both, if_cases, Bool-cases, subst, sym,
}
use rtimv.Client.{
  Client, Connecting, Phase, probe, configure, image_name, Status, ok, failed_precondition, is_ok,
  Floats,
}
use rtimv.Client.Connection.{
  open_generation, launch, dispatch_connection, asking, finish_connection, probed, configured,
  named, answered, connection_received,
}
use rtimv.Client.Handshake.{
  Stage, offline, probing, configuring, online, naming, asked, stage, Move, Turn, turns, probes,
  is_known, is_unknown, names_first, names_next, connects, probe_fails, configure_fails, Current,
  IsLinked, Goes, fades, same_link,
}

module _ {F : Type 0} where
  launch-Goes :
      (R : Stage → Stage → Type 0) (s : Stage) (phase : Phase) (image : ℕ) (c : Client F)
      → c.link.connected ≡ false
      → image ≤ 3
      → c.has_stub ≡ true
      → R s (asked (asking phase image c.link.connections))
      → Goes R s (launch phase image c)
  unfolding launch stage
  launch-Goes R s phase image c e h k m = record {
    linked = record { current = (refl, e, h, k) };
    moves = m;
  }

  -- With nothing pending and no connection.
  pub rests :
      (R : Stage → Stage → Type 0) (s : Stage) (c : Client F)
      → c.link.pending ≡ none
      → R s (stage c.link)
      → Goes R s c
  rests R s c e m = record {
    linked = record { current = subst (Current c.has_stub c.link) (sym e) tt };
    moves = m;
  }

  -- A client that can dispatch a request.
  pub record IsReady (c : Client F) : Type 0 where
    pub running : c.shutting_down ≡ false
    pub stub : c.has_stub ≡ true
    pub at_rest : c.link.pending ≡ none

  dispatch-naming :
      (image : ℕ) (c : Client F)
      → IsReady c
      → dispatch_connection image_name image c ≡ launch image_name image c
  unfolding dispatch_connection
  dispatch-naming image c r = rw (r.running, r.stub, r.at_rest) refl

  pub dispatch-probe :
      (c : Client F)
      → IsReady c
      → dispatch_connection probe 0 c ≡ launch probe 0 (open_generation c)
  unfolding dispatch_connection
  dispatch-probe c r = rw (r.running, r.stub, r.at_rest) refl

  dispatch-configure :
      (c : Client F)
      → IsReady c
      → dispatch_connection configure 0 c
        ≡ (if c.link.has_config then launch configure 0 (open_generation c) else open_generation c)
  unfolding dispatch_connection open_generation
  dispatch-configure c r = elim (Bool-cases c.link.has_config) [
    | inl e ↦ rw (r.running, r.stub, r.at_rest, e) refl
    | inr e ↦ rw (r.running, r.stub, r.at_rest, e) refl
  ]

  Goes-naming :
      (s : Stage) (image : ℕ) (c : Client F)
      → IsReady c
      → c.link.connected ≡ false
      → image ≤ 3
      → Turn s (naming image)
      → Goes Turn s (dispatch_connection image_name image c)
  Goes-naming s image c r e h m =
      subst (Goes Turn s) (sym (dispatch-naming image c r))
        (launch-Goes Turn s image_name image c e h r.stub m)

  pub Goes-probe : (c : Client F) → IsReady c → Goes Move offline (dispatch_connection probe 0 c)
  unfolding open_generation
  Goes-probe c r =
      subst (Goes Move offline) (sym (dispatch-probe c r))
        (launch-Goes Move offline probe 0 (open_generation c) refl (omega arith) r.stub probes)

  Goes-configure :
      (c : Client F) → IsReady c → Goes Turn probing (dispatch_connection configure 0 c)
  unfolding open_generation stage
  Goes-configure c r = subst (Goes Turn probing) (sym (dispatch-configure c r)) (
      if_both (Goes Turn probing) c.link.has_config
        (launch-Goes Turn probing configure 0 (open_generation c) refl (omega arith) r.stub
          is_unknown)
        (rests Turn probing (open_generation c) r.at_rest (rw (r.at_rest) probe_fails)))

  finish-Goes :
      (o : Floats F) (s : Stage) (c : Client F)
      → IsReady c
      → Turn s online
      → Goes Turn s (finish_connection o c)
  unfolding finish_connection stage
  finish-Goes o s c r m = rw (r.running) (rests Turn s _ r.at_rest (rw (r.at_rest) m))

  probed-Goes :
      (o : Floats F) (status : Status) (c : Client F)
      → IsReady c
      → c.link.connected ≡ false
      → Goes Turn probing (probed o status c)
  unfolding probed stage
  probed-Goes o ok c r e = finish-Goes o probing c r is_known
  probed-Goes o failed_precondition c r e = Goes-configure c r
  probed-Goes o _ c r e = rests Turn probing c r.at_rest (rw (r.at_rest, e) probe_fails)

  configured-Goes :
      (p : Connecting) (c : Client F)
      → IsReady c
      → c.link.connected ≡ false
      → Goes Turn configuring (configured p c)
  unfolding configured stage
  configured-Goes p c r e =
      if_both (Goes Turn configuring) (not (is_ok p.status))
        (rests Turn configuring _ r.at_rest (rw (r.at_rest) configure_fails))
        (Goes-naming configuring 0 _
          (record { running = r.running; stub = r.stub; at_rest = r.at_rest }) e (omega arith)
          names_first)

  named-Goes :
      (o : Floats F) (p : Connecting) (c : Client F)
      → IsReady c
      → c.link.connected ≡ false
      → p.image ≤ 3
      → Goes Turn (naming p.image) (named o p c)
  unfolding named
  named-Goes o p c r e h =
      if_cases (Goes Turn (naming p.image)) (ltb p.image 3)
        (λ t.
          Goes-naming (naming p.image) (p.image + 1) _
            (record { running = r.running; stub = r.stub; at_rest = r.at_rest }) e (ground arith)
            (names_next p.image (ground arith)))
        (λ t.
          finish-Goes o (naming p.image) _
            (record { running = r.running; stub = r.stub; at_rest = r.at_rest })
            (subst (λ i. Turn (naming i) online) (last t) connects))
    where
      last : ltb p.image 3 ≡ false → 3 ≡ p.image
      last t = ground arith

  answered-Goes :
      (o : Floats F) (phase : Phase) (p : Connecting) (c : Client F)
      → p.phase ≡ phase
      → IsReady c
      → c.link.connected ≡ false
      → p.image ≤ 3
      → Goes Turn (asked p) (answered o phase p c)
  unfolding answered
  answered-Goes o probe p c q r e h = rw (q) (probed-Goes o p.status c r e)
  answered-Goes o configure p c q r e h = rw (q) (configured-Goes p c r e)
  answered-Goes o image_name p c q r e h = rw (q) (named-Goes o p c r e h)

  pub from_stage :
      {R : Stage → Stage → Type 0} {s t : Stage} {d : Client F} → s ≡ t → Goes R s d → Goes R t d
  from_stage {R = R} {d = d} e g = subst (λ u. Goes R u d) e g

  abbrev pub without_pending : Client F → Client F
  without_pending c = record c { link = record (c.link) { pending = none } }

  taken-Goes :
      (o : Floats F) (p : Connecting) (c : Client F)
      → c.shutting_down ≡ false
      → Current c.has_stub c.link (some p)
      → Goes Turn (asked p) (answered o p.phase p (without_pending c))
  taken-Goes o p c e v =
      answered-Goes o p.phase p (without_pending c) refl
        (record { running = e; stub = v.3; at_rest = refl }) v.1 v.2

  turned : {s : Stage} {d : Client F} → Goes Turn s d → Goes Move s d
  turned g = record { linked = g.linked; moves = turns g.moves }

  pub received-answered :
      (o : Floats F) (p : Connecting) (c : Client F)
      → IsLinked c
      → c.shutting_down ≡ false
      → c.link.rpc_pending ≡ false
      → c.link.pending ≡ some p
      → connection_received o c ≡ answered o p.phase p (without_pending c)
  unfolding connection_received
  received-answered o p c v r q e =
      if_cases (λ d. d ≡ goal) (c.shutting_down || c.link.rpc_pending) (λ t. absurd (idle t))
        (λ _.
          option_at (λ d. d ≡ goal) c.link.pending _ _ p e
            (if_cases (λ d. d ≡ goal) (p.generation == c.link.connections) (λ _. refl)
              (λ u. absurd (differs (subst (Current c.has_stub c.link) e v.current) u))))
    where
      goal : Client F
      goal = answered o p.phase p (without_pending c)

      idle : (c.shutting_down || c.link.rpc_pending) ≡ true → ⊥
      idle t = ground arith

      differs :
          Current c.has_stub c.link (some p) → (p.generation == c.link.connections) ≡ false → ⊥
      differs w u = ground arith

  -- The answer to the pending request is turned to the next stage.
  pub received-Turn :
      (o : Floats F) (p : Connecting) (c : Client F)
      → IsLinked c
      → c.shutting_down ≡ false
      → c.link.rpc_pending ≡ false
      → c.link.pending ≡ some p
      → Goes Turn (asked p) (connection_received o c)
  received-Turn o p c v r q e =
      subst (Goes Turn (asked p)) (sym (received-answered o p c v r q e))
        (taken-Goes o p c r (subst (Current c.has_stub c.link) e v.current))

  pub received-Goes :
      (o : Floats F) (c : Client F)
      → IsLinked c
      → Goes Move (stage c.link) (connection_received o c)
  unfolding stage connection_received
  received-Goes o c v = elim (Bool-cases (c.shutting_down || c.link.rpc_pending)) [
    | inl t ↦ subst (Goes Move (stage c.link)) (sym (waits t)) idles
    | inr t ↦ elim (Option-cases c.link.pending) [
      | inl e ↦ subst (Goes Move (stage c.link)) (sym (nothing e)) idles
      | inr (p, e) ↦
          from_stage (rw (e) refl) (turned (received-Turn o p c v (ground arith) (ground arith) e))
    ]
  ]
    where
      idles : Goes Move (stage c.link) c
      idles = fades c c v (same_link c c refl refl)

      waits : (c.shutting_down || c.link.rpc_pending) ≡ true → connection_received o c ≡ c
      waits t = rw (t) refl

      nothing : c.link.pending ≡ none → connection_received o c ≡ c
      nothing e =
          if_both (λ d. d ≡ c) (c.shutting_down || c.link.rpc_pending) refl
            (option_cases (λ d. d ≡ c) c.link.pending (λ _. refl) (λ p q. absurd (cc)))
