-- ===== src/Client/Handshake/Follows.antt =====
-- Which stage of the handshake every event of a client of server/rtimvClientBase.cpp leads to.
use rtimv.Common.{
  ℕ, ◌+◌, ◌≡◌, ◌⊎◌, inl, inr, refl, Option, none, some, Bool, true, false, not, ◌||◌, List, [], ◌∷◌,
  ltb, if◌then◌else◌, Bool-cases, Option-cases, arith, subst, ap, ◌∙◌,
}
use rtimv.Client.{
  Client, Connecting, probe, configure, image_name, Status, ok, failed_precondition, Floats, is_ok,
}
use rtimv.Client.Connection.{
  answered, probed, configured, named, finish_connection, dispatch_connection, open_generation,
  launch, reconnect, dispatch_ping, connection_received, connection_callback,
}
use rtimv.Client.Events.{
  Event, timer_reconnects, connection_ends, connection_is_received, ping_ends, image_is_wanted,
  image_ends, image_is_received, window_is_set, stats_are_set, stats_end, stats_are_received,
  stats_are_unavailable, shutdown_begins, step,
}
use rtimv.Client.Handshake.{
  Stage, offline, probing, configuring, online, naming, stage, Idles, IsLinked, Current,
}
use rtimv.Client.Handshake.Received.{received-answered, without_pending}
use rtimv.Client.Handshake.Moves.{step-Goes}
use rtimv.Client.Handshake.Losses.{
  ping_callback-Idles, please-Idles, image_callback-Idles, received-Idles, window-Idles, set-Idles,
  stats_callback-Idles, stats_received-Idles, unavailable-Idles,
}

-- What the answer to a request leads to: a known client connects, an unknown one is configured if there is
-- a configuration, and then asks for four names, whatever is answered to these.
pub next_stage : Bool → Connecting → Stage
next_stage has_config p = elim p.phase [
  | probe ↦ elim p.status [
    | ok ↦ online
    | failed_precondition ↦ if has_config then configuring else offline
    | _ ↦ offline
  ]
  | configure ↦ if is_ok p.status then naming 0 else offline
  | image_name ↦ if ltb p.image 3 then naming (p.image + 1) else online
]

abbrev restarted : Stage → Stage
restarted offline = probing
restarted s = s

module _ {F : Type 0} where
  -- The stage that an event leads to, but for a connection that is lost.
  pub due : Event F → Client F → Stage
  unfolding next_stage stage
  due timer_reconnects c =
      if c.shutting_down || not c.has_stub then stage c.link else restarted (stage c.link)
  due connection_is_received c =
      if c.shutting_down || c.link.rpc_pending
      then stage c.link
      else elim c.link.pending [ none ↦ stage c.link | some p ↦ next_stage c.link.has_config p ]
  due _ c = stage c.link

  -- The stage is the one that is due, or the connection is lost, which the handshake's own events do not do.
  abbrev pub Follows : Event F → Client F → Stage → Type 0
  Follows timer_reconnects c t = t ≡ due timer_reconnects c
  Follows (connection_ends a) c t = t ≡ due (connection_ends a) c
  Follows connection_is_received c t = t ≡ due connection_is_received c
  Follows e c t = (t ≡ due e c) ⊎ ((stage c.link ≡ online) × (t ≡ offline))

  -- Every event of a run leads from its stage to the one that follows.
  abbrev pub IsFollowed : Floats F → List (Event F) → Client F → Type 0
  IsFollowed o [] c = Unit
  IsFollowed o (e ∷ es) c = Follows e c (stage (step o e c).link) × IsFollowed o es (step o e c)

  fades-stage :
      (c d : Client F)
      → Idles c d
      → (stage d.link ≡ stage c.link) ⊎ ((stage c.link ≡ online) × (stage d.link ≡ offline))
  unfolding stage
  fades-stage c d i = ground (arith, i.pending, i.connected)

  answered-stage :
      (o : Floats F) (p : Connecting) (c : Client F)
      → c.shutting_down ≡ false
      → c.has_stub ≡ true
      → c.link.pending ≡ none
      → c.link.connected ≡ false
      → stage (answered o p.phase p c).link ≡ next_stage c.link.has_config p
  unfolding stage next_stage answered probed configured named finish_connection dispatch_connection
      open_generation launch
  answered-stage o p c r s e k = ground arith

  reconnect-stage : (c : Client F) → IsLinked c → stage (reconnect c).link ≡ due timer_reconnects c
  unfolding stage due reconnect dispatch_connection dispatch_ping open_generation launch
  reconnect-stage c v = ground (arith, v.current)

  callback-stage :
      (s : Status) (id : Option ℕ) (b : Bool) (name : Option ℕ) (c : Client F)
      → stage (connection_callback s id b name c).link ≡ stage c.link
  unfolding stage connection_callback
  callback-stage s id b name c = ground arith

  received-stage :
      (o : Floats F) (c : Client F)
      → IsLinked c
      → stage (connection_received o c).link ≡ due connection_is_received c
  unfolding due connection_received
  received-stage o c v = elim (Bool-cases (c.shutting_down || c.link.rpc_pending)) [
    | inl t ↦ rw (t) refl
    | inr t ↦ elim (Option-cases c.link.pending) [
      | inl e ↦ rw (t, e) refl
      | inr (p, e) ↦
          let w = subst (Current c.has_stub c.link) e v.current in
          let r : c.shutting_down ≡ false = ground arith in
          let q : c.link.rpc_pending ≡ false = ground arith in
          ap (λ (d : Client F). stage d.link) (received-answered o p c v r q e)
          ∙ answered-stage o p (without_pending c) r w.3 refl w.1
          ∙ rw (t, e) refl
    ]
  ]

  step-Follows :
      (o : Floats F) (e : Event F) (c : Client F)
      → IsLinked c
      → Follows e c (stage (step o e c).link)
  unfolding step due
  step-Follows o timer_reconnects c v = reconnect-stage c v
  step-Follows o (connection_ends a) c v = callback-stage a.status a.id a.is_named a.name c
  step-Follows o connection_is_received c v = received-stage o c v
  step-Follows o (ping_ends status) c v = fades-stage c _ (ping_callback-Idles status c)
  step-Follows o image_is_wanted c v = fades-stage c _ (please-Idles c)
  step-Follows o (image_ends id n status reply) c v =
      fades-stage c _ (image_callback-Idles id n status reply c)
  step-Follows o (image_is_received g) c v = fades-stage c _ (received-Idles o g c)
  step-Follows o (window_is_set w) c v = fades-stage c _ (window-Idles w c)
  step-Follows o (stats_are_set enabled use_mask) c v =
      fades-stage c _ (set-Idles enabled use_mask c)
  step-Follows o (stats_end status) c v = fades-stage c _ (stats_callback-Idles status c)
  step-Follows o stats_are_received c v = fades-stage c _ (stats_received-Idles o c)
  step-Follows o (stats_are_unavailable n) c v = fades-stage c _ (unavailable-Idles o n c)
  step-Follows o shutdown_begins c v = inl refl

  -- In any run of a linked client every event leads to the stage that is due: the timer probes if
  -- there is neither a request nor a connection, an answer that is received leads on as
  -- `next_stage` says by its request and status, and any other event leaves the stage, or loses the
  -- connection if it does not belong to the handshake.
  pub run-IsFollowed :
      (o : Floats F) (es : List (Event F)) (c : Client F) → IsLinked c → IsFollowed o es c
  run-IsFollowed o [] c v = tt
  run-IsFollowed o (e ∷ es) c v =
      (step-Follows o e c v, run-IsFollowed o es (step o e c) (step-Goes o e c v).linked)
