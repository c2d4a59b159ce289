-- ===== src/Client/Handshake/Ends.antt =====
-- The handshake of server/rtimvClientBase.cpp ends: with any answers it comes to rest in a few rounds,
-- and with good answers it connects.
use rtimv.Common.{
  ℕ, ◌-◌, ◌≤◌, ◌<◌, ◌≡◌, inl, inr, refl, none, some, Bool, true, false, not, ◌&&◌, List, [], ◌∷◌,
  if◌then◌else◌, arith, subst, sym, length, Option-cases, All, ◌∙◌, ap, is_null, if_cases,
}
use rtimv.Client.{Client, emit, queues_connection_received, Connecting, Floats, ok}
use rtimv.Client.Connection.{
  answered, probed, configured, named, finish_connection, dispatch_connection, open_generation,
  launch, store, map_pending, connection_callback, connection_received,
}
use rtimv.Client.Events.{Answer}
use rtimv.Client.Handshake.{
  Stage, offline, probing, configuring, online, naming, asked, stage, Turn, is_known, is_unknown,
  names_first, names_next, connects, probe_fails, configure_fails, Current, IsLinked, Goes,
}
use rtimv.Client.Handshake.Received.{received-Turn, received-answered, without_pending}
use rtimv.Client.Handshake.Moves.{store-Current}

-- The rounds that are left at most.
unfoldable pub rank : Stage → ℕ
rank offline = 0
rank online = 0
rank (naming i) = 4 - i
rank configuring = 5
rank probing = 6

abbrev pub is_settled : Stage → Bool
is_settled offline = true
is_settled online = true
is_settled _ = false

Turn-rank : {s t : Stage} → Turn s t → rank t < rank s
unfolding rank
Turn-rank is_known = omega arith
Turn-rank is_unknown = omega arith
Turn-rank probe_fails = omega arith
Turn-rank names_first = omega arith
Turn-rank configure_fails = omega arith
Turn-rank (names_next i h) = omega arith
Turn-rank connects = omega arith

asked_waits : (p : Connecting) → p.image ≤ 3 → 1 ≤ rank (asked p)
unfolding rank
asked_waits p h = ground arith

rank_bounded : (s : Stage) → rank s ≤ 6
unfolding rank
rank_bounded s = ground arith

module _ {F : Type 0} where
  -- A request ends with an answer, and the Qt thread sees it.
  unfoldable pub round : Floats F → Answer → Client F → Client F
  round o a c = connection_received o (connection_callback a.status a.id a.is_named a.name c)

  -- The answers to the requests, as long as there are any.
  unfoldable pub rounds : Floats F → List Answer → Client F → Client F
  unfolding round
  rounds o [] c = c
  rounds o (a ∷ rest) c =
      (let done = rounds o rest (round o a c) in if is_null c.link.pending then c else done)

  -- What the callback leaves for the Qt thread.
  abbrev told : Answer → Client F → Client F
  told a c = emit queues_connection_received (record c {
    link = record (c.link) {
      pending = map_pending (store a.status a.id a.is_named a.name) c.link.pending;
      rpc_pending = false;
    };
  })

  round-told :
      (o : Floats F) (a : Answer) (c : Client F)
      → c.shutting_down ≡ false
      → round o a c ≡ connection_received o (told a c)
  unfolding round connection_callback
  round-told o a c r = rw (r) refl

  told-IsLinked : (a : Answer) (c : Client F) → IsLinked c → IsLinked (told a c)
  told-IsLinked a c v = record {
    current =
        store-Current a.status a.id a.is_named a.name c.has_stub c.link c.link.pending v.current;
  }

  round-Turn :
      (o : Floats F) (a : Answer) (p : Connecting) (c : Client F)
      → IsLinked c
      → c.shutting_down ≡ false
      → c.link.pending ≡ some p
      → Goes Turn (asked p) (round o a c)
  round-Turn o a p c v r e = subst (Goes Turn (asked p)) (sym (round-told o a c r)) (
      received-Turn o (store a.status a.id a.is_named a.name p) (told a c) (told-IsLinked a c v) r
        refl (rw (e) refl))

  received-running :
      (o : Floats F) (c : Client F) → (connection_received o c).shutting_down ≡ c.shutting_down
  unfolding connection_received answered probed configured named finish_connection
      dispatch_connection open_generation launch
  received-running o c = ground arith

  round-running :
      (o : Floats F) (a : Answer) (c : Client F)
      → c.shutting_down ≡ false
      → (round o a c).shutting_down ≡ false
  round-running o a c r = rw (round-told o a c r, received-running o (told a c)) r

  at_rest : (c : Client F) → c.link.pending ≡ none → is_settled (stage c.link) ≡ true
  unfolding stage
  at_rest c e = ground arith

  stage-pending : (c : Client F) (p : Connecting) → c.link.pending ≡ some p → stage c.link ≡ asked p
  unfolding stage
  stage-pending c p e = rw (e) refl

  image_bounded :
      (c : Client F) (p : Connecting) → IsLinked c → c.link.pending ≡ some p → p.image ≤ 3
  image_bounded c p v e = (subst (Current c.has_stub c.link) e v.current).2

  null-none : (c : Client F) → is_null c.link.pending ≡ true → c.link.pending ≡ none
  null-none c t = ground arith

  -- However the requests of the handshake are answered, as many answers as the stage has rounds left
  -- settle it: no request is left, and the client is connected or offline.
  pub rounds_settle :
      (o : Floats F) (answers : List Answer) (c : Client F)
      → IsLinked c
      → c.shutting_down ≡ false
      → rank (stage c.link) ≤ length answers
      → is_settled (stage (rounds o answers c).link) ≡ true
  unfolding rounds
  rounds_settle o [] c v r h = elim (Option-cases c.link.pending) [
    | inl e ↦ at_rest c e
    | inr (p, e) ↦
        absurd (omega (arith, asked_waits p (image_bounded c p v e), ap rank (stage-pending c p e)))
  ]
  rounds_settle o (a ∷ rest) c v r h =
      if_cases (λ (d : Client F). is_settled (stage d.link) ≡ true) (is_null c.link.pending)
        (λ t. at_rest c (null-none c t))
        (λ t. elim (Option-cases c.link.pending) [
          | inl e ↦ absurd (ground arith)
          | inr (p, e) ↦
              (let g = round-Turn o a p c v r e in
                rounds_settle o rest (round o a c) g.linked (round-running o a c r)
                  (omega (arith, Turn-rank g.moves, ap rank (stage-pending c p e))))
        ])

  -- Neither a request nor a connection.
  abbrev is_offline : Client F → Bool
  is_offline c = is_null c.link.pending && not c.link.connected

  answered-ok :
      (o : Floats F) (p : Connecting) (c : Client F)
      → p.status ≡ ok
      → c.shutting_down ≡ false
      → c.has_stub ≡ true
      → is_offline (answered o p.phase p c) ≡ false
  unfolding answered probed configured named finish_connection dispatch_connection open_generation
      launch
  answered-ok o p c e r h = ground arith

  round-ok :
      (o : Floats F) (a : Answer) (p : Connecting) (c : Client F)
      → IsLinked c
      → c.shutting_down ≡ false
      → c.link.pending ≡ some p
      → a.status ≡ ok
      → is_offline (round o a c) ≡ false
  round-ok o a p c v r e k =
      let q = store a.status a.id a.is_named a.name p in
      let w = subst (Current c.has_stub c.link) e v.current in
      subst (λ d. is_offline d ≡ false)
        (sym (
          round-told o a c r
          ∙ received-answered o q (told a c) (told-IsLinked a c v) r refl (rw (e) refl)))
        (answered-ok o q (without_pending (told a c)) k r w.3)

  not_offline :
      (c : Client F) → is_offline c ≡ false → c.link.pending ≡ none → c.link.connected ≡ true
  not_offline c n e = ground arith

  -- If the handshake has begun and every answer is good, it connects within as many rounds.
  pub rounds_connect :
      (o : Floats F) (answers : List Answer) (c : Client F)
      → IsLinked c
      → c.shutting_down ≡ false
      → is_offline c ≡ false
      → All (λ (a : Answer). a.status ≡ ok) answers
      → rank (stage c.link) ≤ length answers
      → (rounds o answers c).link.connected ≡ true
  unfolding rounds
  rounds_connect o [] c v r n k h = elim (Option-cases c.link.pending) [
    | inl e ↦ not_offline c n e
    | inr (p, e) ↦
        absurd (omega (arith, asked_waits p (image_bounded c p v e), ap rank (stage-pending c p e)))
  ]
  rounds_connect o (a ∷ rest) c v r n k h =
      if_cases (λ (d : Client F). d.link.connected ≡ true) (is_null c.link.pending)
        (λ t. not_offline c n (null-none c t))
        (λ t. elim (Option-cases c.link.pending) [
          | inl e ↦ absurd (ground arith)
          | inr (p, e) ↦
              (let g = round-Turn o a p c v r e in
                rounds_connect o rest (round o a c) g.linked (round-running o a c r)
                  (round-ok o a p c v r e k.0) k.1
                  (omega (arith, Turn-rank g.moves, ap rank (stage-pending c p e))))
        ])
