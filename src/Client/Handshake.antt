-- ===== src/Client/Handshake.antt =====
-- The handshake as a state machine of few stages, which ConnectionReceived and the other operations of
-- server/rtimvClientBase.cpp move as the comment of `connectionPhase` says.
pub mod Received
pub mod Losses
pub mod Moves
pub mod Follows
pub mod Ends
use rtimv.Common.{
  ℕ, zero, suc, ◌+◌, ◌-◌, ◌≤◌, ◌<◌, ◌≡◌, ◌⊎◌, inl, inr, refl, option_cases, Option, none, some,
  Bool, true, false, not, ◌&&◌, ◌||◌, List, [], ◌∷◌, ◌==◌, if◌then◌else◌, ltb, arith, if_both,
  if_cases, Bool-cases, option_cases, is_null, subst, sym,
}
use rtimv.Client.{
  Client, Link, Connecting, ImageRequest, Phase, probe, configure, image_name, Status, ok,
  failed_precondition, is_ok, Floats,
}
use rtimv.Client.Connection.{
  cancel_all, open_generation, launch, dispatch_connection, dispatch_ping, reconnect, asking,
  is_naming, is_configuring, connection_callback, finish_connection, probed, configured, named,
  answered, connection_received, drop_connection, ping_callback,
}

pub data Stage : Type 0 where
  offline probing configuring online : Stage
  naming : ℕ → Stage

abbrev pub asked : Connecting → Stage
asked p = elim p.phase [ probe ↦ probing | configure ↦ configuring | image_name ↦ naming p.image ]

unfoldable pub stage : Link → Stage
stage l = elim l.pending [ none ↦ if l.connected then online else offline | some p ↦ asked p ]

-- What an answer may lead to.
pub data Turn : Stage → Stage → Type 0 where
  is_known : Turn probing online
  is_unknown : Turn probing configuring
  probe_fails : Turn probing offline
  names_first : Turn configuring (naming 0)
  configure_fails : Turn configuring offline
  names_next : (i : ℕ) → i < 3 → Turn (naming i) (naming (i + 1))
  connects : Turn (naming 3) online

-- What may follow what.
pub data Move : Stage → Stage → Type 0 where
  stays : (s : Stage) → Move s s
  probes : Move offline probing
  turns : {s t : Stage} → Turn s t → Move s t
  is_lost : Move online offline

-- A pending request is of the current connection, and there is no connection while it is pending.
abbrev pub Current : Bool → Link → Option Connecting → Type 0
Current has_stub l none = Unit
Current has_stub l (some p) =
    (p.generation ≡ l.connections) × (l.connected ≡ false) × (p.image ≤ 3) × (has_stub ≡ true)

Current-fades :
    (a b : Bool) (l m : Link) (o : Option Connecting)
    → b ≡ a
    → m.connections ≡ l.connections
    → (m.connected ≡ l.connected) ⊎ (m.connected ≡ false)
    → Current a l o
    → Current b m o
Current-fades a b l m none e f g v = tt
Current-fades a b l m (some p) e f g v = ground arith

stage_fades :
    (o : Option Connecting) (a b : Bool)
    → (b ≡ a) ⊎ (b ≡ false)
    → Move
        (elim o [ none ↦ if a then online else offline | some p ↦ asked p ])
        (elim o [ none ↦ if b then online else offline | some p ↦ asked p ])
stage_fades (some p) a b h = stays _
stage_fades none a true (inl e) = rw (sym e) (stays online)
stage_fades none true false h = is_lost
stage_fades none false false h = stays _
stage_fades none true true (inr e) = stays _
stage_fades none false true (inr e) = absurd (ground arith)

module _ {F : Type 0} where
  pub record IsLinked (c : Client F) : Type 0 where
    pub current : Current c.has_stub c.link c.link.pending

  -- An operation keeps the invariant and makes a move of one kind.
  pub record Goes (R : Stage → Stage → Type 0) (s : Stage) (d : Client F) : Type 0 where
    pub linked : IsLinked d
    pub moves : R s (stage d.link)

  -- Nothing changes in the handshake, or the connection is lost.
  pub record Idles (c d : Client F) : Type 0 where
    pub stub : d.has_stub ≡ c.has_stub
    pub pending : d.link.pending ≡ c.link.pending
    pub connections : d.link.connections ≡ c.link.connections
    pub connected : (d.link.connected ≡ c.link.connected) ⊎ (d.link.connected ≡ false)

  pub fades : (c d : Client F) → IsLinked c → Idles c d → Goes Move (stage c.link) d
  unfolding stage
  fades c d v i = record {
    linked = record {
      current = subst (Current d.has_stub d.link) (sym i.pending) (
          Current-fades c.has_stub d.has_stub c.link d.link c.link.pending i.stub i.connections
            i.connected v.current);
    };
    moves =
        rw (i.pending) (stage_fades c.link.pending c.link.connected d.link.connected i.connected);
  }

  pub same_link : (c d : Client F) → d.link ≡ c.link → d.has_stub ≡ c.has_stub → Idles c d
  same_link c d e f = record {
    stub = f;
    pending = rw (e) refl;
    connections = rw (e) refl;
    connected = inl (rw (e) refl);
  }

  pub same_after :
      (c d e : Client F) → Idles c d → e.link ≡ d.link → e.has_stub ≡ d.has_stub → Idles c e
  same_after c d e v f g = record {
    stub = rw (g) v.stub;
    pending = rw (f) v.pending;
    connections = rw (f) v.connections;
    connected = rw (f) v.connected;
  }
