-- ===== src/Client/Handshake/Moves.antt =====
-- Every event of a client of server/rtimvClientBase.cpp is a move of the handshake or none.
use rtimv.Common.{
  ℕ, ◌≡◌, inl, inr, refl, Option-cases, sym, subst, Option, none, some, Bool, false, not, ◌||◌,
  if◌then◌else◌, if_both, if_cases, is_null, arith,
}
use rtimv.Client.{probe, Link, Connecting, Client, Floats, Status}
use rtimv.Client.Connection.{
  reconnect, dispatch_connection, connection_callback, map_pending, store,
}
use rtimv.Client.Events.{
  Event, timer_reconnects, connection_ends, connection_is_received, ping_ends, image_is_wanted,
  image_ends, image_is_received, window_is_set, stats_are_set, stats_end, stats_are_received,
  stats_are_unavailable, shutdown_begins, step,
}
use rtimv.Client.Handshake.{
  offline, online, asked, stage, Move, stays, Goes, IsLinked, fades, same_link, Current,
}
use rtimv.Client.Handshake.Received.{Goes-probe, received-Goes, from_stage}
use rtimv.Client.Handshake.Losses.{
  ping-Idles, ping_callback-Idles, please-Idles, image_callback-Idles, received-Idles, window-Idles,
  set-Idles, stats_callback-Idles, stats_received-Idles, unavailable-Idles,
}

pub store-Current :
    (status : Status) (id : Option ℕ) (b : Bool) (name : Option ℕ) (stub : Bool) (l : Link)
    (o : Option Connecting)
    → Current stub l o
    → Current stub l (map_pending (store status id b name) o)
store-Current status id b name stub l none v = tt
store-Current status id b name stub l (some p) v = v

store_stays :
    (status : Status) (id : Option ℕ) (b : Bool) (name : Option ℕ) (connected : Bool)
    (o : Option Connecting)
    → Move
        (elim o [ none ↦ if connected then online else offline | some p ↦ asked p ])
        (elim (map_pending (store status id b name) o) [
          | none ↦ if connected then online else offline
          | some p ↦ asked p
        ])
store_stays status id b name connected none = stays _
store_stays status id b name connected (some p) = stays _

module _ {F : Type 0} where
  callback-Goes :
      (status : Status) (id : Option ℕ) (b : Bool) (name : Option ℕ) (c : Client F)
      → IsLinked c
      → Goes Move (stage c.link) (connection_callback status id b name c)
  unfolding connection_callback stage
  callback-Goes status id b name c v =
      if_both (Goes Move (stage c.link)) c.shutting_down stored
        (record { linked = record { current = stored.linked.current }; moves = stored.moves })
    where
      stored : Goes Move (stage c.link) (record c {
        link = record (c.link) {
          pending = map_pending (store status id b name) c.link.pending;
          rpc_pending = false;
        };
      })
      stored = record {
        linked = record {
          current = store-Current status id b name c.has_stub c.link c.link.pending v.current;
        };
        moves = store_stays status id b name c.link.connected c.link.pending;
      }

  reconnect-Goes : (c : Client F) → IsLinked c → Goes Move (stage c.link) (reconnect c)
  unfolding reconnect stage dispatch_connection
  reconnect-Goes c v =
      if_cases (Goes Move (stage c.link)) (c.shutting_down || not c.has_stub)
        (λ _. fades c c v (same_link c c refl refl))
        (λ t.
          if_cases (Goes Move (stage c.link)) c.link.connected (λ _. fades c _ v (ping-Idles c))
            (λ f. elim (Option-cases c.link.pending) [
              | inl e ↦ from_stage (rw (e, f) refl) (
                  Goes-probe c
                    (record { running = ground arith; stub = ground arith; at_rest = e }))
              | inr (p, e) ↦
                  subst (Goes Move (stage c.link)) (sym (dispatch-pending p e))
                    (fades c c v (same_link c c refl refl))
            ]))
    where
      busy :
          (p : Connecting)
          → c.link.pending ≡ some p
          → (c.shutting_down || not c.has_stub || not (is_null c.link.pending)) ≡ false
          → ⊥
      busy p e t = ground arith

      dispatch-pending :
          (p : Connecting) → c.link.pending ≡ some p → dispatch_connection probe 0 c ≡ c
      dispatch-pending p e =
          if_cases (λ d. d ≡ c) (c.shutting_down || not c.has_stub || not (is_null c.link.pending))
            (λ _. refl) (λ t. absurd (busy p e t))

  -- Whatever happens to a linked client, it stays linked and its handshake makes a move.
  pub step-Goes :
      (o : Floats F) (e : Event F) (c : Client F)
      → IsLinked c
      → Goes Move (stage c.link) (step o e c)
  unfolding step
  step-Goes o timer_reconnects c v = reconnect-Goes c v
  step-Goes o (connection_ends a) c v = callback-Goes a.status a.id a.is_named a.name c v
  step-Goes o connection_is_received c v = received-Goes o c v
  step-Goes o (ping_ends status) c v = fades c _ v (ping_callback-Idles status c)
  step-Goes o image_is_wanted c v = fades c _ v (please-Idles c)
  step-Goes o (image_ends id n status reply) c v =
      fades c _ v (image_callback-Idles id n status reply c)
  step-Goes o (image_is_received g) c v = fades c _ v (received-Idles o g c)
  step-Goes o (window_is_set w) c v = fades c _ v (window-Idles w c)
  step-Goes o (stats_are_set enabled use_mask) c v = fades c _ v (set-Idles enabled use_mask c)
  step-Goes o (stats_end status) c v = fades c _ v (stats_callback-Idles status c)
  step-Goes o stats_are_received c v = fades c _ v (stats_received-Idles o c)
  step-Goes o (stats_are_unavailable n) c v = fades c _ v (unavailable-Idles o n c)
  step-Goes o shutdown_begins c v = fades c _ v (same_link c _ refl refl)
