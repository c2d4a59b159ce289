-- ===== src/Client/Callbacks.antt =====
-- What ImagePlease_callback of server/rtimvClientBase.cpp does with a request of an earlier connection, and
-- how a request of this connection leads to the next.
use rtimv.Common.{
  ℕ, ◌≡◌, ◌≢◌, ◌⊎◌, inl, inr, refl, Bool, true, false, ◌&&◌, List, [], ◌∷◌, ◌==◌, arith, if_both,
}
use rtimv.Client.{
  Client, Effect, Status, ok, deadline_exceeded, is_ok, emits_image_needed, emits_image_waiting,
  queues_image_please,
}
use rtimv.Client.Connection.{drop_connection, is_transport_error}
use rtimv.Client.Window.{
  ImageReply, image_valid, image_no_image, image_timeout, image_not_configured, image_error,
  holds_id, erase, judge, judge_reply, follow, image_callback,
}

differs : (a b : ℕ) → a ≢ b → (a == b) ≡ false
differs a b h = ground arith

and_false : (b : Bool) → (b && false) ≡ false
and_false b = ground arith

same : (a : ℕ) → (a == a) ≡ true
same a = ground arith

-- What leads to another call of ImagePlease: at once, after the picture, or after a delay.
abbrev pub asks_again : Effect → Bool
asks_again emits_image_needed = true
asks_again emits_image_waiting = true
asks_again (queues_image_please ms) = true
asks_again _ = false

abbrev pub head_asks : List Effect → Bool
head_asks [] = false
head_asks (e ∷ es) = asks_again e

abbrev pub is_silent : ImageReply → Bool
is_silent image_not_configured = true
is_silent image_error = true
is_silent _ = false

module _ {F : Type 0} where
  -- The callback of a request of an earlier connection gives back its place in flight and does nothing
  -- else, whatever its status and reply.
  pub stale_only_erases :
      (id generation : ℕ) (status : Status) (reply : ImageReply) (c : Client F)
      → holds_id id c.images.inflight ≡ true
      → generation ≢ c.link.connections
      → image_callback id generation status reply c
        ≡ record c { images = record (c.images) { inflight = erase id c.images.inflight } }
  unfolding image_callback judge follow
  stale_only_erases id generation status reply c h d =
      rw (h, differs generation c.link.connections d, and_false (is_transport_error status))
        (if_both (λ d. d ≡ erased) c.shutting_down refl refl)
    where
      erased : Client F
      erased = record c { images = record (c.images) { inflight = erase id c.images.inflight } }

  -- The callback of a request of this connection asks for the next picture, unless the connection is lost
  -- or the server says that it is not configured or has an error.
  pub callback_goes_on :
      (id : ℕ) (status : Status) (reply : ImageReply) (c : Client F)
      → holds_id id c.images.inflight ≡ true
      → c.shutting_down ≡ false
      → (is_ok status && is_silent reply) ≡ false
      → ((image_callback id c.link.connections status reply c).link.connected ≡ false)
        ⊎ (head_asks (image_callback id c.link.connections status reply c).effects ≡ true)
  unfolding image_callback judge judge_reply follow drop_connection
  callback_goes_on id ok (image_valid s) c h r n = rw (h, r, same c.link.connections) (inr refl)
  callback_goes_on id ok image_no_image c h r n = rw (h, r, same c.link.connections) (inr refl)
  callback_goes_on id ok image_timeout c h r n = rw (h, r, same c.link.connections) (inr refl)
  callback_goes_on id ok image_not_configured c h r n = absurd (ground arith)
  callback_goes_on id ok image_error c h r n = absurd (ground arith)
  callback_goes_on id deadline_exceeded reply c h r n =
      rw (h, r, same c.link.connections) (inr refl)
  callback_goes_on id _ reply c h r n = rw (h, r, same c.link.connections) (inl refl)
