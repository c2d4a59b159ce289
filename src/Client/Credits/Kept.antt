-- ===== src/Client/Credits/Kept.antt =====
-- What keeps the image requests of a client of server/rtimvClientBase.cpp, with all their bounds.
use rtimv.Common.{
  ℕ, suc, ◌+◌, ◌≤◌, ◌≡◌, ◌⊎◌, inl, inr, refl, Bool, true, false, arith, u64, ◌∙◌, Option,
}
use native.Mathlib.Nat.{mod-eq_of_lt}
use rtimv.Client.{Client, Floats, Images, Status, ok, deadline_exceeded}
use rtimv.Client.Connection.{
  answered, probed, configured, named, finish_connection, dispatch_connection, open_generation,
  launch, reconnect, dispatch_ping, connection_callback, connection_received, ping_callback,
  drop_connection,
}
use rtimv.Client.Window.{
  take_reply, erase, judge, judge_reply, ImageReply, image_valid, image_no_image, image_timeout,
  image_not_configured, image_error,
}
use rtimv.Client.Statistics.{
  WireStats, dispatch_stats, send_stats, set_global_stats, put_intent, put_stats, receive_stats,
  stats_callback, stats_received, stats_unavailable, fail_stats,
}
use rtimv.Client.Events.{image_received}
use rtimv.Client.Credits.{
  IsBounded, IsKnown-later, count_above, erase-IsKnown, erase-Unique, count-erase,
}
use rtimv.Client.Credits.Bounds.{HasRoom, IsWithin, IsSound, first_room}

pub erase-IsBounded :
    (id n : ℕ) (i : Images)
    → IsBounded n i
    → IsBounded n (record i { inflight = erase id i.inflight })
erase-IsBounded id n i v = record {
  window_low = v.window_low;
  window_high = v.window_high;
  backoff_low = v.backoff_low;
  backoff_high = v.backoff_high;
  known = erase-IsKnown id i.next_id n i.inflight v.known;
  unique = erase-Unique id i.inflight v.unique;
  credits = omega (arith, v.credits, count-erase n id i.inflight);
}

-- Another state of the same requests.
retry-IsBounded :
    (n : ℕ) (i j : Images)
    → j.target_window ≡ i.target_window
    → j.next_id ≡ i.next_id
    → j.inflight ≡ i.inflight
    → 500 ≤ j.retry_backoff
    → j.retry_backoff ≤ 5000
    → IsBounded n i
    → IsBounded n j
retry-IsBounded n i j e f g h k v = record {
  window_low = rw (e) v.window_low;
  window_high = rw (e) v.window_high;
  backoff_low = h;
  backoff_high = k;
  known = rw (f, g) v.known;
  unique = rw (g) v.unique;
  credits = rw (g) v.credits;
}

judge_reply-IsBounded :
    (n : ℕ) (reply : ImageReply) (i : Images) → IsBounded n i → IsBounded n (judge_reply reply i).0
unfolding judge_reply
judge_reply-IsBounded n (image_valid s) i v =
    retry-IsBounded n i _ refl refl refl (omega arith) (omega arith) v
judge_reply-IsBounded n image_no_image i v =
    retry-IsBounded n i _ refl refl refl (ground arith) (omega arith) v
judge_reply-IsBounded n image_timeout i v = v
judge_reply-IsBounded n image_not_configured i v = v
judge_reply-IsBounded n image_error i v = v

pub judge-IsBounded :
    (n : ℕ) (b : Bool) (status : Status) (reply : ImageReply) (i : Images)
    → IsBounded n i
    → IsBounded n (judge b status reply i).0
unfolding judge
judge-IsBounded n true status reply i v = v
judge-IsBounded n false ok reply i v = judge_reply-IsBounded n reply i v
judge-IsBounded n false deadline_exceeded reply i v = v
judge-IsBounded n false _ reply i v = v

pub judge_next_id :
    (b : Bool) (status : Status) (reply : ImageReply) (i : Images)
    → (judge b status reply i).0.next_id ≡ i.next_id
unfolding judge judge_reply
judge_next_id b status reply i = ground arith

module _ {F : Type 0} where
  -- The requests are the same, of this connection or the next.
  abbrev Kept : Client F → Client F → Type 0
  Kept c d =
      (d.images.target_window ≡ c.images.target_window)
      × (d.images.retry_backoff ≡ c.images.retry_backoff)
      × (d.images.next_id ≡ c.images.next_id)
      × (d.images.inflight ≡ c.images.inflight)
      × ((d.link.connections ≡ c.link.connections)
          ⊎ (d.link.connections ≡ u64 (c.link.connections + 1)))

  Kept-IsWithin : (c d : Client F) → HasRoom 1 c → Kept c d → IsWithin c → IsWithin d
  Kept-IsWithin c d h k v = elim (k.4) [
    | inl e ↦ rw (e) kept
    | inr e ↦
        let f = e ∙ mod-eq_of_lt h.connections in
        record {
          window_low = kept.window_low;
          window_high = kept.window_high;
          backoff_low = kept.backoff_low;
          backoff_high = kept.backoff_high;
          known =
              IsKnown-later d.images.next_id d.images.next_id c.link.connections d.link.connections
                d.images.inflight (omega arith) (omega (arith, f)) kept.known;
          unique = kept.unique;
          credits = omega (
            arith,
            count_above d.images.next_id c.link.connections d.link.connections d.images.inflight
                (omega (arith, f)) kept.known,
          );
        }
  ]
    where
      kept : IsBounded c.link.connections d.images
      kept =
          retry-IsBounded c.link.connections c.images d.images k.0 k.2 k.3
            (omega (arith, k.1, v.backoff_low)) (omega (arith, k.1, v.backoff_high)) v

  pub Kept-IsSound :
      (k : ℕ) (c d : Client F) → HasRoom (suc k) c → IsWithin c → Kept c d → IsSound k d
  Kept-IsSound k c d h v e = record {
    room = record {
      connections = elim (e.4) [
        | inl q ↦ omega (arith, h.connections, q)
        | inr q ↦ omega (arith, h.connections, q ∙ mod-eq_of_lt (first_room k c h).connections)
      ];
      ids = omega (arith, h.ids, e.2);
    };
    within = Kept-IsWithin c d (first_room k c h) e v;
  }

  pub reconnect-Kept : (c : Client F) → Kept c (reconnect c)
  unfolding reconnect dispatch_ping dispatch_connection open_generation launch
  reconnect-Kept c = ground arith

  pub connection_received-Kept : (o : Floats F) (c : Client F) → Kept c (connection_received o c)
  unfolding connection_received answered probed configured named finish_connection
      dispatch_connection open_generation launch
  connection_received-Kept o c = ground arith

  pub connection_callback-Kept :
      (s : Status) (id : Option ℕ) (b : Bool) (name : Option ℕ) (c : Client F)
      → Kept c (connection_callback s id b name c)
  unfolding connection_callback
  connection_callback-Kept s id b name c = ground arith

  pub ping_callback-Kept : (s : Status) (c : Client F) → Kept c (ping_callback s c)
  unfolding ping_callback drop_connection
  ping_callback-Kept s c = ground arith

  pub image_received-Kept :
      (o : Floats F) (g : Option (WireStats F)) (c : Client F) → Kept c (image_received o g c)
  unfolding image_received receive_stats put_stats dispatch_stats send_stats take_reply
  image_received-Kept o g c = ground arith

  pub stats_are_set-Kept : (x y : Bool) (c : Client F) → Kept c (set_global_stats x y c)
  unfolding set_global_stats put_intent dispatch_stats send_stats
  stats_are_set-Kept x y c = ground arith

  pub stats_callback-Kept : (s : Status) (c : Client F) → Kept c (stats_callback s c)
  unfolding stats_callback
  stats_callback-Kept s c = ground arith

  pub stats_received-Kept : (o : Floats F) (c : Client F) → Kept c (stats_received o c)
  unfolding stats_received fail_stats dispatch_stats send_stats
  stats_received-Kept o c = ground arith

  pub unavailable-Kept : (o : Floats F) (n : ℕ) (c : Client F) → Kept c (stats_unavailable o n c)
  unfolding stats_unavailable
  unavailable-Kept o n c = ground arith
