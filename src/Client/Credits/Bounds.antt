-- ===== src/Client/Credits/Bounds.antt =====
-- ImagePlease of server/rtimvClientBase.cpp keeps the bounds of the window of image requests, and fills
-- the window.
use rtimv.Common.{
  ℕ, zero, suc, ◌+◌, ◌*◌, ◌≤◌, ◌<◌, ◌≡◌, true, false, not, if◌then◌else◌, leb, arith, All, if_both,
}
use native.Mathlib.Nat.{mod-eq_of_lt}
use rtimv.Client.{Client, Images}
use rtimv.Client.Window.{
  count_of, request_one, request_all, missing_requests, window_of, image_please,
}
use rtimv.Client.Credits.{IsKnown, IsBounded, fresh_id, IsKnown-later, request_one-inflight}

one-count :
    (n : ℕ) (i : Images)
    → All (IsKnown i.next_id n) i.inflight
    → count_of n (request_one n i).inflight ≡ count_of n i.inflight + 1
one-count n i v = rw (request_one-inflight i.next_id n i v) (ground arith)

one-next :
    (n : ℕ) (i : Images)
    → i.next_id + 1 < 18446744073709551616
    → (request_one n i).next_id ≡ i.next_id + 1
unfolding request_one
one-next n i h = mod-eq_of_lt h

request_one-IsBounded :
    (n : ℕ) (i : Images)
    → i.next_id + 1 < 18446744073709551616
    → count_of n i.inflight + 1 ≤ 128
    → IsBounded n i
    → IsBounded n (request_one n i)
unfolding request_one
request_one-IsBounded n i h k v =
    let e = request_one-inflight i.next_id n i v.known in
    let f = one-next n i h in
    record {
      window_low = v.window_low;
      window_high = v.window_high;
      backoff_low = v.backoff_low;
      backoff_high = v.backoff_high;
      known = rw (e) (
        (omega arith, omega arith),
        IsKnown-later i.next_id (request_one n i).next_id n n i.inflight (omega arith) (omega arith)
            v.known,
      );
      unique = rw (e) (fresh_id i.next_id n i.inflight v.known, v.unique);
      credits = rw (e) (ground arith);
    }

-- What `k` new requests leave.
record Grows (k n : ℕ) (i j : Images) : Type 0 where
  bounded : IsBounded n j
  count : count_of n j.inflight ≡ count_of n i.inflight + k
  next : j.next_id ≡ i.next_id + k

request_all-Grows :
    (k n : ℕ) (i : Images)
    → i.next_id + k < 18446744073709551616
    → count_of n i.inflight + k ≤ 128
    → IsBounded n i
    → Grows k n i (request_all k n i)
request_all-Grows zero n i h c v = record { bounded = v; count = omega arith; next = omega arith }
request_all-Grows (suc k) n i h c v =
    let w = request_one-IsBounded n i (omega arith) (omega arith) v in
    let e = one-count n i v.known in
    let f = one-next n i (omega arith) in
    let g = request_all-Grows k n (request_one n i) (omega arith) (omega arith) w in
    record { bounded = g.bounded; count = omega arith; next = omega arith }

missing_fits :
    (n : ℕ) (i : Images)
    → IsBounded n i
    → (count_of n i.inflight + missing_requests n i ≤ 128) × (missing_requests n i ≤ 128)
missing_fits n i v = (ground arith, ground arith)

module _ {F : Type 0} where
  -- The connection numbers and ids that are left before a counter of 64 bits wraps.
  pub record HasRoom (k : ℕ) (c : Client F) : Type 0 where
    pub connections : c.link.connections + k < 18446744073709551616
    pub ids : c.images.next_id + 128 * k < 18446744073709551616

  abbrev pub IsWithin : Client F → Type 0
  IsWithin c = IsBounded c.link.connections c.images

  filled :
      (c : Client F)
      → HasRoom 1 c
      → IsWithin c
      → Grows
          (missing_requests c.link.connections c.images)
          c.link.connections
          c.images
          (request_all (missing_requests c.link.connections c.images) c.link.connections c.images)
  filled c h v =
      let fits = missing_fits c.link.connections c.images v in
      request_all-Grows (missing_requests c.link.connections c.images) c.link.connections c.images
        (omega (arith, h.ids, fits.1)) fits.0 v

  -- The bounds, with room for `k` more events.
  pub record IsSound (k : ℕ) (c : Client F) : Type 0 where
    pub room : HasRoom k c
    pub within : IsWithin c

  pub first_room : (k : ℕ) (c : Client F) → HasRoom (suc k) c → HasRoom 1 c
  first_room k c h = record {
    connections = omega (arith, h.connections);
    ids = omega (arith, h.ids);
  }

  pub later_room : (k : ℕ) (c : Client F) → HasRoom (suc k) c → HasRoom k c
  later_room k c h = record {
    connections = omega (arith, h.connections);
    ids = omega (arith, h.ids);
  }

  pub please-IsSound :
      (k : ℕ) (c : Client F) → HasRoom (suc k) c → IsWithin c → IsSound k (image_please c)
  unfolding image_please
  please-IsSound k c h v = if_both (IsSound k) (not c.link.connected) same (
      if_both (IsSound k) c.shutting_down same (record {
        room = record {
          connections = omega (arith, h.connections);
          ids = omega (arith, h.ids, grown.next, (missing_fits c.link.connections c.images v).1);
        };
        within = grown.bounded;
      }))
    where
      same : IsSound k c
      same = record { room = later_room k c h; within = v }

      grown :
          Grows
            (missing_requests c.link.connections c.images)
            c.link.connections
            c.images
            (request_all (missing_requests c.link.connections c.images) c.link.connections c.images)
      grown = filled c (first_room k c h) v

  -- With a connection, ImagePlease fills the window: afterwards as many requests of the connection are in
  -- flight as before or as the window has, whichever is more.
  pub please_fills :
      (c : Client F)
      → HasRoom 1 c
      → IsWithin c
      → c.link.connected ≡ true
      → c.shutting_down ≡ false
      → count_of c.link.connections (image_please c).images.inflight ≡ (
          if leb (window_of c.images) (count_of c.link.connections c.images.inflight)
          then count_of c.link.connections c.images.inflight
          else window_of c.images)
  unfolding image_please
  please_fills c h v e f = rw (e, f) (most (filled c h v).count)
    where
      most :
          {a : ℕ}
          → a
            ≡ count_of c.link.connections c.images.inflight
              + missing_requests c.link.connections c.images
          → a ≡ (
              if leb (window_of c.images) (count_of c.link.connections c.images.inflight)
              then count_of c.link.connections c.images.inflight
              else window_of c.images)
      most q = ground arith
