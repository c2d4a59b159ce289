-- ===== src/Registry/Eviction.antt =====
-- Which clients the loop of server/rtimvServer.cpp removes, and what a call that comes between its two
-- locks meets.
use rtimv.Common.{
  ℕ, ◌≡◌, ◌⊎◌, inl, inr, refl, true, false, not, ◌&&◌, List, [], ◌∷◌, ◌==◌, arith, Option, none,
  some, is_null, if_cases, if_both, option_both, option_cases, option_at, All, subst, sym,
  Bool-cases, some_cancel, ap, ◌∙◌, ==_iff,
}
use rtimv.Registry.{
  Registry, Entry, Victim, Limits, begun, find, erase, on_thread, set_pending, prepare_on, prepare,
  rpc_begin, doze, scan, sweep, evict, delete_thread, thread_of, is_expired, is_busy,
}
use rtimv.Registry.Threads.{Distinct, AllLive, IsRegistered, live_change}
use rtimv.Registry.Removal.{doze-deleted}

abbrev pub FoundIn : List Entry → List Entry → Type 0
FoundIn cs es = All (λ (e : Entry). find e.peer cs ≡ some e) es

found_later :
    (d : Entry) (cs es : List Entry)
    → is_null (find d.peer cs) ≡ true
    → FoundIn cs es
    → FoundIn (d ∷ cs) es
found_later d cs [] h v = tt
found_later d cs (e ∷ es) h v = (
  if_cases (λ x. x ≡ some e) (d.peer == e.peer)
      (λ t.
        absurd (clash (subst (λ p. is_null (find p cs) ≡ true) ((==_iff d.peer e.peer).0 t) h) v.0))
      (λ t. v.0),
  found_later d cs es h v.1,
)
  where
    clash : is_null (find e.peer cs) ≡ true → find e.peer cs ≡ some e → ⊥
    clash k q = ground arith

pub self_found : (cs : List Entry) → Distinct cs → FoundIn cs cs
self_found [] v = tt
self_found (e ∷ es) v = (ground arith, found_later e es es v.0 (self_found es v.2))

-- The victim was expired and had neither a call nor a request.
abbrev pub Picked : Limits → ℕ → Registry → Option Victim → Type 0
Picked l now r none = Unit
Picked l now r (some v) =
    (v.without_thread ≡ false)
    × (i : ℕ) × (thread_of (find v.peer r.clients) ≡ some i)
    × (is_expired l now (r.thread i) ≡ true)
    × (is_busy (r.thread i) ≡ false)

abbrev pub Ends : Limits → ℕ → Registry → Type 0
Ends l now r = Picked l now r r.victim

-- What the loop does with a client that it looks at, on the way.
abbrev pub kept : (ℕ → ℕ) → ℕ → Registry → Registry
kept pruned i r = on_thread (set_pending (pruned i)) i r

pub kept_deleted :
    (l : Limits) (now : ℕ) (pruned : ℕ → ℕ) (i : ℕ) (r : Registry) (j : ℕ)
    → ((on_thread (doze l now) i (kept pruned i r)).thread j).deleted ≡ (r.thread j).deleted
kept_deleted l now pruned i r j = ground (arith, doze-deleted l now ((kept pruned i r).thread i))

pub scan-Picked :
    (l : Limits) (now : ℕ) (pruned : ℕ → ℕ) (es : List Entry) (r : Registry)
    → FoundIn r.clients es
    → AllLive r.next r.thread es
    → r.victim ≡ none
    → Ends l now (scan l now pruned es r)
unfolding scan
scan-Picked l now pruned [] r f v h = subst (Picked l now r) (sym h) tt
scan-Picked l now pruned (e ∷ es) r f v h =
    option_cases (Ends l now) e.thread (λ k. absurd (clash k))
      (λ i k.
        if_cases (Ends l now)
          (is_expired l now ((kept pruned i r).thread i)
            && not (is_busy ((kept pruned i r).thread i)))
          (λ t. (refl, i, found i k, ground arith, ground arith))
          (λ t.
            scan-Picked l now pruned es (on_thread (doze l now) i (kept pruned i r)) f.1
              (live_change r.next r.thread (on_thread (doze l now) i (kept pruned i r)).thread es
                (kept_deleted l now pruned i r) v.1)
              h))
  where
    clash : e.thread ≡ none → ⊥
    clash k = ground arith

    found : (i : ℕ) → e.thread ≡ some i → thread_of (find e.peer r.clients) ≡ some i
    found i k = rw (f.0) k

scan-deleted :
    (l : Limits) (now : ℕ) (pruned : ℕ → ℕ) (es : List Entry) (r : Registry) (j : ℕ)
    → ((scan l now pruned es r).thread j).deleted ≡ (r.thread j).deleted
unfolding scan
scan-deleted l now pruned [] r j = refl
scan-deleted l now pruned (e ∷ es) r j =
    option_both (λ (s : Registry). (s.thread j).deleted ≡ (r.thread j).deleted) e.thread refl
      (λ i.
        if_both (λ (s : Registry). (s.thread j).deleted ≡ (r.thread j).deleted)
          (is_expired l now ((kept pruned i r).thread i)
            && not (is_busy ((kept pruned i r).thread i)))
          (ground arith)
          (scan-deleted l now pruned es (on_thread (doze l now) i (kept pruned i r)) j
            ∙ kept_deleted l now pruned i r j))

-- A thread that is deleted was deleted before, or is expired and has neither a call nor a request.
abbrev Spares : Limits → ℕ → Registry → Registry → ℕ → Type 0
Spares l now r s j =
    (s.thread j).deleted ≡ true
    → ((r.thread j).deleted ≡ true)
      ⊎ ((is_expired l now (r.thread j) ≡ true) × (is_busy (r.thread j) ≡ false))

delete-Spares :
    (l : Limits) (now p : ℕ) (r : Registry) (o : Option ℕ) (i j : ℕ)
    → o ≡ some i
    → is_expired l now (r.thread i) ≡ true
    → is_busy (r.thread i) ≡ false
    → Spares l now r (delete_thread o (record r { clients = erase p r.clients; victim = none })) j
delete-Spares l now p r none i j e x b d = absurd (ground arith)
delete-Spares l now p r (some m) i j e x b d = elim (Bool-cases (m == j)) [
  | inl t ↦ inr (
      subst (λ n. (is_expired l now (r.thread n) ≡ true) × (is_busy (r.thread n) ≡ false))
        (sym (some_cancel m i e) ∙ (==_iff m j).0 t) (x, b))
  | inr t ↦ inl (sym (other t) ∙ d)
]
  where
    other :
        (m == j) ≡ false
        → ((delete_thread (some m) (record r { clients = erase p r.clients; victim = none })).thread
            j).deleted
          ≡ (r.thread j).deleted
    other t = rw (t) refl

evict-Spares :
    (l : Limits) (now : ℕ) (r : Registry) (j : ℕ) → Ends l now r → Spares l now r (evict r) j
unfolding evict
evict-Spares l now r j v =
    option_cases (λ s. Spares l now r s j) r.victim (λ _ d. inl d)
      (λ w k.
        if_both (λ s. Spares l now r s j) w.without_thread (λ d. inl d)
          (λ d.
            (let p = subst (Picked l now r) k v in
              delete-Spares l now w.peer r (thread_of (find w.peer r.clients)) p.1 j p.2 p.3 p.4
                d)))

-- One round of the loop that nothing interrupts deletes a thread only if its last request is longer ago
-- than the limit and if, when the loop looked, it had neither a call nor a queued request.
pub round_spares :
    (l : Limits) (now : ℕ) (pruned : ℕ → ℕ) (r : Registry) (j : ℕ)
    → IsRegistered r
    → r.victim ≡ none
    → ((evict (sweep l now pruned r)).thread j).deleted ≡ true
    → ((r.thread j).deleted ≡ true)
      ⊎ ((is_expired l now ((sweep l now pruned r).thread j) ≡ true)
          × (is_busy ((sweep l now pruned r).thread j) ≡ false))
round_spares l now pruned r j v h d = elim (evict-Spares l now (sweep l now pruned r) j picked d) [
  | inl e ↦ inl (sym (scan-deleted l now pruned r.clients r j) ∙ e)
  | inr e ↦ inr e
]
  where
    picked : Ends l now (sweep l now pruned r)
    picked = scan-Picked l now pruned r.clients r (self_found r.clients v.distinct) v.live h

prepare-begun :
    (now p i : ℕ) (e : Entry) (r : Registry)
    → find p r.clients ≡ some e
    → e.thread ≡ some i
    → prepare now p r ≡ (on_thread (rpc_begin now) i r, begun i)
unfolding prepare
prepare-begun now p i e r f k =
    option_at (λ x. x ≡ (on_thread (rpc_begin now) i r, begun i)) (find p r.clients) _ _ e f
      (ap (prepare_on now r) k)

evict-deletes :
    (p i : ℕ) (r : Registry)
    → r.victim ≡ some (record { peer = p; without_thread = false })
    → thread_of (find p r.clients) ≡ some i
    → evict r ≡ delete_thread (some i) (record r { clients = erase p r.clients; victim = none })
unfolding evict
evict-deletes p i r h f =
    option_at (λ x. x ≡ delete_thread (some i) removed) r.victim _ _
      (record { peer = p; without_thread = false }) h (ap (λ o. delete_thread o removed) f)
  where
    removed : Registry
    removed = record r { clients = erase p r.clients; victim = none }

-- A call that begins when the loop has chosen its client, and has given up the shared lock, goes on with
-- a thread that the loop then deletes: it is deleted while the call is active.
pub late_call_lost :
    (now p i : ℕ) (e : Entry) (r : Registry)
    → r.victim ≡ some (record { peer = p; without_thread = false })
    → find p r.clients ≡ some e
    → e.thread ≡ some i
    → (r.thread i).active_rpc ≡ 0
    → ((prepare now p r).1 ≡ begun i)
      × (((evict (prepare now p r).0).thread i).deleted ≡ true)
      × (((evict (prepare now p r).0).thread i).active_rpc ≡ 1)
unfolding rpc_begin
late_call_lost now p i e r h f k a =
    rw
      (
        prepare-begun now p i e r f k,
        evict-deletes p i (on_thread (rpc_begin now) i r) h (rw (f) k),
      )
      (refl, ground arith, ground arith)
