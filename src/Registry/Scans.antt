-- ===== src/Registry/Scans.antt =====
-- A pass over the clients of server/rtimvServer.cpp chooses a client if and only if one is idle.
use rtimv.Common.{
  ℕ, ◌≡◌, refl, Bool, false, not, ◌&&◌, ◌||◌, List, [], ◌∷◌, ltb, arith, Option, none, some,
  is_null, if_cases, if_both, option_both, option_cases, sym, ap, ◌∙◌,
}
use rtimv.Registry.{Registry, Entry, Thread, Limits, on_thread, doze, scan, is_expired, is_busy}
use rtimv.Registry.Threads.{AllLive, live_change}
use rtimv.Registry.Eviction.{kept, kept_deleted}

-- Expired, with no call, and no request once the queue is pruned.
unfoldable pub is_idle : Limits → ℕ → (ℕ → ℕ) → (ℕ → Thread) → Option ℕ → Bool
is_idle l now pruned thread none = false
is_idle l now pruned thread (some i) =
    is_expired l now (thread i) && not (ltb 0 (thread i).active_rpc || ltb 0 (pruned i))

unfoldable pub any_idle : Limits → ℕ → (ℕ → ℕ) → (ℕ → Thread) → List Entry → Bool
unfolding is_idle
any_idle l now pruned thread [] = false
any_idle l now pruned thread (e ∷ es) =
    is_idle l now pruned thread e.thread || any_idle l now pruned thread es

-- The same requests and calls.
abbrev AlikeAt : (ℕ → Thread) → (ℕ → Thread) → ℕ → Type 0
AlikeAt f g j = ((g j).last_request ≡ (f j).last_request) × ((g j).active_rpc ≡ (f j).active_rpc)

abbrev Alike : (ℕ → Thread) → (ℕ → Thread) → Type 0
Alike f g = (j : ℕ) → AlikeAt f g j

idle-Alike :
    (l : Limits) (now : ℕ) (pruned : ℕ → ℕ) (f g : ℕ → Thread) (o : Option ℕ)
    → Alike f g
    → is_idle l now pruned g o ≡ is_idle l now pruned f o
unfolding is_idle
idle-Alike l now pruned f g none h = refl
idle-Alike l now pruned f g (some i) h = rw ((h i).0, (h i).1) refl

pub any-Alike :
    (l : Limits) (now : ℕ) (pruned : ℕ → ℕ) (f g : ℕ → Thread) (es : List Entry)
    → Alike f g
    → any_idle l now pruned g es ≡ any_idle l now pruned f es
unfolding any_idle
any-Alike l now pruned f g [] h = refl
any-Alike l now pruned f g (e ∷ es) h =
    rw (idle-Alike l now pruned f g e.thread h, any-Alike l now pruned f g es h) refl

kept-Alike :
    (l : Limits) (now : ℕ) (pruned : ℕ → ℕ) (i : ℕ) (r : Registry)
    → Alike r.thread (on_thread (doze l now) i (kept pruned i r)).thread
unfolding doze
kept-Alike l now pruned i r j = (ground arith, ground arith)

pub scan-Alike :
    (l : Limits) (now : ℕ) (pruned : ℕ → ℕ) (es : List Entry) (r : Registry)
    → Alike r.thread (scan l now pruned es r).thread
unfolding scan
scan-Alike l now pruned [] r j = (refl, refl)
scan-Alike l now pruned (e ∷ es) r j =
    option_both (λ (s : Registry). AlikeAt r.thread s.thread j) e.thread (refl, refl)
      (λ i.
        if_both (λ (s : Registry). AlikeAt r.thread s.thread j)
          (is_expired l now ((kept pruned i r).thread i)
            && not (is_busy ((kept pruned i r).thread i)))
          (ground arith, ground arith)
          (let a = scan-Alike l now pruned es (on_thread (doze l now) i (kept pruned i r)) j in
            let b = kept-Alike l now pruned i r j in (a.0 ∙ b.0, a.1 ∙ b.1)))

pub scan-clients :
    (l : Limits) (now : ℕ) (pruned : ℕ → ℕ) (es : List Entry) (r : Registry)
    → (scan l now pruned es r).clients ≡ r.clients
unfolding scan
scan-clients l now pruned [] r = refl
scan-clients l now pruned (e ∷ es) r =
    option_both (λ (s : Registry). s.clients ≡ r.clients) e.thread refl
      (λ i.
        if_both (λ (s : Registry). s.clients ≡ r.clients)
          (is_expired l now ((kept pruned i r).thread i)
            && not (is_busy ((kept pruned i r).thread i)))
          refl (scan-clients l now pruned es (on_thread (doze l now) i (kept pruned i r))))

-- A pass chooses a client if and only if one is idle.
pub scan_chooses :
    (l : Limits) (now : ℕ) (pruned : ℕ → ℕ) (es : List Entry) (r : Registry)
    → AllLive r.next r.thread es
    → r.victim ≡ none
    → is_null (scan l now pruned es r).victim ≡ not (any_idle l now pruned r.thread es)
unfolding scan any_idle is_idle
scan_chooses l now pruned [] r v h = rw (h) refl
scan_chooses l now pruned (e ∷ es) r v h =
    option_cases
      (λ (s : Registry).
        is_null s.victim
        ≡ not (is_idle l now pruned r.thread e.thread || any_idle l now pruned r.thread es))
      e.thread (λ k. absurd (clash k))
      (λ i k.
        if_cases
          (λ (s : Registry).
            is_null s.victim
            ≡ not (is_idle l now pruned r.thread e.thread || any_idle l now pruned r.thread es))
          (is_expired l now ((kept pruned i r).thread i)
            && not (is_busy ((kept pruned i r).thread i)))
          (λ t. sym (ap (λ b. not (b || any_idle l now pruned r.thread es)) (idle i k ∙ t)))
          (λ t.
            (scan_chooses l now pruned es (on_thread (doze l now) i (kept pruned i r))
                (live_change r.next r.thread (on_thread (doze l now) i (kept pruned i r)).thread es
                  (kept_deleted l now pruned i r) v.1)
                h
              ∙ ap not (
                  any-Alike l now pruned r.thread
                    (on_thread (doze l now) i (kept pruned i r)).thread es
                    (kept-Alike l now pruned i r))
              ∙ sym (ap (λ b. not (b || any_idle l now pruned r.thread es)) (idle i k ∙ t)))))
  where
    clash : e.thread ≡ none → ⊥
    clash k = ground arith

    same :
        (i : ℕ)
        → is_idle l now pruned r.thread (some i) ≡ (
            is_expired l now ((kept pruned i r).thread i)
            && not (is_busy ((kept pruned i r).thread i)))
    same i = ground arith

    idle :
        (i : ℕ)
        → e.thread ≡ some i
        → is_idle l now pruned r.thread e.thread ≡ (
            is_expired l now ((kept pruned i r).thread i)
            && not (is_busy ((kept pruned i r).thread i)))
    idle i k = ap (is_idle l now pruned r.thread) k ∙ same i
