-- ===== src/Registry/Sweeps.antt =====
-- The loop of server/rtimvServer.cpp removes one client in a round: after as many rounds as there are
-- clients, no client is left that is expired and idle.
use rtimv.Common.{
  ℕ, zero, suc, ◌+◌, ◌≤◌, ◌≡◌, inl, inr, refl, true, false, not, List, [], ◌∷◌, ◌==◌, arith, Option,
  none, some, is_null, if_cases, if_both, option_cases, subst, sym, Bool-cases, ap, ◌∙◌, length,
}
use rtimv.Registry.{
  Registry, Entry, Thread, Victim, Limits, find, erase, scan, sweep, evict, delete_thread,
  thread_of,
}
use rtimv.Registry.Threads.{IsRegistered}
use rtimv.Registry.Removal.{scan-IsRegistered, evict-IsRegistered}
use rtimv.Registry.Eviction.{Picked, Ends, scan-Picked, self_found}
use rtimv.Registry.Scans.{any_idle, any-Alike, scan-Alike, scan-clients, scan_chooses}

-- A round of the loop that nothing interrupts.
unfoldable pub round : Limits → ℕ → (ℕ → ℕ) → Registry → Registry
unfolding evict scan
round l now pruned r = evict (sweep l now pruned r)

unfoldable pub rounds : Limits → ℕ → (ℕ → ℕ) → ℕ → Registry → Registry
unfolding round
rounds l now pruned zero r = r
rounds l now pruned (suc n) r = rounds l now pruned n (round l now pruned r)

delete_keeps :
    (o : Option ℕ) (r : Registry)
    → ((delete_thread o r).victim ≡ r.victim) × ((delete_thread o r).clients ≡ r.clients)
delete_keeps none r = (refl, refl)
delete_keeps (some i) r = (refl, refl)

evict_idles : (r : Registry) → r.victim ≡ none → evict r ≡ r
unfolding evict
evict_idles r e = option_cases (λ s. s ≡ r) r.victim (λ _. refl) (λ v k. absurd (ground arith))

evict-victim : (r : Registry) → (evict r).victim ≡ none
unfolding evict
evict-victim r =
    option_cases (λ (s : Registry). s.victim ≡ none) r.victim (λ e. e)
      (λ v k.
        if_both (λ (s : Registry). s.victim ≡ none) v.without_thread refl
          (delete_keeps (thread_of (find v.peer r.clients))
            (record r { clients = erase v.peer r.clients; victim = none })).0)

length-erase :
    (p i : ℕ) (es : List Entry)
    → thread_of (find p es) ≡ some i
    → length (erase p es) + 1 ≡ length es
length-erase p i [] h = absurd (ground arith)
length-erase p i (e ∷ es) h =
    if_cases (λ x. length x + 1 ≡ length (e ∷ es)) (e.peer == p) (λ t. ground arith)
      (λ t. (let k = length-erase p i es (sym (there t) ∙ h) in omega (arith, k)))
  where
    there : (e.peer == p) ≡ false → thread_of (find p (e ∷ es)) ≡ thread_of (find p es)
    there t = rw (t) refl

evict_shrinks :
    (l : Limits) (now : ℕ) (r : Registry)
    → Ends l now r
    → is_null r.victim ≡ false
    → length (evict r).clients + 1 ≡ length r.clients
unfolding evict
evict_shrinks l now r v h =
    option_cases (λ (s : Registry). length s.clients + 1 ≡ length r.clients) r.victim
      (λ e. absurd (ground arith))
      (λ w k.
        (let p = subst (Picked l now r) k v in
          if_both (λ (s : Registry). length s.clients + 1 ≡ length r.clients) w.without_thread
            (length-erase w.peer p.1 r.clients p.2)
            (omega (
              arith,
              length-erase w.peer p.1 r.clients p.2,
              ap length
                  (delete_keeps (thread_of (find w.peer r.clients))
                    (record r { clients = erase w.peer r.clients; victim = none })).1,
            ))))

is_none : (o : Option Victim) → is_null o ≡ true → o ≡ none
is_none none h = refl
is_none (some v) h = absurd (ground arith)

module _ (l : Limits) (now : ℕ) (pruned : ℕ → ℕ) where
  picked : (r : Registry) → IsRegistered r → r.victim ≡ none → Ends l now (sweep l now pruned r)
  picked r v h = scan-Picked l now pruned r.clients r (self_found r.clients v.distinct) v.live h

  -- With an idle client, a round removes one.
  round_shrinks :
      (r : Registry)
      → IsRegistered r
      → r.victim ≡ none
      → any_idle l now pruned r.thread r.clients ≡ true
      → length (round l now pruned r).clients + 1 ≡ length r.clients
  unfolding round
  round_shrinks r v h k =
      evict_shrinks l now (sweep l now pruned r) (picked r v h)
        (scan_chooses l now pruned r.clients r v.live h ∙ ap not k)
      ∙ ap length (scan-clients l now pruned r.clients r)

  -- Without one, it removes none.
  round_rests :
      (r : Registry)
      → IsRegistered r
      → r.victim ≡ none
      → any_idle l now pruned r.thread r.clients ≡ false
      → any_idle l now pruned (round l now pruned r).thread (round l now pruned r).clients ≡ false
  unfolding round
  round_rests r v h k =
      rw (evict_idles (sweep l now pruned r) none_chosen, scan-clients l now pruned r.clients r)
        (any-Alike l now pruned r.thread (sweep l now pruned r).thread r.clients
            (scan-Alike l now pruned r.clients r)
          ∙ k)
    where
      none_chosen : (sweep l now pruned r).victim ≡ none
      none_chosen = is_none _ (scan_chooses l now pruned r.clients r v.live h ∙ ap not k)

  round-IsRegistered : (r : Registry) → IsRegistered r → IsRegistered (round l now pruned r)
  unfolding round
  round-IsRegistered r v =
      evict-IsRegistered (sweep l now pruned r) (scan-IsRegistered l now pruned r.clients r v)

  round-victim : (r : Registry) → (round l now pruned r).victim ≡ none
  unfolding round
  round-victim r = evict-victim (sweep l now pruned r)

  empty_rests :
      (es : List Entry) (f : ℕ → Thread) → length es ≤ 0 → any_idle l now pruned f es ≡ false
  unfolding any_idle
  empty_rests [] f h = refl
  empty_rests (e ∷ es) f h = absurd (omega arith)

  stays_clear :
      (n : ℕ) (r : Registry)
      → IsRegistered r
      → r.victim ≡ none
      → any_idle l now pruned r.thread r.clients ≡ false
      → any_idle l now pruned (rounds l now pruned n r).thread (rounds l now pruned n r).clients
        ≡ false
  unfolding rounds
  stays_clear zero r v h k = k
  stays_clear (suc n) r v h k =
      stays_clear n (round l now pruned r) (round-IsRegistered r v) (round-victim r)
        (round_rests r v h k)

  -- At one time, after at least as many rounds as there are clients, no client is left that is expired
  -- and has neither a call nor a request that the pruning leaves.
  pub rounds_clear :
      (n : ℕ) (r : Registry)
      → IsRegistered r
      → r.victim ≡ none
      → length r.clients ≤ n
      → any_idle l now pruned (rounds l now pruned n r).thread (rounds l now pruned n r).clients
        ≡ false
  unfolding rounds
  rounds_clear zero r v h k = empty_rests r.clients r.thread k
  rounds_clear (suc n) r v h k = elim (Bool-cases (any_idle l now pruned r.thread r.clients)) [
    | inl t ↦
        rounds_clear n (round l now pruned r) (round-IsRegistered r v) (round-victim r)
          (omega (arith, round_shrinks r v h t))
    | inr t ↦
        stays_clear n (round l now pruned r) (round-IsRegistered r v) (round-victim r)
          (round_rests r v h t)
  ]
