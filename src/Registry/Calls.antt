-- ===== src/Registry/Calls.antt =====
-- The steps of the table of clients of server/rtimvServer.cpp, in any order, and the calls that are
-- prepared in it.
use rtimv.Common.{
  ℕ, ◌<◌, ◌≡◌, inl, inr, refl, Bool, true, false, List, [], ◌∷◌, ◌==◌, arith, Option, none, some,
  option_both, option_cases, subst, sym, Bool-cases, some_cancel, ◌∙◌,
}
use rtimv.Registry.{
  Registry, Entry, Thread, Limits, Prepared, not_configured, reconnect, begun, find, on_thread,
  set_pending, prepare_on, prepare, rpc_begin, rpc_end, insert_client, configure_client, conclude,
  run_slot, sweep, evict,
}
use rtimv.Registry.Threads.{
  is_live, AllLive, IsRegistered, on_thread-IsRegistered, insert-IsRegistered,
}
use rtimv.Registry.Removal.{scan-IsRegistered, evict-IsRegistered}

prepare-IsRegistered :
    (now p : ℕ) (r : Registry) → IsRegistered r → IsRegistered (prepare now p r).0
unfolding prepare rpc_begin
prepare-IsRegistered now p r v =
    option_both (λ (q : Registry × Prepared). IsRegistered q.0) (find p r.clients) v
      (λ e. begun_on e.thread)
  where
    begun_on : (o : Option ℕ) → IsRegistered (prepare_on now r o).0
    begun_on none = v
    begun_on (some i) = on_thread-IsRegistered (rpc_begin now) i r (λ t. refl) v

configure-IsRegistered :
    (b : Bool) (now p : ℕ) (r : Registry)
    → IsRegistered r
    → IsRegistered (configure_client b now p r)
unfolding configure_client
configure-IsRegistered b now p r v = option_both IsRegistered (find p r.clients) v (λ e.
    option_both IsRegistered e.thread v
      (λ i. on_thread-IsRegistered (conclude b now) i r (λ t. ground arith) v))

-- What happens to the table: a call begins and ends, an image request is queued or leaves the queue, a
-- client is inserted and configured, a thread runs a slot, and the loop looks and removes.
pub data Step : Registry → Registry → Type 0 where
  call_begins : (r : Registry) (now p : ℕ) → Step r (prepare now p r).0
  call_ends : (r : Registry) (i : ℕ) → Step r (on_thread rpc_end i r)
  queue_changes : (r : Registry) (i n : ℕ) → Step r (on_thread (set_pending n) i r)
  client_inserted : (r : Registry) (now p : ℕ) → Step r (insert_client now p r)
  client_configured :
      (r : Registry) (succeeds : Bool) (now p : ℕ) → Step r (configure_client succeeds now p r)
  slot_runs : (r : Registry) (i : ℕ) → Step r (on_thread run_slot i r)
  loop_scans :
      (r : Registry) (l : Limits) (now : ℕ) (pruned : ℕ → ℕ)
      → r.victim ≡ none
      → Step r (sweep l now pruned r)
  loop_evicts : (r : Registry) → Step r (evict r)

pub data Steps (r : Registry) : Registry → Type 0 where
  rest : Steps r r
  next : {s t : Registry} → Steps r s → Step s t → Steps r t

Step-IsRegistered : {r s : Registry} → Step r s → IsRegistered r → IsRegistered s
unfolding rpc_end run_slot
Step-IsRegistered (call_begins r now p) v = prepare-IsRegistered now p r v
Step-IsRegistered (call_ends r i) v = on_thread-IsRegistered rpc_end i r (λ t. refl) v
Step-IsRegistered (queue_changes r i n) v = on_thread-IsRegistered (set_pending n) i r (λ t. refl) v
Step-IsRegistered (client_inserted r now p) v = insert-IsRegistered now p r v
Step-IsRegistered (client_configured r b now p) v = configure-IsRegistered b now p r v
Step-IsRegistered (slot_runs r i) v = on_thread-IsRegistered run_slot i r (λ t. ground arith) v
Step-IsRegistered (loop_scans r l now pruned h) v = scan-IsRegistered l now pruned r.clients r v
Step-IsRegistered (loop_evicts r) v = evict-IsRegistered r v

Steps-IsRegistered : {r s : Registry} → Steps r s → IsRegistered r → IsRegistered s
Steps-IsRegistered rest v = v
Steps-IsRegistered (next h st) v = Step-IsRegistered st (Steps-IsRegistered h v)

-- How a call is prepared in a table: it is refused, or goes on with a thread that is not deleted.
abbrev pub Sound : Registry → Prepared → Type 0
Sound r not_configured = Unit
Sound r reconnect = ⊥
Sound r (begun i) = ((r.thread i).deleted ≡ false) × (i < r.next)

found_live :
    (p n : ℕ) (f : ℕ → Thread) (es : List Entry) (e : Entry)
    → AllLive n f es
    → find p es ≡ some e
    → is_live n f e.thread ≡ true
found_live p n f [] e v h = absurd (ground arith)
found_live p n f (d ∷ es) e v h = elim (Bool-cases (d.peer == p)) [
  | inl t ↦
      subst (λ (x : Entry). is_live n f x.thread ≡ true) (some_cancel d e (sym (head t) ∙ h)) v.0
  | inr t ↦ found_live p n f es e v.1 (sym (tail t) ∙ h)
]
  where
    head : (d.peer == p) ≡ true → find p (d ∷ es) ≡ some d
    head t = rw (t) refl

    tail : (d.peer == p) ≡ false → find p (d ∷ es) ≡ find p es
    tail t = rw (t) refl

prepared_on :
    (o : Option ℕ) (now : ℕ) (r : Registry)
    → is_live r.next r.thread o ≡ true
    → Sound r (prepare_on now r o).1
prepared_on none now r h = absurd (ground arith)
prepared_on (some i) now r h = (ground arith, ground arith)

-- After any steps from a table without clients, a call is refused as not configured or goes on with a
-- thread that was allocated and is not deleted; no entry is without a thread.
pub prepare-Sound :
    {r s : Registry} (now p : ℕ) → Steps r s → r.clients ≡ [] → Sound s (prepare now p s).1
unfolding prepare
prepare-Sound {r = r} {s = s} now p h e =
    option_cases (λ (q : Registry × Prepared). Sound s q.1) (find p s.clients) (λ _. tt)
      (λ d k.
        prepared_on d.thread now s (found_live p s.next s.thread s.clients d registered.live k))
  where
    start : IsRegistered r
    start = record { distinct = rw (e) tt; live = rw (e) tt }

    registered : IsRegistered s
    registered = Steps-IsRegistered h start
