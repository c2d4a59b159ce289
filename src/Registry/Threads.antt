-- ===== src/Registry/Threads.antt =====
-- The table of server/rtimvServer.cpp has one entry for a peer, each with its own thread, which is not
-- deleted: a call never begins on a thread that is gone.
use rtimv.Common.{
  ℕ, ◌+◌, ◌≡◌, refl, Bool, true, false, not, ◌&&◌, ◌||◌, List, [], ◌∷◌, ◌==◌, if◌then◌else◌, ltb,
  arith, Option, none, some, is_null, if_cases, All,
}
use rtimv.Registry.{Registry, Entry, Thread, find, on_thread, insert_client, new_thread}

abbrev pub is_thread : ℕ → Option ℕ → Bool
is_thread i none = false
is_thread i (some j) = i == j

abbrev pub uses_thread : ℕ → List Entry → Bool
uses_thread i [] = false
uses_thread i (e ∷ es) = is_thread i e.thread || uses_thread i es

abbrev pub shares_thread : Option ℕ → List Entry → Bool
shares_thread none es = false
shares_thread (some i) es = uses_thread i es

-- No peer and no thread stands in the table twice.
abbrev pub Distinct : List Entry → Type 0
Distinct [] = Unit
Distinct (e ∷ es) =
    (is_null (find e.peer es) ≡ true) × (shares_thread e.thread es ≡ false) × Distinct es

-- A thread that was allocated and is not deleted.
abbrev pub is_live : ℕ → (ℕ → Thread) → Option ℕ → Bool
is_live n thread none = false
is_live n thread (some i) = ltb i n && not (thread i).deleted

abbrev pub AllLive : ℕ → (ℕ → Thread) → List Entry → Type 0
AllLive n thread es = All (λ (e : Entry). is_live n thread e.thread ≡ true) es

pub record IsRegistered (r : Registry) : Type 0 where
  pub distinct : Distinct r.clients
  pub live : AllLive r.next r.thread r.clients

live_at :
    (n : ℕ) (f g : ℕ → Thread) (o : Option ℕ)
    → ((j : ℕ) → (g j).deleted ≡ (f j).deleted)
    → is_live n f o ≡ true
    → is_live n g o ≡ true
live_at n f g none h v = v
live_at n f g (some i) h v = ground (arith, h i)

pub live_change :
    (n : ℕ) (f g : ℕ → Thread) (es : List Entry)
    → ((j : ℕ) → (g j).deleted ≡ (f j).deleted)
    → AllLive n f es
    → AllLive n g es
live_change n f g [] h v = tt
live_change n f g (e ∷ es) h v = (live_at n f g e.thread h v.0, live_change n f g es h v.1)

-- A change of a thread that does not delete it.
pub on_thread-IsRegistered :
    (f : Thread → Thread) (i : ℕ) (r : Registry)
    → ((t : Thread) → (f t).deleted ≡ t.deleted)
    → IsRegistered r
    → IsRegistered (on_thread f i r)
on_thread-IsRegistered f i r h v = record {
  distinct = v.distinct;
  live = live_change r.next r.thread (on_thread f i r).thread r.clients same v.live;
}
  where
    same : (j : ℕ) → ((on_thread f i r).thread j).deleted ≡ (r.thread j).deleted
    same j = ground (arith, h (r.thread i))

fresh_thread :
    (n : ℕ) (f : ℕ → Thread) (es : List Entry) → AllLive n f es → uses_thread n es ≡ false
fresh_thread n f [] v = refl
fresh_thread n f (e ∷ es) v =
    (let h = other e.thread v.0 in let k = fresh_thread n f es v.1 in ground arith)
  where
    other : (o : Option ℕ) → is_live n f o ≡ true → is_thread n o ≡ false
    other none k = refl
    other (some i) k = ground arith

new_live :
    (n now : ℕ) (f : ℕ → Thread) (es : List Entry)
    → AllLive n f es
    → AllLive (n + 1) (λ j. if n == j then new_thread now else f j) es
new_live n now f [] v = tt
new_live n now f (e ∷ es) v = (at e.thread v.0, new_live n now f es v.1)
  where
    at :
        (o : Option ℕ)
        → is_live n f o ≡ true
        → is_live (n + 1) (λ j. if n == j then new_thread now else f j) o ≡ true
    at none k = k
    at (some i) k = ground arith

pub insert-IsRegistered :
    (now p : ℕ) (r : Registry) → IsRegistered r → IsRegistered (insert_client now p r)
unfolding insert_client
insert-IsRegistered now p r v =
    if_cases IsRegistered (is_null (find p r.clients))
      (λ t. record {
        distinct = (t, fresh_thread r.next r.thread r.clients v.live, v.distinct);
        live = (ground arith, new_live r.next now r.thread r.clients v.live);
      })
      (λ _. v)
