-- ===== src/Registry/Removal.antt =====
-- The removal of a client from the table of server/rtimvServer.cpp leaves the others as they are.
use rtimv.Common.{
  ℕ, ◌≡◌, inl, inr, refl, true, false, not, ◌&&◌, List, [], ◌∷◌, ◌==◌, if◌then◌else◌, arith, Option,
  none, some, is_null, if_cases, if_both, option_both, subst, sym, Bool-cases, ◌∙◌, ==_iff,
}
use rtimv.Registry.{
  Registry, Entry, Thread, Limits, find, erase, on_thread, set_pending, doze, scan, evict,
  delete_thread, thread_of, is_expired, is_busy,
}
use rtimv.Registry.Threads.{
  is_thread, uses_thread, shares_thread, Distinct, is_live, AllLive, IsRegistered,
  on_thread-IsRegistered,
}

find-erase :
    (p q : ℕ) (es : List Entry) → is_null (find p es) ≡ true → is_null (find p (erase q es)) ≡ true
find-erase p q [] h = h
find-erase p q (e ∷ es) h = ground (arith, find-erase p q es)

uses-erase :
    (i q : ℕ) (es : List Entry) → uses_thread i es ≡ false → uses_thread i (erase q es) ≡ false
uses-erase i q [] h = h
uses-erase i q (e ∷ es) h = ground (arith, uses-erase i q es)

erase-Distinct : (q : ℕ) (es : List Entry) → Distinct es → Distinct (erase q es)
erase-Distinct q [] v = v
erase-Distinct q (e ∷ es) v =
    if_cases Distinct (e.peer == q) (λ _. v.2)
      (λ _. (find-erase e.peer q es v.0, shares-erase e.thread v.1, erase-Distinct q es v.2))
  where
    shares-erase :
        (o : Option ℕ) → shares_thread o es ≡ false → shares_thread o (erase q es) ≡ false
    shares-erase none h = h
    shares-erase (some i) h = uses-erase i q es h

erase-AllLive :
    (n q : ℕ) (f : ℕ → Thread) (es : List Entry) → AllLive n f es → AllLive n f (erase q es)
erase-AllLive n q f [] v = v
erase-AllLive n q f (e ∷ es) v =
    if_cases (AllLive n f) (e.peer == q) (λ _. v.1) (λ _. (v.0, erase-AllLive n q f es v.1))

here :
    (p : ℕ) (e : Entry) (es : List Entry)
    → (e.peer == p) ≡ true
    → thread_of (find p (e ∷ es)) ≡ e.thread
here p e es t = rw (t) refl

there :
    (p : ℕ) (e : Entry) (es : List Entry)
    → (e.peer == p) ≡ false
    → thread_of (find p (e ∷ es)) ≡ thread_of (find p es)
there p e es t = rw (t) refl

same_thread : (i : ℕ) (o : Option ℕ) → o ≡ some i → is_thread i o ≡ true
same_thread i o e = rw (e) (ground arith)

found_uses : (i p : ℕ) (es : List Entry) → thread_of (find p es) ≡ some i → uses_thread i es ≡ true
found_uses i p [] h = absurd (ground arith)
found_uses i p (e ∷ es) h = elim (Bool-cases (e.peer == p)) [
  | inl t ↦ (let k = same_thread i e.thread (sym (here p e es t) ∙ h) in ground arith)
  | inr t ↦ (let k = found_uses i p es (sym (there p e es t) ∙ h) in ground arith)
]

apart :
    (i : ℕ) (o : Option ℕ) (es : List Entry)
    → shares_thread o es ≡ false
    → uses_thread i es ≡ true
    → is_thread i o ≡ false
apart i none es h k = refl
apart i (some j) es h k = elim (Bool-cases (i == j)) [
  | inl t ↦ absurd (clash (subst (λ m. uses_thread m es ≡ true) ((==_iff i j).0 t) k))
  | inr t ↦ t
]
  where
    clash : uses_thread j es ≡ true → ⊥
    clash q = ground arith

-- The thread of the peer that is found stands nowhere else.
gone :
    (i p : ℕ) (es : List Entry)
    → Distinct es
    → thread_of (find p es) ≡ some i
    → uses_thread i (erase p es) ≡ false
gone i p [] v h = refl
gone i p (e ∷ es) v h =
    if_cases (λ x. uses_thread i x ≡ false) (e.peer == p)
      (λ t. subst (λ o. shares_thread o es ≡ false) (sym (here p e es t) ∙ h) v.1)
      (λ t.
        (let q = sym (there p e es t) ∙ h in
          let k = apart i e.thread es v.1 (found_uses i p es q) in
          let m = gone i p es v.2 q in ground arith))

live_beside :
    (n i : ℕ) (t : Thread) (f : ℕ → Thread) (es : List Entry)
    → uses_thread i es ≡ false
    → AllLive n f es
    → AllLive n (λ j. if i == j then t else f j) es
live_beside n i t f [] h v = tt
live_beside n i t f (e ∷ es) h v =
    (at e.thread (ground arith) v.0, live_beside n i t f es (ground arith) v.1)
  where
    at :
        (o : Option ℕ)
        → is_thread i o ≡ false
        → is_live n f o ≡ true
        → is_live n (λ j. if i == j then t else f j) o ≡ true
    at none k w = w
    at (some j) k w = ground arith

erase-IsRegistered :
    (p : ℕ) (r : Registry)
    → IsRegistered r
    → IsRegistered (record r { clients = erase p r.clients; victim = none })
erase-IsRegistered p r v = record {
  distinct = erase-Distinct p r.clients v.distinct;
  live = erase-AllLive r.next p r.thread r.clients v.live;
}

delete-IsRegistered :
    (p : ℕ) (r : Registry) (o : Option ℕ)
    → thread_of (find p r.clients) ≡ o
    → IsRegistered r
    → IsRegistered (delete_thread o (record r { clients = erase p r.clients; victim = none }))
delete-IsRegistered p r none e v = erase-IsRegistered p r v
delete-IsRegistered p r (some i) e v = record {
  distinct = erase-Distinct p r.clients v.distinct;
  live =
      live_beside r.next i _ r.thread (erase p r.clients) (gone i p r.clients v.distinct e)
        (erase-AllLive r.next p r.thread r.clients v.live);
}

pub evict-IsRegistered : (r : Registry) → IsRegistered r → IsRegistered (evict r)
unfolding evict
evict-IsRegistered r v = option_both IsRegistered r.victim v (λ w.
    if_both IsRegistered w.without_thread (erase-IsRegistered w.peer r v)
      (delete-IsRegistered w.peer r (thread_of (find w.peer r.clients)) refl v))

pub doze-deleted : (l : Limits) (now : ℕ) (t : Thread) → (doze l now t).deleted ≡ t.deleted
unfolding doze
doze-deleted l now t = ground arith

pub scan-IsRegistered :
    (l : Limits) (now : ℕ) (pruned : ℕ → ℕ) (es : List Entry) (r : Registry)
    → IsRegistered r
    → IsRegistered (scan l now pruned es r)
unfolding scan
scan-IsRegistered l now pruned [] r v = v
scan-IsRegistered l now pruned (e ∷ es) r v =
    option_both IsRegistered e.thread (record { distinct = v.distinct; live = v.live })
      (λ i.
        (let kept = on_thread (set_pending (pruned i)) i r in
          let w = on_thread-IsRegistered (set_pending (pruned i)) i r (λ t. refl) v in
          if_both IsRegistered (is_expired l now (kept.thread i) && not (is_busy (kept.thread i)))
            (record { distinct = w.distinct; live = w.live })
            (scan-IsRegistered l now pruned es (on_thread (doze l now) i kept)
              (on_thread-IsRegistered (doze l now) i kept (doze-deleted l now) w))))
