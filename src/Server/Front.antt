-- ===== src/Server/Front.antt =====
-- A request at the front of the queue of server/rtimvServerThread.cpp passes the scan.
use rtimv.Common.{
  ℕ, ◌≡◌, inl, inr, refl, Bool, false, ◌||◌, List, [], ◌∷◌, ◌==◌, arith, ap, ◌∙◌, Bool-cases,
  ==_iff,
}
use rtimv.Server.{
  Server, Request, on_request, prune, keep, each, judged, Verdict, kept, verdict, is_kept,
  is_withdrawn, is_overdue, close_withdrawn, close_overdue,
}
use rtimv.Server.Wakeup.{prune-IsSame}
use rtimv.Server.Delivery.{elem}

elem-keep-false :
    (test : ℕ → Bool) (i : ℕ) (is : List ℕ) → test i ≡ false → elem i (keep test is) ≡ false
elem-keep-false test i [] t = refl
elem-keep-false test i (j ∷ js) t = elim (Bool-cases (i == j)) [
  | inl same ↦ let eq : i ≡ j = (==_iff i j).0 same in rw (← eq, t) (elem-keep-false test i js t)
  | inr differs ↦ ground (arith, elem-keep-false test i js t)
]

each_elsewhere :
    (f : Request → Request) (i : ℕ) (is : List ℕ) (s : Server)
    → elem i is ≡ false
    → (each f is s).request i ≡ s.request i
each_elsewhere f i [] s e = refl
each_elsewhere f i (j ∷ js) s e = each_elsewhere f i js (on_request f j s) (ground arith) ∙ other
  where
    other : (on_request f j s).request i ≡ s.request i
    other = ground arith

live_verdict :
    (test : Verdict → Bool) (now : ℕ) (r : Request)
    → (r.done || r.cancelled) ≡ false
    → test (verdict 0 now r) ≡ test kept
unfolding verdict
live_verdict test now r e = ground arith

-- A scan without a time limit leaves a request that is neither done nor cancelled as it is.
pub prune_live :
    (now i : ℕ) (s : Server)
    → ((s.request i).done || (s.request i).cancelled) ≡ false
    → (prune 0 now s).request i ≡ s.request i
unfolding prune judged
prune_live now i s e =
    let scanned = record s { queue = judged is_kept 0 now s } in
    let withdrawals = judged is_withdrawn 0 now s in
    each_elsewhere (close_overdue s.connected) i (judged is_overdue 0 now s)
      (each close_withdrawn withdrawals scanned)
      (elem-keep-false _ i s.queue (live_verdict is_overdue now (s.request i) e))
    ∙ each_elsewhere close_withdrawn i withdrawals scanned
        (elem-keep-false _ i s.queue (live_verdict is_withdrawn now (s.request i) e))

pub prune_front :
    (now i : ℕ) (rest : List ℕ) (s : Server)
    → s.queue ≡ i ∷ rest
    → ((s.request i).done || (s.request i).cancelled) ≡ false
    → (prune 0 now s).queue ≡ i ∷ keep (λ j. is_kept (verdict 0 now (s.request j))) rest
unfolding judged
prune_front now i rest s q e =
    (prune-IsSame 0 now s).queue ∙ ap (keep (λ j. is_kept (verdict 0 now (s.request j)))) q ∙ front
  where
    front :
        keep (λ j. is_kept (verdict 0 now (s.request j))) (i ∷ rest)
        ≡ i ∷ keep (λ j. is_kept (verdict 0 now (s.request j))) rest
    front = rw (live_verdict is_kept now (s.request i) e) refl
