-- ===== src/Server/Delivery.antt =====
-- No request is lost: one that was asked is in the queue until it is finished, or gRPC is done with it.
use rtimv.Common.{
  ℕ, ◌≡◌, ◌⊎◌, ◌≢◌, inl, inr, Bool, true, false, not, ◌||◌, List, [], ◌∷◌, ◌==◌, arith, ap, sym,
  subst, ◌∙◌, if◌then◌else◌, if_cases, Bool-cases, ==_iff,
}
use rtimv.Server.{
  Server, Request, on_request, keep, each, judged, verdict, prune, is_kept, is_withdrawn,
  is_overdue, close_withdrawn, close_overdue, finish_request, put_reply, timeout, no_image,
}
use rtimv.Server.Wakeup.{prune-IsSame}

-- Finished, or completed by gRPC.
abbrev pub IsSettled : Request → Type 0
IsSettled r = (r.finished ≡ true) ⊎ (r.done ≡ true)

abbrev pub elem : ℕ → List ℕ → Bool
elem i [] = false
elem i (j ∷ js) = i == j || elem i js

abbrev pub IsAccounted : ℕ → Server → Type 0
IsAccounted i s = (elem i s.queue ≡ true) ⊎ IsSettled (s.request i)

pub finish_settles : (r : Request) → IsSettled (finish_request r)
unfolding finish_request
finish_settles r = inl (ground arith)

close_withdrawn_settles : (r : Request) → IsSettled (close_withdrawn r)
unfolding close_withdrawn
close_withdrawn_settles r = if_cases IsSettled r.done (λ d. inr d) (λ _. finish_settles r)

close_overdue_settles :
    (c : Bool) (r : Request) → r.has_reply ≡ true → IsSettled (close_overdue c r)
unfolding close_overdue
close_overdue_settles c r h =
    if_cases IsSettled (not r.has_reply || r.done) (λ d. inr (ground arith))
      (λ _. finish_settles (put_reply (if c then timeout else no_image) r))

-- One request of the table, after a change of request `j`.
on_request_at :
    (R : Request → Type 0) (f : Request → Request) (i j : ℕ) (s : Server)
    → (j ≡ i → R (f (s.request i)))
    → (i ≢ j → R (s.request i))
    → R ((on_request f j s).request i)
on_request_at R f i j s hit miss =
    if_cases R (j == i)
      (λ e.
        let same : j ≡ i = (==_iff j i).0 e in
        subst (λ n. R (f (s.request n))) (sym same) (hit same))
      (λ e. miss (ground arith))

-- A loop over a list settles each request of the list, where its body settles a request that has
-- the property `P` and keeps that property.
module _ (P : Request → Type 0) (f : Request → Request)
    (settles : (r : Request) → P r → IsSettled (f r)) (keeps : (r : Request) → P r → P (f r)) where
  each_reaches :
      (i : ℕ) (is : List ℕ) (s : Server)
      → P (s.request i)
      → (elem i is ≡ true) ⊎ IsSettled (s.request i)
      → P ((each f is s).request i) × IsSettled ((each f is s).request i)
  each_reaches i [] s p (inl e) = cc
  each_reaches i [] s p (inr d) = (p, d)
  each_reaches i (j ∷ js) s p o =
      each_reaches i js (on_request f j s)
        (on_request_at P f i j s (λ _. keeps (s.request i) p) (λ _. p))
        (on_request_at (λ r. (elem i js ≡ true) ⊎ IsSettled r) f i j s
          (λ _. inr (settles (s.request i) p)) (λ n. later n o))
    where
      later :
          i ≢ j
          → (elem i (j ∷ js) ≡ true) ⊎ IsSettled (s.request i)
          → (elem i js ≡ true) ⊎ IsSettled (s.request i)
      later n (inl e) = inl (ground arith)
      later n (inr d) = inr d

  each_keeps : (i : ℕ) (is : List ℕ) (s : Server) → P (s.request i) → P ((each f is s).request i)
  each_keeps i [] s p = p
  each_keeps i (j ∷ js) s p =
      each_keeps i js (on_request f j s)
        (on_request_at P f i j s (λ _. keeps (s.request i) p) (λ _. p))

pub elem-keep :
    (test : ℕ → Bool) (i : ℕ) (is : List ℕ)
    → elem i is ≡ true
    → test i ≡ true
    → elem i (keep test is) ≡ true
elem-keep test i [] e t = cc
elem-keep test i (j ∷ js) e t = elim (Bool-cases (i == j)) [
  | inl same ↦ let eq : i ≡ j = (==_iff i j).0 same in rw (← eq, t) (ground arith)
  | inr differs ↦ ground (arith, elem-keep test i js)
]

-- A reply can be written to the request.
abbrev pub HasReply : Request → Type 0
HasReply r = r.has_reply ≡ true

pub withdraw_keeps : (r : Request) → HasReply r → HasReply (close_withdrawn r)
unfolding close_withdrawn finish_request
withdraw_keeps r h = ground arith

overdue_keeps : (c : Bool) (r : Request) → HasReply r → HasReply (close_overdue c r)
unfolding close_overdue finish_request
overdue_keeps c r h = ground arith

-- Each verdict, with what it says of the request.
verdict_cases :
    (limit now : ℕ) (r : Request)
    → (r.done ≡ true)
      ⊎ (is_withdrawn (verdict limit now r) ≡ true)
      ⊎ (is_overdue (verdict limit now r) ≡ true)
      ⊎ (is_kept (verdict limit now r) ≡ true)
unfolding verdict
verdict_cases limit now r = ground arith

module _ (limit now i : ℕ) (s : Server) (h : HasReply (s.request i)) where
  first : Server
  first =
      each close_withdrawn (judged is_withdrawn limit now s)
        (record s { queue = judged is_kept limit now s })

  first_reply : HasReply (first.request i)
  unfolding first
  first_reply =
      each_keeps HasReply close_withdrawn (λ r _. close_withdrawn_settles r) withdraw_keeps i
        (judged is_withdrawn limit now s) (record s { queue = judged is_kept limit now s }) h

  -- A request that the first loop settled, or that is in the list of the second, is settled.
  second_settles :
      (elem i (judged is_overdue limit now s) ≡ true) ⊎ IsSettled (first.request i)
      → IsSettled ((prune limit now s).request i)
  unfolding prune first
  second_settles o =
      (each_reaches HasReply (close_overdue s.connected) (close_overdue_settles s.connected)
        (overdue_keeps s.connected) i (judged is_overdue limit now s) first first_reply o).1

  first_settles :
      (elem i (judged is_withdrawn limit now s) ≡ true) ⊎ IsSettled (s.request i)
      → IsSettled (first.request i)
  unfolding first
  first_settles o =
      (each_reaches HasReply close_withdrawn (λ r _. close_withdrawn_settles r) withdraw_keeps i
        (judged is_withdrawn limit now s) (record s { queue = judged is_kept limit now s }) h o).1

  -- A scan drops no request that still waits.
  pub prune-IsAccounted : IsAccounted i s → IsAccounted i (prune limit now s)
  unfolding judged
  prune-IsAccounted (inr d) = inr (second_settles (inr (first_settles (inr d))))
  prune-IsAccounted (inl e) = elim (verdict_cases limit now (s.request i)) [
    | inl d ↦ inr (second_settles (inr (first_settles (inr (inr d)))))
    | inr (inl w) ↦ inr (second_settles (inr (first_settles (inl (elem-keep _ i s.queue e w)))))
    | inr (inr (inl o)) ↦ inr (second_settles (inl (elem-keep _ i s.queue e o)))
    | inr (inr (inr k)) ↦
        inl (ap (elem i) (prune-IsSame limit now s).queue ∙ elem-keep _ i s.queue e k)
  ]
