-- ===== src/Server/Requests.antt =====
-- A property of requests that each change of a request keeps is kept by each operation of the queue.
use rtimv.Common.{
  u64, ℕ, zero, suc, ◌+◌, ◌≡◌, Bool, true, false, not, ◌&&◌, ◌||◌, ◌++◌, List, [], ◌∷◌, ◌==◌, arith,
  subst, if◌then◌else◌, if_both, if_cases,
}
use rtimv.Server.{
  Server, Request, Reply, finish_request, put_reply, on_request, schedule, mark_response_dirty,
  enqueue, close_withdrawn, close_overdue, each, prune, marked, deliver, take_front, service,
  no_image, timeout, valid, is_nil, settle, reschedule, serve, respond, late, judged, is_kept,
  is_withdrawn, is_overdue,
}

pub record Everywhere (P : ℕ → Request → Type 0) (s : Server) : Type 0 where
  pub of : (i : ℕ) → P i (s.request i)

-- The changes that the code makes to a request.
pub record IsKept (P : ℕ → Request → Type 0) : Type 0 where
  pub by_finish : (i : ℕ) (r : Request) → P i r → P i (finish_request r)
  pub by_reply : (i : ℕ) (p : Reply) (r : Request) → P i r → P i (put_reply p r)
  pub by_flags :
      (i : ℕ) (done cancelled : Bool) (r : Request)
      → P i r
      → P i (record r { done = r.done || done; cancelled = r.cancelled || cancelled })

of_eq : (i j : ℕ) → (i == j) ≡ true → i ≡ j
of_eq i j e = ground arith

module _ (P : ℕ → Request → Type 0) where
  pub on_request-Everywhere :
      (f : Request → Request) (i : ℕ) (s : Server)
      → ((r : Request) → P i r → P i (f r))
      → Everywhere P s
      → Everywhere P (on_request f i s)
  on_request-Everywhere f i s k v = record {
    of = λ j.
        if_cases (P j) (i == j)
          (λ e. subst (λ n. P n (f (s.request i))) (of_eq i j e) (k (s.request i) (v.of i)))
          (λ _. v.of j);
  }

  each-Everywhere :
      (f : Request → Request) (is : List ℕ) (s : Server)
      → ((i : ℕ) (r : Request) → P i r → P i (f r))
      → Everywhere P s
      → Everywhere P (each f is s)
  each-Everywhere f [] s k v = v
  each-Everywhere f (i ∷ is) s k v =
      each-Everywhere f is (on_request f i s) k (on_request-Everywhere f i s (k i) v)

  pub schedule-Everywhere : (s : Server) → Everywhere P s → Everywhere P (schedule s)
  unfolding schedule
  schedule-Everywhere s v = if_both (Everywhere P) s.scheduled v (record { of = v.of })

  pub mark-Everywhere : (s : Server) → Everywhere P s → Everywhere P (mark_response_dirty s)
  unfolding mark_response_dirty
  mark-Everywhere s v =
      schedule-Everywhere (record s { serial = u64 (s.serial + 1); dirty = true })
        (record { of = v.of })

  marked-Everywhere : (n : ℕ) (s : Server) → Everywhere P s → Everywhere P (marked n s)
  marked-Everywhere zero s v = v
  marked-Everywhere (suc n) s v = marked-Everywhere n (mark_response_dirty s) (mark-Everywhere s v)

  settle-Everywhere : (n : ℕ) (s : Server) → Everywhere P s → Everywhere P (settle n s)
  unfolding settle
  settle-Everywhere n s v = if_both (Everywhere P) (s.serial == n) (record { of = v.of }) v

  reschedule-Everywhere : (s : Server) → Everywhere P s → Everywhere P (reschedule s)
  unfolding reschedule
  reschedule-Everywhere s v =
      if_both (Everywhere P) (s.dirty && not (is_nil s.queue)) (schedule-Everywhere s v) v

module _ (P : ℕ → Request → Type 0) (k : IsKept P) where
  close_withdrawn-kept : (i : ℕ) (r : Request) → P i r → P i (close_withdrawn r)
  unfolding close_withdrawn
  close_withdrawn-kept i r v = if_both (P i) r.done v (k.by_finish i r v)

  close_overdue-kept : (c : Bool) (i : ℕ) (r : Request) → P i r → P i (close_overdue c r)
  unfolding close_overdue
  close_overdue-kept c i r v = if_both (P i) (not r.has_reply || r.done) v (
      k.by_finish i (put_reply (if c then timeout else no_image) r)
        (k.by_reply i (if c then timeout else no_image) r v))

  refused-kept :
      (i : ℕ) (r : Request)
      → P i r
      → P i (if r.has_reactor then finish_request (put_reply no_image r) else put_reply no_image r)
  refused-kept i r v =
      if_both (P i) r.has_reactor (k.by_finish i (put_reply no_image r) (k.by_reply i no_image r v))
        (k.by_reply i no_image r v)

  pub enqueue-Everywhere : (i : ℕ) (s : Server) → Everywhere P s → Everywhere P (enqueue i s)
  unfolding enqueue
  enqueue-Everywhere i s v =
      if_both (Everywhere P) (not s.connected) (on_request-Everywhere P _ i s (refused-kept i) v)
        (schedule-Everywhere P (record s { queue = s.queue ++ i ∷ [] }) (record { of = v.of }))

  pub prune-Everywhere :
      (limit now : ℕ) (s : Server) → Everywhere P s → Everywhere P (prune limit now s)
  unfolding prune
  prune-Everywhere limit now s v =
      let scanned = record s { queue = judged is_kept limit now s } in
      let withdrawals = judged is_withdrawn limit now s in
      each-Everywhere P (close_overdue s.connected) (judged is_overdue limit now s)
        (each close_withdrawn withdrawals scanned) (close_overdue-kept s.connected)
        (each-Everywhere P close_withdrawn withdrawals scanned close_withdrawn-kept
          (record { of = v.of }))

  deliver-Everywhere :
      (marks i : ℕ) (s : Server) → Everywhere P s → Everywhere P (deliver marks i s)
  unfolding deliver
  deliver-Everywhere marks i s v = reschedule-Everywhere P _ (
      settle-Everywhere P s.serial _ (
        on_request-Everywhere P _ i (marked marks s)
          (λ r p. k.by_finish i (put_reply (valid s.serial) r) (k.by_reply i (valid s.serial) r p))
          (marked-Everywhere P marks s v)))

  pub serve-Everywhere :
      (marks i : ℕ) (s : Server) → Everywhere P s → Everywhere P (serve marks i s)
  unfolding serve
  serve-Everywhere marks i s v =
      if_both (Everywhere P) (s.request i).done (schedule-Everywhere P s v) (
        if_both (Everywhere P) (s.request i).cancelled
          (schedule-Everywhere P (on_request finish_request i s)
            (on_request-Everywhere P finish_request i s (k.by_finish i) v))
          (deliver-Everywhere marks i s v))

  take_front-Everywhere :
      (ld lc : Bool) (marks : ℕ) (is : List ℕ) (s : Server)
      → Everywhere P s
      → Everywhere P (take_front ld lc marks is s)
  unfolding take_front
  take_front-Everywhere ld lc marks [] s v = v
  take_front-Everywhere ld lc marks (i ∷ rest) s v =
      serve-Everywhere marks i (on_request (late ld lc) i (record s { queue = rest })) (
        on_request-Everywhere P (late ld lc) i (record s { queue = rest }) (k.by_flags i ld lc)
          (record { of = v.of }))

  pub respond-Everywhere :
      (ld lc : Bool) (marks : ℕ) (s : Server)
      → Everywhere P s
      → Everywhere P (respond ld lc marks s)
  unfolding respond
  respond-Everywhere ld lc marks s v =
      if_both (Everywhere P) (not s.connected || not s.dirty) v
        (take_front-Everywhere ld lc marks s.queue s v)

  pub service-Everywhere :
      (ld lc : Bool) (marks now : ℕ) (s : Server)
      → Everywhere P s
      → Everywhere P (service ld lc marks now s)
  unfolding service
  service-Everywhere ld lc marks now s v =
      respond-Everywhere ld lc marks (prune 0 now (record s { scheduled = false }))
        (prune-Everywhere 0 now (record s { scheduled = false }) (record { of = v.of }))
