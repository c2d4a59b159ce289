-- ===== src/Server/Answers.antt =====
-- What a service of server/rtimvServerThread.cpp answers to the request at the front of the queue.
use rtimv.Common.{
  u64, ℕ, zero, suc, ◌+◌, ◌<◌, ◌≡◌, refl, some, Bool, true, false, not, ◌||◌, List, ◌∷◌, ◌==◌,
  arith, ap, sym, subst, ◌∙◌, if_cases, ltb,
}
use rtimv.Server.{
  Server, Request, Reply, on_request, schedule, mark_response_dirty, prune, judged, is_kept, marked,
  settle, reschedule, deliver, serve, take_front, respond, service, late, finish_request, put_reply,
  valid,
}
use rtimv.Server.Front.{prune_live, prune_front}
use rtimv.Server.Wakeup.{IsSame, prune-IsSame}
use rtimv.Server.Lossless.{at_same, settle_request, reschedule_request}

not-not : (b : Bool) → not (not b) ≡ b
not-not true = refl
not-not false = refl

mark_serial : (s : Server) → (mark_response_dirty s).serial ≡ u64 (s.serial + 1)
unfolding mark_response_dirty schedule
mark_serial s = ground arith

mark_dirty : (s : Server) → (mark_response_dirty s).dirty ≡ true
unfolding mark_response_dirty schedule
mark_dirty s = ground arith

marked_dirty : (n : ℕ) (s : Server) → s.dirty ≡ true → (marked n s).dirty ≡ true
marked_dirty zero s d = d
marked_dirty (suc n) s d = marked_dirty n (mark_response_dirty s) (mark_dirty s)

mark_request : (s : Server) → (mark_response_dirty s).request ≡ s.request
unfolding mark_response_dirty schedule
mark_request s = ground arith

marked_request : (n : ℕ) (s : Server) → (marked n s).request ≡ s.request
marked_request zero s = refl
marked_request (suc n) s = marked_request n (mark_response_dirty s) ∙ mark_request s

bounded : (n : ℕ) → u64 n < 18446744073709551616
bounded n = omega arith

marked_serial :
    (n : ℕ) (s : Server)
    → s.serial < 18446744073709551616
    → (marked n s).serial ≡ u64 (s.serial + n)
marked_serial zero s b = omega arith
marked_serial (suc n) s b =
    marked_serial n (mark_response_dirty s) (rw (mark_serial s) (bounded (s.serial + 1)))
    ∙ ap (λ k. u64 (k + n)) (mark_serial s)
    ∙ omega arith

settle_dirty : (n : ℕ) (s : Server) → s.dirty ≡ true → (settle n s).dirty ≡ not (s.serial == n)
unfolding settle
settle_dirty n s d = ground arith

reschedule_dirty : (s : Server) → (reschedule s).dirty ≡ s.dirty
unfolding reschedule schedule
reschedule_dirty s = ground arith

same_serial :
    (n k : ℕ)
    → n < 18446744073709551616
    → k < 18446744073709551616
    → (u64 (n + k) == n) ≡ not (ltb 0 k)
same_serial n k a b = ground arith

-- The picture is sent, and the response stays dirty if it was marked while the picture was rendered.
deliver_dirty :
    (marks i : ℕ) (s : Server)
    → s.dirty ≡ true
    → s.serial < 18446744073709551616
    → marks < 18446744073709551616
    → (deliver marks i s).dirty ≡ ltb 0 marks
unfolding deliver
deliver_dirty marks i s d b m =
    let t = on_request (λ r. finish_request (put_reply (valid s.serial) r)) i (marked marks s) in
    reschedule_dirty (settle s.serial t)
    ∙ settle_dirty s.serial t (marked_dirty marks s d)
    ∙ ap (λ k. not (k == s.serial)) (marked_serial marks s b)
    ∙ ap not (same_serial s.serial marks b m)
    ∙ not-not (ltb 0 marks)

answered :
    (p : Reply) (r : Request)
    → r.has_reply ≡ true
    → r.finished ≡ false
    → ((finish_request (put_reply p r)).reply ≡ some p)
      × ((finish_request (put_reply p r)).finished ≡ true)
unfolding finish_request
answered p r h f = ground arith

pub record IsAnswered (serial marks i : ℕ) (t : Server) : Type 0 where
  pub reply : (t.request i).reply ≡ some (valid serial)
  pub finished : (t.request i).finished ≡ true
  pub dirty : t.dirty ≡ ltb 0 marks

-- What a request needs to get a picture.
pub record IsWaiting (r : Request) : Type 0 where
  pub live : (r.done || r.cancelled) ≡ false
  pub has_reply : r.has_reply ≡ true
  pub unfinished : r.finished ≡ false

pub record IsReady (s : Server) : Type 0 where
  pub connected : s.connected ≡ true
  pub dirty : s.dirty ≡ true
  pub serial : s.serial < 18446744073709551616

deliver-IsAnswered :
    (marks i : ℕ) (s : Server)
    → IsReady s
    → IsWaiting (s.request i)
    → marks < 18446744073709551616
    → IsAnswered s.serial marks i (deliver marks i s)
unfolding deliver
deliver-IsAnswered marks i s v w m = record {
  reply = ap (λ r. r.reply) final ∙ fin.0;
  finished = ap (λ r. r.finished) final ∙ fin.1;
  dirty = deliver_dirty marks i s v.dirty v.serial m;
}
  where
    answer : Request → Request
    answer r = finish_request (put_reply (valid s.serial) r)

    t : Server
    t = on_request answer i (marked marks s)

    final : (reschedule (settle s.serial t)).request i ≡ answer (s.request i)
    final =
        ap (λ f. f i) (reschedule_request (settle s.serial t) ∙ settle_request s.serial t)
        ∙ at_same answer i (marked marks s)
        ∙ ap (λ f. answer (f i)) (marked_request marks s)

    fin :
        ((answer (s.request i)).reply ≡ some (valid s.serial))
        × ((answer (s.request i)).finished ≡ true)
    fin = answered (valid s.serial) (s.request i) w.has_reply w.unfinished

serve-IsAnswered :
    (marks i : ℕ) (s : Server)
    → IsReady s
    → IsWaiting (s.request i)
    → marks < 18446744073709551616
    → IsAnswered s.serial marks i (serve marks i s)
unfolding serve
serve-IsAnswered marks i s v w m =
    if_cases (IsAnswered s.serial marks i) (s.request i).done (λ d. absurd (w_done d))
      (λ _.
        if_cases (IsAnswered s.serial marks i) (s.request i).cancelled (λ c. absurd (w_cancelled c))
          (λ _. deliver-IsAnswered marks i s v w m))
  where
    w_done : (s.request i).done ≡ true → ⊥
    w_done d = ground (arith, w.live)

    w_cancelled : (s.request i).cancelled ≡ true → ⊥
    w_cancelled c = ground (arith, w.live)

late_same : (r : Request) → IsWaiting r → IsWaiting (late false false r)
late_same r w = record {
  live = ground (arith, w.live);
  has_reply = w.has_reply;
  unfinished = w.unfinished;
}

take_front-IsAnswered :
    (marks i : ℕ) (is rest : List ℕ) (s : Server)
    → is ≡ i ∷ rest
    → IsReady s
    → IsWaiting (s.request i)
    → marks < 18446744073709551616
    → IsAnswered s.serial marks i (take_front false false marks is s)
unfolding take_front
take_front-IsAnswered marks i is rest s q v w m =
    subst (λ js. IsAnswered s.serial marks i (take_front false false marks js s)) (sym q)
      (serve-IsAnswered marks i t
        (record { connected = v.connected; dirty = v.dirty; serial = v.serial })
        (subst IsWaiting (sym (at_same (late false false) i (record s { queue = rest })))
          (late_same (s.request i) w))
        m)
  where
    t : Server
    t = on_request (late false false) i (record s { queue = rest })

respond-IsAnswered :
    (marks i : ℕ) (rest : List ℕ) (s : Server)
    → s.queue ≡ i ∷ rest
    → IsReady s
    → IsWaiting (s.request i)
    → marks < 18446744073709551616
    → IsAnswered s.serial marks i (respond false false marks s)
unfolding respond
respond-IsAnswered marks i rest s q v w m =
    if_cases (IsAnswered s.serial marks i) (not s.connected || not s.dirty) (λ n. absurd (busy n))
      (λ _. take_front-IsAnswered marks i s.queue rest s q v w m)
  where
    busy : (not s.connected || not s.dirty) ≡ true → ⊥
    busy n = ground (arith, v.connected, v.dirty)

-- A service with an image connected and something new to show answers the request at the front of
-- the queue with the present serial and finishes it, if the request is not done, cancelled or
-- finished and has a place for its reply. The response is dirty afterwards exactly if it was marked
-- while the picture was rendered. Serial and marks are below 2^64.
pub service-IsAnswered :
    (marks now i : ℕ) (rest : List ℕ) (s : Server)
    → s.queue ≡ i ∷ rest
    → IsReady s
    → IsWaiting (s.request i)
    → marks < 18446744073709551616
    → IsAnswered s.serial marks i (service false false marks now s)
unfolding service
service-IsAnswered marks now i rest s q v w m =
    subst (λ n. IsAnswered n marks i (respond false false marks (prune 0 now t))) same.serial
      (respond-IsAnswered marks i _ (prune 0 now t) (prune_front now i rest t q w.live)
        (record {
          connected = same.connected ∙ v.connected;
          dirty = same.dirty ∙ v.dirty;
          serial = subst (λ n. n < 18446744073709551616) (sym same.serial) v.serial;
        })
        (subst IsWaiting (sym (prune_live now i t w.live)) w) m)
  where
    t : Server
    t = record s { scheduled = false }

    same : IsSame (record t { queue = judged is_kept 0 now t }) (prune 0 now t)
    same = prune-IsSame 0 now t
