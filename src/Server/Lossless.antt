-- ===== src/Server/Lossless.antt =====
-- A request that waits stays in the queue of server/rtimvServerThread.cpp until it is finished.
use rtimv.Common.{
  ℕ, zero, suc, ◌-◌, ◌≡◌, inl, inr, refl, Bool, true, false, not, ◌||◌, ◌++◌, List, [], ◌∷◌, ◌==◌,
  arith, ap, sym, subst, ◌∙◌, if_both, if_cases, Bool-cases, ==_iff,
}
use rtimv.Server.{
  Server, Request, on_request, schedule, mark_response_dirty, enqueue, prune, marked, settle,
  reschedule, deliver, serve, take_front, respond, service, late, finish_request, put_reply, valid,
}
use rtimv.Server.Requests.{
  IsKept, Everywhere, enqueue-Everywhere, mark-Everywhere, on_request-Everywhere,
  respond-Everywhere,
}
use rtimv.Server.Once.{
  Step, asked, scanned, served, marked_dirty, image_connected, flagged, Steps, here, next,
  Step-Everywhere,
}
use rtimv.Server.Delivery.{
  IsSettled, IsAccounted, HasReply, elem, finish_settles, prune-IsAccounted,
}

-- The two properties of request `i` that every change of a request keeps.
abbrev pub SettledAt : ℕ → ℕ → Request → Type 0
SettledAt i j r = j ≡ i → IsSettled r

abbrev pub ReplyAt : ℕ → ℕ → Request → Type 0
ReplyAt i j r = j ≡ i → HasReply r

IsSettled-flags :
    (d c : Bool) (r : Request)
    → IsSettled r
    → IsSettled (record r { done = r.done || d; cancelled = r.cancelled || c })
IsSettled-flags d c r (inl f) = inl f
IsSettled-flags d c r (inr e) = inr (ground arith)

finish_reply : (r : Request) → HasReply r → HasReply (finish_request r)
unfolding finish_request
finish_reply r h = ground arith

SettledAt-kept : (i : ℕ) → IsKept (SettledAt i)
SettledAt-kept i = record {
  by_finish = λ j r v e. finish_settles r;
  by_reply = λ j p r v e. v e;
  by_flags = λ j d c r v e. IsSettled-flags d c r (v e);
}

ReplyAt-kept : (i : ℕ) → IsKept (ReplyAt i)
ReplyAt-kept i = record {
  by_finish = λ j r v e. finish_reply r (v e);
  by_reply = λ j p r v e. v e;
  by_flags = λ j d c r v e. v e;
}

settled-Everywhere : (i : ℕ) (s : Server) → IsSettled (s.request i) → Everywhere (SettledAt i) s
settled-Everywhere i s v = record { of = λ j e. subst (λ n. IsSettled (s.request n)) (sym e) v }

-- What a step keeps of a settled request, given that it keeps each property of the table.
accounted :
    (i : ℕ) (s t : Server)
    → (Everywhere (SettledAt i) s → Everywhere (SettledAt i) t)
    → (elem i s.queue ≡ true → IsAccounted i t)
    → IsAccounted i s
    → IsAccounted i t
accounted i s t keeps queued (inl e) = queued e
accounted i s t keeps queued (inr v) = inr ((keeps (settled-Everywhere i s v)).of i refl)

elem-append : (i : ℕ) (is js : List ℕ) → elem i is ≡ true → elem i (is ++ js) ≡ true
elem-append i [] js e = cc
elem-append i (j ∷ is) js e = ground (arith, elem-append i is js)

schedule_queue : (s : Server) → (schedule s).queue ≡ s.queue
unfolding schedule
schedule_queue s = ground arith

mark_queue : (s : Server) → (mark_response_dirty s).queue ≡ s.queue
unfolding mark_response_dirty schedule
mark_queue s = ground arith

marked_queue : (n : ℕ) (s : Server) → (marked n s).queue ≡ s.queue
marked_queue zero s = refl
marked_queue (suc n) s = marked_queue n (mark_response_dirty s) ∙ mark_queue s

settle_queue : (n : ℕ) (s : Server) → (settle n s).queue ≡ s.queue
unfolding settle
settle_queue n s = ground arith

reschedule_queue : (s : Server) → (reschedule s).queue ≡ s.queue
unfolding reschedule schedule
reschedule_queue s = ground arith

deliver_queue : (marks i : ℕ) (s : Server) → (deliver marks i s).queue ≡ s.queue
unfolding deliver
deliver_queue marks i s =
    let t = on_request (λ r. finish_request (put_reply (valid s.serial) r)) i (marked marks s) in
    reschedule_queue (settle s.serial t) ∙ settle_queue s.serial t ∙ marked_queue marks s

serve_queue : (marks i : ℕ) (s : Server) → (serve marks i s).queue ≡ s.queue
unfolding serve
serve_queue marks i s =
    if_both (λ (t : Server). t.queue ≡ s.queue) (s.request i).done (schedule_queue s)
      (if_both (λ (t : Server). t.queue ≡ s.queue) (s.request i).cancelled
        (schedule_queue (on_request finish_request i s)) (deliver_queue marks i s))

pub at_same :
    (f : Request → Request) (i : ℕ) (s : Server) → (on_request f i s).request i ≡ f (s.request i)
at_same f i s = ground arith

pub settle_request : (n : ℕ) (s : Server) → (settle n s).request ≡ s.request
unfolding settle
settle_request n s = ground arith

pub reschedule_request : (s : Server) → (reschedule s).request ≡ s.request
unfolding reschedule schedule
reschedule_request s = ground arith

-- The request that was taken from the queue is settled.
deliver_settles : (marks i : ℕ) (s : Server) → IsSettled ((deliver marks i s).request i)
unfolding deliver
deliver_settles marks i s =
    let answer : (r : Request) → Request = λ r. finish_request (put_reply (valid s.serial) r) in
    let t = on_request answer i (marked marks s) in
    subst IsSettled
      (sym (
        ap (λ f. f i) (reschedule_request (settle s.serial t) ∙ settle_request s.serial t)
        ∙ at_same answer i (marked marks s)))
      (finish_settles (put_reply (valid s.serial) ((marked marks s).request i)))

schedule_request : (s : Server) → (schedule s).request ≡ s.request
unfolding schedule
schedule_request s = ground arith

serve_settles : (marks i : ℕ) (s : Server) → IsSettled ((serve marks i s).request i)
unfolding serve
serve_settles marks i s =
    if_cases (λ (t : Server). IsSettled (t.request i)) (s.request i).done
      (λ d. inr (ap (λ f. (f i).done) (schedule_request s) ∙ d))
      (λ _.
        if_both (λ (t : Server). IsSettled (t.request i)) (s.request i).cancelled
          (subst IsSettled
            (sym (
              ap (λ f. f i) (schedule_request (on_request finish_request i s))
              ∙ at_same finish_request i s))
            (finish_settles (s.request i)))
          (deliver_settles marks i s))

take_front-IsAccounted :
    (ld lc : Bool) (marks i : ℕ) (is : List ℕ) (s : Server)
    → s.queue ≡ is
    → elem i is ≡ true
    → IsAccounted i (take_front ld lc marks is s)
unfolding take_front
take_front-IsAccounted ld lc marks i [] s q e = cc
take_front-IsAccounted ld lc marks i (j ∷ rest) s q e = elim (Bool-cases (i == j)) [
  | inl same ↦ inr (
      subst (λ n. IsSettled ((serve marks j t).request n)) (sym ((==_iff i j).0 same))
        (serve_settles marks j t))
  | inr differs ↦ inl (ap (elem i) (serve_queue marks j t) ∙ ground arith)
]
  where
    t : Server
    t = on_request (late ld lc) j (record s { queue = rest })

respond-IsAccounted :
    (ld lc : Bool) (marks i : ℕ) (s : Server)
    → elem i s.queue ≡ true
    → IsAccounted i (respond ld lc marks s)
unfolding respond
respond-IsAccounted ld lc marks i s e =
    if_both (IsAccounted i) (not s.connected || not s.dirty) (inl e)
      (take_front-IsAccounted ld lc marks i s.queue s refl e)

-- A service keeps a request in the queue or settles it.
service-IsAccounted :
    (ld lc : Bool) (marks now i : ℕ) (s : Server)
    → HasReply (s.request i)
    → IsAccounted i s
    → IsAccounted i (service ld lc marks now s)
unfolding service
service-IsAccounted ld lc marks now i s h v =
    let t : Server = prune 0 now (record s { scheduled = false }) in
    accounted i t (respond ld lc marks t)
      (respond-Everywhere (SettledAt i) (SettledAt-kept i) ld lc marks t)
      (respond-IsAccounted ld lc marks i t)
      (prune-IsAccounted 0 now i (record s { scheduled = false }) h v)

enqueue-IsAccounted : (i j : ℕ) (s : Server) → IsAccounted i s → IsAccounted i (enqueue j s)
unfolding enqueue
enqueue-IsAccounted i j s v =
    accounted i s (enqueue j s) (enqueue-Everywhere (SettledAt i) (SettledAt-kept i) j s) queued v
  where
    queued : elem i s.queue ≡ true → IsAccounted i (enqueue j s)
    queued e = if_both (IsAccounted i) (not s.connected) (inl e) (
        inl (
          ap (elem i) (schedule_queue (record s { queue = s.queue ++ j ∷ [] }))
          ∙ elem-append i s.queue (j ∷ []) e))

Step-IsAccounted :
    (i : ℕ) {s t : Server} → Step s t → HasReply (s.request i) → IsAccounted i s → IsAccounted i t
Step-IsAccounted i (asked s j) h v = enqueue-IsAccounted i j s v
Step-IsAccounted i (scanned s limit now) h v = prune-IsAccounted limit now i s h v
Step-IsAccounted i (served s ld lc marks now n) h v =
    service-IsAccounted ld lc marks now i (record s { signals = s.signals - 1 }) h v
Step-IsAccounted i (marked_dirty s) h v =
    accounted i s (mark_response_dirty s) (mark-Everywhere (SettledAt i) s)
      (λ e. inl (ap (elem i) (mark_queue s) ∙ e)) v
Step-IsAccounted i (image_connected s) h v = v
Step-IsAccounted i (flagged s d c j) h v =
    accounted i s (on_request (late d c) j s)
      (on_request-Everywhere (SettledAt i) (late d c) j s (λ r k e. IsSettled-flags d c r (k e)))
      (λ e. inl e) v

Steps-reply : (i : ℕ) {s t : Server} → Steps s t → HasReply (s.request i) → HasReply (t.request i)
Steps-reply i {s = s} r h = (go r).of i refl
  where
    go : {t : Server} → Steps s t → Everywhere (ReplyAt i) t
    go here = record { of = λ j e. subst (λ n. HasReply (s.request n)) (sym e) h }
    go (next q st) = Step-Everywhere (ReplyAt i) (ReplyAt-kept i) st (go q)

-- No request is lost: from a state where a request with a place for its reply is in the queue or
-- settled (finished, or completed by gRPC), it is in the queue or settled after any steps.
pub Steps-IsAccounted :
    (i : ℕ) {s t : Server} → Steps s t → HasReply (s.request i) → IsAccounted i s → IsAccounted i t
Steps-IsAccounted i here h v = v
Steps-IsAccounted i (next r st) h v =
    Step-IsAccounted i st (Steps-reply i r h) (Steps-IsAccounted i r h v)
