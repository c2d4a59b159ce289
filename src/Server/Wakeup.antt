-- ===== src/Server/Wakeup.antt =====
-- No wake-up is lost: while there is a picture to send and a request for it, a service is on its way.
use rtimv.Common.{
  ℕ, zero, suc, ◌-◌, ◌≡◌, inl, inr, refl, Bool, true, false, not, ◌||◌, ◌++◌, List, [], ◌∷◌, arith,
  ap, sym, ◌∙◌, if◌then◌else◌, if_both, if_cases, Bool-cases,
}
use rtimv.Server.{
  Server, Request, on_request, schedule, mark_response_dirty, enqueue, keep, each, judged, prune,
  marked, settle, reschedule, deliver, serve, take_front, respond, service, late, is_nil, is_kept,
  is_withdrawn, is_overdue, close_withdrawn, close_overdue, finish_request, put_reply, valid,
}
use rtimv.Server.Once.{
  Step, asked, scanned, served, marked_dirty, image_connected, flagged, Steps, here, next,
}

-- One signal is out while a service is scheduled, and none otherwise.
pub record IsCounted (s : Server) : Type 0 where
  pub signalled : s.signals ≡ (if s.scheduled then 1 else 0)

pub record IsAwake (s : Server) : Type 0 where
  pub counted : IsCounted s
  pub awake : s.connected ≡ true → s.dirty ≡ true → is_nil s.queue ≡ false → s.scheduled ≡ true
  pub early : s.connected ≡ false → is_nil s.queue ≡ true

-- Two states that differ in the table of requests alone.
pub record IsSame (s t : Server) : Type 0 where
  pub queue : t.queue ≡ s.queue
  pub connected : t.connected ≡ s.connected
  pub dirty : t.dirty ≡ s.dirty
  pub scheduled : t.scheduled ≡ s.scheduled
  pub signals : t.signals ≡ s.signals
  pub serial : t.serial ≡ s.serial

each-IsSame : (f : Request → Request) (is : List ℕ) (s : Server) → IsSame s (each f is s)
each-IsSame f [] s = record {
  queue = refl;
  connected = refl;
  dirty = refl;
  scheduled = refl;
  signals = refl;
  serial = refl;
}
each-IsSame f (i ∷ is) s =
    let e = each-IsSame f is (on_request f i s) in
    record {
      queue = e.queue;
      connected = e.connected;
      dirty = e.dirty;
      scheduled = e.scheduled;
      signals = e.signals;
      serial = e.serial;
    }

IsSame-trans : {s t u : Server} → IsSame s t → IsSame t u → IsSame s u
IsSame-trans e f = record {
  queue = f.queue ∙ e.queue;
  connected = f.connected ∙ e.connected;
  dirty = f.dirty ∙ e.dirty;
  scheduled = f.scheduled ∙ e.scheduled;
  signals = f.signals ∙ e.signals;
  serial = f.serial ∙ e.serial;
}

-- A scan changes the queue, and of the rest the table alone.
pub prune-IsSame :
    (limit now : ℕ) (s : Server)
    → IsSame (record s { queue = judged is_kept limit now s }) (prune limit now s)
unfolding prune
prune-IsSame limit now s =
    let scanned = record s { queue = judged is_kept limit now s } in
    let withdrawals = judged is_withdrawn limit now s in
    IsSame-trans (each-IsSame close_withdrawn withdrawals scanned) (
      each-IsSame (close_overdue s.connected) (judged is_overdue limit now s)
        (each close_withdrawn withdrawals scanned))

is_nil-keep : (test : ℕ → Bool) (is : List ℕ) → is_nil is ≡ true → is_nil (keep test is) ≡ true
is_nil-keep test [] h = refl
is_nil-keep test (i ∷ is) h = cc

schedule-IsCounted : (s : Server) → IsCounted s → IsCounted (schedule s)
unfolding schedule
schedule-IsCounted s v = ground arith

mark-IsCounted : (s : Server) → IsCounted s → IsCounted (mark_response_dirty s)
unfolding mark_response_dirty
mark-IsCounted s v = schedule-IsCounted _ (record { signalled = v.signalled })

marked-IsCounted : (n : ℕ) (s : Server) → IsCounted s → IsCounted (marked n s)
marked-IsCounted zero s v = v
marked-IsCounted (suc n) s v = marked-IsCounted n (mark_response_dirty s) (mark-IsCounted s v)

pub mark_connected : (s : Server) → (mark_response_dirty s).connected ≡ s.connected
unfolding mark_response_dirty schedule
mark_connected s = ground arith

pub marked_connected : (n : ℕ) (s : Server) → (marked n s).connected ≡ s.connected
marked_connected zero s = refl
marked_connected (suc n) s = marked_connected n (mark_response_dirty s) ∙ mark_connected s

-- A scheduled service on a connected server.
schedule-IsAwake : (s : Server) → IsCounted s → s.connected ≡ true → IsAwake (schedule s)
unfolding schedule
schedule-IsAwake s v c = ground arith

reschedule-IsAwake : (s : Server) → IsCounted s → s.connected ≡ true → IsAwake (reschedule s)
unfolding reschedule
reschedule-IsAwake s v c = ground (arith, schedule-IsAwake s v c, v.signalled)

settle-IsCounted : (n : ℕ) (s : Server) → IsCounted s → IsCounted (settle n s)
unfolding settle
settle-IsCounted n s v = ground arith

settle_connected : (n : ℕ) (s : Server) → (settle n s).connected ≡ s.connected
unfolding settle
settle_connected n s = ground arith

deliver-IsAwake :
    (marks i : ℕ) (s : Server) → IsCounted s → s.connected ≡ true → IsAwake (deliver marks i s)
unfolding deliver
deliver-IsAwake marks i s v c =
    let t = on_request (λ r. finish_request (put_reply (valid s.serial) r)) i (marked marks s) in
    reschedule-IsAwake (settle s.serial t)
      (settle-IsCounted s.serial t (record { signalled = (marked-IsCounted marks s v).signalled }))
      (settle_connected s.serial t ∙ marked_connected marks s ∙ c)

serve-IsAwake :
    (marks i : ℕ) (s : Server) → IsCounted s → s.connected ≡ true → IsAwake (serve marks i s)
unfolding serve
serve-IsAwake marks i s v c = if_both IsAwake (s.request i).done (schedule-IsAwake s v c) (
    if_both IsAwake (s.request i).cancelled
      (schedule-IsAwake (on_request finish_request i s) (record { signalled = v.signalled }) c)
      (deliver-IsAwake marks i s v c))

take_front-IsAwake :
    (ld lc : Bool) (marks : ℕ) (is : List ℕ) (s : Server)
    → IsCounted s
    → s.connected ≡ true
    → s.queue ≡ is
    → IsAwake (take_front ld lc marks is s)
unfolding take_front
take_front-IsAwake ld lc marks [] s v c e = record {
  counted = v;
  awake = λ _ _ q. ground arith;
  early = λ n. ground arith;
}
take_front-IsAwake ld lc marks (i ∷ rest) s v c e =
    serve-IsAwake marks i (on_request (late ld lc) i (record s { queue = rest }))
      (record { signalled = v.signalled }) c

respond-IsAwake :
    (ld lc : Bool) (marks : ℕ) (s : Server)
    → IsCounted s
    → (s.connected ≡ false → is_nil s.queue ≡ true)
    → IsAwake (respond ld lc marks s)
unfolding respond
respond-IsAwake ld lc marks s v early =
    if_cases IsAwake (not s.connected || not s.dirty)
      (λ quiet. record { counted = v; awake = λ c d q. ground arith; early = early })
      (λ busy. take_front-IsAwake ld lc marks s.queue s v (ground arith) refl)

service-IsAwake :
    (ld lc : Bool) (marks now : ℕ) (s : Server)
    → s.signals ≡ 0
    → (s.connected ≡ false → is_nil s.queue ≡ true)
    → IsAwake (service ld lc marks now s)
unfolding service judged
service-IsAwake ld lc marks now s z early =
    let e = prune-IsSame 0 now (record s { scheduled = false }) in
    respond-IsAwake ld lc marks (prune 0 now (record s { scheduled = false }))
      (record { signalled = ground (arith, e.signals, e.scheduled) })
      (λ c. ap is_nil e.queue ∙ is_nil-keep _ s.queue (early (sym e.connected ∙ c)))

apart : true ≡ false → ⊥
apart e = cc

prune-IsAwake : (limit now : ℕ) (s : Server) → IsAwake s → IsAwake (prune limit now s)
unfolding judged
prune-IsAwake limit now s v =
    let e = prune-IsSame limit now s in
    record {
      counted = record { signalled = ground (arith, e.signals, e.scheduled, v.counted.signalled) };
      awake = λ c d q.
          e.scheduled
          ∙ v.awake (sym e.connected ∙ c) (sym e.dirty ∙ d)
              (some_left (sym (ap is_nil e.queue) ∙ q));
      early = λ c. ap is_nil e.queue ∙ is_nil-keep _ s.queue (v.early (sym e.connected ∙ c));
    }
  where
    some_left : is_nil (judged is_kept limit now s) ≡ false → is_nil s.queue ≡ false
    some_left q = elim (Bool-cases (is_nil s.queue)) [
      | inl e ↦ absurd (apart (sym (is_nil-keep _ s.queue e) ∙ q))
      | inr e ↦ e
    ]

enqueue-IsAwake : (i : ℕ) (s : Server) → IsAwake s → IsAwake (enqueue i s)
unfolding enqueue
enqueue-IsAwake i s v =
    if_cases IsAwake (not s.connected)
      (λ c. record {
        counted = record { signalled = v.counted.signalled };
        awake = v.awake;
        early = v.early;
      })
      (λ c.
        schedule-IsAwake (record s { queue = s.queue ++ i ∷ [] })
          (record { signalled = v.counted.signalled }) (ground arith))

-- Before the image is connected the queue is empty.
connected : (s : Server) → IsAwake s → s.dirty ≡ true → is_nil s.queue ≡ false → s.scheduled ≡ true
connected s v d q = elim (Bool-cases s.connected) [
  | inl c ↦ v.awake c d q
  | inr c ↦ absurd (apart (sym (v.early c) ∙ q))
]

Step-IsAwake : {s t : Server} → Step s t → IsAwake s → IsAwake t
unfolding mark_response_dirty
Step-IsAwake (asked s i) v = enqueue-IsAwake i s v
Step-IsAwake (scanned s limit now) v = prune-IsAwake limit now s v
Step-IsAwake (served s ld lc marks now h) v =
    service-IsAwake ld lc marks now (record s { signals = s.signals - 1 })
      (ground (arith, v.counted.signalled)) v.early
Step-IsAwake (marked_dirty s) v = ground (arith, v.counted.signalled)
Step-IsAwake (image_connected s) v = record {
  counted = record { signalled = v.counted.signalled };
  awake = λ c d q. connected s v d q;
  early = λ c. cc;
}
Step-IsAwake (flagged s d c i) v = record {
  counted = record { signalled = v.counted.signalled };
  awake = v.awake;
  early = v.early;
}

-- Starting from a state that satisfies this, after any steps of the server and of gRPC at most one
-- service is on its way, and there is one whenever the image is connected, the response is dirty and
-- a request is in the queue. Before the image is connected the queue is empty.
pub Steps-IsAwake : {s t : Server} → Steps s t → IsAwake s → IsAwake t
Steps-IsAwake here v = v
Steps-IsAwake (next r st) v = Step-IsAwake st (Steps-IsAwake r v)
