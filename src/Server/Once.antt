-- ===== src/Server/Once.antt =====
-- The reactor of a request is finished at most once, however the calls and the callbacks interleave.
use rtimv.Common.{ℕ, ◌-◌, ◌<◌, ◌≡◌, Bool, true, ◌&&◌, arith, if◌then◌else◌}
use rtimv.Server.{
  Server, Request, finish_request, on_request, mark_response_dirty, enqueue, prune, service, late,
}
use rtimv.Server.Requests.{
  IsKept, Everywhere, enqueue-Everywhere, prune-Everywhere, service-Everywhere,
  on_request-Everywhere, mark-Everywhere,
}

-- `Finish` was called once if the request is finished and has a reactor, and never otherwise.
pub record IsOnce (r : Request) : Type 0 where
  pub counted : r.finishes ≡ (if r.finished && r.has_reactor then 1 else 0)

IsOnce-kept : IsKept (λ _. IsOnce)
unfolding finish_request
IsOnce-kept = record {
  by_finish = λ _ r v. ground arith;
  by_reply = λ _ p r v. record { counted = v.counted };
  by_flags = λ _ d c r v. record { counted = v.counted };
}

-- A new request of gRPC, a scan of the queue with its time limit, a service that handles a signal, a
-- change of the picture, the first picture, and gRPC cancelling or completing a request.
pub data Step : Server → Server → Type 0 where
  asked : (s : Server) (i : ℕ) → Step s (enqueue i s)
  scanned : (s : Server) (limit now : ℕ) → Step s (prune limit now s)
  served :
      (s : Server) (late_done late_cancelled : Bool) (marks now : ℕ)
      → 0 < s.signals
      → Step s (service late_done late_cancelled marks now (record s { signals = s.signals - 1 }))
  marked_dirty : (s : Server) → Step s (mark_response_dirty s)
  image_connected : (s : Server) → Step s (record s { connected = true })
  flagged :
      (s : Server) (done cancelled : Bool) (i : ℕ) → Step s (on_request (late done cancelled) i s)

pub data Steps (s : Server) : Server → Type 0 where
  here : Steps s s
  next : {t u : Server} → Steps s t → Step t u → Steps s u

-- A property that the changes of a request keep is kept by every step.
pub Step-Everywhere :
    (P : ℕ → Request → Type 0)
    → IsKept P
    → {s t : Server} → Step s t
    → Everywhere P s
    → Everywhere P t
Step-Everywhere P k (asked s i) v = enqueue-Everywhere P k i s v
Step-Everywhere P k (scanned s limit now) v = prune-Everywhere P k limit now s v
Step-Everywhere P k (served s ld lc marks now h) v =
    service-Everywhere P k ld lc marks now (record s { signals = s.signals - 1 })
      (record { of = v.of })
Step-Everywhere P k (marked_dirty s) v = mark-Everywhere P s v
Step-Everywhere P k (image_connected s) v = record { of = v.of }
Step-Everywhere P k (flagged s d c i) v =
    on_request-Everywhere P (late d c) i s (k.by_flags i d c) v

-- Starting from a table of requests that satisfies this, after any steps of the server and of gRPC
-- `Finish` has been called once for each finished request that has a reactor, and never for another.
pub Steps-IsOnce :
    {s t : Server} → Steps s t → Everywhere (λ _. IsOnce) s → Everywhere (λ _. IsOnce) t
Steps-IsOnce here v = v
Steps-IsOnce (next r st) v = Step-Everywhere (λ _. IsOnce) IsOnce-kept st (Steps-IsOnce r v)
