-- ===== src/Server.antt =====
-- The queue of image requests of one client: server/rtimvServerThread.cpp. Requests are named by
-- numbers into a table that the queue and the callbacks of gRPC share. The pictures themselves and
-- the statistics of a reply are left out: a reply is its status and its serial.
pub mod Requests
pub mod Once
pub mod Wakeup
pub mod Delivery
pub mod Lossless
pub mod Front
pub mod Answers
mod Tests
use rtimv.Common.{
  ℕ, zero, suc, ◌+◌, ◌-◌, ◌%◌, Option, none, some, Bool, true, false, not, ◌&&◌, ◌||◌, List, [],
  ◌∷◌, ◌++◌, ltb, ◌==◌, if◌then◌else◌, is_null, u64,
}

pub data Reply : Type 0 where
  no_image timeout : Reply
  valid : ℕ → Reply

pub record Request : Type 0 where
  pub has_reactor : Bool
  pub has_reply : Bool
  pub enqueue_time : ℕ
  pub cancelled : Bool
  pub done : Bool
  pub finished : Bool
  pub finishes : ℕ  -- the calls of the reactor's `Finish`
  pub reply : Option Reply

pub record Server : Type 0 where
  pub queue : List ℕ
  pub request : ℕ → Request
  pub connected : Bool
  pub dirty : Bool
  pub serial : ℕ  -- uint64_t
  pub scheduled : Bool
  pub signals : ℕ  -- `servicePending` emitted and not yet handled

abbrev pub alter : (ℕ → Request) → ℕ → Request → ℕ → Request
alter f i r j = if i == j then r else f j

-- `pendingImageRequest::finish`
unfoldable pub finish_request : Request → Request
finish_request r =
    if r.finished
    then r
    else if r.has_reactor
    then record r { finished = true; finishes = r.finishes + 1 }
    else record r { finished = true }

abbrev pub put_reply : Reply → Request → Request
put_reply p r = record r { reply = if r.has_reply then some p else r.reply }

abbrev pub on_request : (Request → Request) → ℕ → Server → Server
on_request f i s = record s { request = alter s.request i (f (s.request i)) }

unfoldable pub schedule : Server → Server
schedule s = if s.scheduled then s else record s { scheduled = true; signals = s.signals + 1 }

unfoldable pub mark_response_dirty : Server → Server
unfolding schedule
mark_response_dirty s = schedule (record s { serial = u64 (s.serial + 1); dirty = true })

-- A request that comes before the image is answered at once.
unfoldable pub enqueue : ℕ → Server → Server
unfolding finish_request schedule
enqueue i s =
    if not s.connected
    then on_request
        (λ r.
          (let answered = put_reply no_image r in
            if r.has_reactor then finish_request answered else answered))
        i s
    else schedule (record s { queue = s.queue ++ i ∷ [] })

-- What the scan of the queue decides of a request.
pub data Verdict : Type 0 where
  dropped withdrawn overdue kept : Verdict

unfoldable pub verdict : ℕ → ℕ → Request → Verdict
verdict limit now r =
    if r.done
    then dropped
    else if r.cancelled
    then withdrawn
    else if ltb 0 limit && ltb (r.enqueue_time + limit) now
    then overdue
    else kept

abbrev pub is_overdue : Verdict → Bool
is_overdue overdue = true
is_overdue _ = false

abbrev pub is_withdrawn : Verdict → Bool
is_withdrawn withdrawn = true
is_withdrawn _ = false

abbrev pub is_kept : Verdict → Bool
is_kept kept = true
is_kept _ = false

-- The requests of a queue that pass a test, in order.
abbrev pub keep : (ℕ → Bool) → List ℕ → List ℕ
keep test [] = []
keep test (i ∷ is) = if test i then i ∷ keep test is else keep test is

-- The two loops after the scan.
pub close_withdrawn : Request → Request
unfolding finish_request
close_withdrawn r = if r.done then r else finish_request r

pub close_overdue : Bool → Request → Request
unfolding finish_request
close_overdue connected r =
    if not r.has_reply || r.done
    then r
    else finish_request (put_reply (if connected then timeout else no_image) r)

abbrev pub each : (Request → Request) → List ℕ → Server → Server
each f [] s = s
each f (i ∷ is) s = each f is (on_request f i s)

-- The requests of the queue with one verdict.
pub judged : (Verdict → Bool) → ℕ → ℕ → Server → List ℕ
unfolding verdict
judged test limit now s = keep (λ i. test (verdict limit now (s.request i))) s.queue

-- `limit` and `now` count the same unit of time; a limit of 0 is none.
unfoldable pub prune : ℕ → ℕ → Server → Server
unfolding judged
prune limit now s = each (close_overdue s.connected) (judged is_overdue limit now s) (
    each close_withdrawn (judged is_withdrawn limit now s)
      (record s { queue = judged is_kept limit now s }))

-- What other threads do while a picture is rendered: `marks` calls of `markResponseDirty`.
abbrev pub marked : ℕ → Server → Server
marked zero s = s
marked (suc n) s = marked n (mark_response_dirty s)

abbrev pub is_nil : List ℕ → Bool
is_nil [] = true
is_nil (i ∷ is) = false

-- After a delivery: the response is clean unless it was marked again since `serial`.
pub settle : ℕ → Server → Server
settle serial s = if s.serial == serial then record s { dirty = false } else s

pub reschedule : Server → Server
unfolding schedule
reschedule s = if s.dirty && not (is_nil s.queue) then schedule s else s

-- A picture is rendered for request `i`, and the request is finished with it.
pub deliver : ℕ → ℕ → Server → Server
unfolding finish_request settle reschedule mark_response_dirty
deliver marks i s = reschedule (
    settle s.serial
      (on_request (λ r. finish_request (put_reply (valid s.serial) r)) i (marked marks s)))

-- `late_done` and `late_cancelled`: gRPC completed or cancelled the request after the scan.
abbrev pub late : Bool → Bool → Request → Request
late late_done late_cancelled r = record r {
  done = r.done || late_done;
  cancelled = r.cancelled || late_cancelled;
}

-- The request that was taken from the queue is served, unless it is done or cancelled by now.
pub serve : ℕ → ℕ → Server → Server
unfolding deliver
serve marks i s =
    if (s.request i).done
    then schedule s
    else if (s.request i).cancelled
    then schedule (on_request finish_request i s)
    else deliver marks i s

pub take_front : Bool → Bool → ℕ → List ℕ → Server → Server
unfolding serve
take_front late_done late_cancelled marks [] s = s
take_front late_done late_cancelled marks (i ∷ rest) s =
    serve marks i (on_request (late late_done late_cancelled) i (record s { queue = rest }))

-- After the scan, if there is something new to show.
pub respond : Bool → Bool → ℕ → Server → Server
unfolding take_front
respond late_done late_cancelled marks s =
    if not s.connected || not s.dirty
    then s
    else take_front late_done late_cancelled marks s.queue s

unfoldable pub service : Bool → Bool → ℕ → ℕ → Server → Server
unfolding respond prune
service late_done late_cancelled marks now s =
    respond late_done late_cancelled marks (prune 0 now (record s { scheduled = false }))
