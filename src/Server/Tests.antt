-- ===== src/Server/Tests.antt =====
-- The theorems on the queue of server/rtimvServerThread.cpp at one server with three requests.
use rtimv.Common.{◌-◌, some, ◌≡◌, ◌<◌, inl, refl, none, true, false, [], ◌∷◌, arith}
use rtimv.Server.{
  Server, Request, timeout, schedule, enqueue, service, mark_response_dirty, prune, on_request,
  late,
}
use rtimv.Server.Requests.{Everywhere}
use rtimv.Server.Once.{
  IsOnce, Steps, here, next, asked, scanned, served, marked_dirty, Steps-IsOnce,
}
use rtimv.Server.Wakeup.{IsAwake, Steps-IsAwake}
use rtimv.Server.Delivery.{IsAccounted}
use rtimv.Server.Lossless.{Steps-IsAccounted}
use rtimv.Server.Answers.{IsAnswered, service-IsAnswered}

abbrev waiting : Request
waiting = record {
  has_reactor = true;
  has_reply = true;
  enqueue_time = 5;
  cancelled = false;
  done = false;
  finished = false;
  finishes = 0;
  reply = none;
}

abbrev idle : Server
idle = record {
  queue = [];
  request = λ _. waiting;
  connected = true;
  dirty = false;
  serial = 1;
  scheduled = false;
  signals = 0;
}

-- Two requests, a change of the picture, one cancelled, and a service.
abbrev asked_twice : Server
asked_twice = mark_response_dirty (enqueue 2 (enqueue 1 idle))

abbrev ends : Server
ends = service false false 1 9 (record asked_twice { signals = asked_twice.signals - 1 })

signalled : 0 < asked_twice.signals
unfolding mark_response_dirty enqueue schedule
signalled = ground arith

run : Steps idle ends
run =
    next
      (next (next (next here (asked idle 1)) (asked (enqueue 1 idle) 2))
        (marked_dirty (enqueue 2 (enqueue 1 idle))))
      (served asked_twice false false 1 9 signalled)

Steps-IsOnce_example : Everywhere (λ _. IsOnce) ends
Steps-IsOnce_example = Steps-IsOnce run (record { of = λ i. record { counted = refl } })

Steps-IsAwake_example : IsAwake ends
Steps-IsAwake_example =
    Steps-IsAwake run
      (record { counted = record { signalled = refl }; awake = λ c d q. cc; early = λ c. refl })

in_queue : IsAccounted 1 (enqueue 1 idle)
unfolding enqueue schedule
in_queue = inl refl

rest_of_run : Steps (enqueue 1 idle) (prune 3 9 (enqueue 2 (enqueue 1 idle)))
rest_of_run = next (next here (asked (enqueue 1 idle) 2)) (scanned (enqueue 2 (enqueue 1 idle)) 3 9)

has_place : ((enqueue 1 idle).request 1).has_reply ≡ true
unfolding enqueue schedule
has_place = refl

Steps-IsAccounted_example : IsAccounted 1 (prune 3 9 (enqueue 2 (enqueue 1 idle)))
Steps-IsAccounted_example = Steps-IsAccounted 1 rest_of_run has_place in_queue

abbrev two_wait : Server
two_wait = record idle { queue = 2 ∷ 1 ∷ []; dirty = true; serial = 4 }

service-IsAnswered_example : IsAnswered 4 1 2 (service false false 1 9 two_wait)
service-IsAnswered_example =
    service-IsAnswered 1 9 2 (1 ∷ []) two_wait refl
      (record { connected = refl; dirty = refl; serial = omega arith })
      (record { live = refl; has_reply = refl; unfinished = refl }) (omega arith)

-- The scan with a limit of 3 times the request of time 5 out at time 9.
times_out : ((prune 3 9 two_wait).request 1).reply ≡ some timeout
unfolding prune rtimv.Server.close_overdue
times_out = refl
