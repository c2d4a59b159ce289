-- ===== src/Registry.antt =====
-- The clients of the server: the table of threads of server/rtimvServer.cpp, with the preparation of a
-- remote call, the configuration of a client and the loop that puts clients to sleep and removes
-- them. Peers and threads are numbers; times and limits count one unit of time.
pub mod Threads
pub mod Removal
pub mod Calls
pub mod Eviction
pub mod Scans
pub mod Sweeps
mod Tests
use rtimv.Common.{
  ℕ, ◌+◌, Option, none, some, Bool, true, false, not, ◌&&◌, ◌||◌, List, [], ◌∷◌, ◌++◌, ◌==◌,
  if◌then◌else◌, ltb, is_null, u32,
}

pub data Configured : Type 0 where
  unconfigured configured failed : Configured

-- What the thread of Qt still has to do.
pub data Slot : Type 0 where
  sleep wakeup : Slot

pub record Thread : Type 0 where
  pub last_request : ℕ
  pub asleep : Bool
  pub active_rpc : ℕ  -- uint32_t
  pub pending : ℕ  -- the length of the queue of image requests
  pub configured : Configured
  pub slots : List Slot  -- queued, oldest first
  pub deleted : Bool

pub record Entry : Type 0 where
  pub peer : ℕ
  pub thread : Option ℕ  -- a null pointer is `none`

-- The client that the loop is about to remove, when it has given up the shared lock.
pub record Victim : Type 0 where
  pub peer : ℕ
  pub without_thread : Bool

pub record Registry : Type 0 where
  pub clients : List Entry
  pub thread : ℕ → Thread
  pub next : ℕ  -- the thread that is allocated next
  pub victim : Option Victim

pub record Limits : Type 0 where
  pub client_sleep : ℕ
  pub client_disconnect : ℕ

abbrev pub find : ℕ → List Entry → Option Entry
find p [] = none
find p (e ∷ es) = if e.peer == p then some e else find p es

abbrev pub erase : ℕ → List Entry → List Entry
erase p [] = []
erase p (e ∷ es) = if e.peer == p then es else e ∷ erase p es

abbrev pub on_thread : (Thread → Thread) → ℕ → Registry → Registry
on_thread f i r = record r { thread = λ j. if i == j then f (r.thread i) else r.thread j }

-- `rpcEnd`
unfoldable pub rpc_end : Thread → Thread
rpc_end t = record t { active_rpc = u32 (t.active_rpc + 4294967295) }

-- `lastRequest( -1 )`, `emit_awaken` and `rpcBegin`
unfoldable pub rpc_begin : ℕ → Thread → Thread
rpc_begin now t = record t {
  last_request = now;
  slots = if t.asleep then t.slots ++ wakeup ∷ [] else t.slots;
  active_rpc = u32 (t.active_rpc + 1);
}

-- The status that a call ends with at once, or the thread that it goes on with.
pub data Prepared : Type 0 where
  not_configured reconnect : Prepared
  begun : ℕ → Prepared

-- With the thread that is found; a null pointer asks the client to reconnect.
abbrev pub prepare_on : ℕ → Registry → Option ℕ → Registry × Prepared
prepare_on now r none = (r, reconnect)
prepare_on now r (some i) = (on_thread (rpc_begin now) i r, begun i)

-- PREPARE_RPC_REACTOR
unfoldable pub prepare : ℕ → ℕ → Registry → Registry × Prepared
unfolding rpc_begin
prepare now p r = elim (find p r.clients) [
  | none ↦ (r, not_configured)
  | some e ↦ prepare_on now r e.thread
]

abbrev pub new_thread : ℕ → Thread
new_thread now = record {
  last_request = now;
  asleep = false;
  active_rpc = 0;
  pending = 0;
  configured = unconfigured;
  slots = [];
  deleted = false;
}

-- The first part of `doConfigure`: a peer that is there already is left alone.
unfoldable pub insert_client : ℕ → ℕ → Registry → Registry
insert_client now p r =
    if is_null (find p r.clients)
    then record r {
      clients = record { peer = p; thread = some r.next } ∷ r.clients;
      thread = λ j. if r.next == j then new_thread now else r.thread j;
      next = r.next + 1;
    }
    else r

abbrev pub conclude : Bool → ℕ → Thread → Thread
conclude succeeds now t =
    if succeeds
    then record t { configured = configured; last_request = now }
    else record t { configured = failed }

-- The second part, under a new lock; `succeeds` tells whether `setup` returns.
unfoldable pub configure_client : Bool → ℕ → ℕ → Registry → Registry
configure_client succeeds now p r = elim (find p r.clients) [
  | none ↦ r
  | some e ↦ elim e.thread [ none ↦ r | some i ↦ on_thread (conclude succeeds now) i r ]
]

-- The slots `sleep` and `wakeup`, oldest first.
unfoldable pub run_slot : Thread → Thread
run_slot t = elim t.slots [
  | [] ↦ t
  | sleep ∷ ss ↦ record t { asleep = true; slots = ss }
  | wakeup ∷ ss ↦ record t { asleep = false; slots = ss }
]

abbrev pub is_expired : Limits → ℕ → Thread → Bool
is_expired l now t = ltb (t.last_request + l.client_disconnect) now

abbrev pub is_busy : Thread → Bool
is_busy t = ltb 0 t.active_rpc || ltb 0 t.pending

abbrev pub is_drowsy : Limits → ℕ → Thread → Bool
is_drowsy l now t = ltb (t.last_request + l.client_sleep) now && t.pending == 0 && not t.asleep

-- What the loop does to a thread that it keeps.
unfoldable pub doze : Limits → ℕ → Thread → Thread
doze l now t =
    if not (is_expired l now t) && is_drowsy l now t
    then record t { slots = t.slots ++ sleep ∷ [] }
    else t

abbrev pub set_pending : ℕ → Thread → Thread
set_pending n t = record t { pending = n }

-- One pass over the clients under the shared lock. `pruned` is what `prunePendingImageRequests` leaves of
-- each queue. The pass ends at the first client that is to be removed.
unfoldable pub scan : Limits → ℕ → (ℕ → ℕ) → List Entry → Registry → Registry
unfolding doze
scan l now pruned [] r = r
scan l now pruned (e ∷ es) r =
    (let go_on = scan l now pruned es in
      elim e.thread [
        | none ↦ record r { victim = some (record { peer = e.peer; without_thread = true }) }
        | some i ↦
            let kept = on_thread (set_pending (pruned i)) i r in
            if is_expired l now (kept.thread i) && not (is_busy (kept.thread i))
            then record kept { victim = some (record { peer = e.peer; without_thread = false }) }
            else go_on (on_thread (doze l now) i kept)
      ])

abbrev pub sweep : Limits → ℕ → (ℕ → ℕ) → Registry → Registry
sweep l now pruned r = scan l now pruned r.clients r

abbrev pub delete_thread : Option ℕ → Registry → Registry
delete_thread none r = r
delete_thread (some i) r = on_thread (λ t. record t { deleted = true }) i r

abbrev pub thread_of : Option Entry → Option ℕ
thread_of none = none
thread_of (some e) = e.thread

-- The removal, under the exclusive lock, and the end of the thread.
unfoldable pub evict : Registry → Registry
evict r = elim r.victim [
  | none ↦ r
  | some v ↦
      let removed = record r { clients = erase v.peer r.clients; victim = none } in
      if v.without_thread
      then removed
      else delete_thread (thread_of (find v.peer r.clients)) removed
]
