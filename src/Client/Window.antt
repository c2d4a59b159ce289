-- ===== src/Client/Window.antt =====
-- The window of image requests of the client: ImagePlease, ImagePlease_callback, the choice of the
-- newest reply in ImageReceived and imageRequestWindow of server/rtimvClientBase.cpp.
use rtimv.Common.{
  ℕ, zero, suc, ◌+◌, ◌-◌, ◌*◌, Option, none, some, Bool, true, false, not, ◌&&◌, ◌||◌, List, [],
  ◌∷◌, ◌++◌, ◌==◌, if◌then◌else◌, ltb, leb, min, u64,
}
use rtimv.Common.Int.{ℤ, pos, negsuc}
use rtimv.Client.{
  Client, Images, ImageRequest, Status, ok, deadline_exceeded, Effect, emit, calls_image_please,
  queues_global_stats_unavailable, queues_image_please, emits_image_needed, emits_image_waiting,
}
use rtimv.Client.Connection.{drop_connection, is_transport_error}

abbrev pub min_window : ℕ
min_window = 1

abbrev pub max_window : ℕ
max_window = 128

-- What the server answers; a picture has its serial.
pub data ImageReply : Type 0 where
  image_valid : ℕ → ImageReply
  image_no_image image_timeout image_not_configured image_error : ImageReply

-- The requests in flight of one connection.
abbrev pub count_of : ℕ → List ImageRequest → ℕ
count_of generation [] = 0
count_of generation (r ∷ rs) =
    if r.generation == generation then suc (count_of generation rs) else count_of generation rs

abbrev pub holds_id : ℕ → List ImageRequest → Bool
holds_id id [] = false
holds_id id (r ∷ rs) = r.id == id || holds_id id rs

-- `emplace` does nothing where the id is in use.
abbrev pub emplace : ImageRequest → List ImageRequest → List ImageRequest
emplace r rs = if holds_id r.id rs then rs else r ∷ rs

abbrev pub erase : ℕ → List ImageRequest → List ImageRequest
erase id [] = []
erase id (r ∷ rs) = if r.id == id then rs else r ∷ erase id rs

-- One turn of the loop of `ImagePlease`.
unfoldable pub request_one : ℕ → Images → Images
request_one generation i = record i {
  next_id = u64 (i.next_id + 1);
  inflight = emplace (record { id = i.next_id; generation = generation }) i.inflight;
}

abbrev pub window_of : Images → ℕ
window_of i = if i.primed then i.target_window else 1

-- `n` turns.
abbrev pub request_all : ℕ → ℕ → Images → Images
request_all zero generation i = i
request_all (suc n) generation i = request_all n generation (request_one generation i)

-- The calls follow after the lock, in the same order.
abbrev pub call_all : ℕ → ℕ → Images → List Effect → List Effect
call_all zero generation i es = es
call_all (suc n) generation i es =
    call_all n generation (request_one generation i) (calls_image_please i.next_id ∷ es)

abbrev pub missing_requests : ℕ → Images → ℕ
missing_requests generation i = window_of i - count_of generation i.inflight

module _ {F : Type 0} where
  -- `ImagePlease`; it returns without a connection, by SHARED_CONN_LOCK.
  unfoldable pub image_please : Client F → Client F
  image_please c =
      if not c.link.connected
      then c
      else if c.shutting_down
      then c
      else (let n = missing_requests c.link.connections c.images in
          record c {
            images = request_all n c.link.connections c.images;
            effects = call_all n c.link.connections c.images c.effects;
          })

-- The `action` of the callback: -1, 0, 1 with its delay, and 2 or 3.
pub data Action : Type 0 where
  nothing shows again : Action
  retries : ℕ → Action

-- max( 1000, b ) * 2, at most 5000
abbrev pub next_backoff : ℕ → ℕ
next_backoff b = min 5000 ((if leb b 1000 then 1000 else b) * 2)

unfoldable pub judge_reply : ImageReply → Images → Images × Action
judge_reply (image_valid serial) i =
    (record i { retry_backoff = 500; primed = true; replies = i.replies ++ serial ∷ [] }, shows)
judge_reply image_no_image i = (
  record i { primed = false; retry_backoff = next_backoff i.retry_backoff },
  retries (next_backoff i.retry_backoff),
)
judge_reply image_timeout i = (i, again)
judge_reply image_not_configured i = (i, nothing)
judge_reply image_error i = (i, nothing)

-- A callback of an earlier connection changes nothing here.
unfoldable pub judge : Bool → Status → ImageReply → Images → Images × Action
unfolding judge_reply
judge is_stale status reply i = if is_stale then (i, nothing) else elim status [
  | ok ↦ judge_reply reply i
  | deadline_exceeded ↦ (i, again)
  | _ ↦ (i, nothing)
]

-- `newestReplyIt`: a later reply wins against an earlier one with the same serial.
abbrev pub newest : ℕ → List ℕ → ℕ
newest best [] = best
newest best (s ∷ ss) = newest (if leb best s then s else best) ss

-- The newest of the replies, if it is newer than what was shown.
unfoldable pub choose_from : ℕ → List ℕ → Option ℕ
choose_from applied [] = none
choose_from applied (s ∷ ss) = if ltb applied (newest s ss) then some (newest s ss) else none

-- The start of `ImageReceived`: the serial that is shown, if any is.
unfoldable pub choose_reply : Images → Option ℕ
unfolding choose_from
choose_reply i = choose_from i.applied i.replies

unfoldable pub take_reply : Images → Images
unfolding choose_reply
take_reply i = record i {
  replies = [];
  applied = elim (choose_reply i) [ none ↦ i.applied | some s ↦ s ];
}

abbrev pub clamp_window : ℤ → ℕ
clamp_window (negsuc n) = min_window
clamp_window (pos n) =
    if ltb n min_window then min_window else if ltb max_window n then max_window else n

module _ {F : Type 0} where
  unfoldable pub follow : ℕ → Action → Client F → Client F
  follow generation nothing c = c
  follow generation shows c = emit emits_image_waiting c
  follow generation again c = emit emits_image_needed c
  follow generation (retries ms) c =
      emit (queues_image_please (if ltb 0 ms then ms else 1000))
        (emit (queues_global_stats_unavailable generation) c)

  -- `ImagePlease_callback` of the request `id`, which was made on the connection `generation`.
  unfoldable pub image_callback : ℕ → ℕ → Status → ImageReply → Client F → Client F
  unfolding judge drop_connection follow
  image_callback id generation status reply c =
      if not (holds_id id c.images.inflight)
      then c
      else (let current = c.link.connections in
          let is_stale = not (generation == current) in
          let judged = judge is_stale status reply c.images in
          let erased = record c {
            images = record (judged.0) { inflight = erase id judged.0.inflight };
          } in
          let dropped =
            if is_transport_error status && not is_stale
            then drop_connection current erased
            else erased in
          if c.shutting_down then dropped else follow current judged.1 dropped)

  -- `imageRequestWindow( int )`
  unfoldable pub image_request_window : ℤ → Client F → Client F
  image_request_window window c =
      (let set = record c { images = record (c.images) { target_window = clamp_window window } } in
        if not c.shutting_down && ltb c.images.target_window (clamp_window window)
        then emit emits_image_needed set
        else set)
