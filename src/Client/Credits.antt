-- ===== src/Client/Credits.antt =====
-- The window of image requests of server/rtimvClientBase.cpp keeps its bounds: lemmas on the requests in
-- flight, and what ImagePlease and its callback do to them.
pub mod Bounds
pub mod Kept
pub mod Steps
use rtimv.Common.{
  ℕ, zero, suc, ◌+◌, ◌-◌, ◌%◌, ◌≤◌, ◌<◌, ◌≡◌, refl, Bool, true, false, not, ◌&&◌, ◌||◌, List, [],
  ◌∷◌, ◌==◌, if◌then◌else◌, leb, min, arith, All, u64, if_cases, ◌∙◌,
}
use rtimv.Client.{Images, ImageRequest, Status, ok, deadline_exceeded}
use rtimv.Client.Window.{
  count_of, holds_id, emplace, erase, request_one, request_all, next_backoff, judge, judge_reply,
  ImageReply, image_valid, image_no_image, image_timeout, image_not_configured, image_error,
}

-- The ids in use are given out already, on a connection that is not later.
abbrev pub IsKnown : ℕ → ℕ → ImageRequest → Type 0
IsKnown next_id n r = (r.id < next_id) × (r.generation ≤ n)

abbrev pub Unique : List ImageRequest → Type 0
Unique [] = Unit
Unique (r ∷ rs) = (holds_id r.id rs ≡ false) × Unique rs

pub record IsBounded (n : ℕ) (i : Images) : Type 0 where
  pub window_low : 1 ≤ i.target_window
  pub window_high : i.target_window ≤ 128
  pub backoff_low : 500 ≤ i.retry_backoff
  pub backoff_high : i.retry_backoff ≤ 5000
  pub known : All (IsKnown i.next_id n) i.inflight
  pub unique : Unique i.inflight
  pub credits : count_of n i.inflight ≤ 128

pub fresh_id : (m n : ℕ) (rs : List ImageRequest) → All (IsKnown m n) rs → holds_id m rs ≡ false
fresh_id m n [] v = refl
fresh_id m n (r ∷ rs) v = ground (arith, fresh_id m n rs v.1)

pub IsKnown-later :
    (m m' n n' : ℕ) (rs : List ImageRequest)
    → m ≤ m'
    → n ≤ n'
    → All (IsKnown m n) rs
    → All (IsKnown m' n') rs
IsKnown-later m m' n n' [] h k v = tt
IsKnown-later m m' n n' (r ∷ rs) h k v =
    ((omega arith, omega arith), IsKnown-later m m' n n' rs h k v.1)

-- A new connection has no request yet.
pub count_above :
    (m n k : ℕ) (rs : List ImageRequest) → n < k → All (IsKnown m n) rs → count_of k rs ≡ 0
count_above m n k [] h v = refl
count_above m n k (r ∷ rs) h v = ground (arith, count_above m n k rs h v.1)

pub erase-IsKnown :
    (id m n : ℕ) (rs : List ImageRequest) → All (IsKnown m n) rs → All (IsKnown m n) (erase id rs)
erase-IsKnown id m n [] v = tt
erase-IsKnown id m n (r ∷ rs) v =
    if_cases (All (IsKnown m n)) (r.id == id) (λ _. v.1) (λ _. (v.0, erase-IsKnown id m n rs v.1))

holds-erase :
    (i id : ℕ) (rs : List ImageRequest) → holds_id i rs ≡ false → holds_id i (erase id rs) ≡ false
holds-erase i id [] h = refl
holds-erase i id (r ∷ rs) h = ground (arith, holds-erase i id rs)

pub erase-Unique : (id : ℕ) (rs : List ImageRequest) → Unique rs → Unique (erase id rs)
erase-Unique id [] v = tt
erase-Unique id (r ∷ rs) v =
    if_cases Unique (r.id == id) (λ _. v.1)
      (λ _. (holds-erase r.id id rs v.0, erase-Unique id rs v.1))

pub count-erase : (n id : ℕ) (rs : List ImageRequest) → count_of n (erase id rs) ≤ count_of n rs
count-erase n id [] = omega arith
count-erase n id (r ∷ rs) = ground (arith, count-erase n id rs)

-- One new request.
pub request_one-inflight :
    (m n : ℕ) (i : Images)
    → All (IsKnown i.next_id n) i.inflight
    → (request_one n i).inflight ≡ record { id = i.next_id; generation = n } ∷ i.inflight
unfolding request_one
request_one-inflight m n i v = rw (fresh_id i.next_id n i.inflight v) refl
