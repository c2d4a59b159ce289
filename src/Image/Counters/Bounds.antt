-- ===== src/Image/Counters/Bounds.antt =====
-- The counters stay bounded, so that no `int` overflows.
use rtimv.Common.{ℕ, ◌+◌, ◌/◌, ◌≡◌, ◌≤◌, ◌<◌, Option, none, some, arith, subst}
use native.Mathlib.Nat.{div-lt_iff_lt-mul}
use rtimv.Image.Counters.{Counters, missing, fresh, stale}

-- An update without an image, with a new one, or with one that was shown.
pub data Tick (t : ℕ) : Counters → Counters → Type 0 where
  missed : (c d : Counters) (code : ℕ) → missing t c ≡ some (d, code) → Tick t c d
  renewed : (c d : Counters) (code : ℕ) → fresh t c ≡ some (d, code) → Tick t c d
  aged : (c d : Counters) (code : ℕ) → stale t c ≡ some (d, code) → Tick t c d

pub data Ticks (t : ℕ) (c : Counters) : Counters → Type 0 where
  here : Ticks t c c
  next : {d e : Counters} → Ticks t c d → Tick t d e → Ticks t c e

pub record IsBounded (t : ℕ) (c : Counters) : Type 0 where
  pub age : c.age ≤ 1000 / t + 1
  pub fps : c.fps ≤ 1000 / t + 1 + c.age

abbrev Ends : (Counters → Type 0) → Option (Counters × ℕ) → Type 0
Ends P none = Unit
Ends P (some (c, code)) = P c

quarter : (t : ℕ) → 0 < t → 250 / t ≤ 1000 / t
quarter t h = omega (
  arith,
  (div-lt_iff_lt-mul {x = 250} {y = 1000 / t + 1} h).1
      (omega (arith, (div-lt_iff_lt-mul {x = 1000} {y = 1000 / t + 1} h).0 (omega arith))),
)

missing-IsBounded : (t : ℕ) (c : Counters) → IsBounded t c → Ends (IsBounded t) (missing t c)
unfolding missing
missing-IsBounded t c v = ground arith

fresh-IsBounded : (t : ℕ) (c : Counters) → IsBounded t c → Ends (IsBounded t) (fresh t c)
unfolding fresh
fresh-IsBounded t c v = ground arith

stale-IsBounded : (t : ℕ) (c : Counters) → IsBounded t c → Ends (IsBounded t) (stale t c)
unfolding stale
stale-IsBounded t c v = ground (arith, quarter t)

Tick-IsBounded : (t : ℕ) {c d : Counters} → Tick t c d → IsBounded t c → IsBounded t d
Tick-IsBounded t (missed c d code e) v = subst (Ends (IsBounded t)) e (missing-IsBounded t c v)
Tick-IsBounded t (renewed c d code e) v = subst (Ends (IsBounded t)) e (fresh-IsBounded t c v)
Tick-IsBounded t (aged c d code e) v = subst (Ends (IsBounded t)) e (stale-IsBounded t c v)

-- Starting from counters within these bounds, however updates with and without images follow each
-- other, the age stays within one update more than a second, and the count of images within one
-- more than that plus the age.
pub Ticks-IsBounded : (t : ℕ) {c d : Counters} → Ticks t c d → IsBounded t c → IsBounded t d
Ticks-IsBounded t here v = v
Ticks-IsBounded t (next r p) v = Tick-IsBounded t p (Ticks-IsBounded t r v)
