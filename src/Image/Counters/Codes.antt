-- ===== src/Image/Counters/Codes.antt =====
-- The codes that the counters give: a new image for `fresh`, none for the others.
use rtimv.Common.{
  ℕ, ◌/◌, ◌≡◌, ◌≤◌, ◌<◌, refl, Option, some, true, ◌==◌, ltb, arith, if_cases, if_both,
}
use rtimv.Image.Counters.{Counters, fresh, stale, missing}

-- The outcome of a counter: some counters, and a code with a property.
abbrev pub Gives : (ℕ → Type 0) → Option (Counters × ℕ) → Type 0
Gives P r = (d : Counters) × (code : ℕ) × (r ≡ some (d, code)) × P code

not_zero : (t : ℕ) → 0 < t → (t == 0) ≡ true → ⊥
not_zero t h e = ground arith

pub fresh_new : (t : ℕ) (c : Counters) → 0 < t → Gives (λ code. 2 ≤ code) (fresh t c)
unfolding fresh
fresh_new t c h =
    if_cases (Gives (λ code. 2 ≤ code)) (t == 0) (λ e. absurd (not_zero t h e))
      (λ _.
        if_both (Gives (λ code. 2 ≤ code)) (ltb (1000 / t) c.fps) (_, _, refl, omega arith)
          (_, _, refl, omega arith))

pub stale_old : (t : ℕ) (c : Counters) → 0 < t → Gives (λ code. code ≤ 1) (stale t c)
unfolding stale
stale_old t c h =
    if_cases (Gives (λ code. code ≤ 1)) (t == 0) (λ e. absurd (not_zero t h e))
      (λ _.
        if_both (Gives (λ code. code ≤ 1)) (ltb (250 / t) c.age) (_, _, refl, omega arith)
          (_, _, refl, omega arith))

pub missing_old : (t : ℕ) (c : Counters) → 0 < t → Gives (λ code. code ≤ 1) (missing t c)
unfolding missing
missing_old t c h =
    if_cases (Gives (λ code. code ≤ 1)) (t == 0) (λ e. absurd (not_zero t h e))
      (λ _.
        if_both (Gives (λ code. code ≤ 1)) (ltb (1000 / t) c.age) (_, _, refl, omega arith)
          (_, _, refl, omega arith))
