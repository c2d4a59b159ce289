-- ===== src/Image/Counters/Rhythm.antt =====
-- When the age and the rate are reported, over a run of updates.
use rtimv.Common.{
  ℕ, zero, suc, ◌+◌, ◌/◌, ◌≡◌, ◌≤◌, ◌<◌, refl, Option, none, some, List, [], ◌∷◌, ◌++◌, replicate,
  arith,
}
use rtimv.Image.{no_update, age_update, im_update, fps_update}
use rtimv.Image.Counters.{Counters, fresh, stale}

-- `n` updates of one kind, with the codes that they return.
pub repeat : (Counters → Option (Counters × ℕ)) → ℕ → Counters → Option (Counters × List ℕ)
repeat update zero c = some (c, [])
repeat update (suc n) c = elim (update c) [
  | none ↦ none
  | some (d, code) ↦ elim (repeat update n d) [
    | none ↦ none
    | some (e, codes) ↦ some (e, code ∷ codes)
  ]
]

repeat_step :
    (update : Counters → Option (Counters × ℕ)) (n code : ℕ) (codes : List ℕ) (c d e : Counters)
    → update c ≡ some (d, code)
    → repeat update n d ≡ some (e, codes)
    → repeat update (suc n) c ≡ some (e, code ∷ codes)
unfolding repeat
repeat_step update n code codes c d e p q = rw (p, repeat, q) refl

fresh_early :
    (t : ℕ) (c : Counters)
    → 0 < t
    → c.fps ≤ 1000 / t
    → fresh t c ≡ some (record { age = 0; fps = c.fps + 1 }, im_update)
unfolding fresh
fresh_early t c h k = ground arith

fresh_late :
    (t : ℕ) (c : Counters)
    → 0 < t
    → c.fps ≡ 1000 / t + 1
    → fresh t c ≡ some (record { age = 0; fps = 0 }, fps_update)
unfolding fresh
fresh_late t c h k = ground arith

stale_early :
    (t : ℕ) (c : Counters)
    → 0 < t
    → c.age ≤ 250 / t
    → stale t c ≡ some (record { age = c.age + 1; fps = c.fps + 1 }, no_update)
unfolding stale
stale_early t c h k = ground arith

stale_late :
    (t : ℕ) (c : Counters)
    → 0 < t
    → c.age ≡ 250 / t + 1
    → stale t c ≡ some (record { age = 0; fps = 1000 / t + 1 }, age_update)
unfolding stale
stale_late t c h k = ground arith

-- While every update finds a new image, each is reported as an image, and the one that comes when
-- the count of images has passed a second's worth of updates as an image with a new rate; the
-- count starts again.
pub fresh_run :
    (t n : ℕ) (c : Counters)
    → 0 < t
    → c.fps + n ≡ 1000 / t + 1
    → repeat (fresh t) (suc n) c
      ≡ some (record { age = 0; fps = 0 }, replicate n im_update ++ fps_update ∷ [])
unfolding repeat
fresh_run t zero c h e =
    repeat_step (fresh t) 0 fps_update [] c _ _ (fresh_late t c h (omega (arith, e))) refl
fresh_run t (suc n) c h e =
    repeat_step (fresh t) (suc n) im_update _ c _ _ (fresh_early t c h (omega (arith, e)))
      (fresh_run t n (record { age = 0; fps = c.fps + 1 }) h (omega (arith, e)))

-- While no update finds a new image, nothing is reported until a quarter of a second's worth of
-- updates has passed, then the age of the image; and the first new image after that has a new rate.
pub stale_run :
    (t n : ℕ) (c : Counters)
    → 0 < t
    → c.age + n ≡ 250 / t + 1
    → (repeat (stale t) (suc n) c
        ≡ some (record { age = 0; fps = 1000 / t + 1 }, replicate n no_update ++ age_update ∷ []))
      × (fresh t (record { age = 0; fps = 1000 / t + 1 })
          ≡ some (record { age = 0; fps = 0 }, fps_update))
unfolding repeat
stale_run t zero c h e = (
  repeat_step (stale t) 0 age_update [] c _ _ (stale_late t c h (omega (arith, e))) refl,
  fresh_late t _ h refl,
)
stale_run t (suc n) c h e =
    let (run, rate) =
      stale_run t n (record { age = c.age + 1; fps = c.fps + 1 }) h (omega (arith, e)) in
    (
      repeat_step (stale t) (suc n) no_update _ c _ _ (stale_early t c h (omega (arith, e))) run,
      rate,
    )
