-- ===== src/Image/Frames/Faults.antt =====
-- Where `deltaImageNo` does not move by its offset: below minus one turn, and with a frame pending.
use rtimv.Common.{
  ℕ, suc, ◌+◌, ◌-◌, ◌%◌, ◌≤◌, ◌<◌, ◌≡◌, ◌≢◌, none, some, arith, some_cancel, ap, subst, ◌∙◌, sym,
}
use rtimv.Common.Int.{ℤ, pos, negsuc}
use rtimv.Image.Frames.{reduce, delta_next}
use rtimv.Image.Frames.Wrap.{delta_next_reduced}
use native.Mathlib.Nat.{
  mod-lt, mod-add-mod, add-mod-mod, mod-eq_of_lt, add-mod_right, mod-eq-sub-mod,
}

reduce_below :
    (nz n : ℕ)
    → 0 < nz
    → nz < 2147483648
    → n < 2147483648
    → nz < n + 1
    → reduce nz (negsuc n) ≡ some (pos ((4294967295 - n) % nz))
unfolding reduce
reduce_below nz n h k m l = ground (arith, mod-lt (4294967295 - n) h)

-- The frame that an offset below minus one turn leads to.
delta_next_below :
    (nz cur n : ℕ)
    → cur < nz
    → nz < 2147483648
    → n < 2147483648
    → nz < n + 1
    → delta_next nz cur cur (negsuc n) ≡ some ((cur + nz + (4294967295 - n) % nz - 0) % nz)
delta_next_below nz cur n h k m l =
    delta_next_reduced nz cur (negsuc n) _ h k (reduce_below nz n (omega arith) k m l)
      (omega (arith, mod-lt (4294967295 - n) {m = nz}))

turn_below :
    (nz cur n : ℕ)
    → n < 2147483648
    → ((cur + nz + (4294967295 - n) % nz - 0) % nz + suc n) % nz ≡ (cur + 4294967296 % nz) % nz
turn_below nz cur n m =
    let x : ℕ = 4294967295 - n in
    let rest : ℕ → ℕ = λ t. t % nz in
    mod-add-mod (cur + nz + x % nz - 0) nz (suc n)
    ∙ ap rest (regroup (x % nz))
    ∙ add-mod-mod (cur + nz + suc n) x nz
    ∙ ap rest (complement)
    ∙ add-mod_right (cur + 4294967296) nz
    ∙ sym (add-mod-mod cur 4294967296 nz)
  where
    regroup : (r : ℕ) → cur + nz + r - 0 + suc n ≡ cur + nz + suc n + r
    regroup r = omega arith

    complement : cur + nz + suc n + (4294967295 - n) ≡ cur + 4294967296 + nz
    complement = omega arith

zero_of_turn : (nz cur q : ℕ) → cur < nz → q < nz → (cur + q) % nz ≡ cur → q ≡ 0
zero_of_turn nz cur q h k e = grind (arith, mod-eq_of_lt, mod-eq-sub-mod)

-- An offset below minus one turn misses its frame whenever the number of frames does not divide
-- 2 ^ 32: the frame `r` that is chosen, with the offset taken back, is not the current frame.
pub delta_next_below_misses :
    (nz cur n r : ℕ)
    → cur < nz
    → nz < 2147483648
    → n < 2147483648
    → nz < n + 1
    → 4294967296 % nz ≢ 0
    → delta_next nz cur cur (negsuc n) ≡ some r
    → (r < nz) × ((r + suc n) % nz ≢ cur)
delta_next_below_misses nz cur n r h k m l d e =
    subst (λ t. (t < nz) × ((t + suc n) % nz ≢ cur))
      (some_cancel _ r (sym (delta_next_below nz cur n h k m l) ∙ e))
      (
        mod-lt _ (omega arith),
        λ back. d (
            zero_of_turn nz cur _ h (mod-lt 4294967296 (omega arith))
              (sym (turn_below nz cur n m) ∙ back)),
      )

-- With another frame pending, an offset that stays on the cube is added to the pending frame, with
-- no test of the sum: the next frame is off the cube whenever the sum is.
pub delta_next_pending :
    (nz cur next n : ℕ)
    → nz < 2147483648
    → next < nz
    → 0 < n
    → cur + n < nz
    → nz ≤ next + n
    → delta_next nz cur next (pos n) ≡ some (next + n)
unfolding delta_next
delta_next_pending nz cur next n k h z f g = ground arith

-- On an empty cube every offset but 0 divides by zero, whichever frames are current and pending.
pub delta_next_empty : (cur next : ℕ) (dino : ℤ) → dino ≢ pos 0 → delta_next 0 cur next dino ≡ none
unfolding delta_next
delta_next_empty cur next (pos n) h = ground arith
delta_next_empty cur next (negsuc n) h = ground arith
