-- ===== src/Image/Frames/Wrap.antt =====
-- Within a cube the next frame is the current one moved by the offset, modulo the number of frames.
use rtimv.Common.{
  ℕ, ◌+◌, ◌-◌, ◌%◌, ◌≤◌, ◌<◌, ◌≡◌, some, arith, ltb, if◌then◌else◌, ◌∙◌, sym, ap, min, inl, inr,
  ◌⊎◌,
}
use native.Mathlib.Nat.{mod-eq_of_lt, mod-eq-sub-mod, mod-lt, add-mod-mod, sub-zero}
use native.Mathlib.Decide.{dec_lt}
use rtimv.Common.Int.{ℤ, pos, negsuc, pos_part, neg_part, abs}
use rtimv.Image.Frames.{set_next, inc_next, dec_next, reduce, offset_next, delta_next}

-- The frame `cur + dino` on a ring of `nz` frames, for an offset of at most one turn.
abbrev around : ℕ → ℕ → ℤ → ℕ
around nz cur (pos n) = if ltb (cur + n) nz then cur + n else cur + n - nz
around nz cur (negsuc n) = if ltb cur (n + 1) then nz + cur - (n + 1) else cur - (n + 1)

offset_next-around :
    (nz cur : ℕ) (dino : ℤ)
    → cur < nz
    → nz < 2147483648
    → abs dino ≤ nz
    → offset_next nz cur cur dino ≡ around nz cur dino
unfolding offset_next
offset_next-around nz cur (pos n) h k b = ground arith
offset_next-around nz cur (negsuc n) h k b = ground arith

-- A number below `m`, and what is one turn or two above it, have that number as remainder.
mod_of_turns : (v m x : ℕ) → v < m → (x ≡ v) ⊎ (x ≡ v + m) ⊎ (x ≡ v + m + m) → v ≡ x % m
mod_of_turns v m x h (inl e) = rw e (sym (mod-eq_of_lt h))
mod_of_turns v m x h (inr (inl e)) = grind (arith, mod-eq-sub-mod, mod-eq_of_lt)
mod_of_turns v m x h (inr (inr e)) = grind (arith, mod-eq-sub-mod, mod-eq_of_lt)

around-mod :
    (nz cur : ℕ) (dino : ℤ)
    → cur < nz
    → abs dino ≤ nz
    → (around nz cur dino < nz)
      × (around nz cur dino ≡ (cur + nz + pos_part dino - neg_part dino) % nz)
around-mod nz cur (pos n) h b = (ground arith, mod_of_turns _ nz _ (ground arith) (ground arith))
around-mod nz cur (negsuc n) h b = (ground arith, mod_of_turns _ nz _ (ground arith) (ground arith))

-- An offset of at most one turn is kept, and one above is reduced.
reduce_small : (nz : ℕ) (dino : ℤ) → abs dino ≤ nz → reduce nz dino ≡ some dino
unfolding reduce
reduce_small nz dino h = ground arith

reduce_large :
    (nz n : ℕ)
    → 0 < nz
    → nz < 2147483648
    → n < 2147483648
    → nz < n
    → reduce nz (pos n) ≡ some (pos (n % nz))
unfolding reduce
reduce_large nz n h k m l = ground (arith, mod-lt n h)

-- Once reduced to `d`, an offset moves by `d`.
pub delta_next_reduced :
    (nz cur : ℕ) (dino d : ℤ)
    → cur < nz
    → nz < 2147483648
    → reduce nz dino ≡ some d
    → abs d ≤ nz
    → delta_next nz cur cur dino ≡ some ((cur + nz + pos_part d - neg_part d) % nz)
unfolding delta_next
delta_next_reduced nz cur dino d h k e b =
    rw (e, delta_next) (ap some (offset_next-around nz cur d h k b ∙ (around-mod nz cur d h b).1))

-- An offset above one turn leaves the remainder, whose move ends at the same frame.
mod_of_reduced : (nz cur n : ℕ) → (cur + nz + n % nz - 0) % nz ≡ (cur + nz + n - 0) % nz
mod_of_reduced nz cur n = simp sub-zero (add-mod-mod (cur + nz) n nz)

-- With no frame pending, an offset that is not below minus one turn moves by that offset, modulo
-- the number of frames, on a cube of up to 2 ^ 31 - 1 frames.
pub delta_next_wraps :
    (nz cur : ℕ) (dino : ℤ)
    → cur < nz
    → nz < 2147483648
    → pos_part dino < 2147483648
    → neg_part dino ≤ nz
    → delta_next nz cur cur dino ≡ some ((cur + nz + pos_part dino - neg_part dino) % nz)
delta_next_wraps nz cur (pos n) h k m b = elim (dec_lt nz n) [
  | yes l ↦
      delta_next_reduced nz cur (pos n) (pos (n % nz)) h k (reduce_large nz n (omega arith) k m l)
        (omega (arith, mod-lt n {m = nz}))
      ∙ ap some (mod_of_reduced nz cur n)
  | no l ↦
      delta_next_reduced nz cur (pos n) (pos n) h k (reduce_small nz (pos n) (omega arith))
        (omega arith)
]
delta_next_wraps nz cur (negsuc n) h k m b =
    delta_next_reduced nz cur (negsuc n) (negsuc n) h k (reduce_small nz (negsuc n) (omega arith))
      (omega arith)

-- The other three commands: a frame number above the last is the last, and stepping past either
-- end of the cube goes to the other.
pub step_next_wraps :
    (nz cur ino : ℕ)
    → cur < nz
    → nz < 4294967296
    → (set_next nz ino ≡ min ino (nz - 1))
      × (inc_next nz cur ≡ (cur + 1) % nz)
      × (dec_next nz cur ≡ (cur + nz - 1) % nz)
unfolding set_next inc_next dec_next
step_next_wraps nz cur ino h k = (
  ground arith,
  mod_of_turns _ nz _ (ground arith) (ground arith),
  mod_of_turns _ nz _ (ground arith) (ground arith),
)
