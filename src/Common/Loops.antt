-- ===== src/Common/Loops.antt =====
-- Counting loops, and what holds when they end.
use Prim.Native.Nat.{ℕ, zero, suc, ◌+◌, ◌≤◌, ◌<◌}
use mathlib.Core.Path.{◌≡◌, subst}
use native.Mathlib.Omega.{arith}

-- for( k = i; k < i + rounds; ++k ) s = body k s
unfoldable pub for_range {ℓ} : {S : Type ℓ} (rounds i : ℕ) → (ℕ → S → S) → S → S
for_range zero i body s = s
for_range (suc n) i body s = for_range n (suc i) body (body i s)

pub for_range_inv {ℓ κ} :
    {S : Type ℓ} (P : ℕ → S → Type κ) (stop : ℕ) (body : ℕ → S → S) (n i : ℕ) (s : S)
    → i + n ≡ stop
    → ((k : ℕ) (t : S) → i ≤ k → k < stop → P k t → P (suc k) (body k t))
    → P i s
    → P stop (for_range n i body s)
unfolding for_range
for_range_inv P stop body zero i s e keep p = subst (λ k. P k s) (omega arith) p
for_range_inv P stop body (suc n) i s e keep p =
    for_range_inv P stop body n (suc i) (body i s) (omega arith)
      (λ k t lo hi. keep k t (omega arith) hi) (keep i s (omega arith) (omega arith) p)
