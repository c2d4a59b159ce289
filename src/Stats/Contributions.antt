-- ===== src/Stats/Contributions.antt =====
-- The pixels that contribute to the global statistics of common/rtimvBase.cpp are finite, and without
-- one nothing is computed.
use rtimv.Common.{
  ℕ, zero, suc, ◌+◌, ◌*◌, ◌≡◌, refl, Bool, true, false, [], ◌∷◌, if_cases, if_both, Bool-cases, inl,
  inr, All, length, arith, ap,
}
use rtimv.Stats.{
  Arithmetic, GlobalStatsState, valid, empty, Input, blank, counts, no_sums, tally, summary,
  calc_global_stats,
}
use rtimv.Stats.Tally.{contributing}

module _ {F D : Type 0} (o : Arithmetic F D) where
  pub contributing_finite :
      (use_mask : Bool) (i : Input F) (n k : ℕ)
      → All (λ u. o.is_finite u ≡ true) (contributing o use_mask i n k)
  contributing_finite use_mask i n zero = tt
  contributing_finite use_mask i n (suc k) =
      if_cases (All (λ u. o.is_finite u ≡ true)) (counts o use_mask i n)
        (λ e. (ground (arith, e), contributing_finite use_mask i (n + 1) k))
        (λ e. contributing_finite use_mask i (n + 1) k)

  nothing_tallied :
      (use_mask : Bool) (i : Input F) (n k : ℕ)
      → contributing o use_mask i n k ≡ []
      → tally o use_mask i n k (no_sums o) ≡ no_sums o
  unfolding tally
  nothing_tallied use_mask i n zero e = refl
  nothing_tallied use_mask i n (suc k) e = elim (Bool-cases (counts o use_mask i n)) [
    | inl t ↦ absurd (omega (arith, ap length (rest_of t e)))
    | inr t ↦ rw (t, tally) (nothing_tallied use_mask i (n + 1) k (skipped t e))
  ]
    where
      rest_of :
          counts o use_mask i n ≡ true
          → contributing o use_mask i n (suc k) ≡ []
          → i.cal_data n ∷ contributing o use_mask i (n + 1) k ≡ []
      rest_of t e = ground (arith, t, e)

      skipped :
          counts o use_mask i n ≡ false
          → contributing o use_mask i n (suc k) ≡ []
          → contributing o use_mask i (n + 1) k ≡ []
      skipped t e = ground (arith, t, e)

  pub calc_nothing :
      (use_mask : Bool) (i : Input F)
      → contributing o use_mask i 0 (i.nx * i.ny) ≡ []
      → calc_global_stats o use_mask valid i
        ≡ record (blank o) { enabled = true; use_mask = use_mask; status = empty }
  unfolding calc_global_stats
  calc_nothing use_mask i e =
      rw (nothing_tallied use_mask i 0 (i.nx * i.ny) e) (unfold summary in refl)

  pub calc_enabled :
      (use_mask : Bool) (i : Input F) → (calc_global_stats o use_mask valid i).enabled ≡ true
  unfolding calc_global_stats summary
  calc_enabled use_mask i = if_both (λ (g : GlobalStatsState F). g.enabled ≡ true) _ refl refl
