-- ===== src/Image/Mzmq/News.antt =====
-- When common/images/mzmqImage.cpp reports a new image.
use rtimv.Common.{
  ℕ, ◌≡◌, ◌≢◌, ◌≤◌, ◌<◌, refl, Option, some, true, false, not, ◌==◌, arith, if_cases, option_at,
  ◌∙◌,
}
use rtimv.Image.Rate.{FloatOps}
use rtimv.Image.Counters.{missing, fresh, stale}
use rtimv.Image.Counters.Codes.{fresh_new, stale_old, missing_old}
use rtimv.Image.Mzmq.{Mzmq, idle, renew, wait, update, detach}

module _ {F : Type 0} (o : FloatOps F) where
  -- The outcome of an update: its code, and the serial number that was seen last.
  Reports : (ℕ → Type 0) → ℕ → Option (Mzmq F × ℕ) → Type 0
  Reports P last r =
      (t : Mzmq F) × (code : ℕ) × (r ≡ some (t, code)) × (t.last_cnt0 ≡ last) × P code

  idle_code : (s : Mzmq F) → 0 < s.timeout → Reports (λ code. code ≤ 1) s.last_cnt0 (idle o s)
  unfolding idle Reports
  idle_code s h =
      let (d, code, e, k) = missing_old s.timeout s.counters h in
      option_at (Reports (λ code. code ≤ 1) s.last_cnt0) (missing s.timeout s.counters) _ _
        (d, code) e (_, code, refl, refl, k)

  renew_code : (s : Mzmq F) → 0 < s.timeout → Reports (λ code. 2 ≤ code) s.cnt0 (renew o s)
  unfolding renew Reports
  renew_code s h =
      let (d, code, e, k) = fresh_new s.timeout s.counters h in
      option_at (Reports (λ code. 2 ≤ code) s.cnt0) (fresh s.timeout s.counters) _ _ (d, code) e
        (_, code, refl, refl, k)

  wait_code : (s : Mzmq F) → 0 < s.timeout → Reports (λ code. code ≤ 1) s.last_cnt0 (wait s)
  unfolding wait Reports
  wait_code s h =
      let (d, code, e, k) = stale_old s.timeout s.counters h in
      option_at (Reports (λ code. code ≤ 1) s.last_cnt0) (stale s.timeout s.counters) _ _ (d, code)
        e (_, code, refl, refl, k)

  -- With pixels and a positive time between updates, an update succeeds, remembers the serial number
  -- of the image, and reports an image exactly if the serial number is not the one before.
  pub update_reports :
      (s : Mzmq F)
      → s.has_data ≡ true
      → 0 < s.timeout
      → (t : Mzmq F) × (code : ℕ) × (update o s ≡ some (t, code))
        × (t.last_cnt0 ≡ s.cnt0)
        × (s.cnt0 ≢ s.last_cnt0 → 2 ≤ code)
        × (2 ≤ code → s.cnt0 ≢ s.last_cnt0)
  unfolding update Reports
  update_reports s d h =
      if_cases Result (not s.has_data) (λ e. absurd (full e))
        (λ _.
          if_cases Result (not (s.cnt0 == s.last_cnt0))
            (λ n.
              let (t, code, e, l, k) = renew_code s h in
              (t, code, e, l, (λ _. k), λ _. ground (arith, n)))
            (λ n.
              let (t, code, e, l, k) = wait_code s h in
              (
                t,
                code,
                e,
                l ∙ ground (arith, n),
                (λ m. ground (arith, n, m)),
                λ m. ground (arith, m, k),
              )))
    where
      Result : Option (Mzmq F × ℕ) → Type 0
      Result r =
          (t : Mzmq F) × (code : ℕ) × (r ≡ some (t, code))
          × (t.last_cnt0 ≡ s.cnt0)
          × (s.cnt0 ≢ s.last_cnt0 → 2 ≤ code)
          × (2 ≤ code → s.cnt0 ≢ s.last_cnt0)

      full : not s.has_data ≡ true → ⊥
      full e = ground (arith, d)

  -- After `detach` an update reports no image. Once the thread has stored an image again, the next update
  -- reports it, whatever was seen before, unless its serial number is 2 ^ 64 - 1. The time between
  -- updates is positive.
  pub detach_reports :
      (s : Mzmq F) (k : ℕ)
      → 0 < s.timeout
      → k < 18446744073709551615
      → (t u : Mzmq F) × (code again : ℕ) × (update o (detach s) ≡ some (t, code))
        × (code ≤ 1)
        × (update o (record (detach s) { has_data = true; attached = true; cnt0 = k })
            ≡ some (u, again))
        × (2 ≤ again)
  unfolding detach update Reports
  detach_reports s k h b =
      let gone : Mzmq F = record s {
        attached = false;
        has_data = false;
        last_cnt0 = 18446744073709551615;
      } in
      let (t, code, e, _, c) = idle_code gone h in
      let (u, again, f, _, news, _) =
        update_reports (record gone { has_data = true; attached = true; cnt0 = k }) refl h in
      (t, u, code, again, e, c, f, news (λ e. omega (arith, e, b)))
