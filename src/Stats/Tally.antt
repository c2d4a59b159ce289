-- ===== src/Stats/Tally.antt =====
-- What the loop of the global statistics of common/rtimvBase.cpp computes.
use rtimv.Common.{
  ℕ, zero, suc, ◌+◌, ◌≡◌, inl, inr, refl, Bool, true, false, List, [], ◌∷◌, ◌++◌, ◌==◌, arith,
  if◌then◌else◌, if_cases, length, All, Among, Among-append, All-append, append_nil, append_cons,
  All-weaken, length-append, sym, subst, ap, ◌∙◌, Bool-cases,
}
use rtimv.Stats.{Arithmetic, Input, counts, Sums, min_of, max_of, visit, tally}

-- The values that contribute, in order: those of the pixels from `n` on, `k` of them.
abbrev pub contributing : {F D : Type 0} → Arithmetic F D → Bool → Input F → ℕ → ℕ → List F
contributing o use_mask i n zero = []
contributing o use_mask i n (suc k) =
    if counts o use_mask i n
    then i.cal_data n ∷ contributing o use_mask i (n + 1) k
    else contributing o use_mask i (n + 1) k

-- `<` is a strict order, as that of floating-point numbers is, NaN included.
pub record IsOrder {F D : Type 0} (o : Arithmetic F D) : Type 0 where
  pub irreflexive : (a : F) → o.less a a ≡ false
  pub transitive : (a b c : F) → o.less a b ≡ true → o.less b c ≡ true → o.less a c ≡ true

module _ {F D : Type 0} (o : Arithmetic F D) where
  abbrev pub total : D → List F → D
  total d [] = d
  total d (v ∷ vs) = total (o.plus d v) vs

  -- The sums over a list of values. The bounds are entries of the list that no entry goes past.
  pub record IsTallied (values : List F) (s : Sums F D) : Type 0 where
    pub count : s.count ≡ length values
    pub work : s.work ≡ values
    pub sum : s.sum ≡ total o.start values
    pub low : (s.count == 0) ≡ false → Among s.low values × All (λ v. o.less v s.low ≡ false) values
    pub high :
        (s.count == 0) ≡ false → Among s.high values × All (λ v. o.less s.high v ≡ false) values

total-append :
    {F D : Type 0} (o : Arithmetic F D) (d : D) (vs : List F) (v : F)
    → total o d (vs ++ v ∷ []) ≡ o.plus (total o d vs) v
total-append o d [] v = refl
total-append o d (u ∷ us) v = total-append o (o.plus d u) us v

module _ {F D : Type 0} (o : Arithmetic F D) (order : IsOrder o) where
  -- The bounds after one more value.
  Low : List F → F → Type 0
  Low values m = Among m values × All (λ v. o.less v m ≡ false) values

  High : List F → F → Type 0
  High values m = Among m values × All (λ v. o.less m v ≡ false) values

  pub not_below : (u a b : F) → o.less a b ≡ true → o.less u b ≡ false → o.less u a ≡ false
  not_below u a b h k = elim (Bool-cases (o.less u a)) [
    | inl e ↦ absurd (clash (sym (order.transitive u a b e h) ∙ k))
    | inr e ↦ e
  ]
    where
      clash : true ≡ false → ⊥
      clash e = cc

  pub not_above : (u a b : F) → o.less a b ≡ true → o.less a u ≡ false → o.less b u ≡ false
  not_above u a b h k = elim (Bool-cases (o.less b u)) [
    | inl e ↦ absurd (clash (sym (order.transitive a b u h e) ∙ k))
    | inr e ↦ e
  ]
    where
      clash : true ≡ false → ⊥
      clash e = cc

  Low-more : (values : List F) (m v : F) → Low values m → Low (values ++ v ∷ []) (min_of o m v)
  unfolding Low
  Low-more values m v h =
      if_cases (Low (values ++ v ∷ [])) (o.less v m)
        (λ e. (
          Among-append v v values (inr refl),
          All-append _ v values (All-weaken _ _ values (λ u k. not_below u v m e k) h.1)
              (order.irreflexive v),
        ))
        (λ e. (Among-append m v values (inl h.0), All-append _ v values h.1 e))

  High-more : (values : List F) (m v : F) → High values m → High (values ++ v ∷ []) (max_of o m v)
  unfolding High
  High-more values m v h =
      if_cases (High (values ++ v ∷ [])) (o.less m v)
        (λ e. (
          Among-append v v values (inr refl),
          All-append _ v values (All-weaken _ _ values (λ u k. not_above u m v e k) h.1)
              (order.irreflexive v),
        ))
        (λ e. (Among-append m v values (inl h.0), All-append _ v values h.1 e))

  first_only : (values : List F) (P : List F → Type 0) → length values ≡ 0 → P [] → P values
  first_only [] P e h = h
  first_only (v ∷ vs) P e h = absurd (omega (arith, e))

  visit-IsTallied :
      (values : List F) (v : F) (s : Sums F D)
      → IsTallied o values s
      → IsTallied o (values ++ v ∷ []) (visit o v s)
  unfolding visit Low High
  visit-IsTallied values v s t = record {
    count = omega (arith, t.count, length-append values (v ∷ []));
    work = ap (λ vs. vs ++ v ∷ []) t.work;
    sum = ap (λ d. o.plus d v) t.sum ∙ sym (total-append o o.start values v);
    low = λ _.
        if_cases (Low (values ++ v ∷ [])) (s.count == 0)
          (λ e.
            first_only values (λ vs. Low (vs ++ v ∷ []) v) (none_yet e)
              (inl refl, (order.irreflexive v, tt)))
          (λ e. Low-more values s.low v (t.low e));
    high = λ _.
        if_cases (High (values ++ v ∷ [])) (s.count == 0)
          (λ e.
            first_only values (λ vs. High (vs ++ v ∷ []) v) (none_yet e)
              (inl refl, (order.irreflexive v, tt)))
          (λ e. High-more values s.high v (t.high e));
  }
    where
      none_yet : (s.count == 0) ≡ true → length values ≡ 0
      none_yet e = ground (arith, t.count)

  pub tally-IsTallied :
      (use_mask : Bool) (i : Input F) (n k : ℕ) (values : List F) (s : Sums F D)
      → IsTallied o values s
      → IsTallied o (values ++ contributing o use_mask i n k) (tally o use_mask i n k s)
  unfolding tally
  tally-IsTallied use_mask i n zero values s t =
      subst (λ vs. IsTallied o vs s) (sym (append_nil values)) t
  tally-IsTallied use_mask i n (suc k) values s t = elim (Bool-cases (counts o use_mask i n)) [
    | inl e ↦
        rw (e, contributing, tally)
          (subst (λ vs. IsTallied o vs (tally o use_mask i (n + 1) k (visit o (i.cal_data n) s)))
            (append_cons values (i.cal_data n) (contributing o use_mask i (n + 1) k))
            (tally-IsTallied use_mask i (n + 1) k (values ++ i.cal_data n ∷ [])
              (visit o (i.cal_data n) s) (visit-IsTallied values (i.cal_data n) s t)))
    | inr e ↦ rw (e, contributing, tally) (tally-IsTallied use_mask i (n + 1) k values s t)
  ]
