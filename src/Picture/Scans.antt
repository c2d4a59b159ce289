-- ===== src/Picture/Scans.antt =====
-- What the loops of common/rtimvBase.cpp that look for the smallest and the greatest pixel find.
use rtimv.Common.{
  ◌≡◌, ◌⊎◌, inl, inr, refl, Bool, true, false, List, [], ◌∷◌, ◌++◌, if◌then◌else◌, if_cases,
  Bool-cases, All, All-append, append_nil, append_cons, All-weaken, Among, Among-append, sym, subst,
}
use rtimv.Stats.{min_of, max_of}
use rtimv.Stats.Tally.{IsOrder, not_below, not_above}
use rtimv.Picture.{Numbers, Range, no_range, widen, scan}

-- Floating-point numbers: `<` is a strict order, total on the finite ones, and these lie between
-- -FLT_MAX and FLT_MAX, which are finite. The two zeros count as one number.
pub record IsFloat {F D : Type 0} (o : Numbers F D) : Type 0 where
  pub order : IsOrder o.arithmetic
  pub total :
      (a b : F)
      → o.arithmetic.is_finite a ≡ true
      → o.arithmetic.is_finite b ≡ true
      → o.arithmetic.less a b ≡ false
      → o.arithmetic.less b a ≡ false
      → a ≡ b
  pub largest_finite : o.arithmetic.is_finite o.largest ≡ true
  pub lowest_finite : o.arithmetic.is_finite o.lowest ≡ true
  pub none_above : (a : F) → o.arithmetic.is_finite a ≡ true → o.arithmetic.less o.largest a ≡ false
  pub none_below : (a : F) → o.arithmetic.is_finite a ≡ true → o.arithmetic.less a o.lowest ≡ false
  pub apart : o.arithmetic.less o.lowest o.largest ≡ true
  pub equal_sound : (a b : F) → o.is_equal a b ≡ true → a ≡ b
  pub equal_same : (a : F) → o.arithmetic.is_finite a ≡ true → o.is_equal a a ≡ true

module _ {F D : Type 0} (o : Numbers F D) where
  abbrev pub finite : List F → List F
  finite [] = []
  finite (v ∷ vs) = if o.arithmetic.is_finite v then v ∷ finite vs else finite vs

  -- The bounds of a list of values: those of no value at all, or members that no member goes past.
  pub record Bounds (vs : List F) (r : Range F) : Type 0 where
    pub below : All (λ v. o.arithmetic.less v r.low ≡ false) vs
    pub above : All (λ v. o.arithmetic.less r.high v ≡ false) vs
    pub low : (r.low ≡ o.largest) ⊎ Among r.low vs
    pub high : (r.high ≡ o.lowest) ⊎ Among r.high vs

  pub widen_skips : (v : F) (r : Range F) → o.arithmetic.is_finite v ≡ false → widen o v r ≡ r
  unfolding widen
  widen_skips v r e = rw (e) refl

module _ {F D : Type 0} (o : Numbers F D) (laws : IsFloat o) where
  Bounds-no_range : Bounds o [] (no_range o)
  Bounds-no_range = record { below = tt; above = tt; low = inl refl; high = inl refl }

  lower :
      (vs : List F) (v m : F)
      → All (λ u. o.arithmetic.less u m ≡ false) vs
      → All (λ u. o.arithmetic.less u (min_of o.arithmetic m v) ≡ false) (vs ++ v ∷ [])
  lower vs v m h =
      if_cases (λ x. All (λ u. o.arithmetic.less u x ≡ false) (vs ++ v ∷ []))
        (o.arithmetic.less v m)
        (λ e.
          All-append _ v vs
            (All-weaken _ _ vs (λ u k. not_below o.arithmetic laws.order u v m e k) h)
            (laws.order.irreflexive v))
        (λ e. All-append _ v vs h e)

  upper :
      (vs : List F) (v m : F)
      → All (λ u. o.arithmetic.less m u ≡ false) vs
      → All (λ u. o.arithmetic.less (max_of o.arithmetic m v) u ≡ false) (vs ++ v ∷ [])
  upper vs v m h =
      if_cases (λ x. All (λ u. o.arithmetic.less x u ≡ false) (vs ++ v ∷ []))
        (o.arithmetic.less m v)
        (λ e.
          All-append _ v vs
            (All-weaken _ _ vs (λ u k. not_above o.arithmetic laws.order u m v e k) h)
            (laws.order.irreflexive v))
        (λ e. All-append _ v vs h e)

  -- A bound that is kept, or the new value.
  either :
      (b : Bool) (vs : List F) (v m d : F)
      → (m ≡ d) ⊎ Among m vs
      → ((if b then v else m) ≡ d) ⊎ Among (if b then v else m) (vs ++ v ∷ [])
  either true vs v m d h = inr (Among-append v v vs (inr refl))
  either false vs v m d (inl e) = inl e
  either false vs v m d (inr h) = inr (Among-append m v vs (inl h))

  Bounds-widen :
      (vs : List F) (v : F) (r : Range F)
      → o.arithmetic.is_finite v ≡ true
      → Bounds o vs r
      → Bounds o (vs ++ v ∷ []) (widen o v r)
  unfolding widen
  Bounds-widen vs v r f h = rw (f) (record {
    below = lower vs v r.low h.below;
    above = upper vs v r.high h.above;
    low = either (o.arithmetic.less v r.low) vs v r.low o.largest h.low;
    high = either (o.arithmetic.less r.high v) vs v r.high o.lowest h.high;
  })

  Bounds-scan :
      (vs us : List F) (r : Range F) → Bounds o us r → Bounds o (us ++ finite o vs) (scan o vs r)
  unfolding scan
  Bounds-scan [] us r h = subst (λ ws. Bounds o ws r) (sym (append_nil us)) h
  Bounds-scan (v ∷ vs) us r h = elim (Bool-cases (o.arithmetic.is_finite v)) [
    | inl e ↦
        rw (e, finite)
          (subst (λ ws. Bounds o ws (scan o vs (widen o v r))) (append_cons us v (finite o vs))
            (Bounds-scan vs (us ++ v ∷ []) (widen o v r) (Bounds-widen us v r e h)))
    | inr e ↦ rw (e, finite) (rw (widen_skips o v r e) (Bounds-scan vs us r h))
  ]

  -- What a scan finds.
  pub scan-Bounds : (vs : List F) → Bounds o (finite o vs) (scan o vs (no_range o))
  scan-Bounds vs = Bounds-scan vs [] (no_range o) Bounds-no_range
