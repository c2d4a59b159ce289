-- ===== src/Picture/Boxes.antt =====
-- The two loops over the colour box in common/rtimvBase.cpp: `mtxL_colormode` goes by columns and
-- `mtxUL_changeImdata` by rows.
use rtimv.Common.{
  ℕ, ◌≡◌, ◌⊎◌, inl, inr, refl, true, false, List, [], ◌∷◌, ◌++◌, map, arith, if◌then◌else◌,
  if_cases, Bool-cases, All-Among, Among, left-Among, right-Among, split-Among, Among-map,
  map_source, sym, subst, ◌∙◌,
}
use rtimv.Picture.{Numbers, Range, visited, no_range}
use rtimv.Picture.Scans.{IsFloat, finite, Bounds}

visited_source :
    {A : Type 0} (at : ℕ → ℕ → A) (a : A) (js ks : List ℕ)
    → Among a (visited at js ks)
    → (j : ℕ) × (k : ℕ) × (Among j js) × (Among k ks) × (a ≡ at k j)
visited_source at a js [] h = elim h [ ]
visited_source at a js (k ∷ ks) h = elim (split-Among a (map (at k) js) (visited at js ks) h) [
  | inl m ↦ let s = map_source (at k) a js m in (s.0, k, s.1, inl refl, s.2)
  | inr m ↦ let s = visited_source at a js ks m in (s.0, s.1, s.2, inr s.3, s.4)
]

Among-visited :
    {A : Type 0} (at : ℕ → ℕ → A) (j k : ℕ) (js ks : List ℕ)
    → Among j js
    → Among k ks
    → Among (at k j) (visited at js ks)
Among-visited at j k js [] h m = elim m [ ]
Among-visited at j k js (l ∷ ks) h (inl e) =
    subst (λ n. Among (at n j) (map (at l) js ++ visited at js ks)) (sym e)
      (left-Among (at l j) (map (at l) js) (visited at js ks) (Among-map (at l) j js h))
Among-visited at j k js (l ∷ ks) h (inr m) =
    right-Among (at k j) (map (at l) js) (visited at js ks) (Among-visited at j k js ks h m)

-- Both orders visit the same pixels.
pub turned :
    {A : Type 0} (at : ℕ → ℕ → A) (a : A) (js ks : List ℕ)
    → Among a (visited at js ks)
    → Among a (visited (λ j k. at k j) ks js)
turned at a js ks h =
    let s = visited_source at a js ks h in
    subst (λ b. Among b (visited (λ j k. at k j) ks js)) (sym s.4)
      (Among-visited (λ j k. at k j) s.1 s.0 ks js s.3 s.2)

module _ {F D : Type 0} (o : Numbers F D) where
  abbrev pub AllFinite : List F → Type 0
  AllFinite us = (a : F) → Among a us → o.arithmetic.is_finite a ≡ true

  pub Among-finite :
      (v : F) (vs : List F) → Among v vs → o.arithmetic.is_finite v ≡ true → Among v (finite o vs)
  Among-finite v [] h f = elim h [ ]
  Among-finite v (w ∷ ws) (inl e) f = ground (arith, e, f)
  Among-finite v (w ∷ ws) (inr h) f =
      if_cases (Among v) (o.arithmetic.is_finite w) (λ e. inr (Among-finite v ws h f))
        (λ e. Among-finite v ws h f)

  pub finite_source :
      (v : F) (vs : List F)
      → Among v (finite o vs)
      → (Among v vs) × (o.arithmetic.is_finite v ≡ true)
  finite_source v [] h = elim h [ ]
  finite_source v (w ∷ ws) h = elim (Bool-cases (o.arithmetic.is_finite w)) [
    | inl e ↦
        head e (λ k. finite_source v ws k)
          (subst (λ b. Among v (if b then w ∷ finite o ws else finite o ws)) e h)
    | inr e ↦
        let s =
          finite_source v ws
            (subst (λ b. Among v (if b then w ∷ finite o ws else finite o ws)) e h) in
        (inr s.0, s.1)
  ]
    where
      head :
          o.arithmetic.is_finite w ≡ true
          → (Among v (finite o ws) → (Among v ws) × (o.arithmetic.is_finite v ≡ true))
          → Among v (w ∷ finite o ws)
          → (Among v (w ∷ ws)) × (o.arithmetic.is_finite v ≡ true)
      head e rest (inl k) = (inl k, subst (λ u. o.arithmetic.is_finite u ≡ true) (sym k) e)
      head e rest (inr k) = let s = rest k in (inr s.0, s.1)

pub no_member : {A : Type 0} (us : List A) → ((a : A) → Among a us → ⊥) → us ≡ []
no_member [] h = refl
no_member (u ∷ us) h = absurd (h u (inl refl))

range_path : {F : Type 0} (r s : Range F) → r.low ≡ s.low → r.high ≡ s.high → r ≡ s
range_path r s p q = λ i. record { low = p i; high = q i }

module _ {F D : Type 0} (o : Numbers F D) (laws : IsFloat o) where
  pub no_values-Bounds : (r : Range F) → Bounds o [] r → r ≡ no_range o
  no_values-Bounds r h = range_path r (no_range o) (only h.low) (only h.high)
    where
      only : {A : Type 0} {d m : A} → (m ≡ d) ⊎ ⊥ → m ≡ d
      only (inl e) = e
      only (inr f) = elim f [ ]

  pub low_attained :
      (v : F) (us : List F) (r : Range F)
      → AllFinite o us
      → Among v us
      → Bounds o us r
      → Among r.low us
  low_attained v us r f m h = elim h.low [
    | inl e ↦
        subst (λ a. Among a us)
          (laws.total v o.largest (f v m) laws.largest_finite
              (subst (λ b. o.arithmetic.less v b ≡ false) e
                (All-Among (λ u. o.arithmetic.less u r.low ≡ false) v us h.below m))
              (laws.none_above v (f v m))
            ∙ sym e)
          m
    | inr a ↦ a
  ]

  pub high_attained :
      (v : F) (us : List F) (r : Range F)
      → AllFinite o us
      → Among v us
      → Bounds o us r
      → Among r.high us
  high_attained v us r f m h = elim h.high [
    | inl e ↦
        subst (λ a. Among a us)
          (laws.total v o.lowest (f v m) laws.lowest_finite (laws.none_below v (f v m)) (
              subst (λ b. o.arithmetic.less b v ≡ false) e
                (All-Among (λ u. o.arithmetic.less r.high u ≡ false) v us h.above m))
            ∙ sym e)
          m
    | inr a ↦ a
  ]

  -- Lists of the same finite members, of which there is one, have the same bounds.
  pub same_range :
      (v : F) (us ws : List F) (r s : Range F)
      → AllFinite o us
      → ((a : F) → Among a us → Among a ws)
      → ((a : F) → Among a ws → Among a us)
      → Among v us
      → Bounds o us r
      → Bounds o ws s
      → r ≡ s
  same_range v us ws r s f there back m h k =
      let g : AllFinite o ws = λ a n. f a (back a n) in
      let low = low_attained v us r f m h in
      let low' = low_attained v ws s g (there v m) k in
      let high = high_attained v us r f m h in
      let high' = high_attained v ws s g (there v m) k in
      range_path r s
        (laws.total r.low s.low (f r.low low) (g s.low low')
          (All-Among (λ u. o.arithmetic.less u s.low ≡ false) r.low ws k.below (there r.low low))
          (All-Among (λ u. o.arithmetic.less u r.low ≡ false) s.low us h.below (back s.low low')))
        (laws.total r.high s.high (f r.high high) (g s.high high')
          (All-Among (λ u. o.arithmetic.less r.high u ≡ false) s.high us h.above
            (back s.high high'))
          (All-Among (λ u. o.arithmetic.less s.high u ≡ false) r.high ws k.above
            (there r.high high)))

  -- Bounds of a value are not those of the loops that found nothing.
  pub not_start :
      (v : F) (us : List F) (r : Range F)
      → AllFinite o us
      → Among v us
      → Bounds o us r
      → r.low ≡ o.largest
      → r.high ≡ o.lowest
      → ⊥
  not_start v us r f m h p q = clash (
      sym laws.apart
      ∙ subst (λ a. o.arithmetic.less a o.largest ≡ false) at_lowest
          (subst (λ b. o.arithmetic.less v b ≡ false) p
            (All-Among (λ u. o.arithmetic.less u r.low ≡ false) v us h.below m)))
    where
      at_lowest : v ≡ o.lowest
      at_lowest = laws.total v o.lowest (f v m) laws.lowest_finite (laws.none_below v (f v m)) (
          subst (λ b. o.arithmetic.less b v ≡ false) q
            (All-Among (λ u. o.arithmetic.less r.high u ≡ false) v us h.above m))

      clash : true ≡ false → ⊥
      clash e = cc
