-- ===== src/Picture/StatsBoxes.antt =====
-- The statistics box: `mtxL_calcStatsBox` of common/rtimvBase.cpp.
use rtimv.Common.{
  ℕ, suc, ◌+◌, ◌≤◌, ◌≡◌, inl, inr, refl, Option, some, true, false, not, ◌||◌, List, [], ◌∷◌, ◌++◌,
  ◌==◌, if◌then◌else◌, if_cases, if_both, Bool-cases, ltb, is_null, ◌>>=◌, pure, arith, length,
  append_nil, append_cons, Among, sym, ap, subst, ◌∙◌,
}
use rtimv.Box.{normalize_stats_box}
use rtimv.Stats.Tally.{total}
use rtimv.Picture.{Numbers, Range, visited, columns_of, rows_of, no_range, widen, scan}
use rtimv.Picture.State.{Picture, StatsBox, shown, pixel_of}
use rtimv.Picture.Scans.{IsFloat, finite, Bounds, widen_skips, scan-Bounds}
use rtimv.Picture.Boxes.{finite_source, low_attained, high_attained}
use rtimv.Picture.Agreement.{IsRange, box_pixels}

-- What the loops keep.
pub record BoxSums (F D : Type 0) : Type 0 where
  pub range : Range F
  pub sum : D
  pub count : ℕ
  pub work : List F  -- m_statsBox_medWork

module _ {F D : Type 0} (o : Numbers F D) where
  abbrev no_box_sums : BoxSums F D
  no_box_sums = record { range = no_range o; sum = o.arithmetic.start; count = 0; work = [] }

  unfoldable pub add_value : F → BoxSums F D → BoxSums F D
  add_value v s = if not (o.arithmetic.is_finite v) then s else record {
    range = widen o v s.range;
    sum = o.arithmetic.plus s.sum v;
    count = s.count + 1;
    work = s.work ++ v ∷ [];
  }

  pub add_values : List F → BoxSums F D → BoxSums F D
  add_values [] s = s
  add_values (v ∷ vs) s = add_values vs (add_value v s)

  abbrev pub no_stats : StatsBox F → StatsBox F
  no_stats b = record b {
    min = o.arithmetic.nought;
    max = o.arithmetic.nought;
    mean = o.arithmetic.nought;
    median = o.arithmetic.nought;
  }

  -- What the loops found.
  abbrev box_summary : BoxSums F D → StatsBox F → StatsBox F
  box_summary s b = if s.count == 0 then no_stats b else record b {
    min = s.range.low;
    max = s.range.high;
    mean = o.arithmetic.mean s.sum s.count;
    median = o.arithmetic.median s.work;
  }

  unfoldable pub calc_stats_box : Picture F → Option (Picture F)
  unfolding add_values
  calc_stats_box p =
      if not p.stats_box.enabled
      then some p
      else if ltb p.nx 2 || ltb p.ny 2 || is_null (shown p)
      then some (record p { stats_box = no_stats p.stats_box })
      else do
        pixels ← shown p
        let box = normalize_stats_box p.nx p.ny p.stats_box.box
        let values = visited (λ j i. pixel_of p pixels i j) (columns_of box) (rows_of box)
        pure (record p {
          stats_box =
              box_summary (add_values values no_box_sums) (record (p.stats_box) { box = box });
        })

  skips : (v : F) (s : BoxSums F D) → o.arithmetic.is_finite v ≡ false → add_value v s ≡ s
  unfolding add_value
  skips v s e = rw (e) refl

  adds :
      (v : F) (s : BoxSums F D)
      → o.arithmetic.is_finite v ≡ true
      → add_value v s ≡ record {
        range = widen o v s.range;
        sum = o.arithmetic.plus s.sum v;
        count = s.count + 1;
        work = s.work ++ v ∷ [];
      }
  unfolding add_value
  adds v s e = rw (e) refl

  -- The loops add up the finite values, in order.
  add_values_lem :
      (vs : List F) (s : BoxSums F D)
      → add_values vs s ≡ record {
        range = scan o vs s.range;
        sum = total o.arithmetic s.sum (finite o vs);
        count = s.count + length (finite o vs);
        work = s.work ++ finite o vs;
      }
  unfolding add_values scan
  add_values_lem [] s = λ i. record {
    range = s.range;
    sum = s.sum;
    count = plus_zero i;
    work = sym (append_nil s.work) i;
  }
    where
      plus_zero : s.count ≡ s.count + 0
      plus_zero = omega arith
  add_values_lem (v ∷ vs) s = elim (Bool-cases (o.arithmetic.is_finite v)) [
    | inl e ↦
        rw (adds v s e, e, finite)
          (add_values_lem vs _ ∙ (λ i. record {
            range = scan o vs (widen o v s.range);
            sum = total o.arithmetic (o.arithmetic.plus s.sum v) (finite o vs);
            count = one_more (length (finite o vs)) i;
            work = append_cons s.work v (finite o vs) i;
          }))
    | inr e ↦ rw (skips v s e, e, finite) (rw (widen_skips o v s.range e) (add_values_lem vs s))
  ]
    where
      one_more : (n : ℕ) → s.count + 1 + n ≡ s.count + suc n
      one_more n = omega arith

  -- The values of a box whose entries are `vs`.
  pub record IsBoxSummary (vs : List F) (b : StatsBox F) : Type 0 where
    pub none_left : vs ≡ [] → b ≡ no_stats b
    pub range : (v : F) → Among v vs → IsRange o vs (record { low = b.min; high = b.max })
    pub mean :
        (v : F)
        → Among v vs
        → b.mean ≡ o.arithmetic.mean (total o.arithmetic o.arithmetic.start vs) (length vs)
    pub median : (v : F) → Among v vs → b.median ≡ o.arithmetic.median vs

module _ {F D : Type 0} (o : Numbers F D) (laws : IsFloat o) where
  summarised :
      (vs : List F) (r : Range F) (b : StatsBox F)
      → ((a : F) → Among a vs → o.arithmetic.is_finite a ≡ true)
      → Bounds o vs r
      → IsBoxSummary o vs (
          box_summary o
            (record {
              range = r;
              sum = total o.arithmetic o.arithmetic.start vs;
              count = length vs;
              work = vs;
            })
            b)
  summarised [] r b f h = record {
    none_left = λ e. refl;
    range = λ v m. elim m [ ];
    mean = λ v m. elim m [ ];
    median = λ v m. elim m [ ];
  }
  summarised (u ∷ us) r b f h = rw (not_zero) (record {
    none_left = λ e. absurd (some_there (ap length e));
    range = λ v m. record {
      below = h.below;
      above = h.above;
      low = low_attained o laws v (u ∷ us) r f m h;
      high = high_attained o laws v (u ∷ us) r f m h;
    };
    mean = λ v m. refl;
    median = λ v m. refl;
  })
    where
      not_zero : (suc (length us) == 0) ≡ false
      not_zero = ground arith

      some_there : suc (length us) ≡ 0 → ⊥
      some_there e = omega arith

  -- If the box is on, and the image has at least two columns and rows and its pixels are there, the
  -- box is put inside the image and stays on, and its statistics are those of its finite pixels: all four are 0 if it has none, and
  -- otherwise the least and the greatest of them, which bound them all, their mean, which is their
  -- sum row by row over their count, and their median.
  pub calc_stats_box_lem :
      (p : Picture F) (pixels : ℕ → F)
      → p.stats_box.enabled ≡ true
      → 2 ≤ p.nx
      → 2 ≤ p.ny
      → shown p ≡ some pixels
      → (b : StatsBox F) × (calc_stats_box o p ≡ some (record p { stats_box = b }))
        × (b.enabled ≡ true)
        × (b.box ≡ normalize_stats_box p.nx p.ny p.stats_box.box)
        × IsBoxSummary o (box_pixels o (pixel_of p pixels) b.box) b
  unfolding calc_stats_box
  calc_stats_box_lem p pixels h x y e = (
    result,
    rw (h, small, e) refl,
    if_cases (λ (c : StatsBox F). c.enabled ≡ true) _ (λ _. h) (λ _. h),
    boxed,
    subst (λ c. IsBoxSummary o (box_pixels o (pixel_of p pixels) c) result) (sym boxed)
        (rw (add_values_lem o values (no_box_sums o), plus_zero)
          (summarised (finite o values) (scan o values (no_range o)) put
            (λ a m. (finite_source o a values m).1) (scan-Bounds o laws values))),
  )
    where
      put : StatsBox F
      put = record (p.stats_box) { box = normalize_stats_box p.nx p.ny p.stats_box.box }

      values : List F
      values =
          visited (λ j i. pixel_of p pixels i j)
            (columns_of (normalize_stats_box p.nx p.ny p.stats_box.box))
            (rows_of (normalize_stats_box p.nx p.ny p.stats_box.box))

      result : StatsBox F
      result = box_summary o (add_values o values (no_box_sums o)) put

      boxed : result.box ≡ normalize_stats_box p.nx p.ny p.stats_box.box
      boxed =
          if_both (λ (c : StatsBox F). c.box ≡ normalize_stats_box p.nx p.ny p.stats_box.box) _ refl
            refl

      plus_zero : {n : ℕ} → 0 + n ≡ n
      plus_zero = omega arith

      small : (ltb p.nx 2 || ltb p.ny 2) ≡ false
      small = ground arith
