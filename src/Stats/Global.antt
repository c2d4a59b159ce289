-- ===== src/Stats/Global.antt =====
-- The global statistics of common/rtimvBase.cpp are those of the contributing pixels.
use rtimv.Common.{
  ◌*◌, ◌≡◌, refl, Bool, true, false, List, [], ◌==◌, if_cases, length, All, Among, ◌∙◌, ap,
}
use rtimv.Stats.{
  Arithmetic, GlobalStatsState, valid, empty, Input, Sums, no_sums, tally, summary,
  calc_global_stats,
}
use rtimv.Stats.Tally.{contributing, IsOrder, total, IsTallied, tally-IsTallied}

-- The statistics of a list of values.
pub record IsSummary {F D : Type 0} (o : Arithmetic F D) (values : List F) (g : GlobalStatsState F)
    : Type 0 where
  pub count : g.count ≡ length values
  pub none_left : (g.count == 0) ≡ true → g.status ≡ empty
  pub some_left : (g.count == 0) ≡ false → g.status ≡ valid
  pub min : (g.count == 0) ≡ false → Among g.min values × All (λ v. o.less v g.min ≡ false) values
  pub max : (g.count == 0) ≡ false → Among g.max values × All (λ v. o.less g.max v ≡ false) values
  pub mean : (g.count == 0) ≡ false → g.mean ≡ o.mean (total o o.start values) (length values)
  pub median : (g.count == 0) ≡ false → g.median ≡ o.median values

summary-IsSummary :
    {F D : Type 0} (o : Arithmetic F D) (use_mask : Bool) (values : List F) (s : Sums F D)
    → IsTallied o values s
    → IsSummary o values (summary o use_mask s)
unfolding summary
summary-IsSummary o use_mask values s t =
    if_cases (IsSummary o values) (s.count == 0)
      (λ e. record {
        count = t.count;
        none_left = λ _. refl;
        some_left = λ n. absurd (clash e n);
        min = t.low;
        max = t.high;
        mean = λ n. absurd (clash e n);
        median = λ n. absurd (clash e n);
      })
      (λ e. record {
        count = t.count;
        none_left = λ n. absurd (clash n e);
        some_left = λ _. refl;
        min = t.low;
        max = t.high;
        mean = λ _. ap (λ d. o.mean d s.count) t.sum ∙ ap (o.mean _) t.count;
        median = λ _. ap o.median t.work;
      })
  where
    clash : (s.count == 0) ≡ true → (s.count == 0) ≡ false → ⊥
    clash e n = cc

-- From a valid input, whose float `<` is a strict order, the count is that of the finite pixels that
-- the mask selects, or of all finite pixels without a mask. With none of them the status is `empty`.
-- Otherwise it is `valid`, the least and the greatest value are among theirs and bound them, the
-- mean is their sum in the order of the pixels over their count, and the median is theirs.
pub calc-IsSummary :
    {F D : Type 0} (o : Arithmetic F D) (use_mask : Bool) (i : Input F)
    → IsOrder o
    → IsSummary o (contributing o use_mask i 0 (i.nx * i.ny)) (calc_global_stats o use_mask valid i)
unfolding calc_global_stats
calc-IsSummary o use_mask i order =
    summary-IsSummary o use_mask _ (tally o use_mask i 0 (i.nx * i.ny) (no_sums o)) (
      tally-IsTallied o order use_mask i 0 (i.nx * i.ny) [] (no_sums o)
        (record { count = refl; work = refl; sum = refl; low = λ e. cc; high = λ e. cc }))
