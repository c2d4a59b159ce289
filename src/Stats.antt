-- ===== src/Stats.antt =====
-- The statistics of the whole image: the global statistics of common/rtimvBase.cpp and
-- common/rtimvGlobalStats.hpp. `F` is float and `D` double, with the operations that are used.
pub mod Refresh
pub mod Tally
pub mod Global
pub mod Contributions
mod Tests
use rtimv.Common.{
  ℕ, zero, suc, ◌+◌, ◌*◌, Bool, true, false, not, ◌&&◌, ◌||◌, List, [], ◌∷◌, ◌++◌, ◌==◌,
  if◌then◌else◌,
}

-- `median` is `mx::math::vectorMedianInPlace`, of a library.
pub record Arithmetic (F D : Type 0) : Type 0 where
  pub nought : F
  pub is_finite : F → Bool
  pub is_one : F → Bool  -- == 1.0f
  pub less : F → F → Bool
  pub start : D
  pub plus : D → F → D
  pub mean : D → ℕ → F  -- a sum over a count
  pub median : List F → F

pub data GlobalStatsStatus : Type 0 where
  unavailable valid no_image no_mask size_mismatch empty unsupported : GlobalStatsStatus

pub record GlobalStatsState (F : Type 0) : Type 0 where
  pub enabled : Bool
  pub use_mask : Bool
  pub status : GlobalStatsStatus
  pub count : ℕ
  pub min : F
  pub max : F
  pub mean : F
  pub median : F

-- One of the images, and the sizes and pixels of the processed image.
pub record Source (F : Type 0) : Type 0 where
  pub is_valid : Bool
  pub width : ℕ
  pub height : ℕ
  pub pixel : ℕ → F

pub record Input (F : Type 0) : Type 0 where
  pub nx : ℕ
  pub ny : ℕ
  pub has_data : Bool  -- m_calData is not null
  pub cal_data : ℕ → F
  pub image : Source F
  pub mask : Source F

abbrev pub blank : {F D : Type 0} → Arithmetic F D → GlobalStatsState F
blank o = record {
  enabled = false;
  use_mask = true;
  status = unavailable;
  count = 0;
  min = o.nought;
  max = o.nought;
  mean = o.nought;
  median = o.nought;
}

unfoldable pub input_status : {F : Type 0} → Bool → Input F → GlobalStatsStatus
input_status use_mask i =
    if not i.image.is_valid || i.nx == 0 || i.ny == 0 || not i.has_data
    then no_image
    else if not (i.image.width == i.nx) || not (i.image.height == i.ny)
    then size_mismatch
    else if not use_mask
    then valid
    else if not i.mask.is_valid
    then no_mask
    else if not (i.mask.width == i.nx) || not (i.mask.height == i.ny)
    then size_mismatch
    else valid

-- A pixel that contributes: selected by the mask, if that is used, and finite.
abbrev pub counts : {F D : Type 0} → Arithmetic F D → Bool → Input F → ℕ → Bool
counts o use_mask i n =
    not (use_mask && not (o.is_one (i.mask.pixel n)) || not (o.is_finite (i.cal_data n)))

-- What the loop keeps.
pub record Sums (F D : Type 0) : Type 0 where
  pub count : ℕ
  pub low : F
  pub high : F
  pub sum : D
  pub work : List F  -- m_globalStatsMedWork

abbrev pub no_sums : {F D : Type 0} → Arithmetic F D → Sums F D
no_sums o = record { count = 0; low = o.nought; high = o.nought; sum = o.start; work = [] }

-- `std::min` and `std::max`.
abbrev pub min_of : {F D : Type 0} → Arithmetic F D → F → F → F
min_of o a b = if o.less b a then b else a

abbrev pub max_of : {F D : Type 0} → Arithmetic F D → F → F → F
max_of o a b = if o.less a b then b else a

unfoldable pub visit : {F D : Type 0} → Arithmetic F D → F → Sums F D → Sums F D
visit o value s = record {
  count = s.count + 1;
  low = if s.count == 0 then value else min_of o s.low value;
  high = if s.count == 0 then value else max_of o s.high value;
  sum = o.plus s.sum value;
  work = s.work ++ value ∷ [];
}

-- The loop, from pixel `n` on, over `k` pixels.
pub tally : {F D : Type 0} → Arithmetic F D → Bool → Input F → ℕ → ℕ → Sums F D → Sums F D
unfolding visit
tally o use_mask i n zero s = s
tally o use_mask i n (suc k) s =
    tally o use_mask i (n + 1) k (if counts o use_mask i n then visit o (i.cal_data n) s else s)

-- The result of the loop: statistics, or `empty`.
pub summary : {F D : Type 0} → Arithmetic F D → Bool → Sums F D → GlobalStatsState F
summary o use_mask s =
    let base = record (blank o) {
      enabled = true;
      use_mask = use_mask;
      status = valid;
      count = s.count;
      min = s.low;
      max = s.high;
    } in
    if s.count == 0
    then record base { status = empty }
    else record base { mean = o.mean s.sum s.count; median = o.median s.work }

-- `status` is the one of the last snapshot of the input.
unfoldable pub calc_global_stats :
    {F D : Type 0} → Arithmetic F D → Bool → GlobalStatsStatus → Input F → GlobalStatsState F
unfolding tally summary
calc_global_stats o use_mask valid i =
    summary o use_mask (tally o use_mask i 0 (i.nx * i.ny) (no_sums o))
calc_global_stats o use_mask status i = record (blank o) {
  enabled = true;
  use_mask = use_mask;
  status = status;
}
