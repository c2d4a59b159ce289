-- ===== src/Picture/Filtering.antt =====
-- `mtxL_applyFilter` of common/rtimvBase.cpp chooses among three buffers; what it leaves for
-- `m_calData` is the image through the filters that are on.
use rtimv.Common.{ℕ, ◌≡◌, some, ◌&&◌, if◌then◌else◌, arith}
use rtimv.Picture.State.{Picture, Filters, shown}
use rtimv.Picture.Change.{FilterWork, apply_filter, filtered}

module _ {F : Type 0} (w : FilterWork F) where
  -- The filters one after the other.
  abbrev pub through : Filters → (ℕ → F) → ℕ → F
  through s raw =
      let high = if s.apply_hp && s.hp_set then w.high_pass raw else raw in
      let low = if s.apply_lp && s.lp_set then w.low_pass high else high in
      if s.apply_mtf then w.transfer_function low else low

  -- With the raw pixels of an image there, the pixels that are shown after filtering are these, first
  -- through the high-pass filter, then through the low-pass filter, each only if it is on and set,
  -- then through the transfer function function, if that is on; the raw pixels stay.
  pub filtered_shows :
      (raw : ℕ → F) (p : Picture F)
      → p.cal_raw ≡ some raw
      → (shown (filtered w raw p) ≡ some (through p.filters raw))
        × ((filtered w raw p).cal_raw ≡ some raw)
  unfolding filtered apply_filter
  filtered_shows raw p e = ground (arith, e)
