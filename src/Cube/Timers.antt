-- ===== src/Cube/Timers.antt =====
-- The intervals of the timers of src/common/rtimvBase.cpp.
use rtimv.Common.{
  ℕ, ◌≡◌, ◌≢◌, ◌⊎◌, inl, inr, refl, ap, subst, Option, none, some, Bool, true, false, List, [], ◌∷◌,
  if_cases, leb→le, All, arith,
}
use rtimv.Common.Int.{ℤ, pos, negsuc, ◌≤ℤ◌, leb_ℤ, is_equal_ℤ}
use rtimv.Cube.{
  Pacing, Cube, CubeSignal, signal, Pace, positive_of, told_sources, halted, halt, pace, play,
  take_interval, set_curr_image_timeout, set_image_timeout, set_cube_mode, set_cube_fps,
  set_cube_fps_mult, set_cube_dir, real_time_stopped,
}

-- The source is not there, or was told the interval.
abbrev WasTold : ℤ → Option ℤ → Type 0
WasTold c none = Unit
WasTold c (some t) = t ≡ c

told_each : (c : ℤ) (ss : List (Option ℤ)) → All (WasTold c) (told_sources c ss)
told_each c [] = tt
told_each c (none ∷ ss) = (tt, told_each c ss)
told_each c (some t ∷ ss) = (refl, told_each c ss)

equal_ℤ : (a b : ℤ) → is_equal_ℤ a b ≡ true → a ≡ b
equal_ℤ (pos a) (pos b) e = ap pos (ground (arith, e))
equal_ℤ (negsuc a) (negsuc b) e = ap negsuc (ground (arith, e))
equal_ℤ (pos a) (negsuc b) e = absurd (ground (arith, e))
equal_ℤ (negsuc a) (pos b) e = absurd (ground (arith, e))

is_equal_ℤ-refl : (a : ℤ) → is_equal_ℤ a a ≡ true
is_equal_ℤ-refl (pos a) = ground arith
is_equal_ℤ-refl (negsuc a) = ground arith

positive_of_lem : (a : ℤ) → pos 1 ≤ℤ positive_of a
positive_of_lem (pos a) = ground arith
positive_of_lem (negsuc a) = ground arith

module _ {F : Type 0} (o : Pacing F) where
  -- The timer of the cube is stopped, or a rate is wanted in the mode of cubes.
  abbrev CubeTimed : Cube F → Type 0
  CubeTimed s = (s.cube_timer ≡ none) ⊎ ((s.mode ≡ true) × (o.at_most_nought s.desired ≡ false))

  pub record IsPaced (s : Cube F) : Type 0 where
    pub positive : pos 1 ≤ℤ s.current
    pub bounded : s.current ≤ℤ s.image_timeout
    pub runs : s.image_timer ≡ some s.current
    pub sources : All (WasTold s.current) s.sources
    pub cube : CubeTimed s

  above : (s : Cube F) → IsPaced s → pos 1 ≤ℤ s.image_timeout
  above s h = let p = h.positive in let b = h.bounded in omega arith

  pace_bounded :
      (s : Cube F)
      → pos 1 ≤ℤ s.image_timeout
      → (pos 1 ≤ℤ (pace o s).image) × ((pace o s).image ≤ℤ s.image_timeout)
  unfolding pace
  pace_bounded s h =
      let wish = positive_of (o.interval s.desired s.mult) in
      if_cases (λ (p : Pace F). (pos 1 ≤ℤ p.image) × (p.image ≤ℤ s.image_timeout))
        (leb_ℤ wish s.image_timeout)
        (λ e. (positive_of_lem (o.interval s.desired s.mult), leb→le _ _ e)) (λ e. (h, omega arith))

  take_interval-IsPaced :
      (c : ℤ) (s : Cube F)
      → pos 1 ≤ℤ c
      → c ≤ℤ s.image_timeout
      → s.image_timer ≡ some s.current
      → All (WasTold s.current) s.sources
      → CubeTimed s
      → IsPaced (take_interval o c s)
  unfolding take_interval
  take_interval-IsPaced c s p b r t k =
      if_cases IsPaced (is_equal_ℤ c s.current)
        (λ e.
          let f = equal_ℤ c s.current e in
          record {
            positive = subst (λ a. pos 1 ≤ℤ a) f p;
            bounded = subst (λ a. a ≤ℤ s.image_timeout) f b;
            runs = r;
            sources = t;
            cube = k;
          })
        (λ e. record {
          positive = p;
          bounded = b;
          runs = refl;
          sources = told_each c s.sources;
          cube = k;
        })

  set_curr-IsPaced :
      (s : Cube F)
      → pos 1 ≤ℤ s.image_timeout
      → s.image_timer ≡ some s.current
      → All (WasTold s.current) s.sources
      → IsPaced (set_curr_image_timeout o s)
  unfolding set_curr_image_timeout
  set_curr-IsPaced s h r t =
      let b = pace_bounded s h in
      if_cases IsPaced (halted o s)
        (λ e. take_interval-IsPaced s.image_timeout (halt o s) h (omega arith) r t (inl refl))
        (λ e.
          if_cases (λ u. IsPaced (take_interval o (pace o s).image u)) s.mode
            (λ m. take_interval-IsPaced (pace o s).image _ b.0 b.1 r t (inr (m, wanted s e)))
            (λ m. take_interval-IsPaced (pace o s).image _ b.0 b.1 r t (inl refl)))
    where
      wanted : (s : Cube F) → halted o s ≡ false → o.at_most_nought s.desired ≡ false
      wanted s e = ground (arith, e)

  -- A change of the settings, or of the number of planes by an image.
  pub data Change : Type 0 where
    image_timeout dir : ℤ → Change
    mode : Bool → Change
    fps mult : F → Change
    planes : ℕ → Change

  abbrev pub apply : Change → Cube F → Cube F
  apply (image_timeout t) s = set_image_timeout o t s
  apply (dir d) s = set_cube_dir o d s
  apply (mode b) s = set_cube_mode o b s
  apply (fps v) s = set_cube_fps o v s
  apply (mult v) s = set_cube_fps_mult o v s
  apply (planes n) s = record s { nz = n }

  -- Intervals are positive.
  abbrev pub IsAllowed : Change → Type 0
  IsAllowed (image_timeout t) = pos 1 ≤ℤ t
  IsAllowed (dir d) = Unit
  IsAllowed (mode b) = Unit
  IsAllowed (fps v) = Unit
  IsAllowed (mult v) = Unit
  IsAllowed (planes n) = Unit

  abbrev pub run : List Change → Cube F → Cube F
  run [] s = s
  run (c ∷ cs) s = run cs (apply c s)

  signal-IsPaced : (s : Cube F) (e : CubeSignal F) → IsPaced s → IsPaced (signal o e s)
  signal-IsPaced s e h = record {
    positive = h.positive;
    bounded = h.bounded;
    runs = h.runs;
    sources = h.sources;
    cube = h.cube;
  }

  apply-IsPaced : (c : Change) (s : Cube F) → IsAllowed c → IsPaced s → IsPaced (apply c s)
  unfolding set_image_timeout set_cube_dir set_cube_mode set_cube_fps set_cube_fps_mult
  apply-IsPaced (image_timeout t) s a h = set_curr-IsPaced _ a h.runs h.sources
  apply-IsPaced (dir d) s a h = record {
    positive = h.positive;
    bounded = h.bounded;
    runs = h.runs;
    sources = h.sources;
    cube = h.cube;
  }
  apply-IsPaced (mode b) s a h =
      signal-IsPaced _ _ (set_curr-IsPaced _ (above s h) h.runs h.sources)
  apply-IsPaced (fps v) s a h = signal-IsPaced _ _ (set_curr-IsPaced _ (above s h) h.runs h.sources)
  apply-IsPaced (mult v) s a h =
      signal-IsPaced _ _ (set_curr-IsPaced _ (above s h) h.runs h.sources)
  apply-IsPaced (planes n) s a h = record {
    positive = h.positive;
    bounded = h.bounded;
    runs = h.runs;
    sources = h.sources;
    cube = h.cube;
  }

  -- From a state for which the following holds, after any changes of the settings, to positive
  -- intervals, and of the number of planes, with no stop or start of the reading of images between
  -- them, it holds still: the timer of images runs at the current
  -- interval, which every source there was told; it is at least 1 and at most the interval that is set
  -- for images. The timer of the cube runs only in the mode of cubes, when a rate is wanted.
  pub run-IsPaced :
      (cs : List Change) (s : Cube F) → All IsAllowed cs → IsPaced s → IsPaced (run cs s)
  run-IsPaced [] s a h = h
  run-IsPaced (c ∷ cs) s a h = run-IsPaced cs (apply c s) a.1 (apply-IsPaced c s a.0 h)

  abbrev pub restarted : Cube F → Cube F
  restarted s = real_time_stopped o false (real_time_stopped o true s)

  take_same : (c : ℤ) (s : Cube F) → c ≡ s.current → take_interval o c s ≡ s
  unfolding take_interval
  take_same c s e = rw (e, is_equal_ℤ-refl s.current) refl

  -- The interval is the current one: no timer of images is started.
  stays :
      (s : Cube F)
      → halted o s ≡ false
      → (pace o s).image ≡ s.current
      → set_curr_image_timeout o s ≡ play o (pace o s) s
  unfolding set_curr_image_timeout
  stays s h e = rw (h) (
      if_cases (λ u. take_interval o (pace o s).image u ≡ u) s.mode
        (λ m. take_same (pace o s).image _ e) (λ m. take_same (pace o s).image _ e))

  -- The current interval is that of a cube and not that of images, and the user stops and starts the
  -- reading of images: it goes on at the interval of images, the current interval stays the other, and
  -- the mode of cubes, set again, starts the timer of the cube and does not change that.
  pub restart_lags :
      (s : Cube F)
      → halted o s ≡ false
      → (pace o s).image ≡ s.current
      → s.current ≢ s.image_timeout
      → ((restarted s).image_timer ≡ some s.image_timeout)
        × ((restarted s).current ≢ s.image_timeout)
        × ((set_cube_mode o true (restarted s)).image_timer ≡ some s.image_timeout)
        × ((set_cube_mode o true (restarted s)).cube_timer ≡ some (pace o s).cube)
  unfolding set_cube_mode real_time_stopped pace
  restart_lags s h e d =
      let again : Cube F = record s {
        mode = true;
        is_stopped = false;
        image_timer = some s.image_timeout;
      } in
      let same = stays again h e in (refl, d, rw (same) refl, rw (same) refl)
