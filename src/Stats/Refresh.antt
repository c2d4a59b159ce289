-- ===== src/Stats/Refresh.antt =====
-- When the global statistics are computed again: `mtxL_globalStats`, `mtxUL_checkGlobalStats` and
-- the part of `mtxUL_changeImdata` that computes them, in common/rtimvBase.cpp.
use rtimv.Common.{
  ℕ, ◌≡◌, refl, Bool, true, false, not, ◌||◌, ◌==◌, arith, if◌then◌else◌, if_cases, if_both,
  Bool-cases, inl, inr, ◌∙◌, sym, ap,
}
use rtimv.Stats.{
  Arithmetic, GlobalStatsState, GlobalStatsStatus, unavailable, valid, no_image, no_mask,
  size_mismatch, empty, unsupported, Input, blank, summary, input_status, calc_global_stats,
}

pub record Monitor (F : Type 0) : Type 0 where
  pub result : GlobalStatsState F
  pub last_status : GlobalStatsStatus  -- m_globalStatsInputStatus
  pub refresh : Bool

-- What `mtxUL_checkGlobalStats` does after its locks: render the image again, or tell of a change.
pub data Action : Type 0 where
  nothing render notify : Action

abbrev pub number : GlobalStatsStatus → ℕ
number unavailable = 0
number valid = 1
number no_image = 2
number no_mask = 3
number size_mismatch = 4
number empty = 5
number unsupported = 6

abbrev pub is_status : GlobalStatsStatus → GlobalStatsStatus → Bool
is_status a b = number a == number b

-- `mtxL_globalStats`
unfoldable pub request : {F D : Type 0} → Arithmetic F D → Bool → Bool → Monitor F → Monitor F
request o enabled use_mask m = record m {
  result = record (blank o) { enabled = enabled; use_mask = use_mask };
  refresh = enabled;
}

-- `busy`: the lock of the image data is taken.
unfoldable pub check :
    {F D : Type 0} → Arithmetic F D → Bool → Input F → Monitor F → Monitor F × Action
check o busy i m =
    let status = input_status m.result.use_mask i in
    if busy || not m.result.enabled
    then (m, nothing)
    else if is_status status valid
    then (
      record m { refresh = not (is_status m.last_status status) || m.refresh },
      if not (is_status m.last_status status) || m.refresh then render else nothing,
    )
    else (
      record m {
        last_status = status;
        result = record (blank o) { enabled = true; use_mask = m.result.use_mask; status = status };
      },
      if not (is_status m.result.status status) then notify else nothing,
    )

-- A rendering of the image whose snapshot of the input is `i`.
unfoldable pub rendered : {F D : Type 0} → Arithmetic F D → Input F → Monitor F → Monitor F
rendered o i m =
    if m.result.enabled
    then record {
      result = calc_global_stats o m.result.use_mask (input_status m.result.use_mask i) i;
      last_status = input_status m.result.use_mask i;
      refresh = false;
    }
    else m

-- What a check does, with the rendering that it asks for.
pub respond : {F D : Type 0} → Arithmetic F D → Input F → Monitor F × Action → Monitor F
unfolding rendered
respond o i (m, render) = rendered o i m
respond o i (m, nothing) = m
respond o i (m, notify) = m

is_same : (a : GlobalStatsStatus) → is_status a a ≡ true
is_same a = ground arith

-- A computation keeps the settings.
calc_enabled :
    {F D : Type 0} (o : Arithmetic F D) (use_mask : Bool) (status : GlobalStatsStatus) (i : Input F)
    → (calc_global_stats o use_mask status i).enabled ≡ true
unfolding calc_global_stats summary
calc_enabled o use_mask unavailable i = refl
calc_enabled o use_mask valid i = ground arith
calc_enabled o use_mask no_image i = refl
calc_enabled o use_mask no_mask i = refl
calc_enabled o use_mask size_mismatch i = refl
calc_enabled o use_mask empty i = refl
calc_enabled o use_mask unsupported i = refl

calc_use_mask :
    {F D : Type 0} (o : Arithmetic F D) (use_mask : Bool) (status : GlobalStatsStatus) (i : Input F)
    → (calc_global_stats o use_mask status i).use_mask ≡ use_mask
unfolding calc_global_stats summary
calc_use_mask o use_mask unavailable i = refl
calc_use_mask o use_mask valid i = ground arith
calc_use_mask o use_mask no_image i = refl
calc_use_mask o use_mask no_mask i = refl
calc_use_mask o use_mask size_mismatch i = refl
calc_use_mask o use_mask empty i = refl
calc_use_mask o use_mask unsupported i = refl

-- The results are those of the input `i`.
record IsSettled {F : Type 0} (i : Input F) (m : Monitor F) : Type 0 where
  enabled : m.result.enabled ≡ true
  current :
      is_status (input_status m.result.use_mask i) valid ≡ true
      → (is_status m.last_status (input_status m.result.use_mask i) ≡ true) × (m.refresh ≡ false)
  refused :
      is_status (input_status m.result.use_mask i) valid ≡ false
      → is_status m.result.status (input_status m.result.use_mask i) ≡ true

settled_check :
    {F D : Type 0} (o : Arithmetic F D) (i : Input F) (m : Monitor F)
    → IsSettled i m
    → (check o false i m).1 ≡ nothing
unfolding check
settled_check o i m v = elim (Bool-cases (is_status (input_status m.result.use_mask i) valid)) [
  | inl e ↦ rw (check, v.enabled, e, (v.current e).0, (v.current e).1) refl
  | inr e ↦ rw (check, v.enabled, e, v.refused e) refl
]

calc_status :
    {F D : Type 0} (o : Arithmetic F D) (use_mask : Bool) (status : GlobalStatsStatus) (i : Input F)
    → is_status status valid ≡ false
    → (calc_global_stats o use_mask status i).status ≡ status
unfolding calc_global_stats
calc_status o use_mask unavailable i h = refl
calc_status o use_mask valid i h = cc
calc_status o use_mask no_image i h = refl
calc_status o use_mask no_mask i h = refl
calc_status o use_mask size_mismatch i h = refl
calc_status o use_mask empty i h = refl
calc_status o use_mask unsupported i h = refl

-- A rendering settles the results.
rendered-IsSettled :
    {F D : Type 0} (o : Arithmetic F D) (i : Input F) (m : Monitor F)
    → m.result.enabled ≡ true
    → IsSettled i (rendered o i m)
unfolding rendered
rendered-IsSettled o i m e =
    if_cases (IsSettled i) m.result.enabled
      (λ _. record {
        enabled = calc_enabled o um st i;
        current = λ _. (ap (λ b. is_status st (input_status b i)) same ∙ is_same st, refl);
        refused = λ n.
            ap (λ b. is_status (calc_global_stats o um st i).status (input_status b i)) same
            ∙ ap (λ t. is_status t st)
                (calc_status o um st i
                  (sym (ap (λ b. is_status (input_status b i) valid) same) ∙ n))
            ∙ is_same st;
      })
      (λ n. absurd (off n))
  where
    um : Bool
    um = m.result.use_mask

    st : GlobalStatsStatus
    st = input_status um i

    same : (calc_global_stats o um st i).use_mask ≡ um
    same = calc_use_mask o um st i

    off : m.result.enabled ≡ false → ⊥
    off n = cc

module _ {F D : Type 0} (o : Arithmetic F D) (i : Input F) (m : Monitor F)
    (on : m.result.enabled ≡ true) where
  abbrev seen : GlobalStatsStatus
  seen = input_status m.result.use_mask i

  abbrev again : Bool
  again = not (is_status m.last_status seen) || m.refresh

  abbrev refused_now : Monitor F
  refused_now = record m {
    last_status = seen;
    result = record (blank o) { enabled = true; use_mask = m.result.use_mask; status = seen };
  }

  abbrev Good : Monitor F × Action → Type 0
  Good p = IsSettled i (respond o i p)

  refused-IsSettled : is_status seen valid ≡ false → IsSettled i refused_now
  refused-IsSettled n = record {
    enabled = refl;
    current = λ v. absurd (clash v n);
    refused = λ _. is_same seen;
  }
    where
      clash : is_status seen valid ≡ true → is_status seen valid ≡ false → ⊥
      clash v n = cc

  quiet-IsSettled :
      is_status seen valid ≡ true → again ≡ false → IsSettled i (record m { refresh = again })
  quiet-IsSettled v k = record {
    enabled = on;
    current = λ _. (ground (arith, k), k);
    refused = λ n. absurd (clash v n);
  }
    where
      clash : is_status seen valid ≡ true → is_status seen valid ≡ false → ⊥
      clash v n = cc

  responded-IsSettled : IsSettled i (respond o i (check o false i m))
  unfolding respond check
  responded-IsSettled =
      if_cases Good (not m.result.enabled) (λ n. absurd (off n))
        (λ _.
          if_cases Good (is_status seen valid)
            (λ v.
              if_cases (λ (b : Action). Good (record m { refresh = again }, b)) again
                (λ _. rendered-IsSettled o i (record m { refresh = again }) on)
                (λ k. quiet-IsSettled v k))
            (λ n.
              if_both (λ (b : Action). Good (refused_now, b)) (not (is_status m.result.status seen))
                (refused-IsSettled n) (refused-IsSettled n)))
    where
      off : not m.result.enabled ≡ true → ⊥
      off n = ground (arith, on)

  -- With the statistics enabled, a check with the rendering that it asks for settles them: the next
  -- check of the same input asks for nothing, whatever the input and the state were.
  pub check_settles : (check o false i (respond o i (check o false i m))).1 ≡ nothing
  check_settles = settled_check o i (respond o i (check o false i m)) responded-IsSettled
