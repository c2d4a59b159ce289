-- ===== src/Mirror/Statistics.antt =====
-- The global statistics that a server computed reach the client as they are: `mtxL_calcGlobalStats` of
-- common/rtimvBase.cpp, the switch in `populateImageReply` of server/rtimvServerThread.cpp, and
-- `receiveGlobalStats` of server/rtimvClientBase.cpp.
use rtimv.Common.{
  ℕ, ◌*◌, ◌≡◌, refl, some, Bool, true, false, ◌&&◌, List, [], ◌∷◌, ◌==◌, ltb, All, All-Among,
  length, arith, sym, subst,
}
use rtimv.Stats.{
  Arithmetic, GlobalStatsState, GlobalStatsStatus, unavailable, valid, no_image, no_mask,
  size_mismatch, empty, unsupported, Input, blank, calc_global_stats,
}
use rtimv.Stats.Tally.{contributing, IsOrder, total}
use rtimv.Stats.Global.{IsSummary, calc-IsSummary}
use rtimv.Stats.Contributions.{contributing_finite, calc_nothing, calc_enabled}
use rtimv.Client.{Floats}
use rtimv.Client.Statistics.{is_believed, read_stats, status_of}
use rtimv.Mirror.Codes.{status2grpc}
use rtimv.Mirror.Message.{wire_stats}

all_six :
    (a : Bool) (n : ℕ) (b c d e : Bool)
    → a ≡ true
    → (n == 0) ≡ false
    → b ≡ true
    → c ≡ true
    → d ≡ true
    → e ≡ true
    → (a && ltb 0 n && b && c && d && e) ≡ true
all_six a n b c d e p q r s t u = ground arith

module _ {F D : Type 0} (o : Arithmetic F D) where
  abbrev pub floats_of : Floats F
  floats_of = record { nought = o.nought; is_finite = o.is_finite }

  -- Means and medians of finite values are finite.
  pub record KeepsFinite : Type 0 where
    pub mean :
        (v : F) (vs : List F)
        → All (λ u. o.is_finite u ≡ true) (v ∷ vs)
        → o.is_finite (o.mean (total o o.start (v ∷ vs)) (length (v ∷ vs))) ≡ true
    pub median :
        (v : F) (vs : List F)
        → All (λ u. o.is_finite u ≡ true) (v ∷ vs)
        → o.is_finite (o.median (v ∷ vs)) ≡ true

  -- A result that is believed is read as it is.
  believed_read :
      (s : GlobalStatsStatus) (g : GlobalStatsState F)
      → s ≡ valid
      → is_believed floats_of (wire_stats (record g { status = s })) ≡ true
      → read_stats floats_of (some (wire_stats (record g { status = s }))) ≡ record g { status = s }
  unfolding read_stats status_of status2grpc
  believed_read valid g e h = rw (h) refl
  believed_read unavailable g e h = absurd (ground (arith, e))
  believed_read no_image g e h = absurd (ground (arith, e))
  believed_read no_mask g e h = absurd (ground (arith, e))
  believed_read size_mismatch g e h = absurd (ground (arith, e))
  believed_read empty g e h = absurd (ground (arith, e))
  believed_read unsupported g e h = absurd (ground (arith, e))

  -- Statistics of no pixel.
  unread :
      (use_mask : Bool) (status : GlobalStatsStatus)
      → (status ≡ valid → ⊥)
      → (status ≡ unsupported → ⊥)
      → read_stats floats_of (
          some (
            wire_stats (record (blank o) { enabled = true; use_mask = use_mask; status = status })))
        ≡ record (blank o) { enabled = true; use_mask = use_mask; status = status }
  unfolding read_stats status_of status2grpc
  unread use_mask unavailable h k = refl
  unread use_mask valid h k = absurd (h refl)
  unread use_mask no_image h k = refl
  unread use_mask no_mask h k = refl
  unread use_mask size_mismatch h k = refl
  unread use_mask empty h k = refl
  unread use_mask unsupported h k = absurd (k refl)

  valid_read :
      (use_mask : Bool) (i : Input F)
      → IsOrder o
      → KeepsFinite
      → read_stats floats_of (some (wire_stats (calc_global_stats o use_mask valid i)))
        ≡ calc_global_stats o use_mask valid i
  valid_read use_mask i order keeps =
      go (contributing o use_mask i 0 (i.nx * i.ny)) refl (calc-IsSummary o use_mask i order)
        (contributing_finite o use_mask i 0 (i.nx * i.ny))
    where
      result : GlobalStatsState F
      result = calc_global_stats o use_mask valid i

      there : (v : F) (vs : List F) → IsSummary o (v ∷ vs) result → (result.count == 0) ≡ false
      there v vs s = ground (arith, s.count)

      believed :
          (v : F) (vs : List F)
          → IsSummary o (v ∷ vs) result
          → All (λ u. o.is_finite u ≡ true) (v ∷ vs)
          → is_believed floats_of (wire_stats result) ≡ true
      believed v vs s f =
          let e = there v vs s in
          let enabled = calc_enabled o use_mask i in
          let low = All-Among (λ u. o.is_finite u ≡ true) result.min (v ∷ vs) f (s.min e).0 in
          let high = All-Among (λ u. o.is_finite u ≡ true) result.max (v ∷ vs) f (s.max e).0 in
          let mean : o.is_finite result.mean ≡ true =
            subst (λ u. o.is_finite u ≡ true) (sym (s.mean e)) (keeps.mean v vs f) in
          let median : o.is_finite result.median ≡ true =
            subst (λ u. o.is_finite u ≡ true) (sym (s.median e)) (keeps.median v vs f) in
          all_six result.enabled result.count (o.is_finite result.min) (o.is_finite result.max) _ _
            enabled e low high mean median

      go :
          (vs : List F)
          → contributing o use_mask i 0 (i.nx * i.ny) ≡ vs
          → IsSummary o vs result
          → All (λ u. o.is_finite u ≡ true) vs
          → read_stats floats_of (some (wire_stats result)) ≡ result
      go [] e s f =
          rw (calc_nothing o use_mask i e)
            (unread use_mask empty (λ k. ground (arith, k)) (λ k. ground (arith, k)))
      go (v ∷ vs) e s f =
          believed_read result.status result (s.some_left (there v vs s)) (believed v vs s f)

  -- The statistics that a server computed are those that the client keeps, whatever the status of the
  -- input and the mask, but for a status that the server does not give: if float `<` is a strict order
  -- and means and medians of finite values are finite.
  pub read_stats-calc_global_stats :
      (use_mask : Bool) (status : GlobalStatsStatus) (i : Input F)
      → IsOrder o
      → KeepsFinite
      → (status ≡ unsupported → ⊥)
      → read_stats floats_of (some (wire_stats (calc_global_stats o use_mask status i)))
        ≡ calc_global_stats o use_mask status i
  unfolding calc_global_stats
  read_stats-calc_global_stats use_mask valid i order keeps h = valid_read use_mask i order keeps
  read_stats-calc_global_stats use_mask unavailable i order keeps h =
      unread use_mask unavailable (λ k. ground (arith, k)) h
  read_stats-calc_global_stats use_mask no_image i order keeps h =
      unread use_mask no_image (λ k. ground (arith, k)) h
  read_stats-calc_global_stats use_mask no_mask i order keeps h =
      unread use_mask no_mask (λ k. ground (arith, k)) h
  read_stats-calc_global_stats use_mask size_mismatch i order keeps h =
      unread use_mask size_mismatch (λ k. ground (arith, k)) h
  read_stats-calc_global_stats use_mask empty i order keeps h =
      unread use_mask empty (λ k. ground (arith, k)) h
  read_stats-calc_global_stats use_mask unsupported i order keeps h = absurd (h refl)
