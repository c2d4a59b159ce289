-- ===== src/Image/Shmim/News.antt =====
-- Each new image of common/images/shmimImage.cpp is reported once, and its pixels lie in the image.
use rtimv.Common.{
  ℕ, ◌*◌, ◌≡◌, ◌≢◌, ◌≤◌, ◌<◌, refl, Option, some, Bool, true, false, not, ◌||◌, ◌==◌, arith,
  if◌then◌else◌, if_cases, option_at, ◌∙◌,
}
use rtimv.Image.Rate.{FloatOps}
use rtimv.Image.Counters.{fresh, stale}
use rtimv.Image.Counters.Codes.{fresh_new, stale_old}
use rtimv.Image.Shmim.{Shmim, Metadata, slice, renew, wait, look, update}

-- The image is attached, its writer lives, and its size is the one that was attached.
pub record IsLive {F : Type 0} (m : Metadata F) (s : Shmim F) : Type 0 where
  pub attached : s.attached ≡ true
  pub served : (m.sem == 0) ≡ false
  pub width : m.width ≡ s.nx
  pub height : m.height ≡ s.ny
  pub period : 0 < s.timeout

pub record IsShown {F : Type 0} (m : Metadata F) (s t : Shmim F) : Type 0 where
  pub live : IsLive m t
  pub curr : t.curr ≡ some (slice m * m.width * m.height * s.type_size)
  pub last : t.last_cnt0 ≡ m.cnt0

module _ {F : Type 0} (o : FloatOps F) (m : Metadata F) (gone : Bool) (stat : Option ℕ) where
  -- On a live image the serial number decides between the last two branches.
  live_look :
      (s : Shmim F)
      → IsLive m s
      → update o m gone stat s
        ≡ (if not (m.cnt0 == s.last_cnt0) then renew o m s else wait gone stat s)
  unfolding update look
  live_look s v =
      if_cases Same (not s.attached) (λ e. absurd (free e))
        (λ _.
          if_cases Same (m.sem == 0) (λ e. absurd (dead e))
            (λ _.
              if_cases Same (not (m.width == s.nx) || not (m.height == s.ny))
                (λ e. absurd (resized e)) (λ _. refl)))
    where
      Same : Option (Shmim F × ℕ) → Type 0
      Same r = r ≡ (if not (m.cnt0 == s.last_cnt0) then renew o m s else wait gone stat s)

      free : not s.attached ≡ true → ⊥
      free e = ground (arith, v.attached)

      dead : (m.sem == 0) ≡ true → ⊥
      dead e = ground (arith, v.served)

      resized : (not (m.width == s.nx) || not (m.height == s.ny)) ≡ true → ⊥
      resized e = ground (arith, v.width, v.height)

  Renews : Shmim F → Option (Shmim F × ℕ) → Type 0
  Renews s r = (t : Shmim F) × (code : ℕ) × (r ≡ some (t, code)) × (2 ≤ code) × IsShown m s t

  renewed : (s : Shmim F) → IsLive m s → Renews s (renew o m s)
  unfolding renew Renews
  renewed s v =
      let (d, code, e, h) = fresh_new s.timeout s.counters v.period in
      option_at (Renews s) (fresh s.timeout s.counters) _ _ (d, code) e
        (
          _,
          code,
          refl,
          h,
          record {
            live = record {
              attached = v.attached;
              served = v.served;
              width = v.width;
              height = v.height;
              period = v.period;
            };
            curr = refl;
            last = refl;
          },
        )

  Waits : Option (Shmim F × ℕ) → Type 0
  Waits r = (t : Shmim F) × (code : ℕ) × (r ≡ some (t, code)) × (code ≤ 1)

  waited : (s : Shmim F) → 0 < s.timeout → Waits (wait gone stat s)
  unfolding wait Waits
  waited s h =
      let (d, code, e, k) = stale_old s.timeout s.counters h in
      option_at Waits (stale s.timeout s.counters) _ _ (d, code) e (_, code, refl, k)

  -- An update of a live image whose serial number changed reports an image and points at the slice that was
  -- written last; the next update with the same metadata reports no image. The time between
  -- updates is positive.
  pub update_once :
      (s : Shmim F)
      → IsLive m s
      → m.cnt0 ≢ s.last_cnt0
      → (t u : Shmim F) × (code again : ℕ) × (update o m gone stat s ≡ some (t, code))
        × (2 ≤ code)
        × IsShown m s t
        × (update o m gone stat t ≡ some (u, again))
        × (again ≤ 1)
  unfolding Renews Waits
  update_once s v n =
      let (t, code, e, h, w) = renewed s v in
      let (u, again, f, k) = waited t w.live.period in
      (t, u, code, again, live_look s v ∙ new ∙ e, h, w, live_look t w.live ∙ old t w.last ∙ f, k)
    where
      new : (if not (m.cnt0 == s.last_cnt0) then renew o m s else wait gone stat s) ≡ renew o m s
      new = ground (arith, n)

      old :
          (t : Shmim F)
          → t.last_cnt0 ≡ m.cnt0
          → (if not (m.cnt0 == t.last_cnt0) then renew o m t else wait gone stat t)
            ≡ wait gone stat t
      old t e = ground (arith, e)
