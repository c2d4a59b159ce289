-- ===== src/Image/Shmim/Watch.antt =====
-- The handle and the timer of common/images/shmimImage.cpp: the image is open exactly while it is attached,
-- and the timer runs exactly while it is not.
use rtimv.Common.{
  ℕ, ◌≡◌, refl, Option, none, some, Bool, true, false, not, ◌||◌, ◌==◌, leb, arith, if◌then◌else◌,
  if_both, if_cases, option_both, subst, sym, ◌∙◌,
}
use rtimv.Image.{age_update}
use rtimv.Image.Rate.{FloatOps}
use rtimv.Image.Counters.{missing, fresh, stale}
use rtimv.Image.Shmim.{
  Shmim, Metadata, Attempt, attach, im_connect, shmim_timerout, let_go, detach, renew, recheck,
  wait, idle, look, update,
}

-- An event of the running timer, and an update.
pub data Step {F : Type 0} (o : FloatOps F) : Shmim F → Shmim F → Type 0 where
  looked :
      (s t : Shmim F) (a : Attempt F)
      → s.timer_running ≡ true
      → shmim_timerout a s ≡ some t
      → Step o s t
  shown :
      (s t : Shmim F) (m : Metadata F) (gone : Bool) (stat : Option ℕ) (code : ℕ)
      → update o m gone stat s ≡ some (t, code)
      → Step o s t

pub data Steps {F : Type 0} (o : FloatOps F) (s : Shmim F) : Shmim F → Type 0 where
  here : Steps o s s
  next : {t u : Shmim F} → Steps o s t → Step o t u → Steps o s u

pub record IsHeld {F : Type 0} (s : Shmim F) : Type 0 where
  pub held : s.is_open ≡ s.attached
  pub timed : s.timer_running ≡ not s.attached
  pub cleared : s.attached ≡ false → s.curr ≡ none

abbrev Stays : {F : Type 0} → (Shmim F → Type 0) → Option (Shmim F) → Type 0
Stays P none = Unit
Stays P (some t) = P t

abbrev Ends : {F : Type 0} → (Shmim F → Type 0) → Option (Shmim F × ℕ) → Type 0
Ends P none = Unit
Ends P (some (t, code)) = P t

-- An attempt that starts closed ends open exactly if it attaches.
record IsTried {F : Type 0} (s : Shmim F) : Type 0 where
  held : s.is_open ≡ s.attached
  cleared : s.attached ≡ false → s.curr ≡ none
  stopped : s.timer_running ≡ false

attach-IsTried :
    {F : Type 0} (a : Attempt F) (m : Metadata F) (s : Shmim F)
    → s.is_open ≡ true
    → s.timer_running ≡ false
    → Stays IsTried (attach a m s)
unfolding attach
attach-IsTried a m s o h =
    if_both (Stays IsTried) (leb m.sem 1) (record { held = refl; cleared = λ _. refl; stopped = h })
      (option_both (Stays IsTried) m.bytes tt (λ bytes.
        option_both IsTried a.stat (record { held = refl; cleared = λ _. refl; stopped = h })
          (λ inode. record { held = o; cleared = λ e. cc; stopped = h })))

im_connect-IsTried :
    {F : Type 0} (a : Attempt F) (s : Shmim F)
    → s.is_open ≡ false
    → s.attached ≡ false
    → s.curr ≡ none
    → s.timer_running ≡ false
    → Stays IsTried (im_connect a s)
unfolding im_connect
im_connect-IsTried a s h k c r =
    if_both (Stays IsTried) (not a.exists_file)
      (record { held = h ∙ sym k; cleared = λ _. c; stopped = r })
      (option_both (Stays IsTried) a.opens (record { held = h; cleared = λ _. refl; stopped = r })
        (λ m. attach-IsTried a m (record s { not_found_logged = false; is_open = true }) refl r))

-- The end of an attempt, which starts the timer again if nothing was attached.
tried :
    {F : Type 0} (r : Option (Shmim F))
    → Stays IsTried r
    → Stays IsHeld (elim r [
      | none ↦ none
      | some t ↦ some (if not t.attached then record t { timer_running = true } else t)
    ])
tried none v = tt
tried (some t) v =
    if_cases IsHeld (not t.attached)
      (λ e. record { held = v.held; timed = sym e; cleared = v.cleared })
      (λ e. record { held = v.held; timed = v.stopped ∙ sym e; cleared = v.cleared })

shmim_timerout-IsHeld :
    {F : Type 0} (a : Attempt F) (s : Shmim F)
    → s.is_open ≡ false
    → s.attached ≡ false
    → s.curr ≡ none
    → Stays IsHeld (shmim_timerout a s)
unfolding shmim_timerout
shmim_timerout-IsHeld a s h k c =
    tried (im_connect a (record s { timer_running = false }))
      (im_connect-IsTried a (record s { timer_running = false }) h k c refl)

let_go-IsHeld : {F : Type 0} (s : Shmim F) → IsHeld (let_go s)
let_go-IsHeld s = record { held = refl; timed = refl; cleared = λ _. refl }

detach-IsHeld : {F : Type 0} (s : Shmim F) → IsHeld s → IsHeld (detach s)
unfolding detach
detach-IsHeld s v = if_both IsHeld (not s.attached) v (let_go-IsHeld s)

recheck-IsHeld :
    {F : Type 0} (gone : Bool) (stat : Option ℕ) (s : Shmim F)
    → IsHeld s
    → IsHeld (recheck gone stat s)
unfolding recheck
recheck-IsHeld gone stat s v =
    let t = if gone then detach s else s in
    let w = if_both IsHeld gone (detach-IsHeld s v) v in
    option_both IsHeld stat (detach-IsHeld t w)
      (λ inode. if_both IsHeld (not (inode == t.inode)) (detach-IsHeld t w) w)

renew-IsHeld :
    {F : Type 0} (o : FloatOps F) (m : Metadata F) (s : Shmim F)
    → IsHeld s
    → s.attached ≡ true
    → Ends IsHeld (renew o m s)
unfolding renew
renew-IsHeld o m s v e =
    option_both (Ends IsHeld) (fresh s.timeout s.counters) tt
      (λ c. record { held = v.held; timed = v.timed; cleared = λ d. absurd (apart d) })
  where
    apart : s.attached ≡ false → ⊥
    apart d = cc

wait-IsHeld :
    {F : Type 0} (gone : Bool) (stat : Option ℕ) (s : Shmim F)
    → IsHeld s
    → Ends IsHeld (wait gone stat s)
unfolding wait
wait-IsHeld gone stat s v = option_both (Ends IsHeld) (stale s.timeout s.counters) tt (λ c.
    let w = if_both IsHeld (c.1 == age_update) (recheck-IsHeld gone stat s v) v in
    record { held = w.held; timed = w.timed; cleared = w.cleared })

update-IsHeld :
    {F : Type 0} (o : FloatOps F) (m : Metadata F) (gone : Bool) (stat : Option ℕ) (s : Shmim F)
    → IsHeld s
    → Ends IsHeld (update o m gone stat s)
unfolding update look idle
update-IsHeld o m gone stat s v =
    if_cases (Ends IsHeld) (not s.attached)
      (λ _.
        option_both (Ends IsHeld) (missing s.timeout s.counters) tt
          (λ c. record { held = v.held; timed = v.timed; cleared = v.cleared }))
      (λ e. if_both (Ends IsHeld) (m.sem == 0) (let_go-IsHeld s) (
        if_both (Ends IsHeld) (not (m.width == s.nx) || not (m.height == s.ny)) (let_go-IsHeld s) (
          if_both (Ends IsHeld) (not (m.cnt0 == s.last_cnt0)) (renew-IsHeld o m s v (ground arith))
            (wait-IsHeld gone stat s v))))

Step-IsHeld : {F : Type 0} (o : FloatOps F) {s t : Shmim F} → Step o s t → IsHeld s → IsHeld t
Step-IsHeld o (looked s t a r e) v =
    subst (Stays IsHeld) e
      (shmim_timerout-IsHeld a s (v.held ∙ idle_now) idle_now (v.cleared idle_now))
  where
    idle_now : s.attached ≡ false
    idle_now = ground (arith, v.timed)
Step-IsHeld o (shown s t m gone stat code e) v =
    subst (Ends IsHeld) e (update-IsHeld o m gone stat s v)

-- Starting from a state in which this holds, whatever the timer, the file system and the writer of
-- the image do: the image is open exactly while it is attached, so that it is closed once for each
-- time it is opened; the timer runs exactly while the image is not attached; and no pixels are
-- pointed at then.
pub Steps-IsHeld : {F : Type 0} (o : FloatOps F) {s t : Shmim F} → Steps o s t → IsHeld s → IsHeld t
Steps-IsHeld o here v = v
Steps-IsHeld o (next r p) v = Step-IsHeld o p (Steps-IsHeld o r v)
