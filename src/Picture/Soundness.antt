-- ===== src/Picture/Soundness.antt =====
-- Once an image was loaded, whatever is done to its picture in common/rtimvBase.cpp succeeds.
use rtimv.Common.{
  ℕ, ◌≡◌, refl, Option, none, some, Bool, false, not, ◌&&◌, ◌||◌, if_both, option_both, ltb, ◌>>=◌,
  is_null, arith,
}
use rtimv.Picture.{Numbers}
use rtimv.Picture.State.{Picture, is_box, is_user, shown, Told, tell}
use rtimv.Picture.Coloring.{Scaling, recolor_impl}
use rtimv.Picture.StatsBoxes.{calc_stats_box}
use rtimv.Picture.Change.{Setting, FilterWork, apply_filter, filtered}
use rtimv.Picture.Update.{rescale}

-- The result is there and has the property.
abbrev pub Gives : {A : Type 0} → (A → Type 0) → Option A → Type 0
Gives P none = ⊥
Gives P (some a) = P a

pub Gives-bind :
    {A B : Type 0} (P : A → Type 0) (Q : B → Type 0) (r : Option A) (f : A → Option B)
    → Gives P r
    → ((a : A) → P a → Gives Q (f a))
    → Gives Q (r >>= f)
Gives-bind P Q none f h k = elim h [ ]
Gives-bind P Q (some a) f h k = k a h

pub Gives-there :
    {A B : Type 0} (Q : B → Type 0) (r : Option A) (f : A → Option B)
    → is_null r ≡ false
    → ((a : A) → r ≡ some a → Gives Q (f a))
    → Gives Q (r >>= f)
Gives-there Q none f h k = absurd (ground arith)
Gives-there Q (some a) f h k = k a refl

pub Gives-weaken :
    {A : Type 0} {P Q : A → Type 0} → ((a : A) → P a → Q a) → (r : Option A) → Gives P r → Gives Q r
Gives-weaken f none h = elim h [ ]
Gives-weaken f (some a) h = f a h

-- The image data and the colours are there, and no picture of the user's scale follows its image.
pub record IsSound {F : Type 0} (p : Picture F) : Type 0 where
  pub raw : is_null p.cal_raw ≡ false
  pub colors : is_null p.qim ≡ false
  pub pointer : is_null (shown p) ≡ false
  pub exclusive : (is_user p.mode && p.auto_scale) ≡ false

pub tell-IsSound : {F : Type 0} (t : Told) (p : Picture F) → IsSound p → IsSound (tell t p)
tell-IsSound t p h = record {
  raw = h.raw;
  colors = h.colors;
  pointer = h.pointer;
  exclusive = h.exclusive;
}

module _ {F D : Type 0} (o : Numbers F D) (s : Scaling F) where
  pub recolor_impl-IsSound : (p : Picture F) → IsSound p → Gives IsSound (recolor_impl o s p)
  unfolding recolor_impl
  recolor_impl-IsSound p h = option_both (Gives IsSound) p.qim h (λ q.
      Gives-there IsSound (shown p) _ h.pointer (λ pixels k. record {
        raw = h.raw;
        colors = refl;
        pointer = h.pointer;
        exclusive = h.exclusive;
      }))

  pub calc_stats_box-IsSound : (p : Picture F) → IsSound p → Gives IsSound (calc_stats_box o p)
  unfolding calc_stats_box
  calc_stats_box-IsSound p h = if_both (Gives IsSound) (not p.stats_box.enabled) h (
      if_both (Gives IsSound) (ltb p.nx 2 || ltb p.ny 2 || is_null (shown p))
        (record { raw = h.raw; colors = h.colors; pointer = h.pointer; exclusive = h.exclusive })
        (Gives-there IsSound (shown p) _ h.pointer (λ pixels k. record {
          raw = h.raw;
          colors = h.colors;
          pointer = h.pointer;
          exclusive = h.exclusive;
        })))

module _ {F D : Type 0} (o : Setting F D) where
  pub filtered-IsSound :
      (w : FilterWork F) (raw : ℕ → F) (p : Picture F) → IsSound p → IsSound (filtered w raw p)
  unfolding filtered apply_filter
  filtered-IsSound w raw p h = record {
    raw = ground (arith, h.raw);
    colors = ground (arith, h.colors);
    pointer = ground (arith, h.raw);
    exclusive = ground (arith, h.exclusive);
  }

  pub rescale-IsSound :
      (resized : Bool) (pixels : ℕ → F) (p : Picture F)
      → IsSound p
      → IsSound (rescale o resized pixels p)
  unfolding rescale
  rescale-IsSound resized pixels p h =
      if_both IsSound (is_box p.mode)
        (record { raw = h.raw; colors = h.colors; pointer = h.pointer; exclusive = h.exclusive })
        (if_both IsSound (resized || p.auto_scale)
          (record { raw = h.raw; colors = h.colors; pointer = h.pointer; exclusive = h.exclusive })
          (record { raw = h.raw; colors = h.colors; pointer = h.pointer; exclusive = h.exclusive }))
