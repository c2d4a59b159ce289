-- ===== src/Picture/Saturation.antt =====
-- Which pixels `mtxUL_changeImdata` of common/rtimvBase.cpp marks as saturated, and how many.
use rtimv.Common.{
  ℕ, zero, suc, ◌+◌, ◌≤◌, ◌<◌, ◌≡◌, refl, some, Bool, true, false, ◌&&◌, ◌||◌, ◌==◌, if◌then◌else◌,
  if_cases, Bool-cases, inl, inr, ltb, for_range, for_range_inv, arith, sym, ap, ◌∙◌,
}
use rtimv.Stats.{Source}
use rtimv.Pixels.{BaseImages, PixelF, pixel_no_cal, pixel_at, raw_pixel, evaluate}
use rtimv.Picture.Change.{Setting, put_flag}
use rtimv.Picture.Loading.{Loaded, load_pixel, load_pixels, mark_pixel}
use rtimv.Picture.Soundness.{Gives, Gives-bind, Gives-there}
use rtimv.Picture.Total.{chosen_runs}

-- How many of the first `n` flags are 1.
abbrev pub flagged : (ℕ → ℕ) → ℕ → ℕ
flagged f zero = 0
flagged f (suc n) = flagged f n + (if f n == 1 then 1 else 0)

flagged_below : (f : ℕ → ℕ) (k v n : ℕ) → n ≤ k → flagged (put_flag k v f) n ≡ flagged f n
flagged_below f k v zero h = refl
flagged_below f k v (suc n) h = ground (arith, flagged_below f k v n (omega arith))

flagged_raised :
    (f : ℕ → ℕ) (k n : ℕ) → k < n → f k ≡ 0 → flagged (put_flag k 1 f) n ≡ flagged f n + 1
flagged_raised f k zero h e = absurd (omega arith)
flagged_raised f k (suc n) h e = elim (Bool-cases (n == k)) [
  | inl p ↦ ground (arith, flagged_below f k 1 n (ground arith), e)
  | inr p ↦ ground (arith, flagged_raised f k n (ground arith) e)
]

module _ {F D : Type 0} (o : Setting F D) where
  abbrev pub hits : F → Source F → ℕ → Bool
  hits level i n = o.numbers.at_least (i.pixel n) level

  -- The first loop, up to pixel `k`.
  pub record IsLoaded (level : F) (f : PixelF) (s : BaseImages F) (i : Source F) (k : ℕ)
      (l : Loaded F) : Type 0 where
    pub flags : (n : ℕ) → n < k → l.flags n ≡ (if hits level i n then 1 else 0)
    pub values : (n : ℕ) → n < k → evaluate o.floats f s n ≡ some (l.values n)
    pub saturated : l.saturated ≡ flagged l.flags k

  load_pixel-IsLoaded :
      (level : F) (f : PixelF) (x y : Bool) (s : BaseImages F) (i : Source F) (k : ℕ) (l : Loaded F)
      → s.image ≡ some i
      → raw_pixel x y s ≡ some f
      → IsLoaded level f s i k l
      → Gives (IsLoaded level f s i (suc k)) (load_pixel o level f s k l)
  unfolding load_pixel
  load_pixel-IsLoaded level f x y s i k l e h p = rw (plain_at) (
      Gives-there (IsLoaded level f s i (suc k)) (evaluate o.floats f s k) _
        (chosen_runs o.floats f s i e x y h k)
        (λ v q. record {
          flags = λ n m. flag n m;
          values = λ n m. value v q n m;
          saturated = counted (hits level i k);
        }))
    where
      plain_at : evaluate o.floats pixel_no_cal s k ≡ some (i.pixel k)
      plain_at = unfold evaluate in ap (λ z. pixel_at z k) e

      flag :
          (n : ℕ)
          → n < suc k
          → put_flag k (if hits level i k then 1 else 0) l.flags n
            ≡ (if hits level i n then 1 else 0)
      flag n m = elim (Bool-cases (n == k)) [
        | inl t ↦ let u : n ≡ k = ground arith in rw (t, u) refl
        | inr t ↦ rw (t) (p.flags n (ground arith))
      ]

      value :
          (v : F)
          → evaluate o.floats f s k ≡ some v
          → (n : ℕ) → n < suc k
          → evaluate o.floats f s n ≡ some (if n == k then v else l.values n)
      value v q n m = elim (Bool-cases (n == k)) [
        | inl t ↦ let u : n ≡ k = ground arith in rw (t, u) q
        | inr t ↦ rw (t) (p.values n (ground arith))
      ]

      counted :
          (b : Bool)
          → (if b then l.saturated + 1 else l.saturated)
            ≡ flagged (put_flag k (if b then 1 else 0) l.flags) (suc k)
      counted true = ground (arith, p.saturated, flagged_below l.flags k 1 k (omega arith))
      counted false = ground (arith, p.saturated, flagged_below l.flags k 0 k (omega arith))

  pub load_pixels-IsLoaded :
      (level : F) (f : PixelF) (x y : Bool) (s : BaseImages F) (i : Source F) (count : ℕ)
      (old : ℕ → F) (flags : ℕ → ℕ)
      → s.image ≡ some i
      → raw_pixel x y s ≡ some f
      → Gives
          (IsLoaded level f s i count)
          (load_pixels o level f s count (record { values = old; flags = flags; saturated = 0 }))
  unfolding load_pixels
  load_pixels-IsLoaded level f x y s i count old flags e h =
      for_range_inv (λ k r. Gives (IsLoaded level f s i k) r) count _ count 0 _ (omega arith)
        (λ k r lo hi g.
          Gives-bind (IsLoaded level f s i k) (IsLoaded level f s i (suc k)) r
            (load_pixel o level f s k) g (λ l p. load_pixel-IsLoaded level f x y s i k l e h p))
        (record {
          flags = λ n m. absurd (omega arith);
          values = λ n m. absurd (omega arith);
          saturated = refl;
        })

  -- The second loop, up to pixel `k` of `count`.
  pub record IsMarked (base : ℕ → Bool) (s : Source F) (count k : ℕ) (values : ℕ → F) (l : Loaded F)
      : Type 0 where
    pub flags :
        (n : ℕ)
        → n < count
        → l.flags n ≡ (if base n || ltb n k && o.numbers.is_positive (s.pixel n) then 1 else 0)
    pub same : l.values ≡ values
    pub saturated : l.saturated ≡ flagged l.flags count

  mark_pixel-IsMarked :
      (base : ℕ → Bool) (s : Source F) (count k : ℕ) (values : ℕ → F) (l : Loaded F)
      → k < count
      → IsMarked base s count k values l
      → IsMarked base s count (suc k) values (mark_pixel o s k l)
  unfolding mark_pixel
  mark_pixel-IsMarked base s count k values l h p =
      if_cases (IsMarked base s count (suc k) values)
        (o.numbers.is_positive (s.pixel k) && l.flags k == 0)
        (λ e. record {
          flags = λ n m. raised e n m;
          same = p.same;
          saturated =
              ap (λ c. c + 1) p.saturated ∙ sym (flagged_raised l.flags k count h (ground arith));
        })
        (λ e. record { flags = λ n m. kept e n m; same = p.same; saturated = p.saturated })
    where
      raised :
          (o.numbers.is_positive (s.pixel k) && l.flags k == 0) ≡ true
          → (n : ℕ) → n < count
          → put_flag k 1 l.flags n
            ≡ (if base n || ltb n (suc k) && o.numbers.is_positive (s.pixel n) then 1 else 0)
      raised e n m = elim (Bool-cases (n == k)) [
        | inl t ↦ let u : n ≡ k = ground arith in rw (u) (ground (arith, e))
        | inr t ↦ rw (t) (p.flags n m ∙ ground (arith, t))
      ]

      kept :
          (o.numbers.is_positive (s.pixel k) && l.flags k == 0) ≡ false
          → (n : ℕ) → n < count
          → l.flags n
            ≡ (if base n || ltb n (suc k) && o.numbers.is_positive (s.pixel n) then 1 else 0)
      kept e n m = elim (Bool-cases (n == k)) [
        | inl t ↦ let u : n ≡ k = ground arith in rw (u) (ground (arith, e, p.flags k h))
        | inr t ↦ p.flags n m ∙ ground (arith, t)
      ]

  pub mark_pixels-IsMarked :
      (base : ℕ → Bool) (s : Source F) (count : ℕ) (l : Loaded F)
      → ((n : ℕ) → n < count → l.flags n ≡ (if base n then 1 else 0))
      → l.saturated ≡ flagged l.flags count
      → IsMarked base s count count l.values (for_range count 0 (mark_pixel o s) l)
  mark_pixels-IsMarked base s count l f e =
      for_range_inv (λ k m. IsMarked base s count k l.values m) count (mark_pixel o s) count 0 l
        (omega arith) (λ k m lo hi p. mark_pixel-IsMarked base s count k l.values m hi p)
        (record { flags = λ n m. f n m ∙ ground arith; same = refl; saturated = e })
