-- ===== src/Router/Lookup.antt =====
-- The list of providers and the lookup in it: librtimv/rtimvCommandInterface.cpp.
use rtimv.Common.{
  ℕ, ◌+◌, ◌≡◌, ◌≤◌, refl, Option, none, some, true, false, ◌||◌, List, [], ◌∷◌, ◌++◌, arith,
  if◌then◌else◌, is_null, Option-cases, Bool-cases, inl, inr, if_cases, subst,
}
use rtimv.Router.{World, Provider, refers, listed, add_provider, candidate, scan, provider}

-- The providers of the protocol that are alive, in the order of the list.
abbrev pub matches : {C S : Type 0} → World C S → ℕ → List ℕ → List (Provider C S)
matches w protocol [] = []
matches w protocol (i ∷ is) = elim (candidate w protocol i) [
  | none ↦ matches w protocol is
  | some p ↦ p ∷ matches w protocol is
]

-- The entry of a list that has one.
abbrev pub only {ℓ} : {A : Type ℓ} → List A → Option A
only [] = none
only (a ∷ []) = some a
only (a ∷ b ∷ rest) = none

module _ {C S : Type 0} (w : World C S) (protocol : ℕ) where
  scan_found :
      (q : Provider C S) (is : List ℕ)
      → scan w protocol (some q) is ≡ only (q ∷ matches w protocol is)
  unfolding scan
  scan_found q [] = refl
  scan_found q (i ∷ is) = elim (Option-cases (candidate w protocol i)) [
    | inl e ↦ rw (scan, matches, e) (scan_found q is)
    | inr (p, e) ↦ rw (scan, matches, e) refl
  ]

  -- The provider of a protocol is the one entry of the list that is alive and speaks it, and none if
  -- there is no such entry or more than one.
  pub provider-only : (is : List ℕ) → provider w protocol is ≡ only (matches w protocol is)
  unfolding provider scan
  provider-only [] = refl
  provider-only (i ∷ is) = elim (Option-cases (candidate w protocol i)) [
    | inl e ↦ rw (provider, scan, matches, e) (provider-only is)
    | inr (p, e) ↦ rw (provider, scan, matches, e) (scan_found p is)
  ]

-- The entries that refer to an object.
abbrev pub count : {C S : Type 0} → World C S → ℕ → List ℕ → ℕ
count w object [] = 0
count w object (i ∷ is) = (if refers w object i then 1 else 0) + count w object is

-- No live object is in the list twice.
pub record IsUnique {C S : Type 0} (w : World C S) (is : List ℕ) : Type 0 where
  pub once : (object : ℕ) → count w object is ≤ 1

count-append :
    {C S : Type 0} (w : World C S) (object : ℕ) (is js : List ℕ)
    → count w object (is ++ js) ≡ count w object is + count w object js
count-append w object [] js = omega arith
count-append w object (i ∷ is) js = omega (arith, count-append w object is js)

unlisted :
    {C S : Type 0} (w : World C S) (object : ℕ) (is : List ℕ)
    → listed w object is ≡ false
    → count w object is ≡ 0
unlisted w object [] e = refl
unlisted w object (i ∷ is) e = ground (arith, unlisted w object is)

refers_once :
    {C S : Type 0} (w : World C S) (object i : ℕ) → (if refers w object i then 1 else 0) ≤ 1
refers_once w object i = ground arith

refers_same : {C S : Type 0} (w : World C S) (object i : ℕ) → refers w object i ≡ true → i ≡ object
refers_same w object i e = ground arith

refers_no :
    {C S : Type 0} (w : World C S) (object i : ℕ)
    → refers w object i ≡ false
    → (if refers w object i then 1 else 0) ≤ 0
refers_no w object i e = ground arith

append-once :
    {C S : Type 0} (w : World C S) (added : ℕ) (is : List ℕ)
    → listed w added is ≡ false
    → IsUnique w is
    → IsUnique w (is ++ added ∷ [])
append-once w added is n v = record { once = once_more }
  where
    once_more : (object : ℕ) → count w object (is ++ added ∷ []) ≤ 1
    once_more object = elim (Bool-cases (refers w object added)) [
      | inl e ↦
          let same : added ≡ object = refers_same w object added e in
          omega (
            arith,
            count-append w object is (added ∷ []),
            subst (λ j. count w j is ≡ 0) same (unlisted w added is n),
            refers_once w object added,
          )
      | inr e ↦
          omega (
            arith,
            count-append w object is (added ∷ []),
            v.once object,
            refers_no w object added e,
          )
    ]

-- Adding an object, or a null pointer, to a list without a live object twice gives such a list.
pub add_provider-IsUnique :
    {C S : Type 0} (w : World C S) (object : Option ℕ) (is : List ℕ)
    → IsUnique w is
    → IsUnique w (add_provider w object is)
unfolding add_provider
add_provider-IsUnique w none is v = v
add_provider-IsUnique w (some object) is v =
    if_cases (IsUnique w) (is_null (w.cast object) || listed w object is) (λ _. v)
      (λ e. append-once w object is (ground arith) v)
