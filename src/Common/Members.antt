-- ===== src/Common/Members.antt =====
-- The members of a list.
use mathlib.Core.Path.{◌≡◌, refl, sym, subst}
use mathlib.Core.Logic.{◌⊎◌, inl, inr}
use mathlib.Core.List.{List, [], ◌∷◌, ◌++◌, map}
use rtimv.Common.Lists.{All}

abbrev pub Among : {A : Type 0} → A → List A → Type 0
Among a [] = ⊥
Among a (b ∷ bs) = (a ≡ b) ⊎ Among a bs

pub Among-append :
    {A : Type 0} (a b : A) (cs : List A) → (Among a cs) ⊎ (a ≡ b) → Among a (cs ++ b ∷ [])
Among-append a b [] (inl h) = elim h [ ]
Among-append a b [] (inr e) = inl e
Among-append a b (c ∷ cs) (inl (inl e)) = inl e
Among-append a b (c ∷ cs) (inl (inr h)) = inr (Among-append a b cs (inl h))
Among-append a b (c ∷ cs) (inr e) = inr (Among-append a b cs (inr e))

pub All-append :
    {A : Type 0} (P : A → Type 0) (b : A) (cs : List A) → All P cs → P b → All P (cs ++ b ∷ [])
All-append P b [] v h = (h, tt)
All-append P b (c ∷ cs) v h = (v.0, All-append P b cs v.1 h)

pub All-weaken :
    {A : Type 0} (P Q : A → Type 0) (cs : List A) → ((c : A) → P c → Q c) → All P cs → All Q cs
All-weaken P Q [] f v = tt
All-weaken P Q (c ∷ cs) f v = (f c v.0, All-weaken P Q cs f v.1)

pub All-Among : {A : Type 0} (P : A → Type 0) (a : A) (bs : List A) → All P bs → Among a bs → P a
All-Among P a [] v h = elim h [ ]
All-Among P a (b ∷ bs) v (inl e) = subst P (sym e) v.0
All-Among P a (b ∷ bs) v (inr h) = All-Among P a bs v.1 h

pub left-Among : {A : Type 0} (a : A) (bs cs : List A) → Among a bs → Among a (bs ++ cs)
left-Among a [] cs h = elim h [ ]
left-Among a (b ∷ bs) cs (inl e) = inl e
left-Among a (b ∷ bs) cs (inr h) = inr (left-Among a bs cs h)

pub right-Among : {A : Type 0} (a : A) (bs cs : List A) → Among a cs → Among a (bs ++ cs)
right-Among a [] cs h = h
right-Among a (b ∷ bs) cs h = inr (right-Among a bs cs h)

pub split-Among :
    {A : Type 0} (a : A) (bs cs : List A) → Among a (bs ++ cs) → (Among a bs) ⊎ (Among a cs)
split-Among a [] cs h = inr h
split-Among a (b ∷ bs) cs (inl e) = inl (inl e)
split-Among a (b ∷ bs) cs (inr h) = elim (split-Among a bs cs h) [
  | inl k ↦ inl (inr k)
  | inr k ↦ inr k
]

pub Among-map :
    {A B : Type 0} (f : A → B) (a : A) (xs : List A) → Among a xs → Among (f a) (map f xs)
Among-map f a [] h = elim h [ ]
Among-map f a (b ∷ bs) (inl e) = inl (λ i. f (e i))
Among-map f a (b ∷ bs) (inr h) = inr (Among-map f a bs h)

pub map_source :
    {A B : Type 0} (f : A → B) (b : B) (xs : List A)
    → Among b (map f xs)
    → (a : A) × (Among a xs) × (b ≡ f a)
map_source f b [] h = elim h [ ]
map_source f b (a ∷ xs) (inl e) = (a, inl refl, e)
map_source f b (a ∷ xs) (inr h) = let s = map_source f b xs h in (s.0, inr s.1, s.2)
