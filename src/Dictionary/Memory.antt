-- ===== src/Dictionary/Memory.antt =====
-- The heap under librtimv/rtimvDictionary.cpp: `malloc`, `free` and `memcpy` over blocks of bytes.
use rtimv.Common.{
  ℕ, suc, Option, none, some, List, ◌∷◌, ◌++◌, ltb, leb, ◌==◌, length, take, drop, replicate, map,
  if◌then◌else◌,
}

-- A byte that was never written is `none`.
abbrev pub Byte : Type 0
Byte = Option ℕ

abbrev pub unwritten : Byte
unwritten = none

pub record Heap : Type 0 where
  pub next : ℕ
  pub cell : ℕ → Option (List Byte)

abbrev pub put : (ℕ → Option (List Byte)) → ℕ → Option (List Byte) → ℕ → Option (List Byte)
put cell p v q = if p == q then v else cell q

-- `none` is a fault: a second `free`, a use of freed storage, or an access past its end.
abbrev pub M : Type 0 → Type 0
M Result = Heap → Option (Result × Heap)

infixl 5 ◌>>=◌ ◌>>◌
-- The rest of a run is skipped after a fault.
abbrev pub ◌>>=◌ : {A B : Type 0} → M A → (A → M B) → M B
◌>>=◌ first rest before = elim (first before) [
  | none ↦ none
  | some (result, after) ↦ rest result after
]

abbrev pub ◌>>◌ : {B : Type 0} → M (Unit {0}) → M B → M B
first >> second = first >>= λ _. second

abbrev pub pure : {A : Type 0} → A → M A
pure result heap = some (result, heap)

unfoldable pub malloc : ℕ → M ℕ
malloc sz h =
    some (
      h.next,
      record { next = suc h.next; cell = put h.cell h.next (some (replicate sz unwritten)) },
    )

unfoldable pub free : ℕ → M (Unit {0})
free p h = elim (h.cell p) [
  | none ↦ none
  | some block ↦ some (tt, record h { cell = put h.cell p none })
]

-- The first `n` bytes of `block` replaced by those of `bytes`.
abbrev pub overwrite : ℕ → List ℕ → List Byte → List Byte
overwrite n bytes block = map some (take n bytes) ++ drop n block

-- `memcpy` into a block, from the caller's bytes.
unfoldable pub copy_in : Option ℕ → List ℕ → ℕ → M (Unit {0})
copy_in none bytes n h = none
copy_in (some p) bytes n h = elim (h.cell p) [
  | none ↦ none
  | some block ↦
      if leb n (length block)
      then (if leb n (length bytes)
          then some (tt, record h { cell = put h.cell p (some (overwrite n bytes block)) })
          else none)
      else none
]

-- `memcpy` from a block, into the caller's buffer.
unfoldable pub copy_out : ℕ → List Byte → ℕ → M (List Byte)
copy_out p out n h = elim (h.cell p) [
  | none ↦ none
  | some block ↦
      if leb n (length block)
      then (if leb n (length out) then some (take n block ++ drop n out, h) else none)
      else none
]

-- A write of one byte.
unfoldable pub poke : List Byte → ℕ → ℕ → M (List Byte)
poke out i v h =
    if ltb i (length out) then some (take i out ++ some v ∷ drop (suc i) out, h) else none
