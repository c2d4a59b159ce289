-- ===== src/Dictionary/Store.antt =====
-- What a write leaves in a blob, on each of its branches.
use rtimv.Common.{
  ℕ, suc, ◌≤◌, ◌<◌, ◌≡◌, ◌⊎◌, inl, inr, refl, ◌∙◌, Option, none, some, true, false, List, ◌++◌,
  length, drop, replicate, map, arith, length-append, length-replicate, length-map, take-length,
  length-drop,
}
use native.Mathlib.Decide.{dec_lt}
use rtimv.Dictionary.{Heap, Byte, unwritten, put, overwrite, malloc, free, copy_in, Blob, set_blob}

-- The blob owns a live block of its recorded capacity, and its size fits.
pub record Owns (h : Heap) (b : Blob) (p : ℕ) (block : List Byte) : Type 0 where
  pub owned : b.owner ≡ true
  pub at : b.blob ≡ some p
  pub held : h.cell p ≡ some block
  pub sized : length block ≡ b.mem_sz
  pub fits : b.sz ≤ b.mem_sz

-- The blob holds the bytes, written at a time, at the start of a block that it owns.
pub record Stores (h : Heap) (b : Blob) (bytes : List ℕ) (time : ℕ) : Type 0 where
  pub p : ℕ
  pub rest : List Byte
  pub owns : Owns h b p (map some bytes ++ rest)
  pub size : b.sz ≡ length bytes
  pub stamp : b.last_mod ≡ time

-- The storage after a write that allocates, and after one that reuses.
abbrev pub fresh : Heap → List ℕ → Heap
fresh h bytes = record {
  next = suc h.next;
  cell =
      put (put h.cell h.next (some (replicate (length bytes) unwritten))) h.next
        (some (overwrite (length bytes) bytes (replicate (length bytes) unwritten)));
}

abbrev pub filled : Blob → ℕ → ℕ → ℕ → Blob
filled b p n now = record { sz = n; mem_sz = n; blob = some p; owner = true; last_mod = now }

copy_in-fresh :
    (h : Heap) (bytes : List ℕ)
    → copy_in (some h.next) bytes (length bytes) (record {
      next = suc h.next;
      cell = put h.cell h.next (some (replicate (length bytes) unwritten));
    })
      ≡ some (tt, fresh h bytes)
unfolding copy_in
copy_in-fresh h bytes = ground (arith, length-replicate (length bytes) unwritten)

pub set_blob_not_owner :
    (bytes : List ℕ) (now : ℕ) (b : Blob) (h : Heap)
    → b.owner ≡ false
    → 0 < length bytes
    → set_blob (some bytes) (length bytes) now b h
      ≡ some (filled b h.next (length bytes) now, fresh h bytes)
unfolding set_blob malloc
set_blob_not_owner bytes now b h o z = ground (arith, copy_in-fresh h bytes)

abbrev pub freed : Heap → ℕ → Heap
freed h p = record h { cell = put h.cell p none }

pub set_blob_grown :
    (bytes : List ℕ) (now p : ℕ) (block : List Byte) (b : Blob) (h : Heap)
    → Owns h b p block
    → b.mem_sz < length bytes
    → set_blob (some bytes) (length bytes) now b h
      ≡ some (filled b h.next (length bytes) now, fresh (freed h p) bytes)
unfolding set_blob malloc free
set_blob_grown bytes now p block b h v g =
    ground (arith, copy_in-fresh (freed h p) bytes, v.owned, v.at, v.held)

abbrev pub rewritten : Heap → ℕ → List ℕ → List Byte → Heap
rewritten h p bytes block = record h {
  cell = put h.cell p (some (overwrite (length bytes) bytes block));
}

copy_in_block :
    (h : Heap) (p : ℕ) (bytes : List ℕ) (block : List Byte)
    → h.cell p ≡ some block
    → length bytes ≤ length block
    → copy_in (some p) bytes (length bytes) h ≡ some (tt, rewritten h p bytes block)
unfolding copy_in
copy_in_block h p bytes block e l = ground arith

pub set_blob_reused :
    (bytes : List ℕ) (now p : ℕ) (block : List Byte) (b : Blob) (h : Heap)
    → Owns h b p block
    → 0 < length bytes
    → length bytes ≤ b.mem_sz
    → set_blob (some bytes) (length bytes) now b h
      ≡ some (record b { sz = length bytes; last_mod = now }, rewritten h p bytes block)
unfolding set_blob
set_blob_reused bytes now p block b h v z l =
    ground (arith, copy_in_block h p bytes block, v.owned, v.at, v.held, v.sized)

overwrite_lem :
    (bytes : List ℕ) (block : List Byte)
    → overwrite (length bytes) bytes block ≡ map some bytes ++ drop (length bytes) block
overwrite_lem bytes block = rw (take-length bytes)

length-overwrite :
    (bytes : List ℕ) (block : List Byte)
    → length bytes ≤ length block
    → length (map some bytes ++ drop (length bytes) block) ≡ length block
length-overwrite bytes block l = omega (
  arith,
  length-append (map {B = Byte} some bytes) (drop (length bytes) block),
  length-map {B = Byte} bytes some,
  length-drop (length bytes) block,
)

put_self : (cell : ℕ → Option (List Byte)) (p : ℕ) (v : Option (List Byte)) → put cell p v p ≡ v
put_self cell p v = ground arith

fresh-Stores :
    (h : Heap) (bytes : List ℕ) (b : Blob) (now : ℕ)
    → Stores (fresh h bytes) (filled b h.next (length bytes) now) bytes now
fresh-Stores h bytes b now = record {
  p = h.next;
  rest = drop (length bytes) (replicate (length bytes) unwritten);
  owns = record {
    owned = refl;
    at = refl;
    held =
        rw (← overwrite_lem bytes (replicate (length bytes) unwritten))
          (put_self (put h.cell h.next (some (replicate (length bytes) unwritten))) h.next _);
    sized =
        length-overwrite bytes (replicate (length bytes) unwritten)
          (omega (arith, length-replicate (length bytes) unwritten))
        ∙ length-replicate (length bytes) unwritten;
    fits = omega arith;
  };
  size = refl;
  stamp = refl;
}

rewritten-Stores :
    (bytes : List ℕ) (now p : ℕ) (block : List Byte) (b : Blob) (h : Heap)
    → Owns h b p block
    → length bytes ≤ b.mem_sz
    → Stores (rewritten h p bytes block) (record b { sz = length bytes; last_mod = now }) bytes now
rewritten-Stores bytes now p block b h v l = record {
  p = p;
  rest = drop (length bytes) block;
  owns = record {
    owned = v.owned;
    at = v.at;
    held = rw (← overwrite_lem bytes block) (put_self h.cell p _);
    sized = length-overwrite bytes block (omega (arith, v.sized)) ∙ v.sized;
    fits = l;
  };
  size = refl;
  stamp = refl;
}

-- Storing a payload that is not empty succeeds, whether the blob owns no storage, owns too little or
-- owns enough, and leaves the blob the owner of a block that starts with the payload.
pub set_blob-Stores :
    (bytes : List ℕ) (now : ℕ) (b : Blob) (h : Heap)
    → (b.owner ≡ false) ⊎ ((p : ℕ) × (block : List Byte) × Owns h b p block)
    → 0 < length bytes
    → (c : Blob) × (t : Heap) × (set_blob (some bytes) (length bytes) now b h ≡ some (c, t))
      × Stores t c bytes now
set_blob-Stores bytes now b h (inl o) z =
    (_, _, set_blob_not_owner bytes now b h o z, fresh-Stores h bytes b now)
set_blob-Stores bytes now b h (inr (p, block, v)) z = elim (dec_lt b.mem_sz (length bytes)) [
  | yes g ↦ (_, _, set_blob_grown bytes now p block b h v g, fresh-Stores (freed h p) bytes b now)
  | no l ↦ (
    _,
    _,
    set_blob_reused bytes now p block b h v z (omega arith),
    rewritten-Stores bytes now p block b h v (omega arith),
  )
]
