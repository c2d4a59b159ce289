-- ===== src/Dictionary/Read.antt =====
-- Reading back what a blob stores, whole or cut to the caller's buffer, as bytes or as a C string.
use rtimv.Common.{
  ℕ, suc, ◌-◌, ◌≤◌, ◌<◌, ◌≡◌, ◌⊎◌, refl, ap, ◌∙◌, Option, none, some, false, List, ◌∷◌, ◌++◌,
  length, take, drop, map, arith, min, ltb, if◌then◌else◌, take-append_le, take-map, take-length,
  take-take, drop-append_length, length-append, length-map, length-take,
}
use rtimv.Dictionary.{
  Heap, Byte, M, copy_out, poke, Blob, set_blob, get_blob, get_blob_str, get_blob_size, terminate,
}
use rtimv.Dictionary.Store.{Owns, Stores, set_blob-Stores}

-- The bytes that are copied.
abbrev pub capped : ℕ → ℕ → ℕ
capped mxsz n = if ltb mxsz n then mxsz else n

copy_out_lem :
    (p k : ℕ) (out block : List Byte) (h : Heap)
    → h.cell p ≡ some block
    → k ≤ length block
    → k ≤ length out
    → copy_out p out k h ≡ some (take k block ++ drop k out, h)
unfolding copy_out
copy_out_lem p k out block h e l m = ground arith

get_blob_at :
    (p mxsz : ℕ) (out block : List Byte) (b : Blob) (h : Heap)
    → b.blob ≡ some p
    → h.cell p ≡ some block
    → b.sz ≤ length block
    → mxsz ≤ length out
    → (let k = capped mxsz b.sz in
        get_blob out mxsz b h ≡ some ((k, take k block ++ drop k out, b.last_mod), h))
unfolding get_blob
get_blob_at p mxsz out block b h e c l m =
    ground (arith, copy_out_lem p (capped mxsz b.sz) out block h c)

stored_prefix :
    (k : ℕ) (bytes : List ℕ) (rest : List Byte)
    → k ≤ length bytes
    → take k (map some bytes ++ rest) ≡ map some (take k bytes)
stored_prefix k bytes rest h =
    take-append_le k (map some bytes) rest (omega (arith, length-map {B = Byte} bytes some))
    ∙ take-map k bytes some

capped-eq-min : (m n : ℕ) → capped m n ≡ min m n
capped-eq-min m n = ground arith

-- Reading copies as much of the payload as the caller's buffer takes, leaves the rest of the buffer
-- and the storage as they were, and gives the time of the write.
pub get_blob-Stores :
    (out : List Byte) (mxsz : ℕ) (bytes : List ℕ) (now : ℕ) (b : Blob) (h : Heap)
    → Stores h b bytes now
    → mxsz ≤ length out
    → (let k = min mxsz (length bytes) in
        get_blob out mxsz b h ≡ some ((k, map some (take k bytes) ++ drop k out, now), h))
get_blob-Stores out mxsz bytes now b h v l =
    got
    ∙ rw
        (
          v.stamp,
          v.size,
          capped-eq-min mxsz (length bytes),
          stored_prefix (min mxsz (length bytes)) bytes v.rest (omega arith),
        )
        refl
  where
    got :
        get_blob out mxsz b h
        ≡ some (
          (
            capped mxsz b.sz,
            take (capped mxsz b.sz) (map some bytes ++ v.rest) ++ drop (capped mxsz b.sz) out,
            b.last_mod,
          ),
          h,
        )
    got =
        get_blob_at v.p mxsz out _ b h v.owns.at v.owns.held
          (omega (arith, v.owns.sized, v.owns.fits)) l

poke_lem :
    (out : List Byte) (i v : ℕ) (h : Heap)
    → i < length out
    → poke out i v h ≡ some (take i out ++ some v ∷ drop (suc i) out, h)
unfolding poke
poke_lem out i v h l = ground arith

-- What follows a call, from the call's result.
abbrev and_then : {A B : Type 0} → (A → M B) → Option (A × Heap) → Option (B × Heap)
and_then f r = elim r [ none ↦ none | some (a, t) ↦ f a t ]

-- The terminator takes the place of the last byte of the copy `xs`.
terminate_lem :
    (mxsz k : ℕ) (xs ys : List Byte) (ts : ℕ) (h : Heap)
    → length xs ≡ k
    → 0 < k
    → terminate mxsz (k, xs ++ ys, ts) h ≡ some ((k, take (k - 1) xs ++ some 0 ∷ ys, ts), h)
unfolding terminate
terminate_lem mxsz k xs ys ts h e z =
    ground (arith, poke_lem (xs ++ ys) (k - 1) 0 h, length-append xs ys, ended)
  where
    last : suc (k - 1) ≡ length xs
    last = omega arith

    ended :
        take (k - 1) (xs ++ ys) ++ some 0 ∷ drop (suc (k - 1)) (xs ++ ys)
        ≡ take (k - 1) xs ++ some 0 ∷ ys
    ended = rw (take-append_le (k - 1) xs ys (omega arith), last, drop-append_length xs ys)

-- Reading a payload that is not empty as a C string gives the copy of `get_blob` with its last byte
-- replaced by the terminator.
pub get_blob_str-Stores :
    (out : List Byte) (mxsz : ℕ) (bytes : List ℕ) (now : ℕ) (b : Blob) (h : Heap)
    → Stores h b bytes now
    → mxsz ≤ length out
    → 0 < mxsz
    → 0 < length bytes
    → (let k = min mxsz (length bytes) in
        get_blob_str out mxsz b h
        ≡ some ((k, map some (take (k - 1) bytes) ++ some 0 ∷ drop k out, now), h))
unfolding get_blob_str
get_blob_str-Stores out mxsz bytes now b h v l m z =
    ap (and_then (terminate mxsz)) (get_blob-Stores out mxsz bytes now b h v l)
    ∙ terminate_lem mxsz (min mxsz (length bytes)) _ (drop (min mxsz (length bytes)) out) now h
        (copied (min mxsz (length bytes)) (omega arith)) (omega arith)
    ∙ rw (
      take-map (min mxsz (length bytes) - 1) (take (min mxsz (length bytes)) bytes) byte,
      take-take (min mxsz (length bytes) - 1) (min mxsz (length bytes)) bytes (omega arith),
    )
  where
    byte : ℕ → Byte
    byte n = some n

    copied : (k : ℕ) → k ≤ length bytes → length (map {B = Byte} some (take k bytes)) ≡ k
    copied k h = omega (arith, length-map {B = Byte} (take k bytes) some, length-take k bytes)

-- What is stored is what is read: a payload that is not empty, written to a blob that owns storage
-- or does not, comes back from a buffer that is large enough, with its size and the time of the write.
pub get_blob-set_blob :
    (out : List Byte) (mxsz : ℕ) (bytes : List ℕ) (now : ℕ) (b : Blob) (h : Heap)
    → (b.owner ≡ false) ⊎ ((p : ℕ) × (block : List Byte) × Owns h b p block)
    → 0 < length bytes
    → length bytes ≤ mxsz
    → mxsz ≤ length out
    → (c : Blob) × (t : Heap) × (set_blob (some bytes) (length bytes) now b h ≡ some (c, t))
      × (get_blob out mxsz c t
          ≡ some ((length bytes, map some bytes ++ drop (length bytes) out, now), t))
      × (get_blob_size c ≡ length bytes)
unfolding get_blob_size
get_blob-set_blob out mxsz bytes now b h o z l m =
    let (c, t, done, v) = set_blob-Stores bytes now b h o z in
    (
      c,
      t,
      done,
      get_blob-Stores out mxsz bytes now c t v m ∙ rw (min_right, take-length bytes),
      ground (arith, v.owns.at, v.size),
    )
  where
    min_right : min mxsz (length bytes) ≡ length bytes
    min_right = omega arith
