-- ===== src/Dictionary.antt =====
-- The dictionary's blobs: librtimv/rtimvDictionary.hpp and rtimvDictionary.cpp. Storage is an
-- explicit heap, so that a blob and its alias share bytes; the lock of each blob makes its calls
-- atomic. `malloc` always succeeds, as the source assumes.
mod Memory
unfoldable pub use Memory.*
pub mod Ownership
pub mod Store
pub mod Read
mod Tests
use rtimv.Common.{
  ℕ, ◌-◌, Option, none, some, Bool, true, false, not, ◌&&◌, ◌||◌, List, [], ◌∷◌, ◌++◌, ltb, ◌==◌,
  length, take, drop, if◌then◌else◌, is_null, map,
}

pub record Blob : Type 0 where
  pub sz : ℕ
  pub mem_sz : ℕ
  pub blob : Option ℕ  -- the address of the payload, or null
  pub owner : Bool
  pub last_mod : ℕ

abbrev pub new_blob : Blob
new_blob = record { sz = 0; mem_sz = 0; blob = none; owner = false; last_mod = 0 }

-- Free owned storage and reset; borrowed storage is left alone.
unfoldable pub clear_blob : Blob → M Blob
clear_blob b = elim b.blob [
  | none ↦ pure b
  | some p ↦
      if b.owner
      then (do free p; pure (record b { blob = none; owner = false; sz = 0; mem_sz = 0 }))
      else pure b
]

-- The constructor that takes ownership: the new blob, and the source, which keeps the pointer.
unfoldable pub transfer : Blob → Blob × Blob
transfer rdb = (
  record new_blob { blob = rdb.blob; sz = rdb.sz; mem_sz = rdb.mem_sz; owner = rdb.owner },
  record rdb { owner = false },
)

-- `if( blob != nullptr && sz > 0 ) memcpy( m_blob, blob, sz )`
pub fill : Option ℕ → Option (List ℕ) → ℕ → M (Unit {0})
fill dst none sz = pure tt
fill dst (some bytes) sz = if ltb 0 sz then copy_in dst bytes sz else pure tt

-- The branch of `setBlob` that cannot reuse the storage, after `clearBlob`.
pub allocate : ℕ → Blob → M Blob
allocate sz b =
    if ltb 0 sz
    then (do p ← malloc sz; pure (record b { blob = some p; sz = sz; mem_sz = sz; owner = true }))
    else pure b

unfoldable pub set_blob : Option (List ℕ) → ℕ → ℕ → Blob → M Blob
unfolding fill allocate clear_blob
set_blob bytes sz now b =
    if ltb b.mem_sz sz || not b.owner
    then (do
      c ← clear_blob b
      d ← allocate sz c
      fill d.blob bytes sz
      pure (record d { last_mod = now }))
    else (do fill b.blob bytes sz; pure (record b { sz = sz; last_mod = now }))

-- The count of bytes copied, the caller's buffer and the time of the last write.
unfoldable pub get_blob : List Byte → ℕ → Blob → M (ℕ × List Byte × ℕ)
get_blob out mxsz b =
    let cpsz = if ltb mxsz b.sz then mxsz else b.sz in
    elim b.blob [
      | none ↦ pure (0, out, b.last_mod)
      | some p ↦ do filled ← copy_out p out cpsz; pure (cpsz, filled, b.last_mod)
    ]

-- The terminator, in place of the last byte that was copied.
pub terminate : ℕ → ℕ × List Byte × ℕ → M (ℕ × List Byte × ℕ)
terminate mxsz (cpsz, out, ts) =
    if cpsz == 0
    then (if ltb 0 mxsz
        then (do ended ← poke out 0 0; pure (1, ended, ts))
        else pure (cpsz, out, ts))
    else (do ended ← poke out (cpsz - 1) 0; pure (cpsz, ended, ts))

unfoldable pub get_blob_str : List Byte → ℕ → Blob → M (ℕ × List Byte × ℕ)
unfolding get_blob terminate
get_blob_str out mxsz b = get_blob out mxsz b >>= terminate mxsz

unfoldable pub get_blob_size : Blob → ℕ
get_blob_size b = if is_null b.blob then 0 else b.sz

-- The destructor.
unfoldable pub destroy : Blob → M Blob
unfolding clear_blob
destroy b = clear_blob b
