-- ===== src/Dictionary/Tests.antt =====
-- Blobs on a small heap.
use rtimv.Common.{
  ℕ, zero, suc, ◌≡◌, inr, ◌++◌, refl, none, some, true, List, [], ◌∷◌, drop, map, arith, replicate,
}
use rtimv.Dictionary.{Heap, Byte, unwritten, Blob, set_blob, get_blob, get_blob_size}
use rtimv.Dictionary.Store.{Owns, Stores}
use rtimv.Dictionary.Read.{get_blob-set_blob}

abbrev void : Heap
void = record { next = 0; cell = λ _. none }

abbrev word : List ℕ
word = 65 ∷ 66 ∷ 0 ∷ []

abbrev room : List Byte
room = replicate 5 unwritten

abbrev one_block : Heap
one_block = record {
  next = 4;
  cell = λ q. (elim q [ zero ↦ some (some 65 ∷ some 66 ∷ some 0 ∷ []) | suc _ ↦ none ]);
}

abbrev owner_blob : Blob
owner_blob = record { sz = 3; mem_sz = 3; blob = some 0; owner = true; last_mod = 9 }

owner_blob-Owns : Owns one_block owner_blob 0 (some 65 ∷ some 66 ∷ some 0 ∷ [])
owner_blob-Owns = record { owned = refl; at = refl; held = refl; sized = refl; fits = omega arith }

owner_blob-Stores : Stores one_block owner_blob word 9
owner_blob-Stores = record { p = 0; rest = []; owns = owner_blob-Owns; size = refl; stamp = refl }

get_blob-set_blob_example :
    (c : Blob) × (t : Heap) × (set_blob (some word) 3 7 owner_blob one_block ≡ some (c, t))
    × (get_blob room 5 c t ≡ some ((3, map some word ++ drop 3 room, 7), t))
    × (get_blob_size c ≡ 3)
get_blob-set_blob_example =
    get_blob-set_blob room 5 word 7 owner_blob one_block (inr (0, _, owner_blob-Owns)) (omega arith)
      (omega arith) (omega arith)
