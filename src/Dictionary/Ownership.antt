-- ===== src/Dictionary/Ownership.antt =====
-- Who frees a payload: the transfer of ownership, writes through the alias that it leaves, and the
-- storage that a write gives up.
use rtimv.Common.{ℕ, ◌<◌, ◌≡◌, ◌≢◌, ◌⊎◌, inl, inr, refl, none, some, false, List, length, arith}
use native.Mathlib.Decide.{dec_lt}
use rtimv.Dictionary.{Heap, Byte, Blob, free, set_blob, get_blob, transfer, destroy, copy_out}
use rtimv.Dictionary.Store.{Owns, freed, set_blob_not_owner, set_blob_grown, set_blob_reused}

module _ (h : Heap) (b : Blob) (p : ℕ) (block : List Byte) (v : Owns h b p block) where
  destroy-owner :
      destroy (transfer b).0 h
      ≡ some (record b { blob = none; owner = false; sz = 0; mem_sz = 0; last_mod = 0 }, freed h p)
  unfolding destroy transfer free
  destroy-owner = ground (arith, v.owned, v.at, v.held)

  destroy-alias : (t : Heap) → destroy (transfer b).1 t ≡ some ((transfer b).1, t)
  unfolding destroy transfer
  destroy-alias t = ground (arith, v.owned, v.at)

-- After a transfer the new blob is the owner and its source is not. Destroying both frees the payload
-- once, in either order, with no fault, and touches no other storage. A read through the source
-- faults once the owner is gone.
pub transfer_frees_once :
    (h : Heap) (b : Blob) (p : ℕ) (block : List Byte) (out : List Byte) (mxsz : ℕ)
    → Owns h b p block
    → (let (d, s) = transfer b in
        (d' : Blob) × (t : Heap) × (destroy d h ≡ some (d', t))
        × (destroy s t ≡ some (s, t))
        × (destroy s h ≡ some (s, h))
        × (t.cell p ≡ none)
        × ((q : ℕ) → q ≢ p → t.cell q ≡ h.cell q)
        × (get_blob out mxsz s t ≡ none))
unfolding transfer get_blob copy_out
transfer_frees_once h b p block out mxsz v = (
  _,
  freed h p,
  destroy-owner h b p block v,
  destroy-alias h b p block v (freed h p),
  destroy-alias h b p block v h,
  ground arith,
  λ q n. ground arith,
  ground (arith, v.at),
)

-- A write through the source of a transfer takes storage of its own: the new owner still owns the
-- payload, unchanged.
pub set_blob-alias :
    (h : Heap) (b : Blob) (p : ℕ) (block : List Byte) (bytes : List ℕ) (now : ℕ)
    → Owns h b p block
    → p < h.next
    → 0 < length bytes
    → (c : Blob) × (t : Heap) × (set_blob (some bytes) (length bytes) now (transfer b).1 h
        ≡ some (c, t))
      × Owns t (transfer b).0 p block
      × (c.blob ≢ some p)
unfolding transfer
set_blob-alias h b p block bytes now v l z = (
  _,
  _,
  set_blob_not_owner bytes now (record b { owner = false }) h refl z,
  record {
    owned = v.owned;
    at = v.at;
    held = ground (arith, v.held);
    sized = v.sized;
    fits = v.fits;
  },
  λ e. ground arith,
)

-- A write by an owner keeps its block or frees it: no storage is lost.
pub set_blob_no_leak :
    (h : Heap) (b : Blob) (p : ℕ) (block : List Byte) (bytes : List ℕ) (now : ℕ)
    → Owns h b p block
    → p < h.next
    → 0 < length bytes
    → (c : Blob) × (t : Heap) × (set_blob (some bytes) (length bytes) now b h ≡ some (c, t))
      × ((c.blob ≡ some p) ⊎ (t.cell p ≡ none))
set_blob_no_leak h b p block bytes now v l z = elim (dec_lt b.mem_sz (length bytes)) [
  | yes g ↦ (_, _, set_blob_grown bytes now p block b h v g, inr (ground arith))
  | no m ↦ (_, _, set_blob_reused bytes now p block b h v z (omega arith), inl v.at)
]
