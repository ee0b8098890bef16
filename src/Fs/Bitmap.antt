-- ===== src/Fs/Bitmap.antt =====
-- balloc and bfree of src/kernel/fs.c: the bitmap of used blocks. A block is read and changed
-- through the buffer cache, so a change shows in `Blocks` at once.
pub mod Alloc
pub mod Tests
use halo_os.Base.{
  ℕ, zero, suc, ◌+◌, ◌-◌, ◌/◌, ◌%◌, ◌^◌, Bool, true, false, not, ◌&&◌, Option, none, some, ltb,
  ◌==◌, if◌then◌else◌, bit_and, bit_or,
}
use halo_os.Base.Array.{update}
use halo_os.Base.Outcome.{Outcome, ok, panic}
use halo_os.Fs.Layout.{Superblock, Blocks, bpb, bmap_block}

-- `(bp->data[bi/8] & (1 << (bi % 8))) == 0`
abbrev pub bit_clear : (ℕ → ℕ) → ℕ → Bool
bit_clear bytes bi = bit_and (bytes (bi / 8)) (2 ^ (bi % 8)) == 0

-- `bp->data[bi/8] |= m`
abbrev pub set_bit : (ℕ → ℕ) → ℕ → ℕ → ℕ
set_bit bytes bi = update bytes (bi / 8) (bit_or (bytes (bi / 8)) (2 ^ (bi % 8)))

-- `bp->data[bi/8] &= ~m` on an unsigned byte
abbrev pub clear_bit : (ℕ → ℕ) → ℕ → ℕ → ℕ
clear_bit bytes bi = update bytes (bi / 8) (bit_and (bytes (bi / 8)) (255 - 2 ^ (bi % 8)))

-- The inner loop, with `n` rounds left: `bi < BPB && b + bi < sb.size`.
find_clear : (n bi b size : ℕ) → (ℕ → ℕ) → Option ℕ
find_clear zero bi b size bytes = none
find_clear (suc n) bi b size bytes =
    let rest = find_clear n (bi + 1) b size bytes in
    if ltb (b + bi) size then (if bit_clear bytes bi then some bi else rest) else none

-- The outer loop, with `k` rounds left: `b < sb.size; b += BPB`.
balloc_loop : (k b : ℕ) → Superblock → Blocks → Outcome (ℕ × Blocks)
balloc_loop zero b sb d = panic
balloc_loop (suc k) b sb d =
    let bytes = d (bmap_block sb b) in
    let rest = balloc_loop k (b + bpb) sb d in
    if ltb b sb.size
    then elim (find_clear bpb 0 b sb.size bytes) [
      | some bi ↦ ok (b + bi, update d (bmap_block sb b) (set_bit bytes bi))
      | none ↦ rest
    ]
    else panic

pub balloc : Superblock → Blocks → Outcome (ℕ × Blocks)
unfolding balloc_loop
balloc sb d = balloc_loop (sb.size / bpb + 1) 0 sb d

pub bfree : Superblock → Blocks → ℕ → Outcome Blocks
bfree sb d b =
    let bytes = d (bmap_block sb b) in
    if bit_clear bytes (b % bpb)
    then panic
    else ok (update d (bmap_block sb b) (clear_bit bytes (b % bpb)))
