-- ===== src/Fs/Content/Writing.antt =====
-- What writei of src/kernel/fs.c accepts, and what it stores.
use halo_os.Base.{
  ℕ, zero, suc, ◌+◌, ◌-◌, ◌/◌, ◌%◌, ◌^◌, ◌≤◌, ◌<◌, ◌≡◌, refl, Bool, false, ◌||◌, ltb, if◌then◌else◌,
  arith, min, none, some, le→ltb, lt→ltb,
}
use halo_os.Base.Array.{update}
use halo_os.Base.Outcome.{ok}
use halo_os.Fs.Layout.{Superblock, Blocks, bsize, maxfile}
use halo_os.Fs.Dinode.{Inode, iupdate}
use halo_os.Fs.Content.{bmap, tabulate, store_bytes, write_loop, writei}

-- No copy from the source fails.
abbrev pub never : ℕ → Bool
never src = false

-- MAXFILE is a number of blocks, and writei compares it with a number of bytes: a write that would
-- end past byte 268 of the file returns -1 and changes nothing, whatever the size of the file.
pub writei-past_maxfile :
    (fails : ℕ → Bool) (source : ℕ → ℕ) (sb : Superblock) (inum : ℕ) (ip : Inode) (d : Blocks)
    (src off n : ℕ)
    → off + n < 2 ^ 32
    → maxfile < off + n
    → writei fails source sb inum ip d src off n ≡ ok (none, ip, d)
unfolding writei
writei-past_maxfile fails source sb inum ip d src off n small past = ground arith

-- The blocks behind a write of `n` bytes into block `a` at `off`.
abbrev pub written : (source : ℕ → ℕ) → Blocks → (a src off n : ℕ) → Blocks
written source d a src off n = update d a (store_bytes (d a) (off % bsize) (tabulate source src n))

module _ (source : ℕ → ℕ) (sb : Superblock) (n : ℕ) where
  write_loop-done :
      (fuel off src tot : ℕ) (ip : Inode) (d : Blocks)
      → tot ≡ n
      → write_loop never source sb n fuel off src tot ip d ≡ ok (off, ip, d)
  unfolding write_loop
  write_loop-done zero off src tot ip d e = refl
  write_loop-done (suc f) off src tot ip d e = rw (le→ltb tot n (omega arith))

  write_loop-one :
      (f off src a : ℕ) (ip : Inode) (d : Blocks)
      → 0 < n
      → off % bsize + n ≤ bsize
      → bmap sb ip d (off / bsize) ≡ ok (a, ip, d)
      → write_loop never source sb n (suc f) off src 0 ip d
        ≡ ok (off + n, ip, written source d a src off n)
  unfolding write_loop
  write_loop-one f off src a ip d pos fit m =
      let k : min (n - 0) (bsize - off % bsize) ≡ n = omega arith in
      rw (lt→ltb 0 n pos, m, k)
        (write_loop-done f (off + n) (src + n) (0 + n) ip (written source d a src off n)
          (omega arith))

-- The inode behind a write that ended at `to`.
abbrev pub grown : Inode → ℕ → Inode
grown ip to = if ltb ip.size to then record ip { size = to } else ip

-- A write of at least one byte that ends by byte 268, at an offset within a file whose first block
-- is mapped, returns its length when the copy succeeds: it stores the bytes of the source into the
-- first block, and then updates the disk inode.
pub writei-written :
    (source : ℕ → ℕ) (sb : Superblock) (inum : ℕ) (ip : Inode) (d : Blocks) (src off n a : ℕ)
    → 0 < n
    → off ≤ ip.size
    → off + n ≤ maxfile
    → bmap sb ip d (off / bsize) ≡ ok (a, ip, d)
    → writei never source sb inum ip d src off n
      ≡ ok (
        some n,
        grown ip (off + n),
        iupdate sb inum (grown ip (off + n)) (written source d a src off n),
      )
unfolding writei
writei-written source sb inum ip d src off zero a pos le fits m = elim pos [ ]
writei-written source sb inum ip d src off (suc n) a pos le fits m =
    let w : (off + suc n) % 2 ^ 32 ≡ off + suc n = omega arith in
    let c : (ltb ip.size off || ltb (off + suc n) off) ≡ false = ground arith in
    let g : ltb maxfile (off + suc n) ≡ false = ground arith in
    rw (w, c, g, write_loop-one source sb (suc n) n off src a ip d pos (omega arith) m)
