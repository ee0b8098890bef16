-- ===== src/Fs/Content/Stored.antt =====
-- The bytes on the disk behind writei of src/kernel/fs.c.
use halo_os.Base.{
  ℕ, zero, suc, ◌+◌, ◌-◌, ◌/◌, ◌%◌, ◌≤◌, ◌<◌, ◌≡◌, ◌≢◌, refl, sym, ap, ◌∙◌, true, false, some, ◌==◌,
  if◌then◌else◌, arith, Bool-cases, inl, inr, ltb, ==_refl, ==_of_ne,
}
use halo_os.Base.Array.{update}
use halo_os.Base.Outcome.{ok}
use halo_os.Util.Move.{inside}
use halo_os.Fs.Layout.{Superblock, Blocks, bsize, maxfile, iblock}
use halo_os.Fs.Dinode.{Inode, iupdate}
use halo_os.Fs.Dinode.RoundTrip.{iupdate-other}
use halo_os.Fs.Content.{bmap, tabulate, store_bytes, writei}
use halo_os.Fs.Content.Writing.{never, grown, written, writei-written}

pub store_bytes-tabulate :
    (bytes f : ℕ → ℕ) (o i n b : ℕ)
    → store_bytes bytes o (tabulate f i n) b ≡ (if inside o n b then f (i + (b - o)) else bytes b)
store_bytes-tabulate bytes f o i zero b = ground arith
store_bytes-tabulate bytes f o i (suc n) b =
    store_bytes-tabulate (update bytes o (f i)) f (o + 1) (i + 1) n b ∙ elim (Bool-cases (b == o)) [
      | inl e ↦
          let h : inside (o + 1) n b ≡ false = ground arith in
          let h' : inside o (suc n) b ≡ true = ground arith in
          let k : i + (b - o) ≡ i = ground arith in rw (h, h', e) (ap f (sym k))
      | inr e ↦
          let h : inside (o + 1) n b ≡ inside o (suc n) b = ground arith in
          rw (e, h)
            (elim (Bool-cases (inside o (suc n) b)) [
              | inl y ↦ let k : i + 1 + (b - (o + 1)) ≡ i + (b - o) = ground arith in rw y (ap f k)
              | inr y ↦ rw y refl
            ])
    ]

-- What a write of `n` bytes from `src` at `off`, all in block `a`, makes of the inode and the disk.
pub record Stores (source : ℕ → ℕ) (sb : Superblock) (inum : ℕ) (ip : Inode) (d : Blocks)
    (src off n a : ℕ) (ip' : Inode) (d' : Blocks) : Type 0 where
  pub size : ip'.size ≡ (if ltb ip.size (off + n) then off + n else ip.size)
  pub addrs : (i : ℕ) → ip'.addrs i ≡ ip.addrs i
  pub bytes : (i : ℕ) → i < n → d' a (off % bsize + i) ≡ source (src + i)
  pub around : (j : ℕ) → inside (off % bsize) n j ≡ false → d' a j ≡ d a j
  pub others : (b : ℕ) → b ≢ a → b ≢ iblock sb inum → d' b ≡ d b
  pub inode : (j : ℕ) → d' (iblock sb inum) j ≡ iupdate sb inum ip' d (iblock sb inum) j

iupdate-block :
    (sb : Superblock) (inum : ℕ) (ip : Inode) (d e : Blocks) (j : ℕ)
    → d (iblock sb inum) j ≡ e (iblock sb inum) j
    → iupdate sb inum ip d (iblock sb inum) j ≡ iupdate sb inum ip e (iblock sb inum) j
unfolding iupdate
iupdate-block sb inum ip d e j h = rw (==_refl (iblock sb inum), h) refl

module _ (source : ℕ → ℕ) (sb : Superblock) (inum : ℕ) (ip : Inode) (d : Blocks) (src off n a : ℕ)
    (elsewhere : a ≢ iblock sb inum) where
  abbrev ip' : Inode
  ip' = grown ip (off + n)

  abbrev d' : Blocks
  d' = iupdate sb inum ip' (written source d a src off n)

  block : d' a ≡ store_bytes (d a) (off % bsize) (tabulate source src n)
  block = iupdate-other sb inum ip' (written source d a src off n) a elsewhere ∙ rw (==_refl a) refl

  block_bytes :
      (j : ℕ)
      → d' a j ≡ (if inside (off % bsize) n j then source (src + (j - off % bsize)) else d a j)
  block_bytes j = ap (λ f. f j) block ∙ store_bytes-tabulate (d a) source (off % bsize) src n j

  written-Stores : Stores source sb inum ip d src off n a ip' d'
  written-Stores = record {
    size = elim (Bool-cases (ltb ip.size (off + n))) [ inl y ↦ rw y refl | inr y ↦ rw y refl ];
    addrs =
        λ i. elim (Bool-cases (ltb ip.size (off + n))) [ inl y ↦ rw y refl | inr y ↦ rw y refl ];
    bytes = λ i lt.
        let y : inside (off % bsize) n (off % bsize + i) ≡ true = ground arith in
        let e : src + (off % bsize + i - off % bsize) ≡ src + i = omega arith in
        block_bytes (off % bsize + i) ∙ rw (y, e) refl;
    around = λ j out. block_bytes j ∙ rw out refl;
    others = λ b ne ne'.
        iupdate-other sb inum ip' (written source d a src off n) b ne' ∙ rw (==_of_ne b a ne) refl;
    inode = λ j.
        iupdate-block sb inum ip' (written source d a src off n) d j
          (rw (==_of_ne (iblock sb inum) a (λ e. elsewhere (sym e))) refl);
  }

-- A write of at least one byte that ends by byte 268, at an offset within a file whose first block
-- bmap gives as `a` without changing anything, where `a` is not the block of the disk inode, returns
-- its length when the copy succeeds. The bytes of the source then stand in block `a` from the offset
-- on, the other bytes of that block are as before, the size has grown to cover the write, the
-- addresses are as before, the block of the disk inode is what iupdate of the new inode makes of it,
-- and no other block has changed.
pub writei-Stores :
    (source : ℕ → ℕ) (sb : Superblock) (inum : ℕ) (ip : Inode) (d : Blocks) (src off n a : ℕ)
    → a ≢ iblock sb inum
    → 0 < n
    → off ≤ ip.size
    → off + n ≤ maxfile
    → bmap sb ip d (off / bsize) ≡ ok (a, ip, d)
    → (ip' : Inode) × (d' : Blocks) × (writei never source sb inum ip d src off n
        ≡ ok (some n, ip', d'))
      × Stores source sb inum ip d src off n a ip' d'
writei-Stores source sb inum ip d src off n a elsewhere pos le fits m = (
  grown ip (off + n),
  iupdate sb inum (grown ip (off + n)) (written source d a src off n),
  writei-written source sb inum ip d src off n a pos le fits m,
  written-Stores source sb inum ip d src off n a elsewhere,
)
