-- ===== src/Fs/Dinode/RoundTrip.antt =====
-- What iupdate of src/kernel/fs.c writes, ilock reads back.
use halo_os.Base.{
  ℕ, ◌+◌, ◌-◌, ◌*◌, ◌/◌, ◌%◌, ◌^◌, ◌<◌, ◌≡◌, refl, sym, ap, ◌∙◌, true, false, ◌&&◌, ltb, leb, ◌==◌,
  arith, ==_refl, ==_of_ne, ◌≢◌, ==_iff, Bool-cases, inl, inr,
}
use halo_os.Fs.Layout.{Superblock, Blocks, iblock}
use halo_os.Fs.Dinode.{Inode, word, half, dinode_byte, dinode_at, iupdate, load}

-- The fields have their widths on disk.
pub record Fits (ip : Inode) : Type 0 where
  pub kind_lt : ip.kind < 2 ^ 16
  pub major_lt : ip.major < 2 ^ 16
  pub minor_lt : ip.minor < 2 ^ 16
  pub nlink_lt : ip.nlink < 2 ^ 16
  pub size_lt : ip.size < 2 ^ 32
  pub addrs_lt : (a : ℕ) → a < 13 → ip.addrs a < 2 ^ 32

module _ (sb : Superblock) (inum : ℕ) (ip : Inode) (d : Blocks) where
  -- The block of the inode behind iupdate.
  abbrev behind : ℕ → ℕ
  behind = iupdate sb inum ip d (iblock sb inum)

  byte_at : (o : ℕ) → o < 64 → behind (dinode_at inum + o) ≡ dinode_byte ip o
  unfolding iupdate
  byte_at o lt =
      let e : dinode_at inum + o - dinode_at inum ≡ o = omega arith in
      let c : (leb (dinode_at inum) (dinode_at inum + o)
            && ltb (dinode_at inum + o) (dinode_at inum + 64))
          ≡ true =
        ground arith in
      rw (==_refl (iblock sb inum), c, e)

  half-behind :
      (o p v : ℕ)
      → o + 1 < 64
      → p ≡ dinode_at inum + o
      → dinode_byte ip o ≡ v % 256
      → dinode_byte ip (o + 1) ≡ v / 256 % 256
      → v < 2 ^ 16
      → half behind p ≡ v
  half-behind o p v lt e lo hi small =
      let q : p + 1 ≡ dinode_at inum + (o + 1) = omega arith in
      rw (q, e, byte_at o (omega arith), byte_at (o + 1) lt, lo, hi) (omega arith)

  word-behind :
      (o i v : ℕ)
      → o + 3 < 64
      → 4 * i ≡ dinode_at inum + o
      → dinode_byte ip o ≡ v % 256
      → dinode_byte ip (o + 1) ≡ v / 256 % 256
      → dinode_byte ip (o + 2) ≡ v / 65536 % 256
      → dinode_byte ip (o + 3) ≡ v / 16777216 % 256
      → v < 2 ^ 32
      → word behind i ≡ v
  word-behind o i v lt e b0 b1 b2 b3 small =
      let q1 : 4 * i + 1 ≡ dinode_at inum + (o + 1) = omega arith in
      let q2 : 4 * i + 2 ≡ dinode_at inum + (o + 2) = omega arith in
      let q3 : 4 * i + 3 ≡ dinode_at inum + (o + 3) = omega arith in
      rw
        (
          q1,
          q2,
          q3,
          e,
          byte_at o (omega arith),
          byte_at (o + 1) (omega arith),
          byte_at (o + 2) (omega arith),
          byte_at (o + 3) lt,
          b0,
          b1,
          b2,
          b3,
        )
        (omega arith)

  addr_byte :
      (a k p : ℕ) → k < 4 → p ≡ 12 + 4 * a + k → dinode_byte ip p ≡ ip.addrs a / 256 ^ k % 256
  unfolding dinode_byte
  addr_byte a k p lt e =
      let c2 : ltb p 2 ≡ false = ground arith in
      let c4 : ltb p 4 ≡ false = ground arith in
      let c6 : ltb p 6 ≡ false = ground arith in
      let c8 : ltb p 8 ≡ false = ground arith in
      let c12 : ltb p 12 ≡ false = ground arith in
      let i : (p - 12) / 4 ≡ a = omega arith in
      let j : p % 4 ≡ k = omega arith in rw (c2, c4, c6, c8, c12, i, j)

iupdate-outside :
    (sb : Superblock) (inum : ℕ) (ip : Inode) (d : Blocks) (n i : ℕ)
    → (n ≡ iblock sb inum → (leb (dinode_at inum) i && ltb i (dinode_at inum + 64)) ≡ false)
    → iupdate sb inum ip d n i ≡ d n i
unfolding iupdate
iupdate-outside sb inum ip d n i out = elim (Bool-cases (n == iblock sb inum)) [
  | inl e ↦ let eq = (==_iff n (iblock sb inum)).0 e in rw (e, out eq) (ap (λ x. d x i) (sym eq))
  | inr ne ↦ rw ne
]

-- For an inode whose fields fit their widths on disk, what ilock loads behind iupdate is what was
-- in memory: type, major, minor, nlink, size and the 13 addresses. Outside the 64 bytes of this
-- inode no byte of the disk has changed.
pub load-iupdate :
    (sb : Superblock) (inum : ℕ) (ip : Inode) (d : Blocks)
    → Fits ip
    → let back = load sb inum (iupdate sb inum ip d) in
      (back.kind ≡ ip.kind)
      × (back.major ≡ ip.major)
      × (back.minor ≡ ip.minor)
      × (back.nlink ≡ ip.nlink)
      × (back.size ≡ ip.size)
      × ((a : ℕ) → a < 13 → back.addrs a ≡ ip.addrs a)
      × ((n i : ℕ)
          → (n ≡ iblock sb inum → (leb (dinode_at inum) i && ltb i (dinode_at inum + 64)) ≡ false)
          → iupdate sb inum ip d n i ≡ d n i)
unfolding load dinode_byte
load-iupdate sb inum ip d f = (
  half-behind sb inum ip d 0 _ ip.kind (omega arith) (omega arith) (omega arith) (omega arith)
      f.kind_lt,
  half-behind sb inum ip d 2 _ ip.major (omega arith) refl (omega arith) (omega arith) f.major_lt,
  half-behind sb inum ip d 4 _ ip.minor (omega arith) refl (omega arith) (omega arith) f.minor_lt,
  half-behind sb inum ip d 6 _ ip.nlink (omega arith) refl (omega arith) (omega arith) f.nlink_lt,
  word-behind sb inum ip d 8 _ ip.size (omega arith) (omega arith) (omega arith) (omega arith)
      (omega arith) (omega arith) f.size_lt,
  λ a lt.
      word-behind sb inum ip d (12 + 4 * a) _ (ip.addrs a) (omega arith) (omega arith)
        (addr_byte sb inum ip d a 0 (12 + 4 * a) (omega arith) (omega arith) ∙ omega arith)
        (addr_byte sb inum ip d a 1 (12 + 4 * a + 1) (omega arith) (omega arith))
        (addr_byte sb inum ip d a 2 (12 + 4 * a + 2) (omega arith) (omega arith))
        (addr_byte sb inum ip d a 3 (12 + 4 * a + 3) (omega arith) (omega arith)) (f.addrs_lt a lt),
  iupdate-outside sb inum ip d,
)

-- The other blocks stay.
pub iupdate-other :
    (sb : Superblock) (inum : ℕ) (ip : Inode) (d : Blocks) (b : ℕ)
    → b ≢ iblock sb inum
    → iupdate sb inum ip d b ≡ d b
unfolding iupdate
iupdate-other sb inum ip d b ne = rw (==_of_ne b (iblock sb inum) ne) refl
