-- ===== src/Fs/Dinode.antt =====
-- The disk inode of src/kernel/fs.h as bytes: ilock's load and iupdate of src/kernel/fs.c.
pub mod RoundTrip
use halo_os.Base.{ℕ, ◌+◌, ◌-◌, ◌*◌, ◌/◌, ◌%◌, ◌^◌, Bool, ◌&&◌, ltb, leb, ◌==◌, if◌then◌else◌}
use halo_os.Base.Array.{update}
use halo_os.Fs.Layout.{Superblock, Blocks, ipb, iblock}

-- The fields of `struct inode` that come from the disk; entry NDIRECT of `addrs` is the indirect
-- block.
pub record Inode : Type 0 where
  pub kind : ℕ
  pub major : ℕ
  pub minor : ℕ
  pub nlink : ℕ
  pub size : ℕ
  pub addrs : ℕ → ℕ

-- The `uint` at index `i` of a block, low byte first, and a store there.
abbrev pub word : (ℕ → ℕ) → ℕ → ℕ
word bytes i =
    bytes (4 * i)
    + 256 * bytes (4 * i + 1)
    + 65536 * bytes (4 * i + 2)
    + 16777216 * bytes (4 * i + 3)

abbrev pub set_word : (ℕ → ℕ) → ℕ → ℕ → ℕ → ℕ
set_word bytes i v =
    update
      (update (update (update bytes (4 * i) (v % 256)) (4 * i + 1) (v / 256 % 256)) (4 * i + 2)
        (v / 65536 % 256))
      (4 * i + 3) (v / 16777216 % 256)

-- The `short` at byte `o` of a block.
abbrev pub half : (ℕ → ℕ) → ℕ → ℕ
half bytes o = bytes o + 256 * bytes (o + 1)

-- The byte at offset `o` of `struct dinode`: type, major, minor and nlink of two bytes each, size,
-- and the addresses of four bytes each, low byte first.
dinode_byte : Inode → ℕ → ℕ
dinode_byte ip o =
    if ltb o 2
    then ip.kind / 256 ^ (o % 2) % 256
    else if ltb o 4
    then ip.major / 256 ^ (o % 2) % 256
    else if ltb o 6
    then ip.minor / 256 ^ (o % 2) % 256
    else if ltb o 8
    then ip.nlink / 256 ^ (o % 2) % 256
    else if ltb o 12
    then ip.size / 256 ^ (o % 4) % 256
    else ip.addrs ((o - 12) / 4) / 256 ^ (o % 4) % 256

-- `(struct dinode*)b->data + inum % IPB`, as an offset in the block
abbrev pub dinode_at : ℕ → ℕ
dinode_at inum = inum % ipb * 64

unfoldable pub iupdate : Superblock → (inum : ℕ) → Inode → Blocks → Blocks
unfolding dinode_byte
iupdate sb inum ip d = update d (iblock sb inum) (λ i.
    if leb (dinode_at inum) i && ltb i (dinode_at inum + 64)
    then dinode_byte ip (i - dinode_at inum)
    else d (iblock sb inum) i)

-- What ilock copies into an inode that is not valid.
unfoldable pub load : Superblock → (inum : ℕ) → Blocks → Inode
load sb inum d =
    let bytes = d (iblock sb inum) in
    let o = dinode_at inum in
    record {
      kind = half bytes o;
      major = half bytes (o + 2);
      minor = half bytes (o + 4);
      nlink = half bytes (o + 6);
      size = word bytes (inum % ipb * 16 + 2);
      addrs = λ a. word bytes (inum % ipb * 16 + 3 + a);
    }
