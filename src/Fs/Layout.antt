-- ===== src/Fs/Layout.antt =====
-- The disk layout of src/kernel/fs.h: the superblock, and what a disk block is.
use halo_os.Base.{ℕ, ◌+◌, ◌*◌, ◌/◌}

-- `BSIZE`, `BPB`, `NDIRECT`, `NINDIRECT`, `MAXFILE`, `IPB` and `DIRSIZ`
abbrev pub bsize : ℕ
bsize = 1024

abbrev pub bpb : ℕ
bpb = bsize * 8

abbrev pub ndirect : ℕ
ndirect = 12

abbrev pub nindirect : ℕ
nindirect = 256

abbrev pub maxfile : ℕ
maxfile = ndirect + nindirect

abbrev pub ipb : ℕ
ipb = 16

abbrev pub dirsiz : ℕ
dirsiz = 14

pub record Superblock : Type 0 where
  pub magic : ℕ
  pub size : ℕ
  pub nblocks : ℕ
  pub ninodes : ℕ
  pub nlog : ℕ
  pub logstart : ℕ
  pub inodestart : ℕ
  pub bmapstart : ℕ

-- The bytes of each block, as bread gives them: the disk with the changed buffers on top.
abbrev pub Blocks : Type 0
Blocks = ℕ → ℕ → ℕ

-- `BMAPBLOCK(b, sb)`, which is `BBLOCK(b, sb)`
abbrev pub bmap_block : Superblock → ℕ → ℕ
bmap_block sb b = b / bpb + sb.bmapstart

-- `IBLOCK(i, sb)`
abbrev pub iblock : Superblock → ℕ → ℕ
iblock sb i = i / ipb + sb.inodestart
