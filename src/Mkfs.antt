-- ===== src/Mkfs.antt =====
-- src/mkfs.c: the image of a new file system. The host has the byte order of the disk, so that xint and
-- xshort change nothing; blocks are read and written at their number (rsect, wsect). An assertion that
-- fails ends the program and is a panic. The files that main copies in are not modelled.
pub mod Balloc
mod Tests
use halo_os.Base.{
  ℕ, zero, suc, ◌+◌, ◌-◌, ◌*◌, ◌/◌, ◌%◌, ◌^◌, Bool, true, false, not, ltb, ◌==◌, if◌then◌else◌, min,
}
use halo_os.Base.Array.{update}
use halo_os.Base.Outcome.{Outcome, ok, panic, ◌>>=◌}
use halo_os.Fs.Layout.{Superblock, Blocks, bsize, ipb, ndirect, maxfile}
use halo_os.Fs.Dinode.{Inode, word, set_word, iupdate, load}
use halo_os.Fs.Bitmap.{set_bit}
use halo_os.Fs.Content.{tabulate, store_bytes}

-- `FSSIZE`, `NINODES` and `LOGSIZE`
abbrev pub fssize : ℕ
fssize = 2000

abbrev pub ninodes : ℕ
ninodes = 200

abbrev pub nlog : ℕ
nlog = 30

abbrev pub nbitmap : ℕ
nbitmap = fssize / (bsize * 8) + 1

abbrev pub ninodeblocks : ℕ
ninodeblocks = ninodes / ipb + 1

abbrev pub nmeta : ℕ
nmeta = 2 + nlog + ninodeblocks + nbitmap

-- The superblock that main writes.
abbrev pub sb : Superblock
sb = record {
  magic = 0x10203040;
  size = fssize;
  nblocks = fssize - nmeta;
  ninodes = ninodes;
  nlog = nlog;
  logstart = 2;
  inodestart = 2 + nlog;
  bmapstart = 2 + nlog + ninodeblocks;
}

-- The image and the two counters.
pub record Image : Type 0 where
  pub blocks : Blocks
  pub freeinode : ℕ
  pub freeblock : ℕ

-- `*dip = *ip`: as iupdate, winode writes every field.
abbrev pub winode : (inum : ℕ) → Inode → Blocks → Blocks
winode inum ip d = iupdate sb inum ip d

abbrev pub rinode : (inum : ℕ) → Blocks → Inode
rinode inum d = load sb inum d

-- ialloc of mkfs: the number and the image.
pub mkfs_ialloc : (kind : ℕ) → Image → ℕ × Image
mkfs_ialloc kind m =
    let din : Inode = record {
      kind = kind;
      major = 0;
      minor = 0;
      nlink = 1;
      size = 0;
      addrs = λ a. 0;
    } in
    (
      m.freeinode,
      record m { blocks = winode m.freeinode din m.blocks; freeinode = m.freeinode + 1 },
    )

-- The loop of balloc from bit `i` on, with `n` bits to set.
pub mark_loop : (n i : ℕ) → (ℕ → ℕ) → ℕ → ℕ
mark_loop zero i buf = buf
mark_loop (suc n) i buf = mark_loop n (i + 1) (set_bit buf i)

-- balloc of mkfs: the bitmap with the blocks below `used` marked.
pub mkfs_balloc : (used : ℕ) → Image → Outcome Image
unfolding mark_loop
mkfs_balloc used m =
    if ltb used (bsize * 8)
    then ok (record m { blocks = update m.blocks sb.bmapstart (mark_loop used 0 (λ i. 0)) })
    else panic

-- The block of a direct address, taken from `freeblock` if there is none yet.
pub direct_block : (fbn : ℕ) → Inode → Image → ℕ × Inode × Image
direct_block fbn din m =
    if din.addrs fbn == 0
    then (
      m.freeblock,
      record din { addrs = update din.addrs fbn m.freeblock },
      record m { freeblock = m.freeblock + 1 },
    )
    else (din.addrs fbn, din, m)

-- The block of entry `n` of the indirect block `a`.
pub indirect_block : (a n : ℕ) → Inode → Image → ℕ × Inode × Image
indirect_block a n din m =
    if word (m.blocks a) n == 0
    then (
      m.freeblock,
      din,
      record m {
        blocks = update m.blocks a (set_word (m.blocks a) n m.freeblock);
        freeblock = m.freeblock + 1;
      },
    )
    else (word (m.blocks a) n, din, m)

pub file_block : (fbn : ℕ) → Inode → Image → ℕ × Inode × Image
unfolding direct_block indirect_block
file_block fbn din m =
    if ltb fbn ndirect
    then direct_block fbn din m
    else (let (a, din', m') = direct_block ndirect din m in
        indirect_block a (fbn - ndirect) din' m')

-- The loop of iappend, on fuel, with the bytes of `source` from `p` on: the new offset.
pub append_loop :
    (source : ℕ → ℕ) → (fuel n off p : ℕ) → Inode → Image → Outcome (ℕ × Inode × Image)
unfolding file_block
append_loop source zero n off p din m = ok (off, din, m)
append_loop source (suc fuel) n off p din m =
    let fbn = off / bsize in
    let n1 = min n ((fbn + 1) * bsize - off) in
    let (x, din', m') = file_block fbn din m in
    let rest = append_loop source fuel (n - n1) (off + n1) (p + n1) din' (record m' {
      blocks =
          update m'.blocks x (store_bytes (m'.blocks x) (off - fbn * bsize) (tabulate source p n1));
    }) in
    if n == 0 then ok (off, din, m) else if ltb fbn maxfile then rest else panic

-- iappend: a round copies at least one byte, so `n` rounds are enough.
pub iappend : (inum : ℕ) → (source : ℕ → ℕ) → (n : ℕ) → Image → Outcome Image
unfolding append_loop
iappend inum source n m =
    let din = rinode inum m.blocks in
    append_loop source n n din.size 0 din m >>= λ (off, din', m').
    ok (record m' { blocks = winode inum (record din' { size = off }) m'.blocks })

-- The root directory's size is rounded up at the end of main; at a multiple of BSIZE it grows by a
-- block too.
pub fix_size : (rootino : ℕ) → Image → Image
fix_size rootino m =
    let din = rinode rootino m.blocks in
    record m {
      blocks = winode rootino (record din { size = (din.size / bsize + 1) * bsize }) m.blocks;
    }
