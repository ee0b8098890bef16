-- ===== src/Mkfs/Tests.antt =====
-- src/mkfs.c on an empty image.
use halo_os.Base.{ℕ, ◌+◌, ◌≡◌, refl, Option, none, some, arith}
use halo_os.Base.Outcome.{Outcome, ok, panic}
use halo_os.Fs.Dinode.{load, iupdate}
use halo_os.Mkfs.{Image, nmeta, rinode, mkfs_ialloc, mkfs_balloc, iappend, fix_size}
use halo_os.Mkfs.Balloc.{Ready, mkfs_balloc-Ready}

abbrev empty : Image
empty = record { blocks = λ n i. 0; freeinode = 1; freeblock = nmeta }

-- The data blocks start at block 46.
test-nmeta : nmeta ≡ 46
test-nmeta = refl

test-ialloc : (mkfs_ialloc 1 empty).0 ≡ 1
unfolding mkfs_ialloc
test-ialloc = refl

-- The size of inode 1, its first block, and byte 3 of that block.
abbrev file : Outcome Image → Option (ℕ × ℕ × ℕ)
file panic = none
file (ok m) = some (
  (rinode 1 m.blocks).size,
  (rinode 1 m.blocks).addrs 0,
  m.blocks ((rinode 1 m.blocks).addrs 0) 3,
)

test-iappend : file (iappend 1 (λ i. 7 + i) 5 empty) ≡ some (5, 46, 10)
unfolding iappend load iupdate
test-iappend = refl

test-fix_size : (rinode 1 (fix_size 1 empty).blocks).size ≡ 1024
unfolding fix_size load iupdate
test-fix_size = refl

mkfs_balloc-Ready_example : Ready 60 (mkfs_balloc 60 empty)
mkfs_balloc-Ready_example = mkfs_balloc-Ready 60 empty (omega arith)
