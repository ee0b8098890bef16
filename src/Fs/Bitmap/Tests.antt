-- ===== src/Fs/Bitmap/Tests.antt =====
-- The bitmap of src/kernel/fs.c on a concrete disk.
use halo_os.Base.{ℕ, ◌%◌, ◌≡◌, refl, ◌||◌, arith, ltb, ◌==◌, if◌then◌else◌}
use halo_os.Base.Outcome.{ok}
use halo_os.Fs.Layout.{Superblock, Blocks}
use halo_os.Fs.Bitmap.{balloc, bfree}
use halo_os.Fs.Bitmap.Alloc.{Allocates, Bytes, used, marked, balloc-Allocates, bfree-balloc}

abbrev pub sb : Superblock
sb = record {
  magic = 0x10203040;
  size = 2000;
  nblocks = 1954;
  ninodes = 200;
  nlog = 30;
  logstart = 2;
  inodestart = 32;
  bmapstart = 45;
}

-- The bitmap has blocks 0 to 46 in use; block `n` else holds `n % 256` in every byte.
abbrev pub disk : Blocks
disk n i = if n == 45 then (if ltb i 5 then 255 else if i == 5 then 127 else 0) else n % 256

disk-Bytes : Bytes disk
disk-Bytes n i = ground arith

balloc_lem : balloc sb disk ≡ ok (47, marked sb disk 47)
unfolding balloc halo_os.Fs.Bitmap.find_clear
balloc_lem = refl

balloc-Allocates_example : Allocates sb disk (balloc sb disk)
balloc-Allocates_example = balloc-Allocates sb disk

bfree-balloc_example :
    ((j : ℕ) → used sb (marked sb disk 47) j ≡ ((47 == j) || used sb disk j))
    × (f : Blocks) × (bfree sb (marked sb disk 47) 47 ≡ ok f)
    × ((j : ℕ) → used sb f j ≡ used sb disk j)
bfree-balloc_example = bfree-balloc sb disk disk-Bytes balloc_lem
