-- ===== src/File/Tests.antt =====
-- The files of src/kernel/file.c on concrete descriptors.
use halo_os.Base.{
  ℕ, ◌≡◌, refl, true, false, Option, none, some, [], ◌∷◌, ◌==◌, if◌then◌else◌, arith,
}
use halo_os.Base.Int.{ℤ, pos, negsuc}
use halo_os.Base.Outcome.{ok}
use halo_os.Fs.Layout.{Superblock, Blocks}
use halo_os.Fs.Dinode.{Inode}
use halo_os.File.{
  Kind, File, Files, filealloc, filewrite, fileread, argraw, argint, sys_dup, sys_close,
}
use halo_os.File.Refs.{Refs, Dups, Closes, sys_dup-Dups, sys_close-Closes}

abbrev closed : File
closed = record {
  kind = Kind.fd_none;
  ref = 0;
  readable = false;
  writable = false;
  ip = 0;
  off = 0;
  major = pos 0;
}

abbrev terminal : File
terminal = record {
  kind = Kind.fd_device;
  ref = 2;
  readable = true;
  writable = true;
  ip = 4;
  off = 0;
  major = pos 1;
}

-- Descriptors 0 and 2 lead to file 3.
abbrev two_open : Files
two_open = record {
  files = λ i. if i == 3 then terminal else closed;
  openfs = some 3 ∷ none ∷ some 3 ∷ none ∷ [];
}

-- Every register holds 2.
abbrev regs : ℕ → ℕ
regs n = 2

abbrev sb : Superblock
sb = record {
  magic = 0;
  size = 0;
  nblocks = 0;
  ninodes = 0;
  nlog = 0;
  logstart = 0;
  inodestart = 0;
  bmapstart = 0;
}

abbrev empty : Inode
empty = record { kind = 0; major = 0; minor = 0; nlink = 0; size = 0; addrs = λ n. 0 }

abbrev zeros : Blocks
zeros n i = 0

abbrev echo : ℕ → Option (ℕ → ℕ → ℤ)
echo major = if major == 1 then some (λ p n. pos n) else none

two_open-Refs : Refs (λ f. 0) two_open
two_open-Refs f = ground arith

test-filealloc : (filealloc two_open.files).0 ≡ some 0
unfolding filealloc
test-filealloc = refl

test-filewrite : filewrite echo terminal 0 5 ≡ ok (pos 5)
unfolding filewrite
test-filewrite = refl

test-fileread :
    fileread echo (λ a. false) sb empty zeros closed 0 5 ≡ ok (negsuc 0, closed, empty, zeros)
unfolding fileread
test-fileread = refl

test-argint : argint (λ n. 0xffff_ffff) 0 ≡ ok (negsuc 0)
unfolding argint argraw
test-argint = refl

sys_dup-Dups_example : Dups (λ f. 0) (pos 2) two_open (sys_dup regs two_open)
sys_dup-Dups_example = sys_dup-Dups (λ f. 0) regs two_open two_open-Refs

sys_close-Closes_example : Closes (λ f. 0) two_open (sys_close regs two_open)
sys_close-Closes_example = sys_close-Closes (λ f. 0) regs two_open two_open-Refs
