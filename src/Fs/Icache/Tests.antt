-- ===== src/Fs/Icache/Tests.antt =====
-- The inode cache of src/kernel/fs.c on concrete entries.
use halo_os.Base.{ℕ, ◌≡◌, refl, true, false, ◌==◌, if◌then◌else◌, arith}
use halo_os.Base.Outcome.{Outcome, ok, panic}
use halo_os.Fs.Layout.{Superblock}
use halo_os.Fs.Dinode.{Inode}
use halo_os.Fs.Icache.{Cached, idup, iget, iput}
use halo_os.Fs.Icache.Unique.{OnceLive, IgetGets, iget-IgetGets}

abbrev empty : Inode
empty = record { kind = 2; major = 0; minor = 0; nlink = 1; size = 0; addrs = λ n. 0 }

-- Entry 3 is inode 1 of device 1, with two references.
abbrev root_open : ℕ → Cached
root_open i =
    if i == 3
    then record { dev = 1; inum = 1; ref = 2; vaild = true; ip = empty }
    else record { dev = 0; inum = 0; ref = 0; vaild = false; ip = empty }

abbrev sb : Superblock
sb = record {
  magic = 0;
  size = 0;
  nblocks = 0;
  ninodes = 0;
  nlog = 0;
  logstart = 0;
  inodestart = 0;
  bmapstart = 0;
}

abbrev refs_of : Outcome (Cached × (ℕ → ℕ → ℕ)) → ℕ
refs_of panic = 99
refs_of (ok (e, d)) = e.ref

abbrev entry_of : Outcome (ℕ × (ℕ → Cached)) → ℕ
entry_of panic = 99
entry_of (ok (i, c)) = i

root_open-OnceLive : OnceLive root_open
root_open-OnceLive i j li lj a b d n = ground arith

test-iget : entry_of (iget root_open 1 1) ≡ 3
unfolding iget
test-iget = refl

test-idup : (idup (root_open 3)).ref ≡ 3
unfolding idup
test-idup = refl

test-iput : refs_of (iput sb (root_open 3) (λ n i. 0)) ≡ 1
unfolding iput
test-iput = refl

iget-IgetGets_example : IgetGets root_open 1 5 (iget root_open 1 5)
iget-IgetGets_example = iget-IgetGets root_open 1 5 root_open-OnceLive
