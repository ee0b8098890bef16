-- ===== src/Fs/Path/Tests.antt =====
-- Paths on a concrete disk, whose root directory has the entry `ab` for inode 3.
use halo_os.Base.{ℕ, ◌+◌, ◌≡◌, refl, false, Option, none, some, ltb, ◌==◌, if◌then◌else◌}
use halo_os.Base.Memory.{Mem}
use halo_os.Base.Progress.{Progress, panicked, asleep, done}
use halo_os.Fs.Layout.{Blocks}
use halo_os.Fs.Bitmap.Tests.{sb}
use halo_os.Fs.Dinode.{load}
use halo_os.Fs.Icache.{Cached, iget, iput}
use halo_os.Fs.Path.{Tree, iname, rootsub, rooti, ilock, find_in}
use halo_os.Sleeplock.{sleep_lock, sleep_unlock, holdingsleep}
use halo_os.Fs.Content.{readi, bmap}
use halo_os.Fs.Directory.{inode_by_name}
use halo_os.Util.{strncmp}

-- Byte 64 on of block 32 is inode 1, a directory of 16 bytes in block 50.
abbrev pub disk : Blocks
disk n i =
    if n == 32
    then (if i == 64 then 1 else if i == 72 then 16 else if i == 76 then 50 else 0)
    else if n == 50
    then (if i == 0 then 3 else if i == 2 then 97 else if i == 3 then 98 else 0)
    else if n == 45
    then (if ltb i 7 then 255 else 0)
    else 0

abbrev no_inode : Cached
no_inode = record {
  dev = 0;
  inum = 0;
  ref = 0;
  vaild = false;
  ip = record { kind = 0; major = 0; minor = 0; nlink = 0; size = 0; addrs = λ a. 0 };
}

abbrev pub start : Tree
start = record { cache = λ i. no_inode; locks = λ i. record { locked = 0; pid = 0 }; blocks = disk }

-- `ab` at address 0, `cd` at 8, `/` at 16, `.` at 24 and `..` at 32
abbrev pub strings : Mem
strings a =
    if ltb a 2
    then 97 + a
    else if a == 8
    then 99
    else if a == 9
    then 100
    else if a == 16
    then 47
    else if a == 24
    then 46
    else if a == 32
    then 46
    else if a == 33
    then 46
    else 0

-- The entry of the cache that is returned, with its number.
abbrev inum_of : Progress (Option ℕ × Tree) → Option ℕ
inum_of panicked = none
inum_of asleep = none
inum_of (done (none, s)) = none
inum_of (done (some i, s)) = some ((s.cache i).inum)

test-iname_root : inum_of (iname sb 1 16 100 strings start) ≡ some 1
unfolding iname iget sleep_lock sleep_unlock holdingsleep inode_by_name readi bmap load strncmp iput
test-iname_root = refl

test-iname : inum_of (iname sb 1 0 100 strings start) ≡ some 3
unfolding iname iget sleep_lock sleep_unlock holdingsleep inode_by_name readi bmap load strncmp iput
test-iname = refl

test-iname_missing : inum_of (iname sb 1 8 100 strings start) ≡ none
unfolding iname iget sleep_lock sleep_unlock holdingsleep inode_by_name readi bmap load strncmp iput
test-iname_missing = refl

test-rootsub : inum_of (rootsub sb 1 0 100 strings start) ≡ some 3
unfolding rootsub iget sleep_lock sleep_unlock holdingsleep inode_by_name readi bmap load strncmp
    iput
test-rootsub = refl

-- The state behind a call that returns.
abbrev tree_of {ℓ} : {A : Type ℓ} → Tree → Progress (A × Tree) → Tree
tree_of s panicked = s
tree_of s asleep = s
tree_of s (done (a, s')) = s'

abbrev state_of : Tree → Progress Tree → Tree
state_of s panicked = s
state_of s asleep = s
state_of s (done s') = s'

-- Process 1 looks up `cd` in the root directory.
abbrev pub rooted : Tree
rooted = tree_of start (rooti start)

abbrev pub locked : Tree
locked = state_of rooted (ilock sb 1 0 rooted)

abbrev pub searched : Tree
searched = tree_of locked (find_in sb 0 8 100 strings locked)

pub test-rooti : rooti start ≡ done (0, rooted)
unfolding rooti iget
test-rooti = refl

pub test-ilock : ilock sb 1 0 rooted ≡ done locked
unfolding ilock sleep_lock rooti iget load
test-ilock = refl

pub test-find_in : find_in sb 0 8 100 strings locked ≡ done (none, searched)
unfolding find_in inode_by_name readi bmap strncmp ilock sleep_lock rooti iget load
test-find_in = refl
