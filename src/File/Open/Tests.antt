-- ===== src/File/Open/Tests.antt =====
-- sys_open of src/kernel/sysfile.c on the disk of Fs/Path/Tests.
use halo_os.Base.{ℕ, ◌≡◌, refl, Bool, true, false, Option, none, some, [], ◌∷◌}
use halo_os.Base.Int.{pos}
use halo_os.Base.Progress.{Progress, panicked, asleep, done}
use halo_os.Util.{strncmp, strncpy}
use halo_os.Fs.Bitmap.Tests.{sb}
use halo_os.Fs.Dinode.{load, iupdate}
use halo_os.Fs.Content.{bmap, readi, writei}
use halo_os.Fs.Icache.{iget, iput}
use halo_os.Fs.Directory.{inode_by_name, dirlink, ialloc}
use halo_os.Fs.Path.{iname, create, ilock, iunlock, iunlockput, t_file}
use halo_os.Fs.Path.Tests.{
  start, strings, rooted, locked, searched, test-rooti, test-ilock, test-find_in,
}
use halo_os.Sleeplock.{sleep_lock, sleep_unlock, holdingsleep}
use halo_os.File.{Files, Kind, filealloc, fdalloc, fileclose}
use halo_os.File.Open.{Opened, sys_open, sys_mknod}
use halo_os.File.Open.New.{Deadlocks, sys_open-new}

abbrev no_files : Files
no_files = record {
  files = λ f. record {
    kind = Kind.fd_none;
    ref = 0;
    readable = false;
    writable = false;
    ip = 0;
    off = 0;
    major = pos 0;
  };
  openfs = none ∷ none ∷ none ∷ none ∷ [];
}

-- The descriptor, if sys_open returns one.
abbrev fd_of : Progress Opened → Option ℕ
fd_of panicked = none
fd_of asleep = none
fd_of (done (fd, s, fs)) = fd

abbrev is_asleep {ℓ} : {A : Type ℓ} → Progress A → Bool
is_asleep panicked = false
is_asleep asleep = true
is_asleep (done a) = false

-- The file `ab` is opened to read and write as descriptor 0.
test-open : fd_of (sys_open sb 1 (some (0, 2)) 24 32 100 strings start no_files) ≡ some 0
unfolding sys_open iname create ilock iunlock iunlockput iget iput sleep_lock sleep_unlock
    holdingsleep inode_by_name dirlink ialloc readi writei bmap load iupdate strncmp strncpy
    filealloc fdalloc fileclose
test-open = refl

-- A new file `cd`: sys_open sleeps on the lock that create holds.
test-create_asleep :
    is_asleep (sys_open sb 1 (some (8, 514)) 24 32 100 strings start no_files) ≡ true
unfolding sys_open iname create ilock iunlock iunlockput iget iput sleep_lock sleep_unlock
    holdingsleep inode_by_name dirlink ialloc readi writei bmap load iupdate strncmp strncpy
    filealloc fdalloc fileclose
test-create_asleep = refl

-- sys_mknod of a new device ends.
test-mknod : is_asleep (sys_mknod sb 1 (some (8, 1, 0)) 24 32 100 strings start) ≡ false
unfolding sys_mknod iname create ilock iunlock iunlockput iget iput sleep_lock sleep_unlock
    holdingsleep inode_by_name dirlink ialloc readi writei bmap load iupdate strncmp strncpy
    filealloc fdalloc fileclose
test-mknod = refl

sys_open-new_example :
    Deadlocks 1
      (create sb 1 8 t_file 0 0 24 32 100 strings start)
      (sys_open sb 1 (some (8, 514)) 24 32 100 strings start no_files)
sys_open-new_example =
    sys_open-new sb 1 8 514 24 32 100 0 strings start rooted locked searched no_files refl
      test-rooti test-ilock test-find_in
