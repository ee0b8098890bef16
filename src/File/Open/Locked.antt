-- ===== src/File/Open/Locked.antt =====
-- sys_open of src/kernel/sysfile.c with O_CREATE and the lock of the root directory.
use halo_os.Base.{ℕ}
use halo_os.Base.Outcome.{Outcome}
use halo_os.Base.Progress.{Progress, After}
use halo_os.Fs.Layout.{Superblock}
use halo_os.Fs.Path.Locks.{Held}
use halo_os.File.{File}
use halo_os.File.Open.{Opened}

module _ (sb : Superblock) (me model i dp : ℕ) where
  -- The lock of the directory is held behind the call.
  abbrev Keeps : Progress Opened → Type 0
  Keeps r = After r (λ (fd, s', fs'). Held me (s'.locks dp))
