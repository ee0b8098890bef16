-- ===== src/File/Open.antt =====
-- sys_open, sys_mknod, sys_read and sys_write of src/kernel/sysfile.c, over the inodes of Fs/Path and
-- the descriptors of File. The strings that argstr copied in stand in the kernel memory `m`; a mode is
-- the 32 bits of an `int`.
pub mod Locked
pub mod New
mod Tests
use halo_os.Base.{
  ℕ, zero, suc, ◌+◌, ◌-◌, ◌/◌, ◌%◌, ◌^◌, Bool, true, false, not, ◌&&◌, ◌||◌, Option, none, some,
  List, [], ◌∷◌, ltb, ◌==◌, if◌then◌else◌,
}
use halo_os.Base.Array.{update}
use halo_os.Base.Int.{ℤ, pos, negsuc}
use halo_os.Base.Memory.{Mem}
use halo_os.Base.Outcome.{Outcome, ok, panic}
use halo_os.Base.Progress.{Progress, panicked, asleep, done, of_outcome, ◌>>=◌}
use halo_os.Fs.Layout.{Superblock}
use halo_os.Fs.Icache.{Cached}
use halo_os.Fs.Path.{Tree, ilock, iunlock, put_at, iunlockput, iname, create, t_file, t_device}
use halo_os.File.{File, Files, Kind, ndev, filealloc, fileclose, fdalloc, filewrite}

-- `model & O_WRONLY`, `model & O_RDWR` and `model & O_CREATE`
abbrev pub o_wronly : ℕ → Bool
o_wronly model = model % 2 == 1

abbrev pub o_rdwr : ℕ → Bool
o_rdwr model = model / 2 % 2 == 1

abbrev pub o_create : ℕ → Bool
o_create model = model / 512 % 2 == 1

-- What sys_open enters into the file: `off` is set for a file on the disk only, `major` for a device.
abbrev pub opened : File → (model i : ℕ) → Cached → File
opened f model i e =
    let access = record f {
      ip = i;
      readable = not (o_wronly model);
      writable = o_wronly model || o_rdwr model;
    } in
    if e.ip.kind == t_device
    then record access { kind = Kind.fd_device; major = pos e.ip.major }
    else record access { kind = Kind.fd_inode; off = 0 }

-- The results of sys_open and the state: `none` for -1.
abbrev pub Opened : Type 0
Opened = Option ℕ × Tree × Files

-- sys_open behind filealloc and behind fdalloc. fileclose of a null pointer is a fault in the kernel,
-- which kerneltrap makes a panic.
pub close_again : Superblock → (f : ℕ) → Tree → Files → Progress Opened
close_again sb f s fs = of_outcome (fileclose fs.files f) >>= λ (ip, files). elim ip [
  | none ↦ done (none, s, record fs { files = files })
  | some i ↦ put_at sb i s >>= λ s'. done (none, s', record fs { files = files })
]

pub enter_fd :
    Superblock → (me model i f : ℕ) → Tree → Files → Option (ℕ × List (Option ℕ)) → Progress Opened
unfolding close_again
enter_fd sb me model i f s fs none = close_again sb f s fs
enter_fd sb me model i f s fs (some (fd, fds)) = iunlock me i s >>= λ s'. done (
  some fd,
  s',
  record { files = update fs.files f (opened (fs.files f) model i (s.cache i)); openfs = fds },
)

pub enter_file :
    Superblock → (me model i : ℕ) → Tree → Files → Option ℕ × (ℕ → File) → Progress Opened
unfolding enter_fd
enter_file sb me model i s fs (none, files) = panicked
enter_file sb me model i s fs (some f, files) =
    enter_fd sb me model i f s (record fs { files = files }) (fdalloc fs.openfs f)

-- `ip->major < 0 || ip->major >= NDEV` of a `short`, as its 16 bits
abbrev pub bad_device : Cached → Bool
bad_device e = (e.ip.kind == t_device) && not (ltb e.ip.major ndev)

-- sys_open behind create and iname.
pub open_inode : Superblock → (me model : ℕ) → Files → Option ℕ × Tree → Progress Opened
unfolding enter_file
open_inode sb me model fs (none, s) = done (none, s, fs)
open_inode sb me model fs (some i, s) = ilock sb me i s >>= λ s'.
    if bad_device (s'.cache i)
    then panicked
    else enter_file sb me model i s' fs (filealloc fs.files)

-- The inode that sys_open opens.
pub open_path :
    Superblock → (me path model dot dotdot de : ℕ) → Mem → Tree → Progress (Option ℕ × Tree)
open_path sb me path model dot dotdot de m s =
    if o_create model
    then (create sb me path t_file 0 0 dot dotdot de m s >>= λ (i, s'). done (some i, s'))
    else iname sb me path de m s

-- sys_open, with the path and the mode if argstr and argint gave them.
pub sys_open :
    Superblock
    → (me : ℕ) → (args : Option (ℕ × ℕ)) → (dot dotdot de : ℕ) → Mem
    → Tree
    → Files
    → Progress Opened
unfolding open_path open_inode
sys_open sb me none dot dotdot de m s fs = done (none, s, fs)
sys_open sb me (some (path, model)) dot dotdot de m s fs =
    open_path sb me path model dot dotdot de m s >>= open_inode sb me model fs

-- sys_mknod, with the path and the numbers if the arguments could be read.
pub sys_mknod :
    Superblock
    → (me : ℕ) → (args : Option (ℕ × ℕ × ℕ)) → (dot dotdot de : ℕ) → Mem
    → Tree
    → Progress Tree
sys_mknod sb me none dot dotdot de m s = panicked
sys_mknod sb me (some (path, major, minor)) dot dotdot de m s =
    create sb me path t_device (major % 2 ^ 16) (minor % 2 ^ 16) dot dotdot de m s >>= λ (i, s').
    iunlockput sb me i s'
