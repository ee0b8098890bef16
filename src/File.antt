-- ===== src/File.antt =====
-- src/kernel/file.c, and the system calls on descriptors of src/kernel/sysfile.c with their arguments
-- of src/kernel/syscall.c. A file is its index in `filecache.files`; a null pointer is `none`. The
-- device switch is an argument, as are the registers a0 to a5 of the trapframe.
pub mod Refs
pub mod Open
mod Tests
use halo_os.Base.{
  ℕ, zero, suc, ◌+◌, ◌-◌, ◌%◌, ◌^◌, Bool, true, false, not, ◌&&◌, ◌||◌, Option, none, some, List,
  [], ◌∷◌, ltb, ◌==◌, if◌then◌else◌, set, get_elem?,
}
use halo_os.Base.Array.{update}
use halo_os.Base.Int.{ℤ, pos, negsuc}
use halo_os.Base.Outcome.{Outcome, ok, panic, ◌>>=◌}
use halo_os.Fs.Layout.{Superblock, Blocks}
use halo_os.Fs.Dinode.{Inode}
use halo_os.Fs.Content.{Read, readi}

abbrev pub nfile : ℕ
nfile = 100

abbrev pub openfile : ℕ
openfile = 16

abbrev pub ndev : ℕ
ndev = 10

pub data Kind : Type 0 where
  fd_none fd_pipe fd_inode fd_device : Kind

-- `struct file`; an inode is its index in the inode cache
pub record File : Type 0 where
  pub kind : Kind
  pub ref : ℕ
  pub readable : Bool
  pub writable : Bool
  pub ip : ℕ
  pub off : ℕ
  pub major : ℤ

-- The file cache, and `openfs` of the calling process
pub record Files : Type 0 where
  pub files : ℕ → File
  pub openfs : List (Option ℕ)

find_closed : (n i : ℕ) → (ℕ → File) → Option ℕ
find_closed zero i files = none
find_closed (suc n) i files =
    let rest = find_closed n (i + 1) files in if (files i).ref == 0 then some i else rest

unfoldable pub filealloc : (ℕ → File) → Option ℕ × (ℕ → File)
unfolding find_closed
filealloc files = elim (find_closed nfile 0 files) [
  | none ↦ (none, files)
  | some i ↦ (some i, update files i (record (files i) { ref = 1 }))
]

-- The inode that a file gives to iput when its last reference goes.
abbrev pub inode_of : File → Option ℕ
inode_of f = elim (f.kind) [ Kind.fd_inode ↦ some f.ip | Kind.fd_device ↦ some f.ip | _ ↦ none ]

-- fileclose: the inode to put, if any, and the files.
unfoldable pub fileclose : (ℕ → File) → ℕ → Outcome (Option ℕ × (ℕ → File))
fileclose files f =
    if ltb (files f).ref 1
    then panic
    else if ltb 0 ((files f).ref - 1)
    then ok (none, update files f (record (files f) { ref = (files f).ref - 1 }))
    else ok (inode_of (files f), update files f (record (files f) { ref = 0; kind = Kind.fd_none }))

pub filedup : (ℕ → File) → ℕ → Outcome (ℕ → File)
filedup files f =
    if ltb (files f).ref 1
    then panic
    else ok (update files f (record (files f) { ref = (files f).ref + 1 }))

-- `f->major < 0 || f->major >= NDEV || !devsw[f->major].write`, and the call of the device.
on_device : (devsw : ℕ → Option (ℕ → ℕ → ℤ)) → ℤ → (p n : ℕ) → ℤ
on_device devsw (negsuc major) p n = negsuc 0
on_device devsw (pos major) p n = elim (devsw major) [
  | none ↦ negsuc 0
  | some call ↦ if ltb major ndev then call p n else negsuc 0
]

pub filewrite : (devsw : ℕ → Option (ℕ → ℕ → ℤ)) → File → (p n : ℕ) → Outcome ℤ
unfolding on_device
filewrite devsw f p n = if not f.writable then ok (negsuc 0) else elim (f.kind) [
  | Kind.fd_pipe ↦ ok (pos 1)
  | Kind.fd_device ↦ ok (on_device devsw f.major p n)
  | Kind.fd_inode ↦ ok (pos 0)
  | Kind.fd_none ↦ panic
]

-- The offset moves by the `n` asked for when readi returns a positive count.
after_read : File → ℕ → Read → ℤ × File × Inode × Blocks
after_read f n r = elim (r.count) [
  | none ↦ (negsuc 0, f, r.ip, r.blocks)
  | some k ↦ (pos k, if ltb 0 k then record f { off = (f.off + n) % 2 ^ 32 } else f, r.ip, r.blocks)
]

-- fileread, with the inode that ilock has loaded.
pub fileread :
    (devsw : ℕ → Option (ℕ → ℕ → ℤ))
    → (fails : ℕ → Bool) → Superblock
    → Inode
    → Blocks
    → File
    → (p n : ℕ) → Outcome (ℤ × File × Inode × Blocks)
unfolding on_device after_read
fileread devsw fails sb ip d f p n =
    if not f.readable then ok (negsuc 0, f, ip, d) else elim (f.kind) [
      | Kind.fd_device ↦ ok (on_device devsw f.major p n, f, ip, d)
      | Kind.fd_inode ↦ readi fails sb ip d p f.off n >>= λ r. ok (after_read f n r)
      | _ ↦ ok (pos 0, f, ip, d)
    ]

-- Argument `n` of a system call; only a0 to a5 are arguments.
pub argraw : (regs : ℕ → ℕ) → ℕ → Outcome ℕ
argraw regs n = if ltb n 6 then ok (regs n) else panic

-- A register read as an `int`.
abbrev pub to_int : ℕ → ℤ
to_int v = let w = v % 2 ^ 32 in if ltb w (2 ^ 31) then pos w else negsuc (2 ^ 32 - 1 - w)

pub argint : (regs : ℕ → ℕ) → ℕ → Outcome ℤ
unfolding argraw
argint regs n = argraw regs n >>= λ v. ok (to_int v)

-- The descriptor and its file, `none` for -1.
lookup_fd : List (Option ℕ) → ℤ → Option (ℕ × ℕ)
lookup_fd openfs (negsuc fd) = none
lookup_fd openfs (pos fd) = elim (get_elem? openfs fd) [
  | some (some f) ↦ if ltb fd openfile then some (fd, f) else none
  | _ ↦ none
]

pub argfd : (regs : ℕ → ℕ) → List (Option ℕ) → ℕ → Outcome (Option (ℕ × ℕ))
unfolding argint lookup_fd
argfd regs openfs n = argint regs n >>= λ fd. ok (lookup_fd openfs fd)

-- The first free descriptor from `fd` on, with `n` rounds left.
find_fd : (n fd : ℕ) → List (Option ℕ) → Option ℕ
find_fd zero fd openfs = none
find_fd (suc n) fd openfs =
    let rest = find_fd n (fd + 1) openfs in
    elim (get_elem? openfs fd) [ some none ↦ some fd | _ ↦ rest ]

unfoldable pub fdalloc : List (Option ℕ) → ℕ → Option (ℕ × List (Option ℕ))
unfolding find_fd
fdalloc openfs f = elim (find_fd openfile 0 openfs) [
  | none ↦ none
  | some fd ↦ some (fd, set openfs fd (some f))
]

-- sys_dup behind argfd, and behind fdalloc.
dup_into : Files → (f : ℕ) → Option (ℕ × List (Option ℕ)) → Outcome (Option ℕ × Files)
dup_into s f none = ok (none, s)
dup_into s f (some (fd, fds)) =
    filedup s.files f >>= λ files. ok (some fd, record { files = files; openfs = fds })

dup_fd : Files → Option (ℕ × ℕ) → Outcome (Option ℕ × Files)
dup_fd s none = ok (none, s)
dup_fd s (some (fd, f)) = dup_into s f (fdalloc s.openfs f)

pub sys_dup : (regs : ℕ → ℕ) → Files → Outcome (Option ℕ × Files)
unfolding argfd dup_fd dup_into
sys_dup regs s = argfd regs s.openfs 0 >>= dup_fd s

-- sys_close behind argfd: `none` for -1, else the inode that is put, if any.
close_fd : Files → Option (ℕ × ℕ) → Outcome (Option (Option ℕ) × Files)
close_fd s none = ok (none, s)
close_fd s (some (fd, f)) = fileclose s.files f >>= λ (ip, files).
    ok (some ip, record { files = files; openfs = set s.openfs fd none })

pub sys_close : (regs : ℕ → ℕ) → Files → Outcome (Option (Option ℕ) × Files)
unfolding argfd close_fd
sys_close regs s = argfd regs s.openfs 0 >>= close_fd s
