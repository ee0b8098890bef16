-- ===== src/Fs/Directory.antt =====
-- The directory layer of src/kernel/fs.c: inodeByName, dirlink, ialloc and stati. A directory is a
-- file of 16-byte entries: a `ushort` number, and a name of DIRSIZ bytes. The entry in the frame of
-- the caller, `de` or `dir`, has an address in the kernel memory `m`, in which names are strings.
-- `int off` is compared with a `uint` size, as numbers below 2^31.
pub mod Entry
pub mod Scan
pub mod Lookup
pub mod Written
pub mod Link
pub mod Enter
pub mod Alloc
mod Tests
use halo_os.Base.{
  ℕ, zero, suc, ◌+◌, ◌-◌, ◌*◌, ◌/◌, ◌%◌, Bool, true, false, not, ◌&&◌, Option, none, some, List, [],
  ◌∷◌, ltb, leb, ◌==◌, if◌then◌else◌,
}
use halo_os.Base.Array.{update}
use halo_os.Base.Int.{ℤ, pos, negsuc}
use halo_os.Base.Memory.{Mem, store}
use halo_os.Base.Outcome.{Outcome, ok, panic, ◌>>=◌}
use halo_os.Util.{strncmp, strncpy}
use halo_os.Fs.Layout.{Superblock, Blocks, dirsiz, iblock}
use halo_os.Fs.Dinode.{Inode, half, dinode_at}
use halo_os.Fs.Content.{Read, readi, writei, store_bytes}
use halo_os.Fs.Icache.{Cached, iget}

-- `sizeof(struct dirent)`
abbrev pub dirent_size : ℕ
dirent_size = 16

-- A copy to or from kernel memory does not fail.
abbrev pub kernel : ℕ → Bool
kernel a = false

abbrev pub is_zero : ℤ → Bool
is_zero (pos n) = n == 0
is_zero (negsuc n) = false

-- `== sizeof(struct dirent)`
abbrev pub is_entry : Option ℕ → Bool
is_entry none = false
is_entry (some n) = n == dirent_size

-- The loop that inodeByName and dirlink have in common, on fuel: whether it stopped at an entry, and
-- its offset.
pub dir_loop :
    (stop : Mem → Bool)
    → Superblock
    → (de : ℕ) → (fuel off : ℕ) → Inode
    → Blocks
    → Mem
    → Outcome (Bool × ℕ × Inode × Blocks × Mem)
dir_loop stop sb de zero off ip d m = ok (false, off, ip, d, m)
dir_loop stop sb de (suc fuel) off ip d m =
    if ltb off ip.size
    then (readi kernel sb ip d de off dirent_size >>= λ r.
        let m' = store_bytes m de r.out in
        let rest = dir_loop stop sb de fuel (off + dirent_size) r.ip r.blocks m' in
        if not (is_entry r.count)
        then panic
        else if stop m'
        then ok (true, off, r.ip, r.blocks, m')
        else rest)
    else ok (false, off, ip, d, m)

-- The test of inodeByName on the entry at `de`, and that of dirlink.
abbrev pub is_named : (name de : ℕ) → Mem → Bool
is_named name de m = is_zero (strncmp m name (de + 2) dirsiz)

abbrev pub is_free : (dir : ℕ) → Mem → Bool
is_free dir m = half m dir == 0

-- inodeByName behind its loop: the entry of the inode cache, if there is one.
pub by_inum :
    (ℕ → Cached)
    → (dev de : ℕ) → Bool × ℕ × Inode × Blocks × Mem
    → Outcome (Option ℕ × (ℕ → Cached) × Inode × Blocks)
by_inum c dev de (true, off, ip, d, m) =
    iget c dev (half m de) >>= λ (i, c'). ok (some i, c', ip, d)
by_inum c dev de (false, off, ip, d, m) = ok (none, c, ip, d)

unfoldable pub inode_by_name :
    Superblock
    → (ℕ → Cached)
    → (dev : ℕ) → Inode
    → Blocks
    → (name de : ℕ) → Mem
    → Outcome (Option ℕ × (ℕ → Cached) × Inode × Blocks)
unfolding dir_loop by_inum
inode_by_name sb c dev ip d name de m =
    dir_loop (is_named name de) sb de (ip.size / dirent_size + 1) 0 ip d m >>= by_inum c dev de

-- The entry that dirlink writes.
abbrev pub new_entry : Mem → (dir path inum : ℕ) → Mem
new_entry m dir path inum =
    let m1 = strncpy m (dir + 2) path dirsiz in
    store (store m1 dir (inum % 256)) (dir + 1) (inum / 256 % 256)

-- dirlink behind its loop.
pub write_entry :
    Superblock
    → (dnum dir path inum : ℕ) → Bool × ℕ × Inode × Blocks × Mem
    → Outcome (Inode × Blocks × Mem)
write_entry sb dnum dir path inum (found, off, ip, d, m) =
    let m' = new_entry m dir path inum in
    writei kernel m' sb dnum ip d dir off dirent_size >>= λ (r, ip', d').
    if is_entry r then ok (ip', d', m') else panic

-- dirlink into the directory with the number `dnum`.
unfoldable pub dirlink :
    Superblock
    → (dnum : ℕ) → Inode
    → Blocks
    → (path inum dir : ℕ) → Mem
    → Outcome (Inode × Blocks × Mem)
unfolding dir_loop write_entry
dirlink sb dnum dp d path inum dir m =
    dir_loop (is_free dir) sb dir (dp.size / dirent_size + 1) 0 dp d m
    >>= write_entry sb dnum dir path inum

-- `memset(d,0,sizeof(*d)); d->type = type;` at the disk inode at `o` of a block
abbrev pub fresh_dinode : (ℕ → ℕ) → (o kind : ℕ) → ℕ → ℕ
fresh_dinode bytes o kind i =
    if i == o
    then kind % 256
    else if i == o + 1
    then kind / 256 % 256
    else if leb o i && ltb i (o + 64)
    then 0
    else bytes i

-- The loop of ialloc, with `n` inodes left.
pub ialloc_loop :
    Superblock
    → (ℕ → Cached)
    → (dev kind : ℕ) → (n inum : ℕ) → Blocks
    → Outcome (Option ℕ × (ℕ → Cached) × Blocks)
ialloc_loop sb c dev kind zero inum d = ok (none, c, d)
ialloc_loop sb c dev kind (suc n) inum d =
    let b = iblock sb inum in
    let rest = ialloc_loop sb c dev kind n (inum + 1) d in
    if half (d b) (dinode_at inum) == 0
    then (iget c dev inum >>= λ (i, c').
        ok (some i, c', update d b (fresh_dinode (d b) (dinode_at inum) kind)))
    else rest

-- ialloc: the entry of the inode cache, or `none` for a null pointer.
unfoldable pub ialloc :
    Superblock → (ℕ → Cached) → (dev kind : ℕ) → Blocks → Outcome (Option ℕ × (ℕ → Cached) × Blocks)
unfolding ialloc_loop
ialloc sb c dev kind d = ialloc_loop sb c dev kind sb.ninodes 0 d

-- `struct stat`
pub record Stat : Type 0 where
  pub dev : ℕ
  pub ino : ℕ
  pub kind : ℕ
  pub nlink : ℕ
  pub size : ℕ

pub stati : Cached → Stat
stati i = record {
  dev = i.dev;
  ino = i.inum;
  kind = i.ip.kind;
  nlink = i.ip.nlink;
  size = i.ip.size;
}
