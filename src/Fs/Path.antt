-- ===== src/Fs/Path.antt =====
-- Inodes under their sleep locks, and paths: ilock, iunlock, iput, iunlockput, rooti, rootsub and iname
-- of src/kernel/fs.c, and create of src/kernel/sysfile.c, for the process `me`. An inode is its index
-- in the cache. A name is a string in the kernel memory `m`, and `de` is where the callee has its
-- copy of a directory entry.
pub mod Locks
pub mod Create
pub mod Fresh
pub mod Tests
use halo_os.Base.{
  ℕ, zero, suc, ◌+◌, ◌-◌, ◌%◌, ◌^◌, Bool, true, false, not, ◌&&◌, ◌||◌, Option, none, some, ltb,
  ◌==◌, if◌then◌else◌,
}
use halo_os.Base.Array.{update}
use halo_os.Base.Memory.{Mem}
use halo_os.Fs.Layout.{Superblock, Blocks}
use halo_os.Fs.Dinode.{Inode, iupdate, load}
use halo_os.Fs.Icache.{Cached, is_live, iget, iput}
use halo_os.Fs.Directory.{inode_by_name, dirlink, ialloc}
use halo_os.Base.Progress.{Progress, panicked, asleep, done, of_outcome, ◌>>=◌}
use halo_os.Sleeplock.{Sleeplock, sleep_lock, sleep_unlock, holdingsleep}

-- The inode cache, with the lock of each inode, and the disk.
pub record Tree : Type 0 where
  pub cache : ℕ → Cached
  pub locks : ℕ → Sleeplock
  pub blocks : Blocks

-- `ROOTDEV` and `ROOTINO`
abbrev pub rootdev : ℕ
rootdev = 1

abbrev pub rootino : ℕ
rootino = 1

-- `T_DIR`, `T_FILE` and `T_DEVICE`
abbrev pub t_dir : ℕ
t_dir = 1

abbrev pub t_file : ℕ
t_file = 2

abbrev pub t_device : ℕ
t_device = 3

-- ilock behind sleep_lock. `vaild` stays 0 behind the load.
abbrev pub loaded : Superblock → Cached → Blocks → Cached
loaded sb e d = if e.vaild then e else record e { ip = load sb e.inum d; vaild = false }

pub locked_by : Superblock → (i : ℕ) → Tree → Option Sleeplock → Progress Tree
locked_by sb i s none = asleep
locked_by sb i s (some l) = done (record s {
  cache = update s.cache i (loaded sb (s.cache i) s.blocks);
  locks = update s.locks i l;
})

unfoldable pub ilock : Superblock → (me i : ℕ) → Tree → Progress Tree
unfolding locked_by
ilock sb me i s =
    if not (is_live (s.cache i)) then panicked else locked_by sb i s (sleep_lock (s.locks i) me)

abbrev pub unlocked : (i : ℕ) → Tree → Tree
unlocked i s = record s { locks = update s.locks i (sleep_unlock (s.locks i)) }

unfoldable pub iunlock : (me i : ℕ) → Tree → Progress Tree
iunlock me i s =
    if not (holdingsleep (s.locks i) me) || not (is_live (s.cache i))
    then panicked
    else done (unlocked i s)

-- `ip->ref == 1 && ip->vaild && ip->nlink == 0`
abbrev pub is_dropped : Cached → Bool
is_dropped e = (e.ref == 1) && (e.vaild && (e.ip.nlink == 0))

-- iput of an entry of the cache: an inode that is dropped is locked meanwhile.
pub put_at : Superblock → (i : ℕ) → Tree → Progress Tree
put_at sb i s =
    let put = of_outcome (iput sb (s.cache i) s.blocks) >>= λ (e, d).
    done (record s { cache = update s.cache i e; blocks = d }) in
    if is_dropped (s.cache i)
    then (if (s.locks i).locked == 0 then (put >>= λ s'. done (unlocked i s')) else asleep)
    else put

unfoldable pub iunlockput : Superblock → (me i : ℕ) → Tree → Progress Tree
unfolding iunlock put_at
iunlockput sb me i s = iunlock me i s >>= put_at sb i

pub rooti : Tree → Progress (ℕ × Tree)
rooti s = of_outcome (iget s.cache rootdev rootino) >>= λ (i, c). done (i, record s { cache = c })

-- inodeByName in the directory `i`
pub find_in : Superblock → (i name de : ℕ) → Mem → Tree → Progress (Option ℕ × Tree)
find_in sb i name de m s =
    of_outcome (inode_by_name sb s.cache ((s.cache i).dev) ((s.cache i).ip) s.blocks name de m)
    >>= λ (r, c, ip, d).
        done (r, record s { cache = update c i (record (c i) { ip = ip }); blocks = d })

-- dirlink into the directory `i`
pub link_in : Superblock → (i path inum dir : ℕ) → Mem → Tree → Progress (Mem × Tree)
link_in sb i path inum dir m s =
    of_outcome (dirlink sb ((s.cache i).inum) ((s.cache i).ip) s.blocks path inum dir m)
    >>= λ (ip, d, m').
        done
          (m', record s { cache = update s.cache i (record (s.cache i) { ip = ip }); blocks = d })

pub rootsub : Superblock → (me name de : ℕ) → Mem → Tree → Progress (Option ℕ × Tree)
unfolding rooti ilock find_in iunlockput
rootsub sb me name de m s = rooti s >>= λ (root, s1). ilock sb me root s1 >>= λ s2.
    find_in sb root name de m s2 >>= λ (sub, s3). iunlockput sb me root s3 >>= λ s4. done (sub, s4)

-- iname: a path from `/` on is the root.
unfoldable pub iname : Superblock → (me name de : ℕ) → Mem → Tree → Progress (Option ℕ × Tree)
unfolding rooti ilock find_in
iname sb me name de m s = rooti s >>= λ (dp, s1).
    (if m name == 47
      then done (some dp, s1)
      else (ilock sb me dp s1 >>= λ s2.
          find_in sb dp name de m s2 >>= λ (i, s3). done (i, unlocked dp s3)))

-- create behind `iupdate(dp)`: the entries `.` and `..`, at the addresses of those strings.
pub link_dots : Superblock → (dp ip dot dotdot dir : ℕ) → Mem → Tree → Progress (Mem × Tree)
unfolding link_in
link_dots sb dp ip dot dotdot dir m s =
    link_in sb ip dot ((s.cache ip).inum) dir m s >>= λ (m1, s1).
    link_in sb ip dotdot ((s1.cache dp).inum) dir m1 s1

-- `iupdate(&inode)` of an entry of the cache
abbrev pub updated : Superblock → (i : ℕ) → Tree → Tree
updated sb i s = record s { blocks = iupdate sb ((s.cache i).inum) ((s.cache i).ip) s.blocks }

-- The fields of a new inode.
abbrev pub with_numbers : Cached → (major minor : ℕ) → Cached
with_numbers e major minor = record e {
  ip = record (e.ip) { major = major; minor = minor; nlink = 1 };
}

-- create behind ialloc, of the inode `ip` in the directory `dp`.
pub create_in :
    Superblock
    → (me dp ip path kind major minor dot dotdot dir : ℕ) → Mem
    → Tree
    → Progress (ℕ × Tree)
unfolding ilock link_dots link_in iunlockput
create_in sb me dp ip path kind major minor dot dotdot dir m s = ilock sb me ip s >>= λ s1.
    (let s2 =
        updated sb ip
          (record s1 { cache = update s1.cache ip (with_numbers (s1.cache ip) major minor) }) in
      (if kind == t_dir
        then link_dots sb dp ip dot dotdot dir m (updated sb dp s2)
        else done (m, s2))
      >>= λ (m3, s3). link_in sb dp path ((s3.cache ip).inum) dir m3 s3 >>= λ (m4, s4).
          iunlockput sb me dp s4 >>= λ s5. done (ip, s5))

-- create behind inodeByName: an existing file is the result, whose type is read without its lock.
pub create_new :
    Superblock → (me dp path kind major minor dot dotdot dir : ℕ) → Mem → Tree → Progress (ℕ × Tree)
unfolding create_in
create_new sb me dp path kind major minor dot dotdot dir m s =
    of_outcome (ialloc sb s.cache ((s.cache dp).dev) kind s.blocks) >>= λ (r, c, d). elim r [
      | none ↦ panicked
      | some ip ↦
          create_in sb me dp ip path kind major minor dot dotdot dir m
            (record s { cache = c; blocks = d })
    ]

pub create_found :
    Superblock
    → (me dp path kind major minor dot dotdot dir : ℕ) → Mem
    → Option ℕ × Tree
    → Progress (ℕ × Tree)
unfolding create_new
create_found sb me dp path kind major minor dot dotdot dir m (none, s) =
    create_new sb me dp path kind major minor dot dotdot dir m s
create_found sb me dp path kind major minor dot dotdot dir m (some ip, s) =
    let type = (s.cache ip).ip.kind in
    let new = create_new sb me dp path kind major minor dot dotdot dir m s in
    if (kind == t_file) && ((type == t_file) || (type == t_device)) then done (ip, s) else new

unfoldable pub create :
    Superblock → (me path kind major minor dot dotdot dir : ℕ) → Mem → Tree → Progress (ℕ × Tree)
unfolding rooti ilock find_in create_found
create sb me path kind major minor dot dotdot dir m s =
    let name = if m path == 47 then path + 1 else path in
    rooti s >>= λ (dp, s1). ilock sb me dp s1 >>= λ s2.
    find_in sb dp name dir m s2 >>= create_found sb me dp name kind major minor dot dotdot dir m
