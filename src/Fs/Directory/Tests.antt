-- ===== src/Fs/Directory/Tests.antt =====
-- The directories of src/kernel/fs.c on a concrete disk.
use halo_os.Base.{
  ℕ, zero, suc, ◌+◌, ◌*◌, ◌%◌, ◌≤◌, ◌<◌, ◌≡◌, ◌≢◌, refl, ap, false, ◌⊎◌, Option, none, some, List,
  [], ◌∷◌, ltb, ◌==◌, if◌then◌else◌, arith, inl,
}
use halo_os.Base.Array.{update}
use halo_os.Base.Memory.{Mem}
use halo_os.Base.Outcome.{Outcome, ok, panic, ◌>>=◌}
use halo_os.Util.Compare.{name_of}
use halo_os.Fs.Layout.{Blocks, dirsiz}
use halo_os.Fs.Bitmap.Tests.{sb, disk}
use halo_os.Fs.Dinode.{Inode}
use halo_os.Fs.Icache.{Cached, iget}
use halo_os.Fs.Directory.{dirent_size, inode_by_name, dirlink, ialloc, stati}
use halo_os.Fs.Directory.Entry.{entry_name}
use halo_os.Fs.Directory.Scan.{OneBlock}
use halo_os.Fs.Directory.Lookup.{Finds, inode_by_name-Finds}
use halo_os.Fs.Directory.Link.{Links}
use halo_os.Fs.Directory.Enter.{dirlink-Links, dirlink-full, inode_by_name-dirlink}
use halo_os.Fs.Directory.Alloc.{Iallocs, ialloc-Iallocs}

abbrev dir_of : ℕ → Inode
dir_of n = record {
  kind = 1;
  major = 0;
  minor = 0;
  nlink = 1;
  size = 16 * n;
  addrs = λ i. if i == 0 then 50 else 0;
}

-- The entries `.` and `..`
abbrev dots : ℕ → ℕ
dots i =
    if i % 16 == 0
    then 1
    else if (i == 2)
    then 46
    else if (i == 18)
    then 46
    else if (i == 19)
    then 46
    else 0

abbrev dir_disk : Blocks
dir_disk = update disk 50 dots

-- `ab` at address 0
abbrev strings : Mem
strings a = if ltb a 2 then 97 + a else 0

abbrev no_inode : Cached
no_inode = record { dev = 0; inum = 0; ref = 0; vaild = false; ip = dir_of 0 }

-- The number of the inode in the entry of the cache that is returned.
abbrev entry_of : Outcome (Option ℕ × (ℕ → Cached) × Blocks) → Option ℕ
entry_of panic = none
entry_of (ok (none, c, d)) = none
entry_of (ok (some i, c, d)) = some ((c i).inum)

OneBlock-dots : (n : ℕ) → n ≤ 64 → OneBlock sb (dir_of n) dir_disk 50 n
OneBlock-dots n le = record { at = refl; not_null = λ h. omega arith; size = refl; fits = le }

test-found :
    Finds dots 2
      (name_of strings 0 dirsiz)
      (λ i. no_inode)
      1
      (dir_of 2)
      dir_disk
      (inode_by_name sb (λ i. no_inode) 1 (dir_of 2) dir_disk 0 100 strings)
test-found =
    inode_by_name-Finds sb (dir_of 2) dir_disk 50 2 0 100 1 (λ i. no_inode) strings
      (OneBlock-dots 2 (omega arith)) (inl (omega arith))

dirlink-Links_example :
    Links sb 1 dir_disk 50 2 5
      (name_of strings 0 dirsiz)
      (dirlink sb 1 (dir_of 2) dir_disk 0 5 100 strings)
dirlink-Links_example =
    dirlink-Links sb 1 (dir_of 2) dir_disk 50 2 0 5 100 strings (OneBlock-dots 2 (omega arith))
      (omega arith) (omega arith) (λ h. omega arith) (inl (omega arith))

dirlink-full_example : dirlink sb 1 (dir_of 16) dir_disk 0 5 100 strings ≡ panic
dirlink-full_example =
    dirlink-full sb 1 (dir_of 16) dir_disk 50 16 0 5 100 strings (OneBlock-dots 16 (omega arith))
      (omega arith) (λ j lj h. ground arith)

-- The first letter of a name.
abbrev letter : List ℕ → ℕ
letter [] = 0
letter (x ∷ xs) = x

new_name : (j : ℕ) → j < 2 → entry_name dots j ≢ name_of strings 0 dirsiz
unfolding name_of
new_name zero lt h = absurd (omega (arith, ap letter h))
new_name (suc zero) lt h = absurd (omega (arith, ap letter h))
new_name (suc (suc j)) lt h = absurd (omega arith)

inode_by_name-dirlink_example :
    (dp' : Inode) × (d' : Blocks) × (m' : Mem) × (dirlink sb 1 (dir_of 2) dir_disk 0 5 100 strings
      ≡ ok (dp', d', m'))
    × ((c : ℕ → Cached) (dev name de : ℕ) (m2 : Mem)
        → name_of m2 name dirsiz ≡ name_of strings 0 dirsiz
        → (name + dirsiz ≤ de) ⊎ (de + dirent_size ≤ name)
        → inode_by_name sb c dev dp' d' name de m2
          ≡ (iget c dev 5 >>= λ (i, c'). ok (some i, c', dp', d')))
inode_by_name-dirlink_example =
    inode_by_name-dirlink sb 1 (dir_of 2) dir_disk 50 2 0 5 100 strings
      (OneBlock-dots 2 (omega arith)) (omega arith) (omega arith) (λ h. omega arith)
      (inl (omega arith)) new_name

ialloc-Iallocs_example :
    Iallocs sb (λ i. no_inode) 1 2 dir_disk 0 (ialloc sb (λ i. no_inode) 1 2 dir_disk)
ialloc-Iallocs_example = ialloc-Iallocs sb (λ i. no_inode) 1 2 dir_disk (omega arith)

-- Inode 0 is taken when its type is 0.
test-inode_0 : entry_of (ialloc sb (λ i. no_inode) 1 2 (λ n i. 0)) ≡ some 0
unfolding ialloc iget
test-inode_0 = refl

test-stati :
    stati (record no_inode { dev = 1; inum = 4 })
    ≡ (record { dev = 1; ino = 4; kind = 1; nlink = 1; size = 0 })
unfolding stati
test-stati = refl
