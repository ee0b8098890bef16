-- ===== src/Fs/Directory/Enter.antt =====
-- dirlink and inodeByName of src/kernel/fs.c together.
use halo_os.Base.{
  ℕ, ◌+◌, ◌/◌, ◌^◌, ◌≤◌, ◌<◌, ◌≡◌, ◌≢◌, sym, ap, subst, ◌∙◌, Bool, true, false, ◌⊎◌, Option, some,
  ◌==◌, arith, Bool-cases, inl, inr,
}
use halo_os.Base.Memory.{Mem}
use halo_os.Base.Outcome.{Outcome, ok, panic, ◌>>=◌}
use halo_os.Util.Compare.{name_of}
use halo_os.Fs.Layout.{Superblock, Blocks, dirsiz, iblock}
use halo_os.Fs.Dinode.{Inode}
use halo_os.Fs.Icache.{Cached, iget}
use halo_os.Fs.Directory.{dir_loop, dirent_size, is_free, write_entry, inode_by_name, dirlink}
use halo_os.Fs.Directory.Entry.{entry_inum, entry_name}
use halo_os.Fs.Directory.Scan.{OneBlock, Scans}
use halo_os.Fs.Directory.Lookup.{Finds, inode_by_name-Finds}
use halo_os.Fs.Directory.Written.{Enters}
use halo_os.Fs.Directory.Link.{entries_with, Links, scanned, Links-written, write_entry-full}

-- dirlink into a directory with fewer than 16 entries, all in one block, which is not the block of
-- the directory's inode: the first free entry, or else a new one behind the last, gets the number
-- and the name, and the size grows if it is new. The other entries, and all blocks but the
-- directory's and that of its inode, are as before.
pub dirlink-Links :
    (sb : Superblock) (dnum : ℕ) (dp : Inode) (d : Blocks) (a n path inum dir : ℕ) (m : Mem)
    → OneBlock sb dp d a n
    → n < 16
    → inum < 2 ^ 16
    → a ≢ iblock sb dnum
    → (path + dirsiz ≤ dir) ⊎ (dir + dirent_size ≤ path)
    → Links sb dnum d a n inum (name_of m path dirsiz) (dirlink sb dnum dp d path inum dir m)
unfolding dirlink
dirlink-Links sb dnum dp d a n path inum dir m one few small elsewhere apart =
    go (dir_loop (is_free dir) sb dir (dp.size / dirent_size + 1) 0 dp d m)
      (scanned sb dnum dp d a n dir m one)
  where
    go :
        (r : Outcome (Bool × ℕ × Inode × Blocks × Mem))
        → Scans sb dp d a n dir one (is_free dir) (λ i. entry_inum (d a) i == 0) m 0 r
        → Links sb dnum d a n inum (name_of m path dirsiz) (r >>= write_entry sb dnum dir path inum)
    go r (inl (k, le, lt, t, before, m1, h, e)) =
        let links =
          Links-written sb dnum dp d a n dir m one path inum k m1 small (omega arith) (omega arith)
            elsewhere apart h.outside true (λ l. ground arith)
            (λ j lj z. let b = before j (omega arith) lj in ground arith) in
        rw e links
    go r (inr (nowhere, m1, same, e)) =
        let links =
          Links-written sb dnum dp d a n dir m one path inum n m1 small (omega arith) few elsewhere
            apart same false (λ l. absurd (omega arith))
            (λ j lj z. let b = nowhere j (omega arith) lj in ground arith) in
        rw e links

-- dirlink panics in a directory of 16 entries or more, all in one block, of which none is free:
-- writei takes MAXFILE for a number of bytes and refuses the entry.
pub dirlink-full :
    (sb : Superblock) (dnum : ℕ) (dp : Inode) (d : Blocks) (a n path inum dir : ℕ) (m : Mem)
    → OneBlock sb dp d a n
    → 16 ≤ n
    → ((j : ℕ) → j < n → entry_inum (d a) j ≢ 0)
    → dirlink sb dnum dp d path inum dir m ≡ panic
unfolding dirlink
dirlink-full sb dnum dp d a n path inum dir m one many used =
    go (dir_loop (is_free dir) sb dir (dp.size / dirent_size + 1) 0 dp d m)
      (scanned sb dnum dp d a n dir m one)
  where
    go :
        (r : Outcome (Bool × ℕ × Inode × Blocks × Mem))
        → Scans sb dp d a n dir one (is_free dir) (λ i. entry_inum (d a) i == 0) m 0 r
        → (r >>= write_entry sb dnum dir path inum) ≡ panic
    go r (inl (k, le, lt, t, before, m1, h, e)) = absurd (used k lt (ground arith))
    go r (inr (nowhere, m1, same, e)) =
        rw e (write_entry-full sb dnum dp d a n dir m one path inum m1 false many)

-- After dirlink of a name that no entry has, in a directory as above, inodeByName of the same name,
-- wherever the string stands and whatever the inode cache holds, is iget of the number.
pub inode_by_name-dirlink :
    (sb : Superblock) (dnum : ℕ) (dp : Inode) (d : Blocks) (a n path inum dir : ℕ) (m : Mem)
    → OneBlock sb dp d a n
    → n < 16
    → inum < 2 ^ 16
    → a ≢ iblock sb dnum
    → (path + dirsiz ≤ dir) ⊎ (dir + dirent_size ≤ path)
    → ((j : ℕ) → j < n → entry_name (d a) j ≢ name_of m path dirsiz)
    → (dp' : Inode) × (d' : Blocks) × (m' : Mem) × (dirlink sb dnum dp d path inum dir m
        ≡ ok (dp', d', m'))
      × ((c : ℕ → Cached) (dev name de : ℕ) (m2 : Mem)
          → name_of m2 name dirsiz ≡ name_of m path dirsiz
          → (name + dirsiz ≤ de) ⊎ (de + dirent_size ≤ name)
          → inode_by_name sb c dev dp' d' name de m2
            ≡ (iget c dev inum >>= λ (i, c'). ok (some i, c', dp', d')))
inode_by_name-dirlink sb dnum dp d a n path inum dir m one few small elsewhere apart new =
    let (k, le, free, before, dp', d', m', e, one', en, blocks) =
      dirlink-Links sb dnum dp d a n path inum dir m one few small elsewhere apart in
    (
      dp',
      d',
      m',
      e,
      λ c dev name de m2 same apart'.
          go k le d' en c dev dp' (inode_by_name sb c dev dp' d' name de m2) (
            subst
              (λ x.
                Finds (d' a) (entries_with n k) x c dev dp' d'
                  (inode_by_name sb c dev dp' d' name de m2))
              same
              (inode_by_name-Finds sb dp' d' a (entries_with n k) name de dev c m2 one' apart')),
    )
  where
    old :
        (k : ℕ) (d' : Blocks)
        → k ≤ n
        → Enters d d' a k inum (name_of m path dirsiz)
        → (j : ℕ) → j < entries_with n k
        → entry_name (d' a) j ≡ name_of m path dirsiz
        → j ≡ k
    old k d' le en j lj h = elim (Bool-cases (j == k)) [
      | inl y ↦ ground arith
      | inr z ↦
          let ne : j ≢ k = λ q. ground arith in
          let ln : j < n = ground arith in absurd (new j ln (sym (en.others j ne).1 ∙ h))
    ]

    go :
        (k : ℕ)
        → k ≤ n
        → (d' : Blocks) → Enters d d' a k inum (name_of m path dirsiz)
        → (c : ℕ → Cached) (dev : ℕ) (dp' : Inode)
        → (r : Outcome (Option ℕ × (ℕ → Cached) × Inode × Blocks))
        → Finds (d' a) (entries_with n k) (name_of m path dirsiz) c dev dp' d' r
        → r ≡ (iget c dev inum >>= λ (i, c'). ok (some i, c', dp', d'))
    go k le d' en c dev dp' r (inl (j, lj, h, first, e)) =
        let same = old k d' le en j lj h in
        let num : entry_inum (d' a) j ≡ inum = ap (entry_inum (d' a)) same ∙ en.number in
        e ∙ ap (λ x. iget c dev x >>= λ (i, c'). ok (some i, c', dp', d')) num
    go k le d' en c dev dp' r (inr (nowhere, e)) = absurd (nowhere k (ground arith) en.called)
