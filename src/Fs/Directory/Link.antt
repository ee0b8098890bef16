-- ===== src/Fs/Directory/Link.antt =====
-- dirlink of src/kernel/fs.c enters a name, and inodeByName finds it.
use halo_os.Base.{
  ℕ, ◌+◌, ◌*◌, ◌/◌, ◌%◌, ◌^◌, ◌≤◌, ◌<◌, ◌≡◌, ◌≢◌, refl, ap, ◌∙◌, Bool, true, false, ◌⊎◌, List, ltb,
  ◌==◌, if◌then◌else◌, arith, Bool-cases, inl, inr, ==_refl,
}
use halo_os.Base.Memory.{Mem}
use halo_os.Base.Outcome.{Outcome, ok, panic}
use halo_os.Util.Move.{inside}
use halo_os.Util.Compare.{name_of}
use halo_os.Fs.Layout.{Superblock, Blocks, bsize, dirsiz, iblock}
use halo_os.Fs.Dinode.{Inode, iupdate}
use halo_os.Fs.Dinode.RoundTrip.{iupdate-other}
use halo_os.Fs.Content.{tabulate, store_bytes}
use halo_os.Fs.Content.Writing.{grown, written, writei-written, writei-past_maxfile}
use halo_os.Fs.Directory.{dir_loop, dirent_size, is_free, kernel, new_entry, write_entry}
use halo_os.Fs.Directory.Entry.{entry_inum}
use halo_os.Fs.Directory.Scan.{OneBlock, Holds, Scans, bmap-OneBlock, dir_loop-Scans}
use halo_os.Fs.Directory.Written.{Enters, new_entry-parts, Enters-bytes}

-- The number of entries behind a write of entry `k`.
abbrev pub entries_with : (n k : ℕ) → ℕ
entries_with n k = if ltb k n then n else k + 1

-- What dirlink is to do in a directory of `n` entries in the block `a`: entry `k` is the first free
-- one, or the next behind the last, and gets the number and the name; the other entries and the
-- other blocks, but for the one with the directory's inode, are as before.
abbrev pub Links :
    Superblock
    → (dnum : ℕ) → Blocks
    → (a n inum : ℕ) → (name : List ℕ) → Outcome (Inode × Blocks × Mem)
    → Type 0
Links sb dnum d a n inum name r =
    (k : ℕ) × (k ≤ n)
    × (k < n → entry_inum (d a) k ≡ 0)
    × ((j : ℕ) → j < k → entry_inum (d a) j ≢ 0)
    × (dp' : Inode) × (d' : Blocks) × (m' : Mem) × (r ≡ ok (dp', d', m'))
    × OneBlock sb dp' d' a (entries_with n k)
    × Enters d d' a k inum name
    × ((b : ℕ) → b ≢ a → b ≢ iblock sb dnum → d' b ≡ d b)

module _ (sb : Superblock) (dnum : ℕ) (dp : Inode) (d : Blocks) (a n dir : ℕ) (m0 : Mem)
    (one : OneBlock sb dp d a n) where
  free_tests :
      (i : ℕ) (m : Mem) → i < n → Holds (d a) dir i m0 m → is_free dir m ≡ (entry_inum (d a) i == 0)
  free_tests i m lt h =
      let d0 : dir ≡ dir + 0 = omega arith in
      let k0 : 16 * i + 0 ≡ 16 * i = omega arith in
      let e : m dir ≡ d a (16 * i) = ap m d0 ∙ h.entry 0 (omega arith) ∙ ap (d a) k0 in
      rw (e, h.entry 1 (omega arith)) refl

  pub scanned :
      Scans sb dp d a n dir one
        (is_free dir)
        (λ i. entry_inum (d a) i == 0)
        m0
        0
        (dir_loop (is_free dir) sb dir (dp.size / dirent_size + 1) 0 dp d m0)
  scanned =
      dir_loop-Scans sb dp d a n dir one (is_free dir) (λ i. entry_inum (d a) i == 0) m0 free_tests
        (dp.size / dirent_size + 1) 0 m0 (omega arith) (omega (arith, one.size)) (λ b h. refl)

  -- dirlink into a directory that is full: no entry is free, and there are 16 or more.
  pub write_entry-full :
      (path inum : ℕ) (m : Mem) (found : Bool)
      → 16 ≤ n
      → write_entry sb dnum dir path inum (found, 16 * n, dp, d, m) ≡ panic
  unfolding write_entry
  write_entry-full path inum m found many =
      let past =
        writei-past_maxfile kernel (new_entry m dir path inum) sb dnum dp d dir (16 * n) 16
          (omega (arith, one.fits)) (omega arith) in
      rw past refl

  module _ (path inum k : ℕ) (m : Mem) (small : inum < 2 ^ 16) (le : k ≤ n) (room : k < 16)
      (elsewhere : a ≢ iblock sb dnum) (apart : (path + dirsiz ≤ dir) ⊎ (dir + dirent_size ≤ path))
      (same : (b : ℕ) → inside dir 16 b ≡ false → m b ≡ m0 b) where
    abbrev m' : Mem
    m' = new_entry m dir path inum

    abbrev dp' : Inode
    dp' = grown dp (16 * k + 16)

    abbrev d' : Blocks
    d' = iupdate sb dnum dp' (written m' d a dir (16 * k) 16)

    write_entry-ok :
        (found : Bool)
        → write_entry sb dnum dir path inum (found, 16 * k, dp, d, m) ≡ ok (dp', d', m')
    unfolding write_entry
    write_entry-ok found =
        let w =
          writei-written m' sb dnum dp d dir (16 * k) 16 a (omega arith) (omega (arith, one.size))
            (omega arith) (bmap-OneBlock sb dp d a n k one (omega arith)) in
        rw w refl

    block : d' a ≡ store_bytes (d a) (16 * k) (tabulate m' dir 16)
    block =
        let o : 16 * k % bsize ≡ 16 * k = omega arith in
        iupdate-other sb dnum dp' (written m' d a dir (16 * k) 16) a elsewhere
        ∙ rw (==_refl a, o) refl

    addrs_kept : (to : ℕ) → (grown dp to).addrs 0 ≡ dp.addrs 0
    addrs_kept to = elim (Bool-cases (ltb dp.size to)) [ inl y ↦ rw y refl | inr y ↦ rw y refl ]

    size_grown : dp'.size ≡ 16 * entries_with n k
    size_grown = elim (Bool-cases (ltb k n)) [
      | inl y ↦
          let z : ltb dp.size (16 * k + 16) ≡ false = ground (arith, one.size) in rw (z, y) one.size
      | inr y ↦
          let z : ltb dp.size (16 * k + 16) ≡ true = ground (arith, one.size) in
          rw (z, y) (omega arith)
    ]

    OneBlock-grown : OneBlock sb dp' d' a (entries_with n k)
    OneBlock-grown = record {
      at = addrs_kept (16 * k + 16) ∙ one.at;
      not_null = one.not_null;
      size = size_grown;
      fits = ground (arith, one.fits);
    }

    pub Links-written :
        (found : Bool)
        → (k < n → entry_inum (d a) k ≡ 0)
        → ((j : ℕ) → j < k → entry_inum (d a) j ≢ 0)
        → Links sb dnum d a n inum
            (name_of m0 path dirsiz)
            (write_entry sb dnum dir path inum (found, 16 * k, dp, d, m))
    Links-written found free before =
        let (number, called) = new_entry-parts m0 path dir apart m inum small same in
        (
          k,
          le,
          free,
          before,
          dp',
          d',
          m',
          write_entry-ok found,
          OneBlock-grown,
          Enters-bytes d d' a k dir m' block inum (name_of m0 path dirsiz) number called,
          λ b ne ne'.
              let f : (b == a) ≡ false = ground arith in
              iupdate-other sb dnum dp' (written m' d a dir (16 * k) 16) b ne' ∙ rw f refl,
        )
