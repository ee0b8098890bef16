-- ===== src/Fs/Path/Fresh.antt =====
-- The inode that create of src/kernel/sysfile.c returns for a new file still has a reference.
use halo_os.Base.{
  ℕ, ◌≡◌, ◌≢◌, refl, ap, ◌∙◌, true, not, ◌||◌, inl, inr, ◌==◌, arith, Bool-cases, ==_refl, ==_of_ne,
  none, some, Option,
}
use halo_os.Base.Array.{update}
use halo_os.Base.Memory.{Mem}
use halo_os.Base.Outcome.{Outcome, ok, panic}
use halo_os.Base.Progress.{Progress, panicked, asleep, done, of_outcome, ◌>>=◌, After, After-bind}
use halo_os.Fs.Layout.{Superblock, Blocks}
use halo_os.Fs.Dinode.{Inode}
use halo_os.Fs.Icache.{Cached, is_live, iput}
use halo_os.Fs.Directory.{dirlink, ialloc}
use halo_os.Fs.Path.{
  Tree, ilock, locked_by, loaded, iunlock, unlocked, put_at, iunlockput, is_dropped, link_in,
  t_file, updated, with_numbers, create_in, create_new,
}
use halo_os.Fs.Path.Locks.{Held, SameBut, ilock-Held}
use halo_os.Sleeplock.{sleep_lock, holdingsleep}

-- The inode has a reference.
abbrev pub Live : (i : ℕ) → Tree → Type 0
Live i s = is_live (s.cache i) ≡ true

loaded-is_live : (sb : Superblock) (e : Cached) (d : Blocks) → is_live (loaded sb e d) ≡ is_live e
loaded-is_live sb e d = elim (Bool-cases e.vaild) [ inl y ↦ rw y refl | inr y ↦ rw y refl ]

-- ilock panics at an inode without a reference.
ilock-Live : (sb : Superblock) (me i : ℕ) (s : Tree) → After (ilock sb me i s) (λ s'. Live i s')
unfolding ilock locked_by sleep_lock
ilock-Live sb me i s = elim (Bool-cases (is_live (s.cache i))) [
  | inr dead ↦ rw dead tt
  | inl live ↦ elim (Bool-cases ((s.locks i).locked == 0)) [
    | inr taken ↦ rw (live, taken) tt
    | inl free ↦ rw (live, free) (rw (==_refl i) (loaded-is_live sb (s.cache i) s.blocks ∙ live))
  ]
]

-- A process that holds the lock of an inode with a reference sleeps in ilock.
pub ilock-Held_asleep :
    (sb : Superblock) (me i : ℕ) (s : Tree)
    → Held me (s.locks i)
    → Live i s
    → ilock sb me i s ≡ asleep
unfolding ilock sleep_lock locked_by
ilock-Held_asleep sb me i s held live = rw (live, held) refl

module _ (sb : Superblock) (dp ip : ℕ) (ne : ip ≢ dp) where
  link_in-Live :
      (path inum dir : ℕ) (m : Mem) (s : Tree)
      → Live ip s
      → After (link_in sb dp path inum dir m s) (λ (m', s'). Live ip s')
  unfolding link_in
  link_in-Live path inum dir m s live =
      go (dirlink sb ((s.cache dp).inum) ((s.cache dp).ip) s.blocks path inum dir m)
    where
      go :
          (r : Outcome (Inode × Blocks × Mem))
          → After
              (of_outcome r >>= λ (ip', d, m'). done (
                m',
                record s {
                  cache = update s.cache dp (record (s.cache dp) { ip = ip' });
                  blocks = d;
                },
              ))
              (λ (m', s'). Live ip s')
      go panic = tt
      go (ok (ip', d, m')) = rw (==_of_ne ip dp ne) live

  put-Live :
      (s : Tree) (r : Outcome (Cached × Blocks))
      → Live ip s
      → After
          (of_outcome r >>= λ (e, d). done (record s { cache = update s.cache dp e; blocks = d }))
          (λ s'. Live ip s')
  put-Live s panic live = tt
  put-Live s (ok (e, d)) live = rw (==_of_ne ip dp ne) live

  put_at-Live : (s : Tree) → Live ip s → After (put_at sb dp s) (λ s'. Live ip s')
  unfolding put_at
  put_at-Live s live =
      let put = of_outcome (iput sb (s.cache dp) s.blocks) >>= λ (e, d).
      done (record s { cache = update s.cache dp e; blocks = d }) in
      let kept = put-Live s (iput sb (s.cache dp) s.blocks) live in
      elim (Bool-cases (is_dropped (s.cache dp))) [
        | inr z ↦ rw z kept
        | inl y ↦ elim (Bool-cases ((s.locks dp).locked == 0)) [
          | inr taken ↦ rw (y, taken) tt
          | inl free ↦
              rw (y, free)
                (After-bind put (λ s'. done (unlocked dp s')) (λ s'. Live ip s') (λ s'. Live ip s')
                  kept (λ s' h. h))
        ]
      ]

  iunlockput-Live :
      (me : ℕ) (s : Tree) → Live ip s → After (iunlockput sb me dp s) (λ s'. Live ip s')
  unfolding iunlockput iunlock
  iunlockput-Live me s live =
      elim (Bool-cases (not (holdingsleep (s.locks dp) me) || not (is_live (s.cache dp)))) [
        | inl bad ↦ rw bad tt
        | inr good ↦ rw good (put_at-Live (unlocked dp s) live)
      ]

module _ (sb : Superblock) (me dp dot dotdot dir path major minor : ℕ) (m : Mem) where
  create_in-Live :
      (ip : ℕ) (s : Tree)
      → Held me (s.locks dp)
      → After
          (create_in sb me dp ip path t_file major minor dot dotdot dir m s)
          (λ (i, s'). Live i s')
  unfolding create_in
  create_in-Live ip s held = go (ilock sb me ip s) (ilock-Held sb me ip s) (ilock-Live sb me ip s)
    where
      go :
          (r : Progress Tree)
          → After r (λ s1. Held me (s1.locks ip) × ((s.locks ip).locked ≡ 0) × SameBut ip s s1)
          → After r (λ s1. Live ip s1)
          → After
              (r >>= λ s1.
                let s2 = updated sb ip (record s1 {
                  cache = update s1.cache ip (with_numbers (s1.cache ip) major minor);
                }) in
                link_in sb dp path ((s2.cache ip).inum) dir m s2 >>= λ (m4, s4).
                iunlockput sb me dp s4 >>= λ s5. done (ip, s5))
              (λ (i, s'). Live i s')
      go panicked h l = tt
      go asleep h l = tt
      go (done s1) (got, free, same) live =
          let ne : ip ≢ dp = λ e.
            absurd (omega (arith, free, ap (λ x. (s.locks x).locked) e, ap (λ l. l.locked) held)) in
          let s2 : Tree =
            updated sb ip
              (record s1 { cache = update s1.cache ip (with_numbers (s1.cache ip) major minor) }) in
          After-bind (link_in sb dp path ((s2.cache ip).inum) dir m s2)
            (λ (m4, s4). iunlockput sb me dp s4 >>= λ s5. done (ip, s5)) (λ (m4, s4). Live ip s4)
            (λ (i, s'). Live i s')
            (link_in-Live sb dp ip ne path ((s2.cache ip).inum) dir m s2 (rw (==_refl ip) live))
            (λ (m4, s4) h.
              After-bind (iunlockput sb me dp s4) (λ s5. done (ip, s5)) (λ s5. Live ip s5)
                (λ (i, s'). Live i s') (iunlockput-Live sb dp ip ne me s4 h) (λ s5 k. k))

  -- The inode that create returns for a new file has a reference.
  pub create_new-Live :
      (s : Tree)
      → Held me (s.locks dp)
      → After
          (create_new sb me dp path t_file major minor dot dotdot dir m s)
          (λ (i, s'). Live i s')
  unfolding create_new
  create_new-Live s held = go (ialloc sb s.cache ((s.cache dp).dev) t_file s.blocks)
    where
      go :
          (r : Outcome (Option ℕ × (ℕ → Cached) × Blocks))
          → After
              (of_outcome r >>= λ (r, c, d). elim r [
                | none ↦ panicked
                | some ip ↦
                    create_in sb me dp ip path t_file major minor dot dotdot dir m
                      (record s { cache = c; blocks = d })
              ])
              (λ (i, s'). Live i s')
      go panic = tt
      go (ok (none, c, d)) = tt
      go (ok (some ip, c, d)) = create_in-Live ip (record s { cache = c; blocks = d }) held
