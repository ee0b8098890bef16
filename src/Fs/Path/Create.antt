-- ===== src/Fs/Path/Create.antt =====
-- create of src/kernel/sysfile.c returns with a sleep lock held.
use halo_os.Base.{
  ℕ, ◌+◌, ◌≡◌, ◌≢◌, refl, ap, ◌∙◌, ◌&&◌, ◌||◌, ◌⊎◌, inl, inr, Option, none, some, ◌==◌,
  if◌then◌else◌, arith, Bool-cases,
}
use halo_os.Base.Array.{update}
use halo_os.Base.Memory.{Mem}
use halo_os.Base.Outcome.{Outcome, ok, panic}
use halo_os.Base.Progress.{Progress, panicked, asleep, done, of_outcome, ◌>>=◌, After, After-bind}
use halo_os.Fs.Layout.{Superblock, Blocks}
use halo_os.Fs.Icache.{Cached}
use halo_os.Fs.Directory.{ialloc}
use halo_os.Fs.Path.{
  Tree, ilock, iunlockput, rooti, find_in, link_in, link_dots, t_dir, t_file, t_device, updated,
  with_numbers, create_in, create_new, create_found, create,
}
use halo_os.Fs.Path.Locks.{
  Held, Same, SameBut, ilock-Held, iunlockput-Held, find_in-Same, link_in-Same,
}

module _ (sb : Superblock) (me dp dot dotdot dir : ℕ) where
  link_dots-Same :
      (ip : ℕ) (m : Mem) (s : Tree)
      → After (link_dots sb dp ip dot dotdot dir m s) (λ (m', s'). Same s s')
  unfolding link_dots
  link_dots-Same ip m s =
      After-bind (link_in sb ip dot ((s.cache ip).inum) dir m s)
        (λ (m1, s1). link_in sb ip dotdot ((s1.cache dp).inum) dir m1 s1) (λ (m1, s1). Same s s1)
        (λ (m', s'). Same s s') (link_in-Same sb ip dot ((s.cache ip).inum) dir m s)
        (λ (m1, s1) h.
          go (link_in sb ip dotdot ((s1.cache dp).inum) dir m1 s1) s1 h
            (link_in-Same sb ip dotdot ((s1.cache dp).inum) dir m1 s1))
    where
      go :
          (r : Progress (Mem × Tree)) (s1 : Tree)
          → Same s s1
          → After r (λ (m', s'). Same s1 s')
          → After r (λ (m', s'). Same s s')
      go panicked s1 h k = tt
      go asleep s1 h k = tt
      go (done (m2, s2)) s1 h k = λ j. k j ∙ h j

  -- The part of create that links the new inode.
  abbrev linked : (ip path kind : ℕ) → Mem → Tree → Progress (ℕ × Tree)
  linked ip path kind m s2 =
      (if kind == t_dir
        then link_dots sb dp ip dot dotdot dir m (updated sb dp s2)
        else done (m, s2))
      >>= λ (m3, s3). link_in sb dp path ((s3.cache ip).inum) dir m3 s3 >>= λ (m4, s4).
          iunlockput sb me dp s4 >>= λ s5. done (ip, s5)

  dots-Same :
      (ip kind : ℕ) (m : Mem) (s : Tree)
      → After
          (if kind == t_dir
            then link_dots sb dp ip dot dotdot dir m (updated sb dp s)
            else done (m, s))
          (λ (m', s'). Same s s')
  dots-Same ip kind m s = elim (Bool-cases (kind == t_dir)) [
    | inl y ↦ rw y (link_dots-Same ip m (updated sb dp s))
    | inr z ↦ rw z (λ j. refl)
  ]

  linked-Held :
      (ip path kind : ℕ) (m : Mem) (s : Tree)
      → ip ≢ dp
      → Held me (s.locks ip)
      → After (linked ip path kind m s) (λ (i, s'). Held me (s'.locks i))
  linked-Held ip path kind m s ne held =
      After-bind
        (if kind == t_dir
          then link_dots sb dp ip dot dotdot dir m (updated sb dp s)
          else done (m, s))
        (λ (m3, s3). link_in sb dp path ((s3.cache ip).inum) dir m3 s3 >>= λ (m4, s4).
          iunlockput sb me dp s4 >>= λ s5. done (ip, s5))
        (λ (m3, s3). Same s s3) (λ (i, s'). Held me (s'.locks i)) (dots-Same ip kind m s)
        (λ (m3, s3) h.
          After-bind (link_in sb dp path ((s3.cache ip).inum) dir m3 s3)
            (λ (m4, s4). iunlockput sb me dp s4 >>= λ s5. done (ip, s5)) (λ (m4, s4). Same s3 s4)
            (λ (i, s'). Held me (s'.locks i))
            (link_in-Same sb dp path ((s3.cache ip).inum) dir m3 s3)
            (λ (m4, s4) h'.
              After-bind (iunlockput sb me dp s4) (λ s5. done (ip, s5))
                (λ s5. Held me (s5.locks ip)) (λ (i, s'). Held me (s'.locks i))
                (iunlockput-Held sb me dp ip s4 ne (h' ip ∙ h ip ∙ held)) (λ s5 k. k)))

  create_in-Held :
      (ip path kind major minor : ℕ) (m : Mem) (s : Tree)
      → Held me (s.locks dp)
      → After
          (create_in sb me dp ip path kind major minor dot dotdot dir m s)
          (λ (i, s'). Held me (s'.locks i))
  unfolding create_in
  create_in-Held ip path kind major minor m s held =
      After-bind (ilock sb me ip s)
        (λ s1. linked ip path kind m (
          updated sb ip
            (record s1 { cache = update s1.cache ip (with_numbers (s1.cache ip) major minor) })))
        (λ s1. Held me (s1.locks ip) × ((s.locks ip).locked ≡ 0) × SameBut ip s s1)
        (λ (i, s'). Held me (s'.locks i)) (ilock-Held sb me ip s)
        (λ s1 (got, free, same).
          linked-Held ip path kind m
            (updated sb ip
              (record s1 { cache = update s1.cache ip (with_numbers (s1.cache ip) major minor) }))
            (λ e.
              absurd (omega (arith, free, ap (λ x. (s.locks x).locked) e, ap (λ l. l.locked) held)))
            got)

  pub create_new-Held :
      (path kind major minor : ℕ) (m : Mem) (s : Tree)
      → Held me (s.locks dp)
      → After
          (create_new sb me dp path kind major minor dot dotdot dir m s)
          (λ (i, s'). Held me (s'.locks i))
  unfolding create_new
  create_new-Held path kind major minor m s held =
      go (ialloc sb s.cache ((s.cache dp).dev) kind s.blocks)
    where
      go :
          (r : Outcome (Option ℕ × (ℕ → Cached) × Blocks))
          → After
              (of_outcome r >>= λ (r, c, d). elim r [
                | none ↦ panicked
                | some ip ↦
                    create_in sb me dp ip path kind major minor dot dotdot dir m
                      (record s { cache = c; blocks = d })
              ])
              (λ (i, s'). Held me (s'.locks i))
      go panic = tt
      go (ok (none, c, d)) = tt
      go (ok (some ip, c, d)) =
          create_in-Held ip path kind major minor m (record s { cache = c; blocks = d }) held

  create_found-Held :
      (path kind major minor : ℕ) (m : Mem) (r : Option ℕ × Tree)
      → Held me (r.1.locks dp)
      → After
          (create_found sb me dp path kind major minor dot dotdot dir m r)
          (λ (i, s'). Held me (s'.locks i) ⊎ Held me (s'.locks dp))
  unfolding create_found
  create_found-Held path kind major minor m (r, s) held = go r
    where
      new :
          After
            (create_new sb me dp path kind major minor dot dotdot dir m s)
            (λ (i, s'). Held me (s'.locks i) ⊎ Held me (s'.locks dp))
      new =
          left (create_new sb me dp path kind major minor dot dotdot dir m s)
            (create_new-Held path kind major minor m s held)
        where
          left :
              (r : Progress (ℕ × Tree))
              → After r (λ (i, s'). Held me (s'.locks i))
              → After r (λ (i, s'). Held me (s'.locks i) ⊎ Held me (s'.locks dp))
          left panicked h = tt
          left asleep h = tt
          left (done (i, s')) h = inl h

      go :
          (r : Option ℕ)
          → After
              (create_found sb me dp path kind major minor dot dotdot dir m (r, s))
              (λ (i, s'). Held me (s'.locks i) ⊎ Held me (s'.locks dp))
      go none = new
      go (some ip) =
          elim (Bool-cases (
            (kind == t_file)
            && (((s.cache ip).ip.kind == t_file) || ((s.cache ip).ip.kind == t_device)))) [
              | inl y ↦ rw y (inr held)
              | inr z ↦ rw z new
            ]

-- Whenever create returns an inode, the process still holds the sleep lock of that inode, or, when a
-- file of the name was there, that of the root directory.
pub create-Held :
    (sb : Superblock) (me path kind major minor dot dotdot dir : ℕ) (m : Mem) (s : Tree)
    → After (rooti s) (λ (dp, s0).
      After
        (create sb me path kind major minor dot dotdot dir m s)
        (λ (i, s'). Held me (s'.locks i) ⊎ Held me (s'.locks dp)))
unfolding create
create-Held sb me path kind major minor dot dotdot dir m s = go (rooti s)
  where
    go :
        (r : Progress (ℕ × Tree))
        → After r (λ (dp, s0).
          After
            (r >>= λ (dp, s1). ilock sb me dp s1 >>= λ s2.
              find_in sb dp (if m path == 47 then path + 1 else path) dir m s2
              >>= create_found sb me dp
                  (if m path == 47 then path + 1 else path)
                  kind
                  major
                  minor
                  dot
                  dotdot
                  dir
                  m)
            (λ (i, s'). Held me (s'.locks i) ⊎ Held me (s'.locks dp)))
    go panicked = tt
    go asleep = tt
    go (done (dp, s1)) =
        let path' = if m path == 47 then path + 1 else path in
        After-bind (ilock sb me dp s1)
          (λ s2.
            find_in sb dp path' dir m s2
            >>= create_found sb me dp path' kind major minor dot dotdot dir m)
          (λ s2. Held me (s2.locks dp) × ((s1.locks dp).locked ≡ 0) × SameBut dp s1 s2)
          (λ (i, s'). Held me (s'.locks i) ⊎ Held me (s'.locks dp)) (ilock-Held sb me dp s1)
          (λ s2 (held, free, same).
            After-bind (find_in sb dp path' dir m s2)
              (create_found sb me dp path' kind major minor dot dotdot dir m)
              (λ (r, s3). Same s2 s3) (λ (i, s'). Held me (s'.locks i) ⊎ Held me (s'.locks dp))
              (find_in-Same sb dp path' dir m s2)
              (λ (r, s3) h.
                create_found-Held sb me dp dot dotdot dir path' kind major minor m (r, s3)
                  (h dp ∙ held)))

-- create of a name that is not there, behind the lookup.
pub create-new :
    (sb : Superblock) (me path kind major minor dot dotdot de dp : ℕ) (m : Mem) (s s1 s2 s3 : Tree)
    → rooti s ≡ done (dp, s1)
    → ilock sb me dp s1 ≡ done s2
    → find_in sb dp (if m path == 47 then path + 1 else path) de m s2 ≡ done (none, s3)
    → create sb me path kind major minor dot dotdot de m s
      ≡ create_new sb me dp
          (if m path == 47 then path + 1 else path)
          kind
          major
          minor
          dot
          dotdot
          de
          m
          s3
unfolding create create_found
create-new sb me path kind major minor dot dotdot de dp m s s1 s2 s3 e1 e2 e3 = rw (e1, e2, e3) refl
