-- ===== src/Fs/Path/Locks.antt =====
-- Which sleep locks the routines of Fs/Path leave held.
use halo_os.Base.{
  ℕ, ◌≡◌, ◌≢◌, refl, ap, ◌∙◌, not, ◌||◌, inl, inr, ◌==◌, arith, Bool-cases, ==_refl, ==_of_ne,
}
use halo_os.Base.Array.{update}
use halo_os.Base.Memory.{Mem}
use halo_os.Base.Outcome.{Outcome, ok, panic}
use halo_os.Base.Progress.{
  Progress, panicked, asleep, done, of_outcome, ◌>>=◌, After, After-bind, After-of_outcome,
  After-weaken,
}
use halo_os.Fs.Layout.{Superblock, Blocks}
use halo_os.Fs.Icache.{Cached, is_live, iget, iput}
use halo_os.Fs.Directory.{inode_by_name, dirlink}
use halo_os.Fs.Path.{
  Tree, ilock, locked_by, iunlock, put_at, iunlockput, is_dropped, rooti, find_in, link_in,
}
use halo_os.Sleeplock.{Sleeplock, sleep_lock, sleep_unlock, holdingsleep}

abbrev pub Held : (me : ℕ) → Sleeplock → Type 0
Held me l = l ≡ record { locked = 1; pid = me }

-- The locks are as before.
abbrev pub Same : Tree → Tree → Type 0
Same s s' = (j : ℕ) → s'.locks j ≡ s.locks j

-- The locks but that of `i` are as before.
abbrev pub SameBut : (i : ℕ) → Tree → Tree → Type 0
SameBut i s s' = (j : ℕ) → j ≢ i → s'.locks j ≡ s.locks j

-- ilock returns with the lock, which was free.
pub ilock-Held :
    (sb : Superblock) (me i : ℕ) (s : Tree)
    → After
        (ilock sb me i s)
        (λ s'. Held me (s'.locks i) × ((s.locks i).locked ≡ 0) × SameBut i s s')
unfolding ilock locked_by sleep_lock
ilock-Held sb me i s = elim (Bool-cases (is_live (s.cache i))) [
  | inr dead ↦ rw dead tt
  | inl live ↦ elim (Bool-cases ((s.locks i).locked == 0)) [
    | inr taken ↦ rw (live, taken) tt
    | inl free ↦
        rw (live, free) (rw (==_refl i) refl, ground arith, λ j ne. rw (==_of_ne j i ne) refl)
  ]
]

-- A process that holds the lock sleeps in ilock for ever.
pub ilock-asleep :
    (sb : Superblock) (me i : ℕ) (s : Tree)
    → Held me (s.locks i)
    → After (ilock sb me i s) (λ s'. ⊥)
ilock-asleep sb me i s h = go (ilock sb me i s) (ilock-Held sb me i s)
  where
    go :
        (r : Progress Tree)
        → After r (λ s'. Held me (s'.locks i) × ((s.locks i).locked ≡ 0) × SameBut i s s')
        → After r (λ s'. ⊥)
    go panicked a = tt
    go asleep a = tt
    go (done s') (x, free, y) = absurd (omega (arith, free, ap (λ l. l.locked) h))

pub iunlock-SameBut : (me i : ℕ) (s : Tree) → After (iunlock me i s) (λ s'. SameBut i s s')
unfolding iunlock
iunlock-SameBut me i s =
    elim (Bool-cases (not (holdingsleep (s.locks i) me) || not (is_live (s.cache i)))) [
      | inl bad ↦ rw bad tt
      | inr good ↦ rw good (λ j ne. rw (==_of_ne j i ne) refl)
    ]

module _ (sb : Superblock) (i : ℕ) (s : Tree) where
  abbrev after_put : Cached × Blocks → Tree
  after_put (e, d) = record s { cache = update s.cache i e; blocks = d }

  kept :
      (r : Outcome (Cached × Blocks))
      → After (of_outcome r >>= λ (e, d). done (after_put (e, d))) (λ s'. Same s s')
  kept (ok (e, d)) = λ j. refl
  kept panic = tt

  dropped :
      (r : Outcome (Cached × Blocks))
      → After
          (of_outcome r >>= (λ (e, d). done (after_put (e, d))) >>= λ s'.
            done (record s' { locks = update s'.locks i (sleep_unlock (s'.locks i)) }))
          (λ s'. SameBut i s s')
  dropped (ok (e, d)) = λ j ne. rw (==_of_ne j i ne) refl
  dropped panic = tt

  -- A lock that is held stays so: iput locks an inode that it drops.
  pub put_at-Held :
      (me j : ℕ) → Held me (s.locks j) → After (put_at sb i s) (λ s'. Held me (s'.locks j))
  unfolding put_at
  put_at-Held me j h = elim (Bool-cases (is_dropped (s.cache i))) [
    | inr z ↦ rw z (
        After-weaken
          (of_outcome (iput sb (s.cache i) s.blocks) >>= λ (e, d). done (after_put (e, d)))
          (λ s'. Same s s') (λ s'. Held me (s'.locks j)) (kept (iput sb (s.cache i) s.blocks))
          (λ s' same. same j ∙ h))
    | inl y ↦ elim (Bool-cases ((s.locks i).locked == 0)) [
      | inr taken ↦ rw (y, taken) tt
      | inl free ↦
          let ne : j ≢ i = λ e.
            let f : (s.locks i).locked ≡ 0 = ground arith in
            absurd (omega (arith, f, ap (λ x. (s.locks x).locked) e, ap (λ l. l.locked) h)) in
          rw (y, free)
            (After-weaken
              (of_outcome (iput sb (s.cache i) s.blocks)
                >>= (λ (e, d). done (after_put (e, d)))
                >>= λ s'.
                    done (record s' { locks = update s'.locks i (sleep_unlock (s'.locks i)) }))
              (λ s'. SameBut i s s') (λ s'. Held me (s'.locks j))
              (dropped (iput sb (s.cache i) s.blocks)) (λ s' same. same j ne ∙ h))
    ]
  ]

pub iunlockput-Held :
    (sb : Superblock) (me i j : ℕ) (s : Tree)
    → j ≢ i
    → Held me (s.locks j)
    → After (iunlockput sb me i s) (λ s'. Held me (s'.locks j))
unfolding iunlockput
iunlockput-Held sb me i j s ne h =
    After-bind (iunlock me i s) (put_at sb i) (λ s'. SameBut i s s') (λ s'. Held me (s'.locks j))
      (iunlock-SameBut me i s) (λ s1 same. put_at-Held sb i s1 me j (same j ne ∙ h))

pub rooti-Same : (s : Tree) → After (rooti s) (λ (i, s'). Same s s')
unfolding rooti
rooti-Same s = go (iget s.cache 1 1)
  where
    go :
        (r : Outcome (ℕ × (ℕ → Cached)))
        → After (of_outcome r >>= λ (i, c). done (i, record s { cache = c })) (λ (i, s'). Same s s')
    go (ok (i, c)) = λ j. refl
    go panic = tt

pub find_in-Same :
    (sb : Superblock) (i name de : ℕ) (m : Mem) (s : Tree)
    → After (find_in sb i name de m s) (λ (r, s'). Same s s')
unfolding find_in
find_in-Same sb i name de m s =
    After-bind
      (of_outcome (inode_by_name sb s.cache ((s.cache i).dev) ((s.cache i).ip) s.blocks name de m))
      (λ (r, c, ip, d).
        done (r, record s { cache = update c i (record (c i) { ip = ip }); blocks = d }))
      (λ x. Unit {0}) (λ (r, s'). Same s s')
      (After-of_outcome
        (inode_by_name sb s.cache ((s.cache i).dev) ((s.cache i).ip) s.blocks name de m)
        (λ x. Unit {0}) (λ x. tt))
      (λ x h j. refl)

pub link_in-Same :
    (sb : Superblock) (i path inum dir : ℕ) (m : Mem) (s : Tree)
    → After (link_in sb i path inum dir m s) (λ (m', s'). Same s s')
unfolding link_in
link_in-Same sb i path inum dir m s =
    After-bind
      (of_outcome (dirlink sb ((s.cache i).inum) ((s.cache i).ip) s.blocks path inum dir m))
      (λ (ip, d, m').
        done
          (m', record s { cache = update s.cache i (record (s.cache i) { ip = ip }); blocks = d }))
      (λ x. Unit {0}) (λ (m', s'). Same s s')
      (After-of_outcome (dirlink sb ((s.cache i).inum) ((s.cache i).ip) s.blocks path inum dir m)
        (λ x. Unit {0}) (λ x. tt))
      (λ x h j. refl)
