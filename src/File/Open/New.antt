-- ===== src/File/Open/New.antt =====
-- sys_open of src/kernel/sysfile.c with O_CREATE and the lock of a new file.
use halo_os.Base.{ℕ, ◌≡◌, refl, subst, ◌∙◌, true, none, some, if◌then◌else◌, ◌+◌, ◌==◌}
use halo_os.Base.Memory.{Mem}
use halo_os.Base.Progress.{Progress, panicked, asleep, done, ◌>>=◌, After}
use halo_os.Fs.Layout.{Superblock}
use halo_os.Fs.Path.{Tree, ilock, rooti, find_in, create_new, create, t_file}
use halo_os.Fs.Path.Locks.{Held, Same, SameBut, ilock-Held, find_in-Same}
use halo_os.Fs.Path.Create.{create_new-Held, create-new}
use halo_os.Fs.Path.Fresh.{Live, ilock-Held_asleep, create_new-Live}
use halo_os.File.{Files}
use halo_os.File.Open.{Opened, o_create, open_inode, open_path, sys_open}

-- A process that holds the lock of an inode with a reference sleeps in sys_open's ilock.
open_inode-asleep :
    (sb : Superblock) (me model i : ℕ) (s : Tree) (fs : Files)
    → Held me (s.locks i)
    → Live i s
    → open_inode sb me model fs (some i, s) ≡ asleep
unfolding open_inode
open_inode-asleep sb me model i s fs held live = rw (ilock-Held_asleep sb me i s held live) refl

-- Behind create, which returned the inode locked: sys_open sleeps on that lock.
abbrev pub Deadlocks : (me : ℕ) → Progress (ℕ × Tree) → Progress Opened → Type 0
Deadlocks me panicked r = r ≡ panicked
Deadlocks me asleep r = r ≡ asleep
Deadlocks me (done (i, s)) r = Held me (s.locks i) × (r ≡ asleep)

-- sys_open with O_CREATE of a name that is not in the root directory, once the process has the lock
-- of that directory, panics or sleeps where create does; and when create returns the new inode, the
-- process holds the sleep lock of that inode, and sleeps on it.
pub sys_open-new :
    (sb : Superblock) (me path model dot dotdot de dp : ℕ) (m : Mem) (s s1 s2 s3 : Tree)
    (fs : Files)
    → o_create model ≡ true
    → rooti s ≡ done (dp, s1)
    → ilock sb me dp s1 ≡ done s2
    → find_in sb dp (if m path == 47 then path + 1 else path) de m s2 ≡ done (none, s3)
    → Deadlocks me
        (create sb me path t_file 0 0 dot dotdot de m s)
        (sys_open sb me (some (path, model)) dot dotdot de m s fs)
unfolding sys_open open_path
sys_open-new sb me path model dot dotdot de dp m s s1 s2 s3 fs flag e1 e2 e3 =
    let name = if m path == 47 then path + 1 else path in
    let at_root =
      subst
        (λ r. After r (λ s'. Held me (s'.locks dp) × ((s1.locks dp).locked ≡ 0) × SameBut dp s1 s'))
        e2 (ilock-Held sb me dp s1) in
    let same = subst (λ r. After r (λ (o, s'). Same s2 s')) e3 (find_in-Same sb dp name de m s2) in
    let held : Held me (s3.locks dp) = same dp ∙ at_root.0 in
    rw (flag, create-new sb me path t_file 0 0 dot dotdot de dp m s s1 s2 s3 e1 e2 e3)
      (go (create_new sb me dp name t_file 0 0 dot dotdot de m s3)
        (create_new-Held sb me dp dot dotdot de name t_file 0 0 m s3 held)
        (create_new-Live sb me dp dot dotdot de name 0 0 m s3 held))
  where
    go :
        (r : Progress (ℕ × Tree))
        → After r (λ (i, s'). Held me (s'.locks i))
        → After r (λ (i, s'). Live i s')
        → Deadlocks me r (r >>= (λ (i, s'). done (some i, s')) >>= open_inode sb me model fs)
    go panicked h l = refl
    go asleep h l = refl
    go (done (i, s')) h l = (h, open_inode-asleep sb me model i s' fs h l)
