-- ===== src/Sleeplock/Exclusion.antt =====
-- Processes that take and leave a lock of src/kernel/sleeplock.c in any order.
use halo_os.Base.{ℕ, ◌≡◌, ◌≢◌, refl, Bool, true, false, none, some, arith}
use halo_os.Base.Array.{update}
use halo_os.Sleeplock.{Sleeplock, sleep_initlock, sleep_lock, sleep_unlock, holdingsleep}

-- The lock, and the processes whose last sleep_lock returned and that have not unlocked since.
pub record Shared : Type 0 where
  pub lock : Sleeplock
  pub has : ℕ → Bool

-- One step of process `me`: its sleep_lock returns, or it unlocks the lock that it has, as iunlock
-- and brelease do.
pub data Step (m : Shared) : Shared → Type 0 where
  locks :
      (me : ℕ) (l : Sleeplock)
      → sleep_lock m.lock me ≡ some l
      → Step m (record { lock = l; has = update m.has me true })
  unlocks :
      (me : ℕ)
      → m.has me ≡ true
      → Step m (record { lock = sleep_unlock m.lock; has = update m.has me false })

pub data Reach (m : Shared) : Shared → Type 0 where
  here : Reach m m
  next : {a b : Shared} → Reach m a → Step a b → Reach m b

-- The lock behind sleep_initlock.
abbrev pub initial : Shared
initial = record { lock = sleep_initlock; has = λ p. false }

-- holdingsleep tells who has the lock: no two processes do, while one does every sleep_lock sleeps,
-- its own included, and while none does no sleep_lock sleeps.
pub record IsExclusive (m : Shared) : Type 0 where
  pub told : (p : ℕ) → holdingsleep m.lock p ≡ m.has p
  pub one : (p q : ℕ) → m.has p ≡ true → m.has q ≡ true → p ≡ q
  pub taken : (p me : ℕ) → m.has p ≡ true → sleep_lock m.lock me ≡ none
  pub free : ((p : ℕ) → m.has p ≡ false) → (me : ℕ) → sleep_lock m.lock me ≢ none

abbrev Told : Shared → Type 0
Told m = (p : ℕ) → holdingsleep m.lock p ≡ m.has p

-- The rest follows from what holdingsleep tells.
Told-IsExclusive : (m : Shared) → Told m → IsExclusive m
unfolding holdingsleep sleep_lock
Told-IsExclusive m t = record {
  told = t;
  one = λ p q h h'. ground (arith, t p, t q);
  taken = λ p me h. ground (arith, t p);
  free = λ h me e. ground (arith, t m.lock.pid, h m.lock.pid);
}

Step-Told : {m n : Shared} → Step m n → Told m → Told n
unfolding holdingsleep sleep_lock sleep_unlock
Step-Told {m} (locks me l e) t p = ground (arith, t p)
Step-Told {m} (unlocks me h) t p = ground (arith, t p, t me)

Reach-Told : {n : Shared} → Reach initial n → Told n
unfolding holdingsleep sleep_initlock
Reach-Told here p = refl
Reach-Told (next r s) p = Step-Told s (Reach-Told r) p

-- Whatever the order in which processes lock and unlock from sleep_initlock on, holdingsleep tells
-- for each process whether its sleep_lock has returned and it has not unlocked since; no two
-- processes have the lock at a time, while one has it every sleep_lock sleeps, the holder's own
-- included, and while none has it no sleep_lock sleeps.
pub Reach-IsExclusive : {n : Shared} → Reach initial n → IsExclusive n
Reach-IsExclusive {n} r = Told-IsExclusive n (Reach-Told r)
