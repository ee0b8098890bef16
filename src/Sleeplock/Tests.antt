-- ===== src/Sleeplock/Tests.antt =====
-- The locks of src/kernel/sleeplock.c on concrete processes.
use halo_os.Base.{◌≡◌, refl, some, true, false}
use halo_os.Base.Array.{update}
use halo_os.Sleeplock.{Sleeplock, sleep_initlock, sleep_lock, sleep_unlock}
use halo_os.Sleeplock.Exclusion.{
  Shared, locks, unlocks, Reach, here, next, initial, IsExclusive, Reach-IsExclusive,
}

abbrev held : Sleeplock
held = record { locked = 1; pid = 4 }

test-lock : sleep_lock sleep_initlock 4 ≡ some held
unfolding sleep_lock sleep_initlock
test-lock = refl

test-unlock : sleep_unlock held ≡ sleep_initlock
unfolding sleep_unlock sleep_initlock
test-unlock = refl

-- Process 4 locks and unlocks, and process 5 locks.
abbrev passed : Shared
passed = record {
  lock = record { locked = 1; pid = 5 };
  has = update (update (update (λ p. false) 4 true) 4 false) 5 true;
}

passed-Reach : Reach initial passed
unfolding sleep_lock sleep_unlock sleep_initlock
passed-Reach = next (next (next here (locks 4 held refl)) (unlocks 4 refl)) (locks 5 _ refl)

Reach-IsExclusive_example : IsExclusive passed
Reach-IsExclusive_example = Reach-IsExclusive passed-Reach
