-- ===== src/Sleeplock.antt =====
-- src/kernel/sleeplock.c: locks that a process holds while it sleeps. Each routine holds the inner
-- spinlock throughout, but while sleep_lock sleeps, so a call that does not sleep is one step. Which
-- sleepers sleep_unlock wakes up is a matter of the process table.
pub mod Exclusion
mod Tests
use halo_os.Base.{
  ℕ, zero, suc, Bool, true, false, not, ◌&&◌, Option, none, some, ◌==◌, if◌then◌else◌,
}

-- `struct sleeplock`
pub record Sleeplock : Type 0 where
  pub locked : ℕ
  pub pid : ℕ

pub sleep_initlock : Sleeplock
sleep_initlock = record { locked = 0; pid = 0 }

-- `none`: the lock is held, and the process sleeps on it.
unfoldable pub sleep_lock : Sleeplock → (me : ℕ) → Option Sleeplock
sleep_lock l me = if not (l.locked == 0) then none else some (record { locked = 1; pid = me })

unfoldable pub sleep_unlock : Sleeplock → Sleeplock
sleep_unlock l = record { locked = 0; pid = 0 }

unfoldable pub holdingsleep : Sleeplock → (me : ℕ) → Bool
holdingsleep l me = not (l.locked == 0) && (l.pid == me)
