-- ===== src/Spinlock.antt =====
-- src/kernel/spinlock.c: spinlocks, and the nesting of disabled interrupts on a CPU. The CPU's
-- SSTATUS_SIE bit (intr_get, intr_on and intr_off of src/kernel/riscv.h) is part of its state. A
-- routine runs with interrupts off or touches only its own CPU, and atmswap is atomic, so each call
-- that gets its lock is one step.
pub mod Nesting
pub mod Exclusion
mod Tests
use halo_os.Base.{
  ℕ, zero, suc, ◌+◌, ◌-◌, Bool, true, false, not, ◌&&◌, Option, none, some, ltb, ◌==◌,
  if◌then◌else◌,
}
use halo_os.Base.Outcome.{Outcome, ok, panic, ◌>>=◌, ◌>>◌, panic_if}

-- `noff` and `intena` of `struct cpu`, and whether interrupts are enabled
pub record Cpu : Type 0 where
  pub noff : ℕ
  pub intena : Bool
  pub sie : Bool

-- `struct spinlock`; a CPU is its index in `cpus`
pub record Lock : Type 0 where
  pub locked : ℕ
  pub cpu : Option ℕ

pub initlock : Lock → Lock
initlock l = record l { locked = 0 }

abbrev pub is_cpu : Option ℕ → ℕ → Bool
is_cpu none k = false
is_cpu (some j) k = j == k

pub holdinglock : Lock → ℕ → Bool
holdinglock l k = not (l.locked == 0) && is_cpu l.cpu k

pub push_off : Cpu → Cpu
push_off c = record c {
  noff = c.noff + 1;
  intena = if c.noff == 0 then c.sie else c.intena;
  sie = false;
}

-- The statements of pop_off behind its two tests.
pop_one : Cpu → Cpu
pop_one c = record c {
  noff = c.noff - 1;
  sie = if (c.noff - 1 == 0) && c.intena then true else c.sie;
}

pub pop_off : Cpu → Outcome Cpu
unfolding pop_one
pop_off c = if c.sie then panic else if ltb c.noff 1 then panic else ok (pop_one c)

-- `none`: another CPU has the lock, and the loop around atmswap goes on.
pub acquire : Cpu → ℕ → Lock → Outcome (Option (Cpu × Lock))
unfolding push_off holdinglock
acquire c k l =
    if holdinglock l k
    then panic
    else if l.locked == 0
    then ok (some (push_off c, record { locked = 1; cpu = some k }))
    else ok none

pub release : Cpu → ℕ → Lock → Outcome (Cpu × Lock)
unfolding pop_off holdinglock
release c k l = do
  panic_if (not (holdinglock l k))
  c' ← pop_off c
  ok (c', record { locked = 0; cpu = none })
