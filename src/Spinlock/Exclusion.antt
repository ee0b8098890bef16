-- ===== src/Spinlock/Exclusion.antt =====
-- CPUs that acquire and release spinlocks of src/kernel/spinlock.c in any order.
use halo_os.Base.{
  ℕ, zero, suc, ◌+◌, ◌≡◌, ◌≢◌, Bool, false, some, List, [], ◌∷◌, arith, ◌==◌, if◌then◌else◌,
  get_elem?, set, some_inj,
}
use halo_os.Base.Array.{update}
use halo_os.Base.Outcome.{ok}
use halo_os.Spinlock.{Cpu, Lock, holdinglock, push_off, pop_one, pop_off, acquire, release}

pub record Machine : Type 0 where
  pub cpus : ℕ → Cpu
  pub locks : List Lock

-- One step of some CPU: a call of acquire or release that returns, or intr_on and intr_off outside
-- every lock, as the scheduler and the trap handlers call them.
pub data Step (m : Machine) : Machine → Type 0 where
  acquires :
      (k i : ℕ) (l : Lock) (c : Cpu) (l' : Lock)
      → get_elem? m.locks i ≡ some l
      → acquire (m.cpus k) k l ≡ ok (some (c, l'))
      → Step m (record m { cpus = update m.cpus k c; locks = set m.locks i l' })
  releases :
      (k i : ℕ) (l : Lock) (c : Cpu) (l' : Lock)
      → get_elem? m.locks i ≡ some l
      → release (m.cpus k) k l ≡ ok (c, l')
      → Step m (record m { cpus = update m.cpus k c; locks = set m.locks i l' })
  switches :
      (k : ℕ) (b : Bool)
      → (m.cpus k).noff ≡ 0
      → Step m (record m { cpus = update m.cpus k (record (m.cpus k) { sie = b }) })

pub data Reach (m : Machine) : Machine → Type 0 where
  here : Reach m m
  next : {a b : Machine} → Reach m a → Step a b → Reach m b

-- 1 if CPU `k` holds the lock.
abbrev pub holds : ℕ → Lock → ℕ
holds k l = if holdinglock l k then 1 else 0

-- How many of the locks CPU `k` holds.
abbrev pub held : ℕ → List Lock → ℕ
held k [] = 0
held k (l ∷ ls) = holds k l + held k ls

-- Each CPU's depth is the number of locks that it holds, and its interrupts are off if that is not 0.
abbrev pub IsSafe : Machine → Type 0
IsSafe m =
    (k : ℕ) → ((m.cpus k).noff ≡ held k m.locks) × ((m.cpus k).noff ≢ 0 → (m.cpus k).sie ≡ false)

held-set :
    (k : ℕ) (ls : List Lock) (i : ℕ) (l l' : Lock)
    → get_elem? ls i ≡ some l
    → held k (set ls i l') + holds k l ≡ held k ls + holds k l'
held-set k [] i l l' h = cc
held-set k (x ∷ ls) zero l l' h = rw (some_inj x l h) (omega arith)
held-set k (x ∷ ls) (suc i) l l' h = omega (arith, held-set k ls i l l' h)

-- What a successful acquire does to the CPU and to the lock, seen from any CPU `j`.
acquire-effect :
    (c : Cpu) (k : ℕ) (l : Lock) (c' : Cpu) (l' : Lock)
    → acquire c k l ≡ ok (some (c', l'))
    → (c'.noff ≡ c.noff + 1)
      × (c'.sie ≡ false)
      × ((j : ℕ) → holds j l ≡ 0)
      × ((j : ℕ) → holds j l' ≡ (if k == j then 1 else 0))
unfolding acquire push_off holdinglock
acquire-effect c k l c' l' h = (ground arith, ground arith, λ j. ground arith, λ j. ground arith)

release-effect :
    (c : Cpu) (k : ℕ) (l : Lock) (c' : Cpu) (l' : Lock)
    → release c k l ≡ ok (c', l')
    → (c.noff ≡ c'.noff + 1)
      × (c'.noff ≢ 0 → c'.sie ≡ false)
      × ((j : ℕ) → holds j l ≡ (if k == j then 1 else 0))
      × ((j : ℕ) → holds j l' ≡ 0)
unfolding release pop_off pop_one holdinglock
release-effect c k l c' l' h = (ground arith, ground arith, λ j. ground arith, λ j. ground arith)

Step-IsSafe : {m n : Machine} → Step m n → IsSafe m → IsSafe n
Step-IsSafe {m} (acquires k i l c l' at e) s j =
    let (noff, sie, before, after) = acquire-effect (m.cpus k) k l c l' e in
    ground (arith, s j, s k, before j, after j, held-set j m.locks i l l' at)
Step-IsSafe {m} (releases k i l c l' at e) s j =
    let (noff, sie, before, after) = release-effect (m.cpus k) k l c l' e in
    ground (arith, s j, s k, before j, after j, held-set j m.locks i l l' at)
Step-IsSafe {m} (switches k b z) s j = ground (arith, s j, s k)

-- Whatever the order in which the CPUs acquire and release, in every state reached from a safe one
-- the nesting depth of each CPU is the number of locks that it holds, and a CPU that holds a lock
-- has its interrupts off.
pub Reach-IsSafe : {m n : Machine} → IsSafe m → Reach m n → IsSafe n
Reach-IsSafe s here = s
Reach-IsSafe s (next r st) = Step-IsSafe st (Reach-IsSafe s r)
