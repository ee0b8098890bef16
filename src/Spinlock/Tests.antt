-- ===== src/Spinlock/Tests.antt =====
-- The spinlocks of src/kernel/spinlock.c on concrete CPUs.
use halo_os.Base.{◌≡◌, refl, true, false, none, some, [], ◌∷◌}
use halo_os.Base.Array.{update}
use halo_os.Base.Outcome.{ok, panic}
use halo_os.Spinlock.{Cpu, Lock, initlock, holdinglock, acquire, release}
use halo_os.Spinlock.Nesting.{pushes, pops, pops-pushes, release-acquire, acquire-misuse}
use halo_os.Spinlock.Exclusion.{Machine, Step, Reach, IsSafe, Reach-IsSafe}

abbrev idle : Cpu
idle = record { noff = 0; intena = false; sie = true }

abbrev busy : Cpu
busy = record { noff = 1; intena = true; sie = false }

abbrev open_lock : Lock
open_lock = record { locked = 0; cpu = none }

abbrev taken : Lock
taken = record { locked = 1; cpu = some 1 }

abbrev start : Machine
start = record { cpus = λ k. idle; locks = open_lock ∷ open_lock ∷ [] }

abbrev after : Machine
after = record { cpus = update (λ k. idle) 1 busy; locks = taken ∷ open_lock ∷ [] }

start-IsSafe : IsSafe start
unfolding holdinglock
start-IsSafe k = (refl, λ h. absurd (h refl))

test-initlock : (initlock taken).locked ≡ 0
unfolding initlock
test-initlock = refl

step_1 : Reach start after
unfolding acquire
step_1 = Reach.next Reach.here (Step.acquires 1 0 open_lock busy taken refl refl)

Reach-IsSafe_example : IsSafe after
Reach-IsSafe_example = Reach-IsSafe start-IsSafe step_1

test-pops : (d : Cpu) × (pops 3 (pushes 3 idle) ≡ ok d) × (d.noff ≡ 0) × (d.sie ≡ true)
test-pops = pops-pushes 3 idle (λ h. absurd (h refl))

test-unlocked :
    (c1 : Cpu) × (l1 : Lock) × (c2 : Cpu) × (l2 : Lock) × (acquire idle 1 open_lock
      ≡ ok (some (c1, l1)))
    × (holdinglock l1 1 ≡ true)
    × (c1.sie ≡ false)
    × (release c1 1 l1 ≡ ok (c2, l2))
    × (l2.locked ≡ 0)
    × (c2.noff ≡ 0)
    × (c2.sie ≡ true)
test-unlocked = release-acquire idle 1 open_lock (λ h. absurd (h refl)) refl

acquire-misuse_example :
    (holdinglock taken 1 ≡ true → acquire busy 1 taken ≡ panic)
    × (holdinglock taken 1 ≡ false → release busy 1 taken ≡ panic)
acquire-misuse_example = acquire-misuse busy 1 taken
