-- ===== src/Trap/Device.antt =====
-- What the traps of src/kernel/trap.c do about devices.
use halo_os.Base.{ℕ, ◌+◌, ◌≡◌, Bool, not, ◌&&◌, List, [], ◌∷◌, ◌==◌, if◌then◌else◌, arith, bit_and}
use halo_os.Trap.{Action, complete, devintr}

-- How often the interrupt controller is told that `irq` is done.
abbrev pub completed : ℕ → List Action → ℕ
completed irq [] = 0
completed irq (complete n ∷ acts) = (if n == irq then 1 else 0) + completed irq acts
completed irq (_ ∷ acts) = completed irq acts

-- The causes that devintr knows.
abbrev pub external : ℕ → Bool
external scause = not (bit_and scause 0x8000000000000000 == 0) && (bit_and scause 0xff == 9)

-- For every cause, devintr tells the controller exactly once that a claimed interrupt is done, if
-- the cause is external and an interrupt was claimed, and never else; it returns 1 exactly for
-- external causes, 2 only for the software interrupt of the timer, and else 0.
pub devintr-completed :
    (scause irq cpu n : ℕ)
    → (completed n (devintr scause irq cpu).1
        ≡ (if external scause && (not (irq == 0) && (irq == n)) then 1 else 0))
      × ((devintr scause irq cpu).0
          ≡ (if external scause then 1 else if scause == 0x8000000000000001 then 2 else 0))
unfolding devintr
devintr-completed scause irq cpu n = (ground arith, ground arith)
