-- ===== src/Vm/Grow/Stuck.antt =====
-- growproc of src/kernel/proc.c never changes the size of a process.
use halo_os.Base.{ℕ, ◌≡◌, Bool}
use halo_os.Base.Outcome.{Outcome, ok, panic}
use halo_os.Vm.Kmem.{Kmem}
use halo_os.Vm.User.Sizes.{Sizes}

-- A call that returns leaves the size as it is, with the result `done`.
abbrev pub IsStuck : (sz : ℕ) → (done : Bool) → Outcome (Bool × ℕ × Kmem) → Type 0
IsStuck sz done panic = Unit
IsStuck sz done (ok (done', sz', k')) = (done' ≡ done) × (sz' ≡ sz)
