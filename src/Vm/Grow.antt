-- ===== src/Vm/Grow.antt =====
-- growproc of src/kernel/proc.c and sys_sbrk of src/kernel/sysproc.c, over uvmalloc.
pub mod Stuck
mod Tests
use halo_os.Base.{
  ℕ, zero, suc, ◌+◌, ◌-◌, ◌%◌, ◌^◌, Bool, true, false, ◌==◌, if◌then◌else◌, Option, none, some,
}
use halo_os.Base.Int.{ℤ, pos, negsuc}
use halo_os.Base.Outcome.{Outcome, ok, panic, ◌>>=◌}
use halo_os.Vm.Kmem.{Kmem}
use halo_os.Vm.User.{uvmalloc}

-- `if((sz == uvmalloc(...)) == 0) return -1;`, and the new `p->sz`.
pub size_kept : (sz : ℕ) → ℕ × Kmem → Outcome (Bool × ℕ × Kmem)
size_kept sz (r, k) = ok (sz == r, sz, k)

-- growproc of a process with `p->sz` 32 bits wide: whether it returns 0, the size, and memory.
pub growproc : (end : ℕ) → Kmem → (pagetable sz : ℕ) → ℤ → Outcome (Bool × ℕ × Kmem)
unfolding size_kept
growproc end k pagetable sz (pos zero) = ok (true, sz, k)
growproc end k pagetable sz (pos (suc n)) =
    uvmalloc end k pagetable sz ((sz + suc n) % 2 ^ 32) >>= size_kept sz
growproc end k pagetable sz (negsuc n) =
    uvmalloc end k pagetable sz ((sz + 2 ^ 32 - (n + 1)) % 2 ^ 32) >>= λ (r, k').
    ok (true, r % 2 ^ 32, k')

-- sys_sbrk, with the argument if argint gave one: the old size, or `none` for -1.
pub sys_sbrk : (end : ℕ) → Kmem → (pagetable sz : ℕ) → Option ℤ → Outcome (Option ℕ × ℕ × Kmem)
sys_sbrk end k pagetable sz none = ok (none, sz, k)
sys_sbrk end k pagetable sz (some n) = growproc end k pagetable sz n >>= λ (done, sz', k').
    ok (if done then some sz else none, sz', k')
