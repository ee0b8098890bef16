-- ===== src/Vm/Copy.antt =====
-- The copies between the kernel and a process: copyin and copyinstr of src/kernel/vm.c, and copyoutpg,
-- either_copyout and either_copyin of src/kernel/spaceswap.c. Page tables are read from the words of
-- `k`, and the data is in the bytes `m`, which the kernel addresses as it does physical memory; a
-- page of data is no table. `uint64` differences are written out where they can be negative, and a
-- length becomes the `uint` that memmove takes.
pub mod Out
pub mod In
mod Tests
use halo_os.Base.{
  ℕ, zero, suc, ◌+◌, ◌-◌, ◌^◌, ◌%◌, Bool, true, false, if◌then◌else◌, ltb, ◌==◌, min, List, [], ◌∷◌,
}
use halo_os.Base.Memory.{Mem, store}
use halo_os.Base.Outcome.{Outcome, ok, panic, ◌>>=◌}
use halo_os.Util.{memmove}
use halo_os.Vm.Kmem.{Kmem, pgsize, pgrounddown}
use halo_os.Vm.Pagetable.{walkaddr}

-- The loop of copyoutpg, on fuel; `false` for -1.
pub copyout_loop : (fuel : ℕ) → Kmem → (pagetable dstva src len : ℕ) → Mem → Outcome (Bool × Mem)
copyout_loop zero k pagetable dstva src len m = ok (true, m)
copyout_loop (suc fuel) k pagetable dstva src len m =
    if len == 0
    then ok (true, m)
    else walkaddr k pagetable (pgrounddown dstva) >>= λ pa0.
        let n = min (pgsize - (dstva - pgrounddown dstva)) len in
        let rest =
          copyout_loop fuel k pagetable (pgrounddown dstva + pgsize) (src + n) (len - n)
            (memmove m (pa0 + (dstva - pgrounddown dstva)) src n) in
        if pa0 == 0 then ok (false, m) else rest

-- A round copies at least one byte, so `len` rounds are enough.
pub copyoutpg : Kmem → (pagetable dstva src len : ℕ) → Mem → Outcome (Bool × Mem)
unfolding copyout_loop
copyoutpg k pagetable dstva src len m = copyout_loop len k pagetable dstva src len m

-- The loop of copyin, on fuel: `n` is PGSIZE - (srcva + va0), which wraps.
pub copyin_loop : (fuel : ℕ) → Kmem → (pagetable dst srcva len : ℕ) → Mem → Outcome Mem
copyin_loop zero k pagetable dst srcva len m = ok m
copyin_loop (suc fuel) k pagetable dst srcva len m =
    if len == 0
    then ok m
    else walkaddr k pagetable (pgrounddown srcva) >>= λ pa0.
        let n = min ((2 ^ 64 + pgsize - (srcva + pgrounddown srcva) % 2 ^ 64) % 2 ^ 64) len in
        let rest =
          copyin_loop fuel k pagetable (dst + n) (pgrounddown srcva + pgsize) (len - n)
            (memmove m dst (pa0 + (srcva - pgrounddown srcva)) (n % 2 ^ 32)) in
        if pa0 == 0 then panic else rest

-- `n` is not 0 at an address below MAXVA, so `len` rounds are enough.
pub copyin : Kmem → (pagetable dst srcva len : ℕ) → Mem → Outcome Mem
unfolding copyin_loop
copyin k pagetable dst srcva len m = copyin_loop len k pagetable dst srcva len m

-- The inner loop of copyinstr, over `n` bytes: whether a NUL was copied.
copy_str : (n p dst : ℕ) → Mem → Bool × Mem
copy_str zero p dst m = (false, m)
copy_str (suc n) p dst m =
    let rest = copy_str n (p + 1) (dst + 1) (store m dst (m p)) in
    if m p == 0 then (true, store m dst 0) else rest

-- The outer loop, on fuel, behind the inner one.
more_str : Bool × Mem → (Mem → Outcome (Bool × Mem)) → Outcome (Bool × Mem)
more_str (true, m) next = ok (true, m)
more_str (false, m) next = next m

copyinstr_loop : (fuel : ℕ) → Kmem → (pagetable dst srcva max : ℕ) → Mem → Outcome (Bool × Mem)
unfolding copy_str more_str
copyinstr_loop zero k pagetable dst srcva max m = ok (false, m)
copyinstr_loop (suc fuel) k pagetable dst srcva max m =
    if max == 0
    then ok (false, m)
    else walkaddr k pagetable (pgrounddown srcva) >>= λ pa0.
        let n = min (pgsize - (srcva - pgrounddown srcva)) max in
        let chunk = copy_str n (pa0 + (srcva - pgrounddown srcva)) dst m in
        let rest =
          more_str chunk
            (copyinstr_loop fuel k pagetable (dst + n) (pgrounddown srcva + pgsize) (max - n)) in
        if pa0 == 0 then ok (false, m) else rest

-- `false` for -1: the string does not end within `max` bytes, or lies past MAXVA.
pub copyinstr : Kmem → (pagetable dst srcva max : ℕ) → Mem → Outcome (Bool × Mem)
unfolding copyinstr_loop
copyinstr k pagetable dst srcva max m = copyinstr_loop max k pagetable dst srcva max m

pub either_copyout :
    Kmem → (pagetable : ℕ) → (user_dst : Bool) → (dst src len : ℕ) → Mem → Outcome (Bool × Mem)
either_copyout k pagetable user_dst dst src len m =
    if user_dst
    then copyoutpg k pagetable dst src len m
    else ok (true, memmove m dst src (len % 2 ^ 32))

pub either_copyin :
    Kmem → (pagetable : ℕ) → (dst : ℕ) → (user_src : Bool) → (src len : ℕ) → Mem → Outcome Mem
either_copyin k pagetable dst user_src src len m =
    if user_src then copyin k pagetable dst src len m else ok (memmove m dst src (len % 2 ^ 32))
