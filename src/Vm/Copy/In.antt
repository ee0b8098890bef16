-- ===== src/Vm/Copy/In.antt =====
-- What copyin of src/kernel/vm.c reads: the number of bytes of a round is wrong behind page 0.
use halo_os.Base.{
  ℕ, zero, suc, ◌+◌, ◌-◌, ◌%◌, ◌^◌, ◌≤◌, ◌<◌, ◌≡◌, ◌≢◌, refl, false, ◌==◌, arith, min,
}
use halo_os.Base.Memory.{Mem}
use halo_os.Base.Outcome.{ok}
use halo_os.Util.{memmove}
use halo_os.Vm.Kmem.{Kmem, pgsize, pgrounddown}
use halo_os.Vm.Pagetable.{maxva, walkaddr}
use halo_os.Vm.Copy.{copyin_loop, copyin}

copyin_loop-empty :
    (fuel : ℕ) (k : Kmem) (pagetable dst srcva : ℕ) (m : Mem)
    → copyin_loop fuel k pagetable dst srcva 0 m ≡ ok m
unfolding copyin_loop
copyin_loop-empty zero k pagetable dst srcva m = refl
copyin_loop-empty (suc fuel) k pagetable dst srcva m = refl

-- copyin of `len` bytes, from 1 to 2^63, from an address behind page 0 and below MAXVA whose page
-- walkaddr gives as a physical page other than page 0, is one memmove of `len` modulo 2^32 bytes from
-- that physical page on, whatever the pages behind it are mapped to: PGSIZE - (srcva + va0) wraps to
-- a number that no such length exceeds, and memmove takes its length as a `uint`.
pub copyin-first_page :
    (k : Kmem) (pagetable dst srcva len pa : ℕ) (m : Mem)
    → pgsize ≤ srcva
    → srcva < maxva
    → 0 < len
    → len ≤ 2 ^ 63
    → walkaddr k pagetable (pgrounddown srcva) ≡ ok pa
    → pa ≢ 0
    → copyin k pagetable dst srcva len m ≡ ok (memmove m dst (pa + srcva % pgsize) (len % 2 ^ 32))
unfolding copyin copyin_loop
copyin-first_page k pagetable dst srcva zero pa m lo hi pos small at nz = absurd (omega arith)
copyin-first_page k pagetable dst srcva (suc l) pa m lo hi pos small at nz =
    let n : min ((2 ^ 64 + pgsize - (srcva + pgrounddown srcva) % 2 ^ 64) % 2 ^ 64) (suc l)
        ≡ suc l =
      omega arith in
    let zero_left : suc l - suc l ≡ 0 = omega arith in
    let e : (suc l == 0) ≡ false = ground arith in
    let f : (pa == 0) ≡ false = ground arith in
    let off : srcva - pgrounddown srcva ≡ srcva % pgsize = omega arith in
    rw (e, at, f, n, zero_left, off, copyin_loop-empty) refl
