-- ===== src/Vm/Copy/Tests.antt =====
-- The copies of src/kernel/vm.c and src/kernel/spaceswap.c with the page table of Vm/Pagetable/Tests.
use halo_os.Base.{
  ℕ, ◌+◌, ◌-◌, ◌/◌, ◌%◌, ◌^◌, ◌≡◌, refl, true, false, ◌==◌, ltb, if◌then◌else◌, arith, Bool-cases,
  inl, inr,
}
use halo_os.Base.Memory.{Mem}
use halo_os.Base.Outcome.{ok}
use halo_os.Util.{memmove}
use halo_os.Vm.Kmem.{pgsize, pgrounddown}
use halo_os.Vm.Pagetable.{walkaddr}
use halo_os.Vm.Pagetable.Table.{find}
use halo_os.Vm.Pagetable.Address.{walkaddr-resolve}
use halo_os.Vm.Pagetable.Tests.{root, page_0, page_1, mapped}
use halo_os.Vm.Copy.{copyoutpg, copyin, copyinstr, either_copyout, either_copyin}
use halo_os.Vm.Copy.Out.{Target, Delivers, copyoutpg-Delivers}
use halo_os.Vm.Copy.In.{copyin-first_page}

abbrev page : ℕ → ℕ
page v = if v == 0 then page_0 else page_1

-- `abc` at the start of page 1
abbrev letters : Mem
letters a = if ltb a page_1 then 120 else if ltb a (page_1 + 3) then 97 + (a - page_1) else 0

walkaddr-0 : walkaddr mapped root 0 ≡ ok page_0
unfolding find
walkaddr-0 = walkaddr-resolve mapped root 0 (omega arith)

walkaddr-1 : walkaddr mapped root 0x1000 ≡ ok page_1
unfolding find
walkaddr-1 = walkaddr-resolve mapped root 0x1000 (omega arith)

Target-example : Target mapped root page 4090 100 12
Target-example = record {
  mapped = λ a lo hi. elim (Bool-cases (ltb a 4096)) [
    | inl first ↦
        let e : pgrounddown a ≡ 0 = ground arith in
        let f : a / pgsize ≡ 0 = ground arith in rw (e, f) walkaddr-0
    | inr second ↦
        let e : pgrounddown a ≡ 0x1000 = ground arith in
        let f : a / pgsize ≡ 1 = ground arith in rw (e, f) walkaddr-1
  ];
  not_null = λ a lo hi. ground arith;
  aligned = λ a. ground arith;
  different = λ a b lo hi lo' hi' e. ground arith;
  apart = λ a i lo hi li. ground arith;
}

copyoutpg-Delivers_example :
    Delivers page 4090 100 12 letters (copyoutpg mapped root 4090 100 12 letters)
copyoutpg-Delivers_example = copyoutpg-Delivers mapped root page 4090 100 12 letters Target-example

copyin-first_page_example :
    copyin mapped root 200 0x1ffa 12 letters
    ≡ ok (memmove letters 200 (page_1 + 0x1ffa % pgsize) (12 % 2 ^ 32))
copyin-first_page_example =
    copyin-first_page mapped root 200 0x1ffa 12 page_1 letters (omega arith) (omega arith)
      (omega arith) (omega arith) walkaddr-1 (λ e. ground arith)

test-copyinstr : copyinstr mapped root 200 0x2000 0 letters ≡ ok (false, letters)
unfolding copyinstr
test-copyinstr = refl

test-kernel_out :
    either_copyout mapped root false 200 page_1 3 letters
    ≡ ok (true, memmove letters 200 page_1 (3 % 2 ^ 32))
unfolding either_copyout
test-kernel_out = refl

test-kernel_in :
    either_copyin mapped root 200 false page_1 3 letters
    ≡ ok (memmove letters 200 page_1 (3 % 2 ^ 32))
unfolding either_copyin
test-kernel_in = refl
