-- ===== src/Vm/Kernel.antt =====
-- The kernel's own page table: kvmmake and kinit of src/kernel/vm.c, and proc_mapstacks of
-- src/kernel/proc.c. The addresses of the symbols `end`, `etext` and `trampoline`, which the linker
-- places, are arguments. kinit then writes the table's address to satp, which is no part of the state.
mod Tests
use halo_os.Base.{ℕ, zero, suc, ◌+◌, ◌-◌, ◌*◌, Bool, ◌==◌, if◌then◌else◌}
use halo_os.Base.Outcome.{Outcome, ok, panic, ◌>>=◌}
use halo_os.Proc.{nproc}
use halo_os.Vm.Kmem.{Kmem, pgsize, kernelbase, phystop, fill, kalloc, freerange}
use halo_os.Vm.Pagetable.{kvmmap}
use halo_os.Vm.User.{trampoline}

abbrev pub uart : ℕ
uart = 0x10000000

abbrev pub virtio0 : ℕ
virtio0 = 0x10001000

abbrev pub plic : ℕ
plic = 0x0c000000

-- `KSTACK(p)`
abbrev pub kstack : ℕ → ℕ
kstack p = trampoline - (p + 1) * 2 * pgsize

-- proc_mapstacks from the entry `i` of the process table on, with `n` entries to go.
pub mapstacks_loop : (n i pg : ℕ) → Kmem → Outcome Kmem
mapstacks_loop zero i pg k = ok k
mapstacks_loop (suc n) i pg k =
    let (pa, k1) = kalloc k in
    let rest = kvmmap k1 pg (kstack i) pa pgsize 6 >>= mapstacks_loop n (i + 1) pg in
    if pa == 0 then panic else rest

pub proc_mapstacks : (pg : ℕ) → Kmem → Outcome Kmem
unfolding mapstacks_loop
proc_mapstacks pg k = mapstacks_loop nproc 0 pg k

-- The kvmmap calls of kvmmake: 6 is `PTE_R | PTE_W`, and 10 is `PTE_R | PTE_X`.
pub kvmmaps : (etext trampoline_pa kpg : ℕ) → Kmem → Outcome Kmem
kvmmaps etext trampoline_pa kpg k = kvmmap k kpg uart uart pgsize 6 >>= λ k1.
    kvmmap k1 kpg virtio0 virtio0 pgsize 6 >>= λ k2. kvmmap k2 kpg plic plic 0x400000 6 >>= λ k3.
    kvmmap k3 kpg kernelbase kernelbase (etext - kernelbase) 10 >>= λ k4.
    kvmmap k4 kpg etext etext (phystop - etext) 6 >>= λ k5.
    kvmmap k5 kpg trampoline trampoline_pa pgsize 10

-- kvmmake: the page table and the state. A null pointer from kalloc is not tested for.
pub kvmmake : (etext trampoline_pa : ℕ) → Kmem → Outcome (ℕ × Kmem)
unfolding kvmmaps proc_mapstacks
kvmmake etext trampoline_pa k =
    let (kpg, k1) = kalloc k in
    kvmmaps etext trampoline_pa kpg (record k1 { mem = fill k1.mem kpg 0 }) >>= λ k2.
    proc_mapstacks kpg k2 >>= λ k3. ok (kpg, k3)

pub kinit : (end etext trampoline_pa : ℕ) → Kmem → Outcome (ℕ × Kmem)
unfolding kvmmake
kinit end etext trampoline_pa k = freerange end end phystop k >>= kvmmake etext trampoline_pa
