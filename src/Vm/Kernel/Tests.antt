-- ===== src/Vm/Kernel/Tests.antt =====
-- The kernel's page table of src/kernel/vm.c on concrete frames.
use halo_os.Base.{◌≡◌, refl}
use halo_os.Base.Outcome.{panic}
use halo_os.Vm.Kmem.{phystop, kalloc, freerange}
use halo_os.Vm.Pagetable.{kvmmap, mappages, walk}
use halo_os.Vm.Pagetable.Tests.{mapped}
use halo_os.Vm.Kernel.{kvmmake, kinit, proc_mapstacks}

-- No frame is left for the tables.
test-kvmmake_full : kvmmake 0x8000_8000 0x8000_7000 mapped ≡ panic
unfolding kvmmake kalloc kvmmap mappages walk
test-kvmmake_full = refl

-- With no free frame the first stack is a panic.
test-kinit_full :
    kinit phystop 0x8000_8000 0x8000_7000 (record { mem = λ a. 0; freelist = 0 }) ≡ panic
unfolding kinit kalloc kvmmap mappages walk freerange
test-kinit_full = refl

test-mapstacks_full : proc_mapstacks 0x8002_1000 (record { mem = λ a. 0; freelist = 0 }) ≡ panic
unfolding proc_mapstacks kalloc
test-mapstacks_full = refl
