-- ===== src/Vm/Grow/Tests.antt =====
-- sys_sbrk with the page table of Vm/Pagetable/Tests.
use halo_os.Base.{◌≡◌, refl, some}
use halo_os.Base.Int.{pos}
use halo_os.Base.Outcome.{ok}
use halo_os.Vm.Pagetable.Tests.{kernel_end, root, mapped}
use halo_os.Vm.Grow.{growproc, sys_sbrk}

test-sbrk_0 :
    sys_sbrk kernel_end mapped root 0x2000 (some (pos 0)) ≡ ok (some 0x2000, 0x2000, mapped)
unfolding sys_sbrk growproc
test-sbrk_0 = refl
