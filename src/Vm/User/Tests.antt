-- ===== src/Vm/User/Tests.antt =====
-- The address spaces of src/kernel/vm.c with the page table of Vm/Pagetable/Tests.
use halo_os.Base.{ℕ, ◌≡◌, refl, Bool, true, false, Option, none, some}
use halo_os.Base.Outcome.{Outcome, ok, panic}
use halo_os.Vm.Kmem.{Kmem, kalloc, kfree}
use halo_os.Vm.Pagetable.{walk, mappages, uvmunmap}
use halo_os.Vm.Pagetable.Table.{find, lookup}
use halo_os.Vm.Pagetable.Tests.{kernel_end, root, mapped}
use halo_os.Vm.User.{
  uvmcreate, uvmdealloc, uvmalloc, uvmcopy, uvmcpy, uvmclear, freewalk, uvmfree, proc_freepagetable,
}

-- The size that is returned and the entry of an address afterwards.
abbrev entry : (va : ℕ) → Outcome (ℕ × Kmem) → Option (ℕ × Option ℕ)
entry va panic = none
entry va (ok (n, k)) = some (n, lookup k.mem root va)

abbrev entry_of : (va : ℕ) → Outcome Kmem → Option (Option ℕ)
entry_of va panic = none
entry_of va (ok k) = some (lookup k.mem root va)

abbrev done_of : Outcome (Bool × Kmem) → Option Bool
done_of panic = none
done_of (ok (done, k)) = some done

abbrev table_of : Outcome (ℕ × Kmem) → Option ℕ
table_of panic = none
table_of (ok (n, k)) = some n

abbrev has_ended : Outcome Kmem → Bool
has_ended panic = false
has_ended (ok k) = true

test-uvmcreate : table_of (uvmcreate mapped) ≡ some 0x8002_6000
unfolding uvmcreate kalloc
test-uvmcreate = refl

-- The last free frame becomes page 2.
test-uvmalloc :
    entry 0x2000 (uvmalloc kernel_end mapped root 0x2000 0x3000) ≡ some (0x3000, some 0x2000_981f)
unfolding uvmalloc kalloc mappages walk find
test-uvmalloc = refl

-- A second page does not fit, and the first is given back.
test-uvmalloc_full : entry 0x2000 (uvmalloc kernel_end mapped root 0x2000 0x4000) ≡ some (0, none)
unfolding uvmalloc kalloc mappages walk uvmunmap kfree find uvmdealloc
test-uvmalloc_full = refl

test-uvmdealloc :
    entry 0x1000 (uvmdealloc kernel_end mapped root 0x2000 0x1000) ≡ some (0x1000, none)
unfolding uvmdealloc uvmunmap kfree find walk
test-uvmdealloc = refl

test-uvmcopy_full : done_of (uvmcopy kernel_end mapped root 0x8003_0000 0x2000) ≡ some false
unfolding uvmcopy walk kalloc mappages kfree uvmunmap
test-uvmcopy_full = refl

test-uvmcpy_full : uvmcpy mapped root 0x8003_0000 0x2000 ≡ panic
unfolding uvmcpy kalloc mappages walk
test-uvmcpy_full = refl

test-uvmclear : entry_of 0x1000 (uvmclear mapped root 0x1000) ≡ some (some 0x2000_940f)
unfolding uvmclear walk find
test-uvmclear = refl

test-freewalk_leaf : freewalk kernel_end 2 root mapped ≡ panic
unfolding freewalk
test-freewalk_leaf = refl

test-uvmfree : has_ended (uvmfree kernel_end mapped root 0x2000) ≡ true
unfolding uvmfree kfree uvmunmap walk
test-uvmfree = refl

test-proc_freepagetable : proc_freepagetable kernel_end mapped root 0x2000 ≡ panic
unfolding proc_freepagetable uvmunmap walk
test-proc_freepagetable = refl
