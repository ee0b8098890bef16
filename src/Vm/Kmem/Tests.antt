-- ===== src/Vm/Kmem/Tests.antt =====
-- The page allocator of src/kernel/vm.c on concrete frames.
use halo_os.Base.{ℕ, ◌+◌, ◌-◌, ◌/◌, ◌≡◌, refl, List, [], ◌∷◌, false, ◌&&◌, leb, ltb, length, arith}
use halo_os.Base.Outcome.{ok, panic}
use halo_os.Vm.Kmem.{Kmem, pgsize, pgroundup, phystop, kfree, kalloc, freerange}
use halo_os.Vm.Kmem.FreeList.{FreeList, Allocs, kfree-FreeList, kalloc-Allocs}
use halo_os.Vm.Kmem.Range.{freerange-all}

abbrev kernel_end : ℕ
kernel_end = 0x87ff_d800

abbrev frame : ℕ
frame = 0x87ff_e000

abbrev no_frames : Kmem
no_frames = record { mem = λ a. 7; freelist = 0 }

abbrev one_frame : Kmem
one_frame = record { mem = λ a. 0; freelist = frame }

test-unaligned : kfree kernel_end no_frames (frame + 8) ≡ panic
unfolding kfree
test-unaligned = refl

test-kalloc : (kalloc one_frame).0 ≡ frame
unfolding kalloc
test-kalloc = refl

kfree-FreeList_example :
    (k' : Kmem) × (kfree kernel_end no_frames frame ≡ ok k')
    × FreeList kernel_end k' (frame ∷ [])
    × ((a : ℕ) → (leb frame a && ltb a (frame + pgsize)) ≡ false → k'.mem a ≡ 7)
kfree-FreeList_example =
    kfree-FreeList kernel_end no_frames frame [] (omega arith) (refl, omega arith, omega arith) tt
      refl

kalloc-Allocs_example : Allocs kernel_end one_frame (frame ∷ []) (kalloc one_frame)
kalloc-Allocs_example =
    kalloc-Allocs kernel_end one_frame (frame ∷ [])
      (refl, λ h. omega arith, (refl, omega arith, omega arith), tt, refl)

freerange-all_example :
    (k' : Kmem) × (xs : List ℕ) × (freerange kernel_end kernel_end phystop no_frames ≡ ok k')
    × FreeList kernel_end k' xs
    × (length xs ≡ (phystop - pgroundup kernel_end) / pgsize)
freerange-all_example = freerange-all kernel_end no_frames (omega arith) (omega arith) refl
