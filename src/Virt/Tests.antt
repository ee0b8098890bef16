-- ===== src/Virt/Tests.antt =====
-- The disk driver of src/kernel/virt.c on a concrete disk.
use halo_os.Base.{ℕ, ◌≡◌, refl, true, none, some, [], ◌∷◌, arith}
use halo_os.Base.Outcome.{panic}
use halo_os.Virt.{
  Disk, Three, cleared, alloc_desc, free_desc, alloc3_desc, submit_at, submit, finish, isr,
  find_free, alloc_first, alloc_second, alloc_third,
}
use halo_os.Virt.Alloc.{Allocs, Allocs3, Flags, alloc_desc-Allocs, alloc3_desc-Allocs3}
use halo_os.Virt.Chain.{Chained, Request, freed, submit-Chained, finish-freed}

abbrev fresh : Disk
fresh = record {
  desc = λ i. cleared;
  free = λ i. 1;
  ring = λ i. 0;
  index = 0;
  info = λ i. record { buf = none; state = 0 };
  used_idx = 0;
  ops = λ i. record { kind = 0; reserved = 0; sector = 0 };
  busy = λ b. 0;
}

fresh-Flags : Flags fresh
fresh-Flags j = omega arith

abbrev first_three : Three
first_three = record { head = 0; body = 1; tail = 2 }

-- The disk behind a write of buffer 7 to block 3.
abbrev queued : Disk
queued = submit_at (alloc3_desc fresh).1 first_three 7 3 true

queued_lem : submit fresh 7 3 true ≡ some (first_three, queued)
unfolding submit alloc3_desc alloc_desc alloc_first alloc_second alloc_third find_free
queued_lem = refl

test-isr : isr fresh (0 ∷ []) ≡ panic
unfolding isr
test-isr = refl

test-free_desc : free_desc fresh 8 ≡ fresh
unfolding free_desc
test-free_desc = refl

alloc_desc-Allocs_example : Allocs fresh (alloc_desc fresh)
alloc_desc-Allocs_example = alloc_desc-Allocs fresh

test-alloc3 : Allocs3 fresh (alloc3_desc fresh)
test-alloc3 = alloc3_desc-Allocs3 fresh fresh-Flags

submit-Chained_example :
    Chained queued first_three
    × Request queued first_three 7 3 true
    × (queued.ring 0 ≡ 0)
    × (queued.index ≡ 1)
    × ((j : ℕ) → 1 ≡ freed queued first_three j)
unfolding submit_at
submit-Chained_example = submit-Chained fresh 7 3 true fresh-Flags queued_lem

queued-Chained : Chained queued first_three
queued-Chained = (submit-Chained fresh 7 3 true fresh-Flags queued_lem).0

finish-freed_example :
    (f : Disk) × (finish queued 0 ≡ some f) × ((j : ℕ) → f.free j ≡ freed queued first_three j)
finish-freed_example = finish-freed queued first_three queued-Chained
