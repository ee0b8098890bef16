-- ===== src/Vm/Kmem.antt =====
-- kfree, freerange and kalloc of src/kernel/vm.c: the free list runs through the free page frames
-- themselves. Physical memory is a function from the addresses of 64-bit words; a pointer is an
-- address, and 0 is the null pointer. Each routine holds `kmem.lk` while it changes the list. The
-- address of the symbol `end`, which the linker places, is an argument.
pub mod FreeList
pub mod Range
mod Tests
use halo_os.Base.{
  ℕ, zero, suc, ◌+◌, ◌-◌, ◌*◌, ◌/◌, ◌%◌, ◌^◌, Bool, not, ◌&&◌, ◌||◌, ltb, leb, ◌==◌, if◌then◌else◌,
}
use halo_os.Base.Array.{update}
use halo_os.Base.Outcome.{Outcome, ok, panic, ◌>>=◌}

abbrev pub pgsize : ℕ
pgsize = 4096

abbrev pub kernelbase : ℕ
kernelbase = 0x80000000

abbrev pub phystop : ℕ
phystop = kernelbase + 128 * 1024 * 1024

-- `PGROUNDUP` and `PGROUNDDOWN`, on values that do not come within a page of 2^64
abbrev pub pgroundup : ℕ → ℕ
pgroundup sz = (sz + pgsize - 1) / pgsize * pgsize

abbrev pub pgrounddown : ℕ → ℕ
pgrounddown a = a / pgsize * pgsize

pub record Kmem : Type 0 where
  pub mem : ℕ → ℕ
  pub freelist : ℕ

-- memset of a page: every word of it becomes `v`.
abbrev pub fill : (ℕ → ℕ) → (pa v : ℕ) → ℕ → ℕ
fill mem pa v a = if leb pa a && ltb a (pa + pgsize) then v else mem a

-- The word whose bytes are all `c`.
abbrev pub junk : ℕ → ℕ
junk c = c * 0x0101_0101_0101_0101

unfoldable pub kfree : (end : ℕ) → Kmem → ℕ → Outcome Kmem
kfree end k pa =
    if (not (pa % pgsize == 0) || ltb pa end) || leb phystop pa
    then panic
    else ok (record { mem = update (fill k.mem pa (junk 1)) pa k.freelist; freelist = pa })

-- `for(; p + PGSIZE <= pa_end; p += PGSIZE) kfree(p);`, with `n` rounds at most
free_pages : (end : ℕ) → (n p pa_end : ℕ) → Kmem → Outcome Kmem
free_pages end zero p pa_end k = ok k
free_pages end (suc n) p pa_end k =
    if leb (p + pgsize) pa_end then kfree end k p >>= free_pages end n (p + pgsize) pa_end else ok k

unfoldable pub freerange : (end : ℕ) → (pa_start pa_end : ℕ) → Kmem → Outcome Kmem
unfolding kfree free_pages
freerange end pa_start pa_end k = free_pages end (pa_end / pgsize) (pgroundup pa_start) pa_end k

unfoldable pub kalloc : Kmem → ℕ × Kmem
kalloc k =
    let r = k.freelist in
    (r, if r == 0 then k else record { mem = fill k.mem r (junk 5); freelist = k.mem r })
