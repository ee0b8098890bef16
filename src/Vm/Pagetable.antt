-- ===== src/Vm/Pagetable.antt =====
-- The page tables of src/kernel/vm.c, in the words of physical memory: a table is a page frame, and
-- entry `i` of the table at `t` is the word at `t + 8 * i`. A null pointer is `none`. Masks of low
-- bits are remainders, and shifts are quotients and products, of the macros of src/kernel/vm.h and
-- src/kernel/riscv.h.
pub mod Table
pub mod Keeps
pub mod Grow
pub mod Descend
pub mod Walk
pub mod Leaf
pub mod Map
pub mod Address
pub mod Unmap
pub mod Tests
use halo_os.Base.{
  ℕ, zero, suc, ◌+◌, ◌-◌, ◌*◌, ◌/◌, ◌%◌, ◌^◌, Bool, true, false, not, ◌&&◌, ◌||◌, Option, none,
  some, ltb, leb, ◌==◌, if◌then◌else◌, bit_or,
}
use halo_os.Base.Array.{update}
use halo_os.Base.Outcome.{Outcome, ok, panic, ◌>>=◌}
use halo_os.Vm.Kmem.{Kmem, pgsize, pgroundup, pgrounddown, fill, kalloc, kfree}

-- `MAXVA`
abbrev pub maxva : ℕ
maxva = 2 ^ 38

-- `PX(level, va)`
abbrev pub px : (level va : ℕ) → ℕ
px level va = va / 2 ^ (12 + 9 * level) % 512

abbrev pub pa2pte : ℕ → ℕ
pa2pte pa = pa / 4096 * 1024

abbrev pub pte2pa : ℕ → ℕ
pte2pa pte = pte / 1024 * 4096 % 2 ^ 64

-- `PTE_FLAGS(pte)`
abbrev pub pte_flags : ℕ → ℕ
pte_flags pte = pte % 1024

-- `pte & PTE_V` and `pte & PTE_U`
abbrev pub is_valid : ℕ → Bool
is_valid pte = pte % 2 == 1

abbrev pub is_user : ℕ → Bool
is_user pte = pte / 16 % 2 == 1

-- `&pagetable[i]`
abbrev pub slot : (table i : ℕ) → ℕ
slot table i = table + 8 * i

-- walk without a table for an entry: kalloc, memset, and the entry.
grow : (entry : ℕ) → ℕ × Kmem → Option ℕ × Kmem
grow entry (r, k) =
    if r == 0
    then (none, k)
    else (some r, record k { mem = update (fill k.mem r 0) entry (bit_or (pa2pte r) 1) })

-- One round of the loop of walk, from the table `t`.
pub descend : (alloc : Bool) → (t i : ℕ) → Kmem → Option ℕ × Kmem
unfolding grow
descend alloc t i k =
    if is_valid (k.mem (slot t i))
    then (some (pte2pa (k.mem (slot t i))), k)
    else if not alloc
    then (none, k)
    else grow (slot t i) (kalloc k)

-- `for(level = 2; level > 0; level--)`, from the table at `level` that is reached.
pub walk_loop : (level va : ℕ) → (alloc : Bool) → Option ℕ × Kmem → Option ℕ × Kmem
walk_loop zero va alloc r = r
walk_loop (suc level) va alloc (none, k) = (none, k)
walk_loop (suc level) va alloc (some t, k) =
    walk_loop level va alloc (descend alloc t (px (suc level) va) k)

-- `return &pagetable[PX(0, va)];`
pub leaf_slot : (va : ℕ) → Option ℕ × Kmem → Option ℕ × Kmem
leaf_slot va (none, k) = (none, k)
leaf_slot va (some t, k) = (some (slot t (px 0 va)), k)

unfoldable pub walk : Kmem → (pagetable va : ℕ) → (alloc : Bool) → Outcome (Option ℕ × Kmem)
unfolding walk_loop descend leaf_slot
walk k pagetable va alloc =
    if leb maxva va then panic else ok (leaf_slot va (walk_loop 2 va alloc (some pagetable, k)))

-- `PA2PTE(pa) | perm | PTE_V`
abbrev pub leaf_pte : (pa perm : ℕ) → ℕ
leaf_pte pa perm = bit_or (bit_or (pa2pte pa) perm) 1

-- The rest of a round of mappages behind walk: `false` for -1.
pub map_slot : (pa perm : ℕ) → Option ℕ × Kmem → Outcome (Bool × Kmem)
map_slot pa perm (none, k) = ok (false, k)
map_slot pa perm (some s, k) =
    if is_valid (k.mem s)
    then panic
    else ok (true, record k { mem = update k.mem s (leaf_pte pa perm) })

-- What comes behind a call that may have returned -1.
abbrev pub and_then : Bool × Kmem → (Kmem → Outcome (Bool × Kmem)) → Outcome (Bool × Kmem)
and_then (false, k) next = ok (false, k)
and_then (true, k) next = next k

-- The loop of mappages, with `n` rounds left. No more than one page per number of the address space
-- is mapped, since walk panics at MAXVA.
pub map_loop : (n a last pa perm pagetable : ℕ) → Kmem → Outcome (Bool × Kmem)
unfolding map_slot
map_loop zero a last pa perm pagetable k = panic
map_loop (suc n) a last pa perm pagetable k = walk k pagetable a true >>= map_slot pa perm >>= λ r.
    and_then r (λ k'.
      let rest = map_loop n (a + pgsize) last ((pa + pgsize) % 2 ^ 64) perm pagetable k' in
      if a == last then ok (true, k') else rest)

unfoldable pub mappages : Kmem → (pagetable va size pa perm : ℕ) → Outcome (Bool × Kmem)
unfolding map_loop
mappages k pagetable va size pa perm =
    if size == 0
    then panic
    else map_loop (maxva / pgsize + 1) (pgrounddown va) (pgrounddown ((va + size - 1) % 2 ^ 64)) pa
        perm pagetable k

unfoldable pub kvmmap : Kmem → (kpg va pa sz perm : ℕ) → Outcome Kmem
kvmmap k kpg va pa sz perm =
    mappages k kpg va sz pa perm >>= λ (done, k'). if done then ok k' else panic

-- The tests of walkaddr behind walk.
pub user_page : Option ℕ × Kmem → Outcome ℕ
user_page (none, k) = panic
user_page (some s, k) =
    let pte = k.mem s in
    if not (is_valid pte)
    then panic
    else if not (is_user pte)
    then panic
    else if pte2pa pte == 0
    then panic
    else ok (pte2pa pte)

-- `ok 0` for an address from MAXVA on.
pub walkaddr : Kmem → (pagetable va : ℕ) → Outcome ℕ
unfolding user_page
walkaddr k pagetable va = if leb maxva va then ok 0 else walk k pagetable va false >>= user_page

-- A round of uvmunmap behind walk.
pub unmap_slot : (end : ℕ) → (do_free : Bool) → Option ℕ × Kmem → Outcome Kmem
unmap_slot end do_free (none, k) = panic
unmap_slot end do_free (some s, k) =
    let pte = k.mem s in
    if not (is_valid pte)
    then panic
    else if pte_flags pte == 1
    then panic
    else (if do_free then kfree end k (pte2pa pte) else ok k) >>= λ k'.
        ok (record k' { mem = update k'.mem s 0 })

pub unmap_loop : (end : ℕ) → (do_free : Bool) → (n a pagetable : ℕ) → Kmem → Outcome Kmem
unfolding unmap_slot
unmap_loop end do_free zero a pagetable k = ok k
unmap_loop end do_free (suc n) a pagetable k =
    walk k pagetable a false
    >>= unmap_slot end do_free
    >>= unmap_loop end do_free n (a + pgsize) pagetable

unfoldable pub uvmunmap :
    (end : ℕ) → Kmem → (pagetable va npages : ℕ) → (do_free : Bool) → Outcome Kmem
unfolding unmap_loop
uvmunmap end k pagetable va npages do_free =
    if not (va % pgsize == 0) then panic else unmap_loop end do_free npages va pagetable k
