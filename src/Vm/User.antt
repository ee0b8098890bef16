-- ===== src/Vm/User.antt =====
-- User address spaces of src/kernel/vm.c: how they are made, grown, copied and shrunk, over the page
-- tables of Vm/Pagetable. A count of bytes is a number of words at page-aligned addresses, since all
-- copies here are of whole pages.
pub mod Sizes
mod Tests
use halo_os.Base.{
  ℕ, zero, suc, ◌+◌, ◌-◌, ◌*◌, ◌/◌, ◌%◌, ◌^◌, Bool, true, false, not, ◌&&◌, Option, none, some,
  List, [], ◌∷◌, ltb, leb, ◌==◌, if◌then◌else◌,
}
use halo_os.Base.Array.{update}
use halo_os.Base.Outcome.{Outcome, ok, panic, ◌>>=◌}
use halo_os.Vm.Kmem.{Kmem, pgsize, pgroundup, fill, kalloc, kfree}
use halo_os.Vm.Pagetable.{maxva, pte2pa, pte_flags, is_valid, walk, mappages, uvmunmap}

-- `TRAMPOLINE` and `TRAPFRAME`
abbrev pub trampoline : ℕ
trampoline = maxva - pgsize

abbrev pub trapframe : ℕ
trapframe = trampoline - pgsize

-- `PTE_W|PTE_X|PTE_R|PTE_U`
abbrev pub user_rwx : ℕ
user_rwx = 30

-- uvmcreate: the page table and the state.
pub uvmcreate : Kmem → Outcome (ℕ × Kmem)
uvmcreate k =
    let (r, k') = kalloc k in if r == 0 then panic else ok (r, record k' { mem = fill k'.mem r 0 })

-- uvmdealloc: the new size and the state.
pub uvmdealloc : (end : ℕ) → Kmem → (pagetable oldsz newsz : ℕ) → Outcome (ℕ × Kmem)
uvmdealloc end k pagetable oldsz newsz =
    if leb oldsz newsz
    then ok (oldsz, k)
    else if ltb (pgroundup newsz) (pgroundup oldsz)
    then (uvmunmap end k pagetable (pgroundup newsz) ((pgroundup oldsz - pgroundup newsz) / pgsize)
          true
        >>= λ k'. ok (newsz, k'))
    else ok (newsz, k)

-- What uvmalloc returns when it fails: the pages from `oldsz` up to `a` are taken back.
undo : (end : ℕ) → (pagetable a oldsz : ℕ) → Kmem → Outcome (ℕ × Kmem)
undo end pagetable a oldsz k = uvmdealloc end k pagetable a oldsz >>= λ (n, k'). ok (0, k')

-- A round of uvmalloc behind mappages of the frame `r`.
alloc_next :
    (end : ℕ)
    → (pagetable a oldsz r : ℕ) → (next : Kmem → Outcome (ℕ × Kmem)) → Bool × Kmem
    → Outcome (ℕ × Kmem)
unfolding undo
alloc_next end pagetable a oldsz r next (true, k) = next k
alloc_next end pagetable a oldsz r next (false, k) = kfree end k r >>= undo end pagetable a oldsz

-- The loop of uvmalloc, with `n` pages to go.
uvmalloc_loop : (end : ℕ) → (pagetable oldsz newsz : ℕ) → (n a : ℕ) → Kmem → Outcome (ℕ × Kmem)
unfolding alloc_next
uvmalloc_loop end pagetable oldsz newsz zero a k = ok (newsz, k)
uvmalloc_loop end pagetable oldsz newsz (suc n) a k =
    let (r, k1) = kalloc k in
    let failed = undo end pagetable a oldsz k1 in
    let mapped =
      mappages (record k1 { mem = fill k1.mem r 0 }) pagetable a pgsize r user_rwx
      >>= alloc_next end pagetable a oldsz r
          (uvmalloc_loop end pagetable oldsz newsz n (a + pgsize)) in
    if ltb a newsz then (if r == 0 then failed else mapped) else ok (newsz, k)

-- uvmalloc: the new size, or 0 when it fails, and the state.
pub uvmalloc : (end : ℕ) → Kmem → (pagetable oldsz newsz : ℕ) → Outcome (ℕ × Kmem)
unfolding uvmalloc_loop
uvmalloc end k pagetable oldsz newsz =
    if ltb newsz oldsz
    then ok (oldsz, k)
    else uvmalloc_loop end pagetable (pgroundup oldsz) newsz (newsz / pgsize + 1) (pgroundup oldsz)
        k

-- memmove of a page.
abbrev pub copy_page : (ℕ → ℕ) → (dst src : ℕ) → ℕ → ℕ
copy_page mem dst src a = if leb dst a && ltb a (dst + pgsize) then mem (src + (a - dst)) else mem a

-- The entry of a page that must be present.
present : Option ℕ × Kmem → Outcome ℕ
present (none, k) = panic
present (some s, k) = if not (is_valid (k.mem s)) then panic else ok (k.mem s)

-- A round of uvmcopy behind mappages: `false` for -1, behind what the label `err` does.
abbrev pub give_up : (end : ℕ) → (new i : ℕ) → Kmem → Outcome (Bool × Kmem)
give_up end new i k = uvmunmap end k new 0 (i / pgsize) true >>= λ k'. ok (false, k')

copy_next :
    (end : ℕ)
    → (new i r : ℕ) → (next : Kmem → Outcome (Bool × Kmem)) → Bool × Kmem
    → Outcome (Bool × Kmem)
copy_next end new i r next (true, k) = next k
copy_next end new i r next (false, k) = kfree end k r >>= give_up end new i

-- A round of uvmcopy from the entry `pte` of the old table on.
copy_round :
    (end : ℕ)
    → (new i pte : ℕ) → (next : Kmem → Outcome (Bool × Kmem)) → Kmem
    → Outcome (Bool × Kmem)
unfolding copy_next
copy_round end new i pte next k =
    let (r, k1) = kalloc k in
    let mapped =
      mappages (record k1 { mem = copy_page k1.mem r (pte2pa pte) }) new i pgsize r (pte_flags pte)
      >>= copy_next end new i r next in
    if r == 0 then give_up end new i k1 else mapped

-- The loop of uvmcopy, with `n` pages to go.
uvmcopy_loop : (end : ℕ) → (old new : ℕ) → (n i : ℕ) → Kmem → Outcome (Bool × Kmem)
unfolding present copy_round
uvmcopy_loop end old new zero i k = ok (true, k)
uvmcopy_loop end old new (suc n) i k = walk k old i false >>= present >>= λ pte.
    copy_round end new i pte (uvmcopy_loop end old new n (i + pgsize)) k

pub uvmcopy : (end : ℕ) → Kmem → (old new sz : ℕ) → Outcome (Bool × Kmem)
unfolding uvmcopy_loop
uvmcopy end k old new sz = uvmcopy_loop end old new (pgroundup sz / pgsize) 0 k

-- uvmcpy, the variant that panics where uvmcopy fails.
pub uvmcpy_loop : (old new : ℕ) → (n i : ℕ) → Kmem → Outcome Kmem
unfolding present
uvmcpy_loop old new zero i k = ok k
uvmcpy_loop old new (suc n) i k = walk k old i false >>= present >>= λ pte.
    (let (r, k1) = kalloc k in
      let mapped =
        mappages (record k1 { mem = copy_page k1.mem r (pte2pa pte) }) new i pgsize r
          (pte_flags pte) in
      if r == 0
      then panic
      else mapped >>= λ (done, k2). if done then uvmcpy_loop old new n (i + pgsize) k2 else panic)

pub uvmcpy : Kmem → (old new sz : ℕ) → Outcome Kmem
unfolding uvmcpy_loop
uvmcpy k old new sz = uvmcpy_loop old new (pgroundup sz / pgsize) 0 k

-- uvmclear: `*pte &= ~PTE_U`
clear_user : Option ℕ × Kmem → Outcome Kmem
clear_user (none, k) = panic
clear_user (some s, k) =
    let pte = k.mem s in ok (record k { mem = update k.mem s (pte - pte / 16 % 2 * 16) })

pub uvmclear : Kmem → (pagetable va : ℕ) → Outcome Kmem
unfolding clear_user
uvmclear k pagetable va = walk k pagetable va false >>= clear_user

-- The loop of freewalk over the entries of a table, with `n` to go; `child` frees the table of an
-- entry. An entry that maps a page is a panic.
free_entries : (n i table : ℕ) → (child : ℕ → Kmem → Outcome Kmem) → Kmem → Outcome Kmem
free_entries zero i table child k = ok k
free_entries (suc n) i table child k =
    let pte = k.mem (table + 8 * i) in
    if is_valid pte && (pte / 2 % 8 == 0)
    then (child (pte2pa pte) k >>= λ k'.
        free_entries n (i + 1) table child (record k' { mem = update k'.mem (table + 8 * i) 0 }))
    else if is_valid pte
    then panic
    else free_entries n (i + 1) table child k

-- freewalk of a table of a level. mappages gives the valid entries of level 0 their permissions, so
-- that freewalk panics there; an entry of level 0 without permissions, which freewalk would follow
-- into the page, is a panic here too.
pub freewalk : (end : ℕ) → (level : ℕ) → (pagetable : ℕ) → Kmem → Outcome Kmem
unfolding free_entries
freewalk end zero pagetable k =
    free_entries 512 0 pagetable (λ pa k'. panic) k >>= λ k'. kfree end k' pagetable
freewalk end (suc level) pagetable k =
    free_entries 512 0 pagetable (freewalk end level) k >>= λ k'. kfree end k' pagetable

pub uvmfree : (end : ℕ) → Kmem → (pagetable sz : ℕ) → Outcome Kmem
unfolding freewalk
uvmfree end k pagetable sz =
    (if ltb 0 sz then uvmunmap end k pagetable 0 (pgroundup sz / pgsize) true else ok k)
    >>= freewalk end 2 pagetable

pub proc_freepagetable : (end : ℕ) → Kmem → (pagetable sz : ℕ) → Outcome Kmem
unfolding uvmfree
proc_freepagetable end k pagetable sz = uvmunmap end k pagetable trampoline 1 false >>= λ k1.
    uvmunmap end k1 pagetable trapframe 1 false >>= λ k2. uvmfree end k2 pagetable sz
