-- ===== src/Vm/Pagetable/Address.antt =====
-- walkaddr of src/kernel/vm.c gives the physical page that a page table maps a user page to.
use halo_os.Base.{
  ℕ, zero, suc, ◌+◌, ◌*◌, ◌/◌, ◌%◌, ◌^◌, ◌≤◌, ◌<◌, ◌≡◌, refl, ap, ◌∙◌, Bool, true, false, not,
  Option, none, some, leb, ◌==◌, if◌then◌else◌, arith, Bool-cases, inl, inr, bit_or, List,
}
use halo_os.Base.Words.{bit_or-one, bit_or-shift}
use halo_os.Base.Outcome.{Outcome, ok, panic}
use halo_os.Vm.Kmem.{Kmem, pgsize}
use halo_os.Vm.Pagetable.{
  maxva, px, pte2pa, is_valid, is_user, slot, leaf_pte, descend, walk_loop, leaf_slot, walk,
  walkaddr, user_page, mappages,
}
use halo_os.Vm.Pagetable.Table.{find, lookup, Role, table, Tables}
use halo_os.Vm.Pagetable.Map.{MapsPages, mappages-MapsPages}

-- walk that may not allocate changes nothing, and ends at the table of level 0 that find ends at.
abbrev pub Sees : (level t va : ℕ) → Kmem → Option ℕ × Kmem → Type 0
Sees level t va k (none, k') = (k' ≡ k) × (find level k.mem t va ≡ none)
Sees level t va k (some c, k') = (k' ≡ k) × (find level k.mem t va ≡ find 0 k.mem c va)

pub walk_loop-Sees :
    (level t va : ℕ) (k : Kmem) → Sees level t va k (walk_loop level va false (some t, k))
unfolding walk_loop descend find
walk_loop-Sees zero t va k = (refl, refl)
walk_loop-Sees (suc l) t va k = elim (Bool-cases (is_valid (k.mem (slot t (px (suc l) va))))) [
  | inl v ↦ rw v (
      go (walk_loop l va false (some (pte2pa (k.mem (slot t (px (suc l) va)))), k)) v
        (walk_loop-Sees l (pte2pa (k.mem (slot t (px (suc l) va)))) va k))
  | inr v ↦ rw (v, walk_none l) (refl, rw v refl)
]
  where
    walk_none : (l : ℕ) → walk_loop l va false (none, k) ≡ (none, k)
    walk_none zero = refl
    walk_none (suc l) = refl

    go :
        (r : Option ℕ × Kmem)
        → is_valid (k.mem (slot t (px (suc l) va))) ≡ true
        → Sees l (pte2pa (k.mem (slot t (px (suc l) va)))) va k r
        → Sees (suc l) t va k r
    go (none, k') v (e, f) = (e, rw v f)
    go (some c, k') v (e, f) = (e, rw v f)

-- What walkaddr makes of a mapping.
abbrev pub resolve : Option ℕ → Outcome ℕ
resolve none = panic
resolve (some pte) =
    if not (is_user pte) then panic else if pte2pa pte == 0 then panic else ok (pte2pa pte)

-- walkaddr of an address below MAXVA returns the page of its entry if that is a user page and not
-- page 0, and panics if the page is not mapped, not a user's, or page 0.
pub walkaddr-resolve :
    (k : Kmem) (pagetable va : ℕ)
    → va < maxva
    → walkaddr k pagetable va ≡ resolve (lookup k.mem pagetable va)
unfolding walkaddr walk
walkaddr-resolve k pagetable va low =
    let inside : leb maxva va ≡ false = ground arith in
    rw inside (go (walk_loop 2 va false (some pagetable, k)) (walk_loop-Sees 2 pagetable va k))
  where
    go :
        (r : Option ℕ × Kmem)
        → Sees 2 pagetable va k r
        → user_page (leaf_slot va r) ≡ resolve (lookup k.mem pagetable va)
    go (none, k') (e, f) = unfold leaf_slot user_page in rw f refl
    go (some c, k') (e, f) =
        unfold leaf_slot user_page find in
        rw (f, e)
          (elim (Bool-cases (is_valid (k.mem (slot c (px 0 va))))) [
            | inl v ↦ rw v refl
            | inr v ↦ rw v refl
          ])

-- The parts of an entry that mappages writes.
pub leaf_pte-parts :
    (pa perm : ℕ)
    → pa % pgsize ≡ 0
    → pa < 2 ^ 56
    → perm < 1024
    → (pte2pa (leaf_pte pa perm) ≡ pa) × (is_user (leaf_pte pa perm) ≡ is_user perm)
leaf_pte-parts pa perm al small low =
    let e = bit_or-one (bit_or (pa / 4096 * 1024) perm) in
    let f = bit_or-shift 10 (pa / 4096) perm low in
    let g : leaf_pte pa perm ≡ (pa / 4096 * 1024 + perm) / 2 * 2 + 1 = omega (arith, e, f) in
    let u : ((pa / 4096 * 1024 + perm) / 2 * 2 + 1) / 16 % 2 ≡ perm / 16 % 2 = omega arith in
    (omega (arith, g), rw (g, u) refl)

-- What a successful mappages of user pages means to walkaddr.
abbrev pub Resolves : (pagetable n va pa : ℕ) → Outcome (Bool × Kmem) → Type 0
Resolves pagetable n va pa panic = Unit
Resolves pagetable n va pa (ok (false, k')) = Unit
Resolves pagetable n va pa (ok (true, k')) =
    (i : ℕ) → i < n → walkaddr k' pagetable (va + i * pgsize) ≡ ok (pa + i * pgsize)

-- In a page table `pagetable` whose tables do not overlap, let mappages map `n` pages, at least one,
-- from `va` to those from `pa` on, both page-aligned, the first below MAXVA to their end, the second
-- behind page 0 and below 2^56 to their end, with flags of ten bits that contain PTE_U. If it returns
-- 0, walkaddr then gives for each page of the range the physical page at its distance from `pa`.
pub walkaddr-mappages :
    (end pagetable space : ℕ) (k : Kmem) (role : ℕ → Role) (free : List ℕ) (n va pa perm : ℕ)
    → Tables end k role free
    → role pagetable ≡ table 2 space
    → va % pgsize ≡ 0
    → 0 < n
    → va + n * pgsize ≤ maxva
    → pa % pgsize ≡ 0
    → 0 < pa
    → pa + n * pgsize < 2 ^ 56
    → perm < 1024
    → is_user perm ≡ true
    → Resolves pagetable n va pa (mappages k pagetable va (n * pgsize) pa perm)
walkaddr-mappages end pagetable space k role free n va pa perm tb root al pos low alp ppos small lp
      user =
    go (mappages k pagetable va (n * pgsize) pa perm) (
      mappages-MapsPages end pagetable space k role free n va pa perm tb root al pos low
        (omega arith))
  where
    go :
        (r : Outcome (Bool × Kmem))
        → MapsPages end pagetable space k role free n va pa perm r
        → Resolves pagetable n va pa r
    go panic h = tt
    go (ok (false, k')) h = tt
    go (ok (true, k')) (c, hit) = λ i li.
        let (page, u) = leaf_pte-parts (pa + i * pgsize) perm (omega arith) (omega arith) lp in
        let inside : (pa + i * pgsize) % 2 ^ 64 ≡ pa + i * pgsize = omega arith in
        let nz : (pa + i * pgsize == 0) ≡ false = ground arith in
        walkaddr-resolve k' pagetable (va + i * pgsize) (omega arith)
        ∙ ap resolve (hit i li ∙ ap (λ x. some (leaf_pte x perm)) inside)
        ∙ rw (u, user, page, nz) refl
