-- ===== src/Vm/Pagetable/Descend.antt =====
-- One round of the loop of walk of src/kernel/vm.c.
use halo_os.Base.{
  ℕ, suc, ◌+◌, ◌*◌, ◌<◌, ◌≡◌, refl, ap, ◌∙◌, Bool, true, false, not, Option, none, some, List, [],
  ◌∷◌, ◌==◌, if◌then◌else◌, arith, Bool-cases, inl, inr,
}
use halo_os.Vm.Kmem.{Kmem, kalloc}
use halo_os.Vm.Kmem.FreeList.{kalloc-Allocs}
use halo_os.Vm.Pagetable.{pte2pa, is_valid, slot, grow, descend}
use halo_os.Vm.Pagetable.Table.{Role, table, Tables}
use halo_os.Vm.Pagetable.Keeps.{Keeps, Keeps-refl}
use halo_os.Vm.Pagetable.Grow.{role', entry-facts, mem-entry, Tables-grown, Keeps-grown, role'-r}

-- What descend comes to, from the table at `t` of level `l + 1`: the next table, or -- with no free
-- frame left, or if it may not allocate -- none.
abbrev pub Descends :
    (end : ℕ)
    → (alloc : Bool) → Kmem
    → (ℕ → Role)
    → List ℕ
    → (t l p i : ℕ) → Option ℕ × Kmem
    → Type 0
Descends end alloc k role free t l p i (none, k') =
    (k' ≡ k) × (is_valid (k.mem (slot t i)) ≡ false) × (alloc ≡ true → free ≡ [])
Descends end alloc k role free t l p i (some c, k') =
    (role' : ℕ → Role) × (free' : List ℕ) × Tables end k' role' free'
    × Keeps k k' role role' free free'
    × (role' c ≡ table l (p * 512 + i))
    × (is_valid (k'.mem (slot t i)) ≡ true)
    × (pte2pa (k'.mem (slot t i)) ≡ c)
    × (alloc ≡ false → k' ≡ k)

pub descend-Descends :
    (end : ℕ) (alloc : Bool) (k : Kmem) (role : ℕ → Role) (free : List ℕ) (t l p i : ℕ)
    → Tables end k role free
    → role t ≡ table (suc l) p
    → i < 512
    → Descends end alloc k role free t l p i (descend alloc t i k)
unfolding descend grow
descend-Descends end alloc k role free t l p i tb at lt =
    elim (Bool-cases (is_valid (k.mem (slot t i)))) [
      | inl v ↦
          rw v
            (role, free, tb, Keeps-refl k role free, tb.links t l p i at lt v, v, refl, λ h. refl)
      | inr v ↦ rw v (go alloc free tb v)
    ]
  where
    go :
        (alloc : Bool) (free : List ℕ)
        → Tables end k role free
        → is_valid (k.mem (slot t i)) ≡ false
        → Descends end alloc k role free t l p i
            (if not alloc then (none, k) else grow (slot t i) (kalloc k))
    go false free tb v = (refl, v, λ h. cc)
    go true [] tb v =
        let (z, same) = kalloc-Allocs end k [] tb.free_list in
        let z' : ((kalloc k).0 == 0) ≡ true = ground arith in rw z' (same, v, λ h. refl)
    go true (r ∷ free) tb v =
        let (e, f, _, _, _) = kalloc-Allocs end k (r ∷ free) tb.free_list in
        let z : ((kalloc k).0 == 0) ≡ false = ground (arith, tb.end_pos) in
        let facts = entry-facts end k role r free t l p i tb at lt v in
        let slot_is = mem-entry end k role r free t l p i tb at lt v in
        rw z (
          rw e (
            role' end k role r free t l p i tb at lt v,
            free,
            Tables-grown end k role r free t l p i tb at lt v,
            Keeps-grown end k role r free t l p i tb at lt v,
            role'-r end k role r free t l p i tb at lt v,
            ap is_valid slot_is ∙ facts.0,
            ap pte2pa slot_is ∙ facts.1,
            λ h. cc,
          ))
