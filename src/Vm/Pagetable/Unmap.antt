-- ===== src/Vm/Pagetable/Unmap.antt =====
-- uvmunmap of src/kernel/vm.c without freeing: the pages of a range, and no others, are unmapped.
use halo_os.Base.{
  ℕ, zero, suc, ◌+◌, ◌*◌, ◌%◌, ◌≤◌, ◌<◌, ◌≡◌, refl, sym, ap, subst, ◌∙◌, false, Option, none, some,
  List, leb, ◌==◌, arith, Bool-cases, inl, inr,
}
use halo_os.Base.Outcome.{Outcome, ok, panic, ◌>>=◌}
use halo_os.Vm.Kmem.{Kmem, pgsize}
use halo_os.Vm.Pagetable.{
  maxva, px, pte_flags, is_valid, slot, walk_loop, leaf_slot, walk, unmap_slot, unmap_loop,
  uvmunmap,
}
use halo_os.Vm.Pagetable.Table.{lookup, Role, table, Tables}
use halo_os.Vm.Pagetable.Walk.{Walks, walk_loop-Walks}
use halo_os.Vm.Pagetable.Leaf.{Changes, Changes-leaf, lookup-leaf, lookup-before}
use halo_os.Vm.Pagetable.Map.{Changes-trans}

-- No page is mapped there, or a table is.
abbrev pub IsNoPage : Option ℕ → Type 0
IsNoPage none = Unit
IsNoPage (some pte) = pte_flags pte ≡ 1

module _ (end : ℕ) (pagetable space : ℕ) where
  -- What unmapping `n` pages from `va` on comes to: none of them is mapped, or one of them was not.
  abbrev pub UnmapsPages : Kmem → (ℕ → Role) → List ℕ → (n va : ℕ) → Outcome Kmem → Type 0
  UnmapsPages k role free n va panic =
      (i : ℕ) × (i < n) × IsNoPage (lookup k.mem pagetable (va + i * pgsize))
  UnmapsPages k role free n va (ok k') =
      Changes end k k' pagetable space role free va (va + n * pgsize)
      × ((i : ℕ) → i < n → lookup k'.mem pagetable (va + i * pgsize) ≡ none)

  unmap_round :
      (k : Kmem) (role : ℕ → Role) (free : List ℕ) (va : ℕ) (r : Option ℕ × Kmem)
      → Tables end k role free
      → role pagetable ≡ table 2 space
      → va < maxva
      → va % pgsize ≡ 0
      → Walks end false k role free 2 pagetable space va r
      → UnmapsPages k role free 1 va (unmap_slot end false (leaf_slot va r))
  unfolding unmap_slot leaf_slot
  unmap_round k role free va (none, k1) tb root low al (role1, free1, tb1, kp, full, same) =
      let e : va + 0 * pgsize ≡ va = omega arith in
      let gone = (same refl).1 in (0, omega arith, rw (e, gone) tt)
  unmap_round k role free va (some c, k1) tb root low al (role1, free1, tb1, kp, at, reach, same) =
      let i0 : va + 0 * pgsize ≡ va = omega arith in
      let before =
        lookup-before end pagetable space k k1 role role1 free free1 va c 0 root low al tb1 kp at
          reach in
      elim (Bool-cases (is_valid (k1.mem (slot c (px 0 va))))) [
        | inr v ↦ rw v (0, omega arith, rw (i0, before, v) tt)
        | inl v ↦ elim (Bool-cases (pte_flags (k1.mem (slot c (px 0 va))) == 1)) [
          | inl t ↦ rw (v, t) (0, omega arith, rw (i0, before, v) (ground arith))
          | inr t ↦
              rw (v, t)
                (
                  Changes-leaf end pagetable space k k1 role role1 free free1 va c 0 root low al tb1
                      kp at,
                  λ i li.
                      let e : va + i * pgsize ≡ va = omega arith in
                      rw e (
                        lookup-leaf end pagetable space k k1 role role1 free free1 va c 0 root low
                          al tb1 kp at reach),
                )
        ]
      ]

  -- The first page and then the others.
  UnmapsPages-suc :
      (k k1 : Kmem) (role : ℕ → Role) (free : List ℕ) (n va : ℕ) (r : Outcome Kmem)
      → va + suc n * pgsize ≤ maxva
      → (c : Changes end k k1 pagetable space role free va (va + 1 * pgsize))
      → ((i : ℕ) → i < 1 → lookup k1.mem pagetable (va + i * pgsize) ≡ none)
      → UnmapsPages k1 c.role' c.free' n (va + pgsize) r
      → UnmapsPages k role free (suc n) va r
  UnmapsPages-suc k k1 role free n va panic low c gone (i, li, h) =
      let e : va + suc i * pgsize ≡ va + pgsize + i * pgsize = omega arith in
      (
        suc i,
        omega arith,
        subst IsNoPage
            (ap (lookup k1.mem pagetable) (sym e)
              ∙ c.outside (va + suc i * pgsize) (omega arith) (inr (omega arith)))
            h,
      )
  UnmapsPages-suc k k1 role free n va (ok k2) low c gone (d, all) = (
    Changes-trans end pagetable space k k1 k2 role free va (va + 1 * pgsize) (va + pgsize)
        (va + pgsize + n * pgsize) (va + suc n * pgsize) (omega arith) (omega arith) (omega arith) c
        d,
    page,
  )
    where
      page : (i : ℕ) → i < suc n → lookup k2.mem pagetable (va + i * pgsize) ≡ none
      page zero li =
          d.outside (va + 0 * pgsize) (omega arith) (inl (omega arith)) ∙ gone 0 (omega arith)
      page (suc i) li =
          let e : va + suc i * pgsize ≡ va + pgsize + i * pgsize = omega arith in
          rw e (all i (omega arith))

  unmap_loop-UnmapsPages :
      (n va : ℕ) (k : Kmem) (role : ℕ → Role) (free : List ℕ)
      → Tables end k role free
      → role pagetable ≡ table 2 space
      → va % pgsize ≡ 0
      → va + n * pgsize ≤ maxva
      → UnmapsPages k role free n va (unmap_loop end false n va pagetable k)
  unfolding unmap_loop walk
  unmap_loop-UnmapsPages zero va k role free tb root al low = (
    record {
      role' = role;
      free' = free;
      tables = tb;
      root = root;
      outside = λ w lw h. refl;
      spaces = λ o s e ne. (e, λ w. refl);
      pages = λ pa alp e out. (e, out, λ a h. refl);
    },
    λ i li. absurd (omega arith),
  )
  unmap_loop-UnmapsPages (suc n) va k role free tb root al low =
      let inside : leb maxva va ≡ false = ground arith in
      rw inside (
        go
          (λ k1 role1 free1 tb1 root1.
            unmap_loop-UnmapsPages n (va + pgsize) k1 role1 free1 tb1 root1 (omega arith)
              (omega arith))
          (unmap_slot end false (leaf_slot va (walk_loop 2 va false (some pagetable, k))))
          (unmap_round k role free va (walk_loop 2 va false (some pagetable, k)) tb root
            (omega arith) al (walk_loop-Walks end false 2 pagetable space va k role free tb root)))
    where
      go :
          ((k1 : Kmem) (role1 : ℕ → Role) (free1 : List ℕ)
            → Tables end k1 role1 free1
            → role1 pagetable ≡ table 2 space
            → UnmapsPages k1 role1 free1 n
                (va + pgsize)
                (unmap_loop end false n (va + pgsize) pagetable k1))
          → (r : Outcome Kmem) → UnmapsPages k role free 1 va r
          → UnmapsPages k role free
              (suc n)
              va
              (r >>= unmap_loop end false n (va + pgsize) pagetable)
      go ih panic (i, li, h) = (i, omega arith, h)
      go ih (ok k1) (c, gone) =
          UnmapsPages-suc k k1 role free n va (unmap_loop end false n (va + pgsize) pagetable k1)
            low c gone (ih k1 c.role' c.free' c.tables c.root)

-- uvmunmap of `n` pages from a page-aligned `va` on, all below MAXVA, without freeing them, in a page
-- table whose tables do not overlap: either none of them is mapped afterwards, the tables still do
-- not overlap, every page outside the range is mapped as before, and so are all pages of other
-- address spaces; or it panics, and one of the pages was not mapped.
pub uvmunmap-UnmapsPages :
    (end pagetable space : ℕ) (k : Kmem) (role : ℕ → Role) (free : List ℕ) (n va : ℕ)
    → Tables end k role free
    → role pagetable ≡ table 2 space
    → va % pgsize ≡ 0
    → va + n * pgsize ≤ maxva
    → UnmapsPages end pagetable space k role free n va (uvmunmap end k pagetable va n false)
unfolding uvmunmap
uvmunmap-UnmapsPages end pagetable space k role free n va tb root al low =
    rw al (unmap_loop-UnmapsPages end pagetable space n va k role free tb root al low)
