-- ===== src/Vm/Pagetable/Tests.antt =====
-- A page table of src/kernel/vm.c that maps pages 0 and 1.
use halo_os.Base.{
  ℕ, suc, ◌+◌, ◌*◌, ◌<◌, ◌≡◌, ◌≢◌, refl, true, false, sym, ap, subst, ◌∙◌, ◌⊎◌, Bool-cases, inl,
  inr, [], ◌∷◌, ◌==◌, if◌then◌else◌, arith,
}
use halo_os.Base.Outcome.{ok, panic}
use halo_os.Vm.Kmem.{Kmem, pgsize}
use halo_os.Vm.Kmem.FreeList.{IsFrame, NotIn}
use halo_os.Vm.Pagetable.{
  walk, mappages, kvmmap, is_valid, slot, pte2pa, walkaddr, uvmunmap, leaf_pte,
}
use halo_os.Vm.Pagetable.Table.{Role, nothing, table, table-ne-nothing, table_inj, Tables, lookup}
use halo_os.Vm.Pagetable.Map.{MapsPages, mappages-MapsPages}
use halo_os.Vm.Pagetable.Address.{resolve, Resolves, walkaddr-resolve, walkaddr-mappages}
use halo_os.Vm.Pagetable.Unmap.{UnmapsPages, uvmunmap-UnmapsPages}

abbrev pub kernel_end : ℕ
kernel_end = 0x8002_0000

abbrev pub root : ℕ
root = 0x8002_1000

abbrev middle : ℕ
middle = 0x8002_2000

abbrev last : ℕ
last = 0x8002_3000

abbrev pub page_0 : ℕ
page_0 = 0x8002_4000

abbrev pub page_1 : ℕ
page_1 = 0x8002_5000

abbrev spare : ℕ
spare = 0x8002_6000

-- Both pages are a user's to read, write and execute; one frame is free.
abbrev pub mapped : Kmem
mapped = record {
  mem = λ a.
      if a == root
      then leaf_pte middle 0
      else if a == middle
      then leaf_pte last 0
      else if a == last
      then leaf_pte page_0 30
      else if a == last + 8
      then leaf_pte page_1 30
      else 0;
  freelist = spare;
}

abbrev role : ℕ → Role
role t =
    if t == root
    then table 2 0
    else if t == middle
    then table 1 0
    else if t == last
    then table 0 0
    else nothing

mapped-frames : (t : ℕ) → role t ≢ nothing → IsFrame kernel_end t × NotIn t (spare ∷ [])
mapped-frames t h = elim (Bool-cases (t == root)) [
  | inl e ↦ ((ground arith, ground arith, ground arith), ((λ q. ground arith), tt))
  | inr e ↦ elim (Bool-cases (t == middle)) [
    | inl e' ↦ ((ground arith, ground arith, ground arith), ((λ q. ground arith), tt))
    | inr e' ↦ elim (Bool-cases (t == last)) [
      | inl e'' ↦ ((ground arith, ground arith, ground arith), ((λ q. ground arith), tt))
      | inr e'' ↦ absurd (h (rw (e, e', e'') refl))
    ]
  ]
]

-- The two entries above level 0 are valid, and no other word that is not in the last table.
entry-Cases : (a : ℕ) → a < last → is_valid (mapped.mem a) ≡ true → (a ≡ root) ⊎ (a ≡ middle)
entry-Cases a lo v = ground arith

links-root :
    (l p i : ℕ)
    → role root ≡ table (suc l) p
    → (slot root i ≡ root)
    → role (pte2pa (mapped.mem (slot root i))) ≡ table l (p * 512 + i)
links-root l p i e q =
    let (u, w) = table_inj 2 (suc l) 0 p e in
    let i0 : i ≡ 0 = omega (arith, q) in
    let l1 : l ≡ 1 = omega (arith, u) in rw (i0, l1, sym w) refl

links-middle :
    (l p i : ℕ)
    → role middle ≡ table (suc l) p
    → (slot middle i ≡ middle)
    → role (pte2pa (mapped.mem (slot middle i))) ≡ table l (p * 512 + i)
links-middle l p i e q =
    let (u, w) = table_inj 1 (suc l) 0 p e in
    let i0 : i ≡ 0 = omega (arith, q) in
    let l1 : l ≡ 0 = omega (arith, u) in rw (i0, l1, sym w) refl

mapped-links :
    (t l p i : ℕ)
    → role t ≡ table (suc l) p
    → i < 512
    → is_valid (mapped.mem (slot t i)) ≡ true
    → role (pte2pa (mapped.mem (slot t i))) ≡ table l (p * 512 + i)
mapped-links t l p i e lt v = elim (Bool-cases (t == root)) [
  | inl q ↦
      let tr : t ≡ root = ground arith in
      elim (entry-Cases (slot t i) (ground arith) v) [
        | inl h ↦
            subst (λ x. role (pte2pa (mapped.mem (slot x i))) ≡ table l (p * 512 + i)) (sym tr)
              (links-root l p i (ap role (sym tr) ∙ e) (omega arith))
        | inr h ↦ absurd (omega arith)
      ]
  | inr q ↦ elim (Bool-cases (t == middle)) [
    | inl q' ↦
        let tm : t ≡ middle = ground arith in
        elim (entry-Cases (slot t i) (ground arith) v) [
          | inl h ↦ absurd (omega arith)
          | inr h ↦
              subst (λ x. role (pte2pa (mapped.mem (slot x i))) ≡ table l (p * 512 + i)) (sym tm)
                (links-middle l p i (ap role (sym tm) ∙ e) (omega arith))
        ]
    | inr q' ↦ elim (Bool-cases (t == last)) [
      | inl q'' ↦
          let f : role t ≡ table 0 0 = rw (q, q', q'') refl in
          absurd (omega (arith, table_inj 0 (suc l) 0 p (sym f ∙ e)))
      | inr q'' ↦
          let f : role t ≡ nothing = rw (q, q', q'') refl in
          absurd (table-ne-nothing (role t) (suc l) p e f)
    ]
  ]
]

mapped-Tables : Tables kernel_end mapped role (spare ∷ [])
mapped-Tables = record {
  end_pos = omega arith;
  free_list = (refl, λ h. omega arith, (refl, omega arith, omega arith), tt, refl);
  frames = mapped-frames;
  links = mapped-links;
}

test-walkaddr : walkaddr mapped root 0x1000 ≡ ok page_1
unfolding walkaddr walk
test-walkaddr = refl

test-kvmmap : kvmmap mapped root 0x1000 page_0 pgsize 6 ≡ panic
unfolding kvmmap mappages walk
test-kvmmap = refl

mappages-MapsPages_example :
    MapsPages kernel_end root 0 mapped role
      (spare ∷ [])
      2
      0x2000
      page_0
      6
      (mappages mapped root 0x2000 (2 * pgsize) page_0 6)
mappages-MapsPages_example =
    mappages-MapsPages kernel_end root 0 mapped role (spare ∷ []) 2 0x2000 page_0 6 mapped-Tables
      refl refl (omega arith) (omega arith) (omega arith)

test-resolve : walkaddr mapped root 0x1000 ≡ resolve (lookup mapped.mem root 0x1000)
test-resolve = walkaddr-resolve mapped root 0x1000 (omega arith)

walkaddr-mappages_example :
    Resolves root 2 0x2000 page_0 (mappages mapped root 0x2000 (2 * pgsize) page_0 22)
walkaddr-mappages_example =
    walkaddr-mappages kernel_end root 0 mapped role (spare ∷ []) 2 0x2000 page_0 22 mapped-Tables
      refl refl (omega arith) (omega arith) refl (omega arith) (omega arith) (omega arith) refl

uvmunmap-UnmapsPages_example :
    UnmapsPages kernel_end root 0 mapped role
      (spare ∷ [])
      2
      0
      (uvmunmap kernel_end mapped root 0 2 false)
uvmunmap-UnmapsPages_example =
    uvmunmap-UnmapsPages kernel_end root 0 mapped role (spare ∷ []) 2 0 mapped-Tables refl refl
      (omega arith)
