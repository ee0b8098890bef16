-- ===== src/Vm/Pagetable/Map.antt =====
-- mappages of src/kernel/vm.c: the pages of a range, and no others, are mapped.
use halo_os.Base.{
  ℕ, zero, suc, ◌+◌, ◌-◌, ◌*◌, ◌/◌, ◌%◌, ◌^◌, ◌≤◌, ◌<◌, ◌≡◌, ◌≢◌, refl, sym, ap, ◌∙◌, Bool, true,
  false, Option, none, some, List, [], leb, ◌==◌, if◌then◌else◌, arith, Bool-cases, inl, inr, ◌⊎◌,
  bit_or,
}
use halo_os.Base.Words.{bit_or-one}
use halo_os.Base.Outcome.{Outcome, ok, panic, ◌>>=◌}
use halo_os.Vm.Kmem.{Kmem, pgsize, pgrounddown}
use halo_os.Vm.Pagetable.{
  maxva, px, is_valid, slot, leaf_pte, walk_loop, leaf_slot, walk, map_slot, and_then, map_loop,
  mappages,
}
use halo_os.Vm.Pagetable.Table.{lookup, Role, table, Tables}
use halo_os.Vm.Pagetable.Walk.{Walks, walk_loop-Walks}
use halo_os.Vm.Pagetable.Leaf.{Changes, Changes-leaf, lookup-leaf, lookup-before}

pub leaf_pte-valid : (pa perm : ℕ) → is_valid (leaf_pte pa perm) ≡ true
leaf_pte-valid pa perm =
    let e = bit_or-one (bit_or (pa / 4096 * 1024) perm) in
    let v : leaf_pte pa perm % 2 ≡ 1 = omega (arith, e) in rw v refl

module _ (end : ℕ) (pagetable space : ℕ) where
  -- What mapping `n` pages from `va` to those from `pa` on, modulo 2^64, comes to: all of them are
  -- mapped, with the flags and PTE_V; or no frame is left for a table; or one of them was mapped before.
  abbrev pub MapsPages :
      Kmem → (ℕ → Role) → List ℕ → (n va pa perm : ℕ) → Outcome (Bool × Kmem) → Type 0
  MapsPages k role free n va pa perm panic =
      (i : ℕ) × (i < n) × (lookup k.mem pagetable (va + i * pgsize) ≢ none)
  MapsPages k role free n va pa perm (ok (false, k')) =
      (c : Changes end k k' pagetable space role free va (va + n * pgsize)) × (c.free' ≡ [])
  MapsPages k role free n va pa perm (ok (true, k')) =
      Changes end k k' pagetable space role free va (va + n * pgsize)
      × ((i : ℕ)
          → i < n
          → lookup k'.mem pagetable (va + i * pgsize)
            ≡ some (leaf_pte ((pa + i * pgsize) % 2 ^ 64) perm))

  module _ (k : Kmem) (role : ℕ → Role) (free : List ℕ) (va pa perm : ℕ)
      (tb : Tables end k role free) (root : role pagetable ≡ table 2 space) (low : va < maxva)
      (aligned : va % pgsize ≡ 0) (fits : pa < 2 ^ 64) where
    map_round :
        (r : Option ℕ × Kmem)
        → Walks end true k role free 2 pagetable space va r
        → MapsPages k role free 1 va pa perm (map_slot pa perm (leaf_slot va r))
    unfolding map_slot leaf_slot
    map_round (none, k1) (role1, free1, tb1, kp, full, _) = (
      record {
        role' = role1;
        free' = free1;
        tables = tb1;
        root = kp.roles pagetable 2 space root;
        outside = λ w lw h. kp.maps pagetable 2 space w root;
        spaces = λ o s e ne. (kp.roles o 2 s e, λ w. kp.maps o 2 s w e);
        pages = kp.pages;
      },
      full refl,
    )
    map_round (some c, k1) (role1, free1, tb1, kp, at, reach, _) =
        let e = leaf_pte pa perm in
        elim (Bool-cases (is_valid (k1.mem (slot c (px 0 va))))) [
          | inl v ↦
              let found =
                lookup-before end pagetable space k k1 role role1 free free1 va c e root low aligned
                  tb1 kp at reach in
              let i0 : va + 0 * pgsize ≡ va = omega arith in
              rw v (0, omega arith, λ h. cc (ap (lookup k.mem pagetable) i0, h, rw v at found))
          | inr v ↦
              let new =
                lookup-leaf end pagetable space k k1 role role1 free free1 va c e root low aligned
                  tb1 kp at reach in
              rw v (
                Changes-leaf end pagetable space k k1 role role1 free free1 va c e root low aligned
                    tb1 kp at,
                λ i li.
                    let i0 : va + i * pgsize ≡ va = omega arith in
                    let p0 : (pa + i * pgsize) % 2 ^ 64 ≡ pa = omega arith in
                    rw (i0, p0) (new ∙ rw (leaf_pte-valid pa perm) refl),
              )
        ]

  -- Two changes of mappings, both between `lo` and `hi`.
  pub Changes-trans :
      (k k1 k2 : Kmem) (role : ℕ → Role) (free : List ℕ) (lo m1 m2 h2 hi : ℕ)
      → lo ≤ m2
      → m1 ≤ hi
      → h2 ≤ hi
      → (c : Changes end k k1 pagetable space role free lo m1)
      → (d : Changes end k1 k2 pagetable space c.role' c.free' m2 h2)
      → Changes end k k2 pagetable space role free lo hi
  Changes-trans k k1 k2 role free lo m1 m2 h2 hi le le1 le2 c d = record {
    role' = d.role';
    free' = d.free';
    tables = d.tables;
    root = d.root;
    outside = λ w lw h. d.outside w lw (below w h) ∙ c.outside w lw (above w h);
    spaces = λ o s e ne.
        let (e1, same1) = c.spaces o s e ne in
        let (e2, same2) = d.spaces o s e1 ne in (e2, λ w. same2 w ∙ same1 w);
    pages = λ pa al n out.
        let (n1, out1, same1) = c.pages pa al n out in
        let (n2, out2, same2) = d.pages pa al n1 out1 in (n2, out2, λ a h. same2 a h ∙ same1 a h);
  }
    where
      below : (w : ℕ) → (w < lo) ⊎ (hi ≤ w) → (w < m2) ⊎ (h2 ≤ w)
      below w (inl h) = inl (omega arith)
      below w (inr h) = inr (omega arith)

      above : (w : ℕ) → (w < lo) ⊎ (hi ≤ w) → (w < lo) ⊎ (m1 ≤ w)
      above w (inl h) = inl h
      above w (inr h) = inr (omega arith)

  -- The first page and then the others.
  MapsPages-suc :
      (k k1 : Kmem) (role : ℕ → Role) (free : List ℕ) (m va pa perm : ℕ) (r : Outcome (Bool × Kmem))
      → va + suc m * pgsize < maxva
      → (c : Changes end k k1 pagetable space role free va (va + 1 * pgsize))
      → ((i : ℕ)
          → i < 1
          → lookup k1.mem pagetable (va + i * pgsize)
            ≡ some (leaf_pte ((pa + i * pgsize) % 2 ^ 64) perm))
      → MapsPages k1 c.role' c.free' (suc m) (va + pgsize) ((pa + pgsize) % 2 ^ 64) perm r
      → MapsPages k role free (suc (suc m)) va pa perm r
  unfolding Changes-trans
  MapsPages-suc k k1 role free m va pa perm panic low c hit (i, li, h) =
      let e : va + suc i * pgsize ≡ va + pgsize + i * pgsize = omega arith in
      (
        suc i,
        omega arith,
        λ z. h (
            sym (ap (lookup k1.mem pagetable) e)
            ∙ c.outside (va + suc i * pgsize) (omega arith) (inr (omega arith))
            ∙ z),
      )
  MapsPages-suc k k1 role free m va pa perm (ok (false, k2)) low c hit (d, full) = (
    Changes-trans k k1 k2 role free va (va + 1 * pgsize) (va + pgsize)
        (va + pgsize + suc m * pgsize) (va + suc (suc m) * pgsize) (omega arith) (omega arith)
        (omega arith) c d,
    full,
  )
  MapsPages-suc k k1 role free m va pa perm (ok (true, k2)) low c hit (d, hits) = (
    Changes-trans k k1 k2 role free va (va + 1 * pgsize) (va + pgsize)
        (va + pgsize + suc m * pgsize) (va + suc (suc m) * pgsize) (omega arith) (omega arith)
        (omega arith) c d,
    page,
  )
    where
      page :
          (i : ℕ)
          → i < suc (suc m)
          → lookup k2.mem pagetable (va + i * pgsize)
            ≡ some (leaf_pte ((pa + i * pgsize) % 2 ^ 64) perm)
      page zero li =
          d.outside (va + 0 * pgsize) (omega arith) (inl (omega arith)) ∙ hit 0 (omega arith)
      page (suc i) li =
          let e : va + suc i * pgsize ≡ va + pgsize + i * pgsize = omega arith in
          let f : (pa + suc i * pgsize) % 2 ^ 64 ≡ ((pa + pgsize) % 2 ^ 64 + i * pgsize) % 2 ^ 64 =
            omega arith in
          rw (e, f) (hits i (omega arith))

  MapsPages-first :
      (k k1 : Kmem) (role : ℕ → Role) (free : List ℕ) (m va pa perm : ℕ)
      → MapsPages k role free 1 va pa perm (ok (false, k1))
      → MapsPages k role free (suc m) va pa perm (ok (false, k1))
  MapsPages-first k k1 role free m va pa perm (c, full) = (
    record {
      role' = c.role';
      free' = c.free';
      tables = c.tables;
      root = c.root;
      outside = λ w lw h. c.outside w lw (ground arith);
      spaces = c.spaces;
      pages = c.pages;
    },
    full,
  )

  map_loop-MapsPages :
      (m n : ℕ) (k : Kmem) (role : ℕ → Role) (free : List ℕ) (va last pa perm : ℕ)
      → Tables end k role free
      → role pagetable ≡ table 2 space
      → va % pgsize ≡ 0
      → last ≡ va + m * pgsize
      → last < maxva
      → pa < 2 ^ 64
      → m < n
      → MapsPages k role free (suc m) va pa perm (map_loop n va last pa perm pagetable k)
  unfolding map_loop walk
  map_loop-MapsPages m zero k role free va last pa perm tb root al el low fits lt =
      absurd (omega arith)
  map_loop-MapsPages zero (suc n) k role free va last pa perm tb root al el low fits lt =
      let inside : leb maxva va ≡ false = ground arith in
      let at_last : (va == last) ≡ true = ground arith in
      let r = leaf_slot va (walk_loop 2 va true (some pagetable, k)) in
      rw (inside, at_last)
        (go (map_slot pa perm r) (
          map_round k role free va pa perm tb root (omega arith) al fits
            (walk_loop 2 va true (some pagetable, k))
            (walk_loop-Walks end true 2 pagetable space va k role free tb root)))
    where
      go :
          (r : Outcome (Bool × Kmem))
          → MapsPages k role free 1 va pa perm r
          → MapsPages k role free 1 va pa perm (r >>= λ x. and_then x (λ k'. ok (true, k')))
      go panic h = h
      go (ok (false, k1)) h = h
      go (ok (true, k1)) h = h
  map_loop-MapsPages (suc m) (suc n) k role free va last pa perm tb root al el low fits lt =
      let inside : leb maxva va ≡ false = ground arith in
      let more : (va == last) ≡ false = ground arith in
      let r = leaf_slot va (walk_loop 2 va true (some pagetable, k)) in
      rw (inside, more)
        (go
          (λ k1 role1 free1 tb1 root1.
            map_loop-MapsPages m n k1 role1 free1 (va + pgsize) last ((pa + pgsize) % 2 ^ 64) perm
              tb1 root1 (omega arith) (omega arith) low (omega arith) (omega arith))
          (map_slot pa perm r)
          (map_round k role free va pa perm tb root (omega arith) al fits
            (walk_loop 2 va true (some pagetable, k))
            (walk_loop-Walks end true 2 pagetable space va k role free tb root)))
    where
      go :
          ((k1 : Kmem) (role1 : ℕ → Role) (free1 : List ℕ)
            → Tables end k1 role1 free1
            → role1 pagetable ≡ table 2 space
            → MapsPages k1 role1 free1
                (suc m)
                (va + pgsize)
                ((pa + pgsize) % 2 ^ 64)
                perm
                (map_loop n (va + pgsize) last ((pa + pgsize) % 2 ^ 64) perm pagetable k1))
          → (r : Outcome (Bool × Kmem)) → MapsPages k role free 1 va pa perm r
          → MapsPages k role free (suc (suc m)) va pa perm (
              r >>= λ x.
              and_then x
                (λ k'. map_loop n (va + pgsize) last ((pa + pgsize) % 2 ^ 64) perm pagetable k'))
      go ih panic (i, li, h) = (i, omega arith, h)
      go ih (ok (false, k1)) h = MapsPages-first k k1 role free (suc m) va pa perm h
      go ih (ok (true, k1)) (c, hit) =
          MapsPages-suc k k1 role free m va pa perm
            (map_loop n (va + pgsize) last ((pa + pgsize) % 2 ^ 64) perm pagetable k1) (omega arith)
            c hit (ih k1 c.role' c.free' c.tables c.root)

-- mappages of `n` pages, at least one, from a page-aligned `va` on, all below MAXVA, to those from
-- `pa` on, a number below 2^64, in a root page table whose tables do not overlap: either it returns 0,
-- and each of the pages is mapped to the page at its distance from `pa`, modulo 2^64, with the flags
-- and PTE_V; or it returns -1, and no frame is left; or it panics, and one of the pages was mapped
-- before. When it returns, the tables still do not overlap, every page outside the range is mapped as
-- before, so are all pages of other address spaces, and no page that is neither free nor a table has
-- changed.
pub mappages-MapsPages :
    (end pagetable space : ℕ) (k : Kmem) (role : ℕ → Role) (free : List ℕ) (n va pa perm : ℕ)
    → Tables end k role free
    → role pagetable ≡ table 2 space
    → va % pgsize ≡ 0
    → 0 < n
    → va + n * pgsize ≤ maxva
    → pa < 2 ^ 64
    → MapsPages end pagetable space k role free n va pa perm
        (mappages k pagetable va (n * pgsize) pa perm)
unfolding mappages
mappages-MapsPages end pagetable space k role free zero va pa perm tb root al pos low fits =
    absurd (omega arith)
mappages-MapsPages end pagetable space k role free (suc m) va pa perm tb root al pos low fits =
    sized (suc m * pgsize == 0) (ground arith)
      (map_loop (maxva / pgsize + 1) (pgrounddown va)
        (pgrounddown ((va + suc m * pgsize - 1) % 2 ^ 64)) pa perm pagetable k)
      (looped (maxva / pgsize + 1) (pgrounddown va)
        (pgrounddown ((va + suc m * pgsize - 1) % 2 ^ 64)) (omega arith) (omega arith)
        (omega arith))
  where
    looped :
        (fuel first last : ℕ)
        → first ≡ va
        → last ≡ va + m * pgsize
        → m < fuel
        → MapsPages end pagetable space k role free
            (suc m)
            va
            pa
            perm
            (map_loop fuel first last pa perm pagetable k)
    looped fuel first last e f lt = rw e (
        map_loop-MapsPages end pagetable space m fuel k role free va last pa perm tb root al f
          (omega arith) fits lt)

    sized :
        (empty : Bool)
        → empty ≡ false
        → (r : Outcome (Bool × Kmem))
        → MapsPages end pagetable space k role free (suc m) va pa perm r
        → MapsPages end pagetable space k role free (suc m) va pa perm (if empty then panic else r)
    sized true e r h = cc
    sized false e r h = h
