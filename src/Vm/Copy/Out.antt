-- ===== src/Vm/Copy/Out.antt =====
-- copyoutpg of src/kernel/spaceswap.c puts each byte where the page table says.
use halo_os.Base.{
  ℕ, zero, suc, ◌+◌, ◌-◌, ◌/◌, ◌%◌, ◌≤◌, ◌<◌, ◌≡◌, ◌≢◌, refl, sym, ap, ◌∙◌, Bool, true, false, ◌⊎◌,
  inl, inr, ltb, leb, ◌==◌, if◌then◌else◌, arith, Bool-cases, min,
}
use halo_os.Base.Memory.{Mem}
use halo_os.Base.Outcome.{Outcome, ok, panic}
use halo_os.Util.{memmove}
use halo_os.Util.Move.{inside, memmove-copies}
use halo_os.Vm.Kmem.{Kmem, pgsize, pgrounddown}
use halo_os.Vm.Pagetable.{walkaddr}
use halo_os.Vm.Copy.{copyout_loop, copyoutpg}

-- Where the byte at a virtual address is, if `page` gives the physical pages.
abbrev pub phys : (page : ℕ → ℕ) → ℕ → ℕ
phys page va = page (va / pgsize) + va % pgsize

-- The user pages that hold the `len` bytes from `va` on are mapped to different physical pages, none
-- of which is page 0, or holds a byte of the `len` bytes from `src` on.
pub record Target (k : Kmem) (pagetable : ℕ) (page : ℕ → ℕ) (va src len : ℕ) : Type 0 where
  pub mapped :
      (a : ℕ)
      → va ≤ a
      → a < va + len
      → walkaddr k pagetable (pgrounddown a) ≡ ok (page (a / pgsize))
  pub not_null : (a : ℕ) → va ≤ a → a < va + len → page (a / pgsize) ≢ 0
  pub aligned : (a : ℕ) → page a % pgsize ≡ 0
  pub different :
      (a b : ℕ)
      → va ≤ a
      → a < va + len
      → va ≤ b
      → b < va + len
      → page (a / pgsize) ≡ page (b / pgsize)
      → a / pgsize ≡ b / pgsize
  pub apart : (a i : ℕ) → va ≤ a → a < va + len → i < len → phys page a ≢ src + i

-- What copyoutpg must leave: each byte of the source at its place, and every other byte as it was.
abbrev pub Delivers : (page : ℕ → ℕ) → (va src len : ℕ) → Mem → Outcome (Bool × Mem) → Type 0
Delivers page va src len m panic = ⊥
Delivers page va src len m (ok (done, m')) =
    (done ≡ true)
    × ((i : ℕ) → i < len → m' (phys page (va + i)) ≡ m (src + i))
    × ((a : ℕ) → ((i : ℕ) → i < len → a ≢ phys page (va + i)) → m' a ≡ m a)

Target-rest :
    (k : Kmem) (pagetable : ℕ) (page : ℕ → ℕ) (va src len n : ℕ)
    → n ≤ len
    → Target k pagetable page va src len
    → Target k pagetable page (va + n) (src + n) (len - n)
Target-rest k pagetable page va src len n le t = record {
  mapped = λ a lo hi. t.mapped a (omega arith) (omega arith);
  not_null = λ a lo hi. t.not_null a (omega arith) (omega arith);
  aligned = t.aligned;
  different = λ a b lo hi lo' hi' e.
      t.different a b (omega arith) (omega arith) (omega arith) (omega arith) e;
  apart = λ a i lo hi li e.
      t.apart a (n + i) (omega arith) (omega arith) (omega arith) (omega (arith, e));
}

module _ (k : Kmem) (pagetable : ℕ) (page : ℕ → ℕ) where
  phys_inj :
      (va src len x y : ℕ)
      → Target k pagetable page va src len
      → va ≤ x
      → x < va + len
      → va ≤ y
      → y < va + len
      → phys page x ≡ phys page y
      → x ≡ y
  phys_inj va src len x y t lx hx ly hy e =
      let p : page (x / pgsize) ≡ page (y / pgsize) =
        omega (arith, t.aligned (x / pgsize), t.aligned (y / pgsize), e) in
      let q = t.different x y lx hx ly hy p in omega (arith, e, p, q)

  phys_same :
      (va n i : ℕ)
      → va % pgsize + n ≤ pgsize
      → i < n
      → phys page (va + i) ≡ page (va / pgsize) + va % pgsize + i
  phys_same va n i fit li =
      let q : (va + i) / pgsize ≡ va / pgsize = omega arith in omega (arith, ap page q)

  -- The first `n` bytes, which lie in one page, and then the others.
  Delivers-rest :
      (va src len n : ℕ) (m : Mem) (r : Outcome (Bool × Mem))
      → n ≤ len
      → va % pgsize + n ≤ pgsize
      → Target k pagetable page va src len
      → Delivers page
          (va + n)
          (src + n)
          (len - n)
          (memmove m (page (va / pgsize) + va % pgsize) src n)
          r
      → Delivers page va src len m r
  Delivers-rest va src len n m panic le fit t h = h
  Delivers-rest va src len n m (ok (done, m')) le fit t (d, here, there) = (d, bytes, others)
    where
      moved :
          (a : ℕ)
          → memmove m (page (va / pgsize) + va % pgsize) src n a ≡ (
              if inside (page (va / pgsize) + va % pgsize) n a
              then m (src + (a - (page (va / pgsize) + va % pgsize)))
              else m a)
      moved a = memmove-copies m (page (va / pgsize) + va % pgsize) src n a

      kept :
          (a : ℕ)
          → ((i : ℕ) → i < n → a ≢ phys page (va + i))
          → memmove m (page (va / pgsize) + va % pgsize) src n a ≡ m a
      kept a h =
          let out : inside (page (va / pgsize) + va % pgsize) n a ≡ false =
            elim (Bool-cases (inside (page (va / pgsize) + va % pgsize) n a)) [
              | inl yes_in ↦
                  let j = a - (page (va / pgsize) + va % pgsize) in
                  let lj : j < n = ground arith in
                  let ge : page (va / pgsize) + va % pgsize ≤ a = ground arith in
                  absurd (h j lj (omega (arith, phys_same va n j fit lj)))
              | inr no_in ↦ no_in
            ] in
          moved a ∙ rw out refl

      bytes : (i : ℕ) → i < len → m' (phys page (va + i)) ≡ m (src + i)
      bytes i li = elim (Bool-cases (ltb i n)) [
        | inl lt ↦
            let li' : i < n = ground arith in
            let e = phys_same va n i fit li' in
            let hit : inside (page (va / pgsize) + va % pgsize) n (phys page (va + i)) ≡ true =
              rw e (ground arith) in
            let back : src + (phys page (va + i) - (page (va / pgsize) + va % pgsize)) ≡ src + i =
              omega (arith, e) in
            there (phys page (va + i)) (λ j lj x. absurd (
              omega (
                arith,
                phys_inj va src len (va + i) (va + n + j) t (omega arith) (omega arith)
                    (omega arith) (omega arith) x,
              )))
            ∙ moved (phys page (va + i))
            ∙ rw hit (ap m back)
        | inr ge ↦
            let le' : n ≤ i = ground arith in
            let e : va + n + (i - n) ≡ va + i = omega arith in
            let f : src + n + (i - n) ≡ src + i = omega arith in
            ap (λ x. m' (phys page x)) (sym e)
            ∙ here (i - n) (omega arith)
            ∙ kept (src + n + (i - n))
                (λ j lj x. t.apart (va + j) i (omega arith) (omega arith) li (sym x ∙ f))
            ∙ ap m f
      ]

      others : (a : ℕ) → ((i : ℕ) → i < len → a ≢ phys page (va + i)) → m' a ≡ m a
      others a h =
          there a (λ j lj x. h (n + j) (omega arith) (x ∙ ap (phys page) (omega arith)))
          ∙ kept a (λ j lj. h j (omega arith))

  copyout_loop-empty :
      (fuel va src : ℕ) (m : Mem) → copyout_loop fuel k pagetable va src 0 m ≡ ok (true, m)
  unfolding copyout_loop
  copyout_loop-empty zero va src m = refl
  copyout_loop-empty (suc fuel) va src m = refl

  -- A round that copies `n` bytes, all that are left or all up to the end of the page.
  round-Delivers :
      (fuel va va' o src len n : ℕ) (m : Mem)
      → Target k pagetable page va src len
      → n ≤ len
      → va % pgsize + n ≤ pgsize
      → o ≡ va % pgsize
      → (n ≡ len) ⊎ (va' ≡ va + n)
      → (Target k pagetable page (va + n) (src + n) (len - n)
          → Delivers page
              (va + n)
              (src + n)
              (len - n)
              (memmove m (page (va / pgsize) + va % pgsize) src n)
              (copyout_loop fuel k pagetable
                (va + n)
                (src + n)
                (len - n)
                (memmove m (page (va / pgsize) + va % pgsize) src n)))
      → Delivers page va src len m (
          copyout_loop fuel k pagetable va'
            (src + n)
            (len - n)
            (memmove m (page (va / pgsize) + o) src n))
  round-Delivers fuel va va' o src len n m t le fit eo (inl all) ih =
      let z : len - n ≡ 0 = omega arith in
      rw (eo, z, copyout_loop-empty)
        (Delivers-rest va src len n m
          (ok (true, memmove m (page (va / pgsize) + va % pgsize) src n)) le fit t
          (refl, λ i li. absurd (omega arith), λ a h. refl))
  round-Delivers fuel va va' o src len n m t le fit eo (inr next) ih =
      rw (eo, next)
        (Delivers-rest va src len n m
          (copyout_loop fuel k pagetable (va + n) (src + n) (len - n)
            (memmove m (page (va / pgsize) + va % pgsize) src n))
          le fit t (ih (Target-rest k pagetable page va src len n le t)))

  copyout_loop-Delivers :
      (fuel va src len : ℕ) (m : Mem)
      → len ≤ fuel
      → Target k pagetable page va src len
      → Delivers page va src len m (copyout_loop fuel k pagetable va src len m)
  unfolding copyout_loop
  copyout_loop-Delivers zero va src len m le t = (refl, λ i li. absurd (omega arith), λ a h. refl)
  copyout_loop-Delivers (suc fuel) va src len m le t = elim (Bool-cases (len == 0)) [
    | inl empty ↦ rw empty (refl, λ i li. absurd (ground arith), λ a h. refl)
    | inr some_left ↦
        let pos : 0 < len = ground arith in
        let n = min (pgsize - (va - pgrounddown va)) len in
        let pa = t.mapped va (omega arith) (omega arith) in
        let nz : (page (va / pgsize) == 0) ≡ false =
          ground (arith, t.not_null va (omega arith) (omega arith)) in
        let ends : (n ≡ len) ⊎ (pgrounddown va + pgsize ≡ va + n) =
          elim (Bool-cases (leb len (pgsize - (va - pgrounddown va)))) [
            | inl all ↦ inl (ground arith)
            | inr more ↦ inr (ground arith)
          ] in
        rw (some_left, pa, nz)
          (round-Delivers fuel va (pgrounddown va + pgsize) (va - pgrounddown va) src len n m t
            (omega arith) (omega arith) (omega arith) ends
            (copyout_loop-Delivers fuel (va + n) (src + n) (len - n)
              (memmove m (page (va / pgsize) + va % pgsize) src n) (omega arith)))
  ]

-- copyoutpg of `len` bytes to user pages that are mapped to different physical pages, apart from the
-- source, returns 0: byte `i` of the source stands where the page table maps address `va + i`, across
-- page boundaries too, and no other byte of memory changes.
pub copyoutpg-Delivers :
    (k : Kmem) (pagetable : ℕ) (page : ℕ → ℕ) (va src len : ℕ) (m : Mem)
    → Target k pagetable page va src len
    → Delivers page va src len m (copyoutpg k pagetable va src len m)
unfolding copyoutpg
copyoutpg-Delivers k pagetable page va src len m t =
    copyout_loop-Delivers k pagetable page len va src len m (omega arith) t
