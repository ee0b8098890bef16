-- ===== src/Vm/User/Sizes.antt =====
-- The sizes that uvmalloc of src/kernel/vm.c returns.
use halo_os.Base.{
  ℕ, zero, suc, ◌+◌, ◌/◌, ◌≤◌, ◌<◌, ◌≡◌, refl, Bool, true, false, ◌⊎◌, inl, inr, ltb, ◌==◌,
  if◌then◌else◌, arith, Bool-cases,
}
use halo_os.Base.Outcome.{Outcome, ok, panic, ◌>>=◌}
use halo_os.Vm.Kmem.{Kmem, pgsize, pgroundup, fill, kalloc, kfree}
use halo_os.Vm.Pagetable.{mappages}
use halo_os.Vm.User.{uvmdealloc, undo, alloc_next, uvmalloc_loop, uvmalloc, user_rwx}

-- The new size, or 0.
abbrev pub Sizes : (newsz : ℕ) → Outcome (ℕ × Kmem) → Type 0
Sizes newsz panic = Unit
Sizes newsz (ok (n, k)) = (n ≡ newsz) ⊎ (n ≡ 0)

module _ (end pagetable oldsz newsz : ℕ) where
  undo-Sizes : (a : ℕ) (k : Kmem) → Sizes newsz (undo end pagetable a oldsz k)
  unfolding undo
  undo-Sizes a k = go (uvmdealloc end k pagetable a oldsz)
    where
      go : (r : Outcome (ℕ × Kmem)) → Sizes newsz (r >>= λ (n, k'). ok (0, k'))
      go panic = tt
      go (ok (n, k')) = inr refl

  next-Sizes :
      (a r : ℕ) (next : Kmem → Outcome (ℕ × Kmem)) (m : Outcome (Bool × Kmem))
      → ((k : Kmem) → Sizes newsz (next k))
      → Sizes newsz (m >>= alloc_next end pagetable a oldsz r next)
  unfolding alloc_next
  next-Sizes a r next panic ih = tt
  next-Sizes a r next (ok (true, k)) ih = ih k
  next-Sizes a r next (ok (false, k)) ih = go (kfree end k r)
    where
      go : (f : Outcome Kmem) → Sizes newsz (f >>= undo end pagetable a oldsz)
      go panic = tt
      go (ok k') = undo-Sizes a k'

  uvmalloc_loop-Sizes :
      (n a : ℕ) (k : Kmem) → Sizes newsz (uvmalloc_loop end pagetable oldsz newsz n a k)
  unfolding uvmalloc_loop
  uvmalloc_loop-Sizes zero a k = inl refl
  uvmalloc_loop-Sizes (suc n) a k = elim (Bool-cases (ltb a newsz)) [
    | inr over ↦ rw over (inl refl)
    | inl more ↦ rw more (go (kalloc k) (λ k2. uvmalloc_loop-Sizes n (a + pgsize) k2))
  ]
    where
      go :
          (r : ℕ × Kmem)
          → ((k2 : Kmem) → Sizes newsz (uvmalloc_loop end pagetable oldsz newsz n (a + pgsize) k2))
          → Sizes newsz (
              if r.0 == 0
              then undo end pagetable a oldsz r.1
              else mappages
                  (record (r.1) { mem = fill (r.1.mem) r.0 0 })
                  pagetable
                  a
                  pgsize
                  r.0
                  user_rwx
                >>= alloc_next end pagetable a oldsz r.0
                    (uvmalloc_loop end pagetable oldsz newsz n (a + pgsize)))
      go (r, k1) ih = elim (Bool-cases (r == 0)) [
        | inl y ↦ rw y (undo-Sizes a k1)
        | inr z ↦ rw z (
            next-Sizes a r (uvmalloc_loop end pagetable oldsz newsz n (a + pgsize))
              (mappages (record k1 { mem = fill k1.mem r 0 }) pagetable a pgsize r user_rwx) ih)
      ]

pub uvmalloc-Sizes :
    (end : ℕ) (k : Kmem) (pagetable oldsz newsz : ℕ)
    → oldsz ≤ newsz
    → Sizes newsz (uvmalloc end k pagetable oldsz newsz)
unfolding uvmalloc
uvmalloc-Sizes end k pagetable oldsz newsz le =
    let grows : ltb newsz oldsz ≡ false = ground arith in
    rw grows (
      uvmalloc_loop-Sizes end pagetable (pgroundup oldsz) newsz (newsz / pgsize + 1)
        (pgroundup oldsz) k)

pub uvmalloc-smaller :
    (end : ℕ) (k : Kmem) (pagetable oldsz newsz : ℕ)
    → newsz < oldsz
    → uvmalloc end k pagetable oldsz newsz ≡ ok (oldsz, k)
unfolding uvmalloc
uvmalloc-smaller end k pagetable oldsz newsz lt =
    let shrinks : ltb newsz oldsz ≡ true = ground arith in rw shrinks refl
