-- ===== src/Vm/Kmem/Range.antt =====
-- freerange of src/kernel/vm.c, as kinit calls it: every frame of memory becomes free.
use halo_os.Base.{
  ℕ, zero, suc, ◌+◌, ◌-◌, ◌*◌, ◌/◌, ◌%◌, ◌≤◌, ◌<◌, ◌≡◌, refl, true, false, leb, arith, List, [],
  ◌∷◌, length, Bool-cases, inl, inr,
}
use halo_os.Base.Outcome.{Outcome, ok, panic}
use halo_os.Vm.Kmem.{Kmem, pgsize, phystop, pgroundup, free_pages, freerange}
use halo_os.Vm.Kmem.FreeList.{IsFrame, NotIn, FreeList, kfree-FreeList}

abbrev AllBelow : ℕ → List ℕ → Type 0
AllBelow p [] = Unit
AllBelow p (x ∷ xs) = (x < p) × AllBelow p xs

AllBelow-NotIn : (p : ℕ) (xs : List ℕ) → AllBelow p xs → NotIn p xs
AllBelow-NotIn p [] h = tt
AllBelow-NotIn p (x ∷ xs) h = (omega arith, AllBelow-NotIn p xs h.1)

AllBelow-mono : (p q : ℕ) (xs : List ℕ) → p ≤ q → AllBelow p xs → AllBelow q xs
AllBelow-mono p q [] le h = tt
AllBelow-mono p q (x ∷ xs) le h = (omega arith, AllBelow-mono p q xs le h.1)

-- A free list of `count` frames more than `xs`.
abbrev Freed : (end : ℕ) → List ℕ → (count : ℕ) → Outcome Kmem → Type 0
Freed end xs count panic = ⊥
Freed end xs count (ok k) = (ys : List ℕ) × FreeList end k ys × (length ys ≡ length xs + count)

leb-true : (a b : ℕ) → a ≤ b → leb a b ≡ true
leb-true a b h = ground arith

leb-false : (a b : ℕ) → b < a → leb a b ≡ false
leb-false a b h = ground arith

module _ (end : ℕ) (pos : 0 < end) where
  free_pages-Freed :
      (n p : ℕ) (k : Kmem) (xs : List ℕ)
      → p % pgsize ≡ 0
      → end ≤ p
      → phystop - p ≤ n * pgsize
      → AllBelow p xs
      → FreeList end k xs
      → Freed end xs ((phystop - p) / pgsize) (free_pages end n p phystop k)
  unfolding free_pages
  free_pages-Freed zero p k xs al le bound below c = (xs, c, omega arith)
  free_pages-Freed (suc n) p k xs al le bound below c =
      elim (Bool-cases (leb (p + pgsize) phystop)) [
        | inr out ↦ rw out (xs, c, ground arith)
        | inl fits ↦
            let f : IsFrame end p = (al, le, ground arith) in
            let (k', e, c', _) = kfree-FreeList end k p xs pos f (AllBelow-NotIn p xs below) c in
            rw (fits, e)
              (go (free_pages end n (p + pgsize) phystop k')
                (free_pages-Freed n (p + pgsize) k' (p ∷ xs) (omega arith) (omega arith)
                  (omega arith) (omega arith, AllBelow-mono p (p + pgsize) xs (omega arith) below)
                  c')
                (ground arith))
      ]
    where
      go :
          (r : Outcome Kmem)
          → Freed end (p ∷ xs) ((phystop - (p + pgsize)) / pgsize) r
          → p + pgsize ≤ phystop
          → Freed end xs ((phystop - p) / pgsize) r
      go panic h lt = h
      go (ok k2) (ys, c, e) lt = (ys, c, omega arith)

-- freerange(end, PHYSTOP), from an empty free list, does not panic and leaves as many different free
-- frames as there are whole pages from `end` up to PHYSTOP.
pub freerange-all :
    (end : ℕ) (k : Kmem)
    → 0 < end
    → end ≤ phystop
    → k.freelist ≡ 0
    → (k' : Kmem) × (xs : List ℕ) × (freerange end end phystop k ≡ ok k')
      × FreeList end k' xs
      × (length xs ≡ (phystop - pgroundup end) / pgsize)
unfolding freerange
freerange-all end k pos le empty =
    go (free_pages end (phystop / pgsize) (pgroundup end) phystop k) (
      free_pages-Freed end pos (phystop / pgsize) (pgroundup end) k [] (omega arith) (omega arith)
        (omega arith) tt empty)
  where
    go :
        (r : Outcome Kmem)
        → Freed end [] ((phystop - pgroundup end) / pgsize) r
        → (k' : Kmem) × (xs : List ℕ) × (r ≡ ok k')
          × FreeList end k' xs
          × (length xs ≡ (phystop - pgroundup end) / pgsize)
    go panic h = absurd h
    go (ok k') (ys, c, e) = (k', ys, refl, c, omega arith)
