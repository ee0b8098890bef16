-- ===== src/Vm/Kmem/FreeList.antt =====
-- The free list of src/kernel/vm.c stands for a list of different page frames.
use halo_os.Base.{
  ℕ, ◌+◌, ◌%◌, ◌≤◌, ◌<◌, ◌≡◌, ◌≢◌, refl, sym, ap, subst, false, ◌&&◌, ltb, leb, ◌==◌, arith, List,
  [], ◌∷◌,
}
use halo_os.Base.Array.{update}
use halo_os.Base.Outcome.{ok}
use halo_os.Vm.Kmem.{Kmem, pgsize, phystop, fill, junk, kfree, kalloc}

-- A page-aligned address from `end` up to PHYSTOP.
abbrev pub IsFrame : (end p : ℕ) → Type 0
IsFrame end p = (p % pgsize ≡ 0) × (end ≤ p) × (p < phystop)

abbrev pub NotIn : ℕ → List ℕ → Type 0
NotIn p [] = Unit
NotIn p (x ∷ xs) = (p ≢ x) × NotIn p xs

-- From `p` the first words of the frames lead through `xs`, which are all different, to null.
abbrev pub Chain : (end : ℕ) → (ℕ → ℕ) → (p : ℕ) → List ℕ → Type 0
Chain end mem p [] = p ≡ 0
Chain end mem p (x ∷ xs) = (p ≡ x) × (x ≢ 0) × IsFrame end x × NotIn x xs × Chain end mem (mem x) xs

abbrev pub FreeList : (end : ℕ) → Kmem → List ℕ → Type 0
FreeList end k xs = Chain end k.mem k.freelist xs

-- A change inside the page of a frame that is not in the chain leaves the chain.
pub Chain-outside :
    (end : ℕ) (m m' : ℕ → ℕ) (pa p : ℕ) (xs : List ℕ)
    → pa % pgsize ≡ 0
    → ((a : ℕ) → (leb pa a && ltb a (pa + pgsize)) ≡ false → m' a ≡ m a)
    → NotIn pa xs
    → Chain end m p xs
    → Chain end m' p xs
Chain-outside end m m' pa p [] al same out c = c
Chain-outside end m m' pa p (x ∷ xs) al same out c =
    let e : m' x ≡ m x = same x (ground arith) in
    (
      c.0,
      c.1,
      c.2,
      c.3,
      subst (λ q. Chain end m' q xs) (sym e) (Chain-outside end m m' pa (m x) xs al same out.1 c.4),
    )

-- kfree of a frame that is not free puts it at the front of the free list and writes only inside its
-- page.
pub kfree-FreeList :
    (end : ℕ) (k : Kmem) (pa : ℕ) (xs : List ℕ)
    → 0 < end
    → IsFrame end pa
    → NotIn pa xs
    → FreeList end k xs
    → (k' : Kmem) × (kfree end k pa ≡ ok k')
      × FreeList end k' (pa ∷ xs)
      × ((a : ℕ) → (leb pa a && ltb a (pa + pgsize)) ≡ false → k'.mem a ≡ k.mem a)
unfolding kfree
kfree-FreeList end k pa xs pos f out c =
    let m' = update (fill k.mem pa (junk 1)) pa k.freelist in
    let same : (a : ℕ) → (leb pa a && ltb a (pa + pgsize)) ≡ false → m' a ≡ k.mem a =
      λ a h. ground arith in
    let head : m' pa ≡ k.freelist = ground arith in
    (
      record { mem = m'; freelist = pa },
      ground arith,
      (
        refl,
        omega arith,
        f,
        out,
        subst (λ q. Chain end m' q xs) (sym head)
            (Chain-outside end k.mem m' pa k.freelist xs (f.0) same out c),
      ),
      same,
    )

-- What kalloc returns on the free list of `xs`: null and the same state if there is none, and
-- otherwise the first frame, which is no longer free, with writes only inside its page.
abbrev pub Allocs : (end : ℕ) → Kmem → List ℕ → ℕ × Kmem → Type 0
Allocs end k [] (r, k') = (r ≡ 0) × (k' ≡ k)
Allocs end k (x ∷ xs) (r, k') =
    (r ≡ x)
    × IsFrame end r
    × NotIn r xs
    × FreeList end k' xs
    × ((a : ℕ) → (leb r a && ltb a (r + pgsize)) ≡ false → k'.mem a ≡ k.mem a)

-- kalloc takes the first frame of the free list and leaves the list of the others; with no free
-- frame it returns null. Apart from the page that it returns, memory does not change.
pub kalloc-Allocs :
    (end : ℕ) (k : Kmem) (xs : List ℕ) → FreeList end k xs → Allocs end k xs (kalloc k)
unfolding kalloc
kalloc-Allocs end k [] c = (c, rw c)
kalloc-Allocs end k (x ∷ xs) (e, ne, f, out, c) =
    let z : (k.freelist == 0) ≡ false = ground arith in
    let m' = fill k.mem k.freelist (junk 5) in
    let same : (a : ℕ)
        → (leb k.freelist a && ltb a (k.freelist + pgsize)) ≡ false
        → m' a ≡ k.mem a =
      λ a h. rw h in
    let f' : IsFrame end k.freelist = subst (IsFrame end) (sym e) f in
    let out' : NotIn k.freelist xs = subst (λ q. NotIn q xs) (sym e) out in
    rw z (
      e,
      f',
      out',
      Chain-outside end k.mem m' k.freelist (k.mem k.freelist) xs f'.0 same out'
          (subst (λ q. Chain end k.mem q xs) (ap k.mem (sym e)) c),
      same,
    )
