-- ===== src/Virt/Alloc.antt =====
-- Allocation of descriptors in src/kernel/virt.c.
use halo_os.Base.{
  ℕ, zero, suc, ◌+◌, ◌≤◌, ◌<◌, ◌≡◌, ◌≢◌, refl, ap, subst, Option, none, some, arith, ◌==◌,
  Bool-cases, inl, inr, ==_iff, ne_of_==,
}
use halo_os.Base.Array.{update}
use halo_os.Virt.{
  num, Disk, Three, find_free, alloc_desc, free_desc, alloc_third, alloc_second, alloc_first,
  alloc3_desc,
}

-- The flag of the descriptor says that it is free.
abbrev pub IsFree : (ℕ → ℕ) → ℕ → Type 0
IsFree free i = free i ≢ 0

-- The lowest free index from `i` on, below `i + n`, or none.
abbrev pub Lowest : (n i : ℕ) → (ℕ → ℕ) → Option ℕ → Type 0
Lowest n i free none = (j : ℕ) → i ≤ j → j < i + n → free j ≡ 0
Lowest n i free (some k) =
    (i ≤ k) × (k < i + n) × IsFree free k × ((j : ℕ) → i ≤ j → j < k → free j ≡ 0)

split_first : (free : ℕ → ℕ) (i j : ℕ) → free i ≡ 0 → i ≤ j → (i + 1 ≤ j → free j ≡ 0) → free j ≡ 0
split_first free i j z le rest = elim (Bool-cases (j == i)) [
  | inl e ↦ rw ((==_iff j i).0 e) z
  | inr ne ↦ rest (omega (arith, ne_of_== j i ne))
]

Lowest-suc :
    (n i : ℕ) (free : ℕ → ℕ) (o : Option ℕ)
    → free i ≡ 0
    → Lowest n (i + 1) free o
    → Lowest (suc n) i free o
Lowest-suc n i free none z h = λ j lo hi. split_first free i j z lo (λ le. h j le (omega arith))
Lowest-suc n i free (some k) z h =
    (omega arith, omega arith, h.2, λ j lo hi. split_first free i j z lo (λ le. h.3 j le hi))

find_free-Lowest : (n i : ℕ) (free : ℕ → ℕ) → Lowest n i free (find_free n i free)
unfolding find_free
find_free-Lowest zero i free = λ j lo hi. absurd (omega arith)
find_free-Lowest (suc n) i free = elim (Bool-cases (free i == 0)) [
  | inl z ↦ rw z (
      Lowest-suc n i free (find_free n (i + 1) free) ((==_iff (free i) 0).0 z)
        (find_free-Lowest n (i + 1) free))
  | inr nz ↦
      rw nz (omega arith, omega arith, ne_of_== (free i) 0 nz, λ j lo hi. absurd (omega arith))
]

-- The state in which descriptor `i` is taken.
abbrev pub take_desc : Disk → ℕ → Disk
take_desc d i = record d { free = update d.free i 0 }

-- alloc_desc takes the lowest free descriptor, and leaves a disk with none free as it is.
abbrev pub Allocs : Disk → Option ℕ × Disk → Type 0
Allocs d (none, e) = (e ≡ d) × ((j : ℕ) → j < num → d.free j ≡ 0)
Allocs d (some k, e) =
    (e ≡ take_desc d k) × (k < num) × IsFree d.free k × ((j : ℕ) → j < k → d.free j ≡ 0)

pub alloc_desc-Allocs : (d : Disk) → Allocs d (alloc_desc d)
unfolding alloc_desc
alloc_desc-Allocs d = go (find_free num 0 d.free) (find_free-Lowest num 0 d.free)
  where
    go :
        (o : Option ℕ)
        → Lowest num 0 d.free o
        → Allocs d (elim o [ none ↦ (none, d) | some i ↦ (some i, take_desc d i) ])
    go none h = (refl, λ j lt. h j (omega arith) (omega arith))
    go (some k) h = (refl, omega arith, h.2, λ j lt. h.3 j (omega arith) lt)

-- What alloc3_desc leaves: three different free descriptors taken and nothing else changed, or, if
-- fewer than three are free, the flags as they were.
abbrev pub Allocs3 : Disk → Option Three × Disk → Type 0
Allocs3 d (none, e) = (j : ℕ) → e.free j ≡ d.free j
Allocs3 d (some t, e) =
    (e ≡ take_desc (take_desc (take_desc d t.head) t.body) t.tail)
    × (t.head < num)
    × (t.body < num)
    × (t.tail < num)
    × (t.head ≢ t.body)
    × (t.head ≢ t.tail)
    × (t.body ≢ t.tail)
    × IsFree d.free t.head
    × IsFree d.free t.body
    × IsFree d.free t.tail

-- A flag is 0 or 1.
abbrev pub Flags : Disk → Type 0
Flags d = (j : ℕ) → d.free j ≤ 1

-- Freeing a descriptor that was taken puts its flag back.
free-free_desc :
    (d : Disk) (i j : ℕ) → i < num → d.free i ≡ 0 → (free_desc d i).free j ≡ update d.free i 1 j
unfolding free_desc
free-free_desc d i j lt z = ground arith

module _ (d : Disk) (flags : Flags d) where
  third :
      (a b : ℕ) (r : Option ℕ × Disk)
      → a < num
      → b < num
      → a ≢ b
      → IsFree d.free a
      → IsFree d.free b
      → Allocs (take_desc (take_desc d a) b) r
      → Allocs3 d (alloc_third a b r)
  unfolding alloc_third
  third a b (none, e) la lb ne fa fb (same, _) =
      λ j. rw same (unfold free_desc in ground (arith, flags a, flags b))
  third a b (some c, e) la lb ne fa fb (same, lc, fc, _) =
      let ac : a ≢ c = λ h. fc (ground arith) in
      let bc : b ≢ c = λ h. fc (ground arith) in
      (same, la, lb, lc, ne, ac, bc, fa, fb, ground arith)

  second :
      (a : ℕ) (r : Option ℕ × Disk)
      → a < num
      → IsFree d.free a
      → Allocs (take_desc d a) r
      → Allocs3 d (alloc_second a r)
  unfolding alloc_second
  second a (none, e) la fa (same, _) = λ j. rw same (unfold free_desc in ground (arith, flags a))
  second a (some b, e) la fa (same, lb, fb, _) =
      let ne : a ≢ b = λ h. fb (ground arith) in
      third a b (alloc_desc e) la lb ne fa (ground arith)
        (subst (λ x. Allocs x (alloc_desc e)) same (alloc_desc-Allocs e))

-- On a disk whose flags are 0 or 1, alloc3_desc takes three different free descriptors and changes
-- nothing else, or returns with every flag as it was.
pub alloc3_desc-Allocs3 : (d : Disk) → Flags d → Allocs3 d (alloc3_desc d)
unfolding alloc3_desc
alloc3_desc-Allocs3 d flags = first (alloc_desc d) (alloc_desc-Allocs d)
  where
    first : (r : Option ℕ × Disk) → Allocs d r → Allocs3 d (alloc_first r)
    first (none, e) (same, _) = λ j. ap (λ x. x.free j) same
    first (some a, e) (same, la, fa, _) =
        second d flags a (alloc_desc e) la fa
          (subst (λ x. Allocs x (alloc_desc e)) same (alloc_desc-Allocs e))
