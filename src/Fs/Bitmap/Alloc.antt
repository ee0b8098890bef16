-- ===== src/Fs/Bitmap/Alloc.antt =====
-- The blocks that balloc and bfree of src/kernel/fs.c mark.
use halo_os.Base.{
  ℕ, zero, suc, ◌+◌, ◌-◌, ◌*◌, ◌/◌, ◌%◌, ◌≤◌, ◌<◌, ◌≡◌, refl, sym, ap, ap₂, ◌∙◌, subst, Bool, true,
  false, not, ◌&&◌, ◌||◌, Option, none, some, arith, ltb, ◌==◌, Bool-cases, inl, inr, ==_iff,
  ne_of_==, ==_refl, ltb→lt, ltb→le,
}
use halo_os.Base.Array.{update}
use halo_os.Base.Bits.{test_bit, test_bit-set, test_bit-clear, set-clear-lt}
use halo_os.Base.Outcome.{Outcome, ok, panic}
use halo_os.Fs.Layout.{Superblock, Blocks, bpb, bmap_block}
use halo_os.Fs.Bitmap.{bit_clear, set_bit, clear_bit, find_clear, balloc_loop, balloc, bfree}

-- The bitmap marks block `j` as used.
abbrev pub used : Superblock → Blocks → ℕ → Bool
used sb d j = not (bit_clear (d (bmap_block sb j)) (j % bpb))

-- Every entry of a block is a byte.
abbrev pub Bytes : Blocks → Type 0
Bytes d = (n i : ℕ) → d n i < 256

pub bit_clear-set_bit :
    (bytes : ℕ → ℕ) (i j : ℕ)
    → ((a : ℕ) → bytes a < 256)
    → not (bit_clear (set_bit bytes i) j) ≡ ((i == j) || not (bit_clear bytes j))
bit_clear-set_bit bytes i j h = elim (Bool-cases (j / 8 == i / 8)) [
  | inl e ↦
      let eq = (==_iff (j / 8) (i / 8)).0 e in
      let b : (i % 8 == j % 8) ≡ (i == j) = ground arith in
      rw e (
        test_bit-set (bytes (i / 8)) (i % 8) (j % 8) (h (i / 8)) (omega arith) (omega arith)
        ∙ ap₂ (λ a x. a || test_bit (bytes x) (j % 8)) b (sym eq))
  | inr ne ↦ let b : (i == j) ≡ false = ground arith in rw (ne, b)
]

bit_clear-clear_bit :
    (bytes : ℕ → ℕ) (i j : ℕ)
    → ((a : ℕ) → bytes a < 256)
    → not (bit_clear (clear_bit bytes i) j) ≡ (not (i == j) && not (bit_clear bytes j))
bit_clear-clear_bit bytes i j h = elim (Bool-cases (j / 8 == i / 8)) [
  | inl e ↦
      let eq = (==_iff (j / 8) (i / 8)).0 e in
      let b : (i % 8 == j % 8) ≡ (i == j) = ground arith in
      rw e (
        test_bit-clear (bytes (i / 8)) (i % 8) (j % 8) (h (i / 8)) (omega arith) (omega arith)
        ∙ ap₂ (λ a x. not a && test_bit (bytes x) (j % 8)) b (sym eq))
  | inr ne ↦ let b : (i == j) ≡ false = ground arith in rw (ne, b)
]

-- The blocks with the bit of block `n` set, or cleared.
abbrev pub marked : Superblock → Blocks → ℕ → Blocks
marked sb d n = update d (bmap_block sb n) (set_bit (d (bmap_block sb n)) (n % bpb))

abbrev pub unmarked : Superblock → Blocks → ℕ → Blocks
unmarked sb d n = update d (bmap_block sb n) (clear_bit (d (bmap_block sb n)) (n % bpb))

used-marked :
    (sb : Superblock) (d : Blocks) (n j : ℕ)
    → Bytes d
    → used sb (marked sb d n) j ≡ ((n == j) || used sb d j)
used-marked sb d n j h = elim (Bool-cases (bmap_block sb j == bmap_block sb n)) [
  | inl e ↦
      let eq : bmap_block sb j ≡ bmap_block sb n = (==_iff _ _).0 e in
      let b : (n % bpb == j % bpb) ≡ (n == j) = ground arith in
      rw e (
        bit_clear-set_bit (d (bmap_block sb n)) (n % bpb) (j % bpb) (h (bmap_block sb n))
        ∙ ap₂ (λ a x. a || not (bit_clear (d x) (j % bpb))) b (sym eq))
  | inr ne ↦ let b : (n == j) ≡ false = ground arith in rw (ne, b)
]

used-unmarked :
    (sb : Superblock) (d : Blocks) (n j : ℕ)
    → Bytes d
    → used sb (unmarked sb d n) j ≡ (not (n == j) && used sb d j)
used-unmarked sb d n j h = elim (Bool-cases (bmap_block sb j == bmap_block sb n)) [
  | inl e ↦
      let eq : bmap_block sb j ≡ bmap_block sb n = (==_iff _ _).0 e in
      let b : (n % bpb == j % bpb) ≡ (n == j) = ground arith in
      rw e (
        bit_clear-clear_bit (d (bmap_block sb n)) (n % bpb) (j % bpb) (h (bmap_block sb n))
        ∙ ap₂ (λ a x. not a && not (bit_clear (d x) (j % bpb))) b (sym eq))
  | inr ne ↦ let b : (n == j) ≡ false = ground arith in rw (ne, b)
]

-- The lowest clear bit from `bi` on, below `bi + n` and below the file system's size, or none.
abbrev Finds : (n bi b size : ℕ) → (ℕ → ℕ) → Option ℕ → Type 0
Finds n bi b size bytes none =
    (i : ℕ) → bi ≤ i → i < bi + n → b + i < size → bit_clear bytes i ≡ false
Finds n bi b size bytes (some k) =
    (bi ≤ k)
    × (k < bi + n)
    × (b + k < size)
    × (bit_clear bytes k ≡ true)
    × ((i : ℕ) → bi ≤ i → i < k → bit_clear bytes i ≡ false)

split_first :
    (bytes : ℕ → ℕ) (i j : ℕ)
    → bit_clear bytes i ≡ false
    → i ≤ j
    → (i + 1 ≤ j → bit_clear bytes j ≡ false)
    → bit_clear bytes j ≡ false
split_first bytes i j z le rest = elim (Bool-cases (j == i)) [
  | inl e ↦ rw ((==_iff j i).0 e) z
  | inr ne ↦ rest (omega (arith, ne_of_== j i ne))
]

Finds-suc :
    (n bi b size : ℕ) (bytes : ℕ → ℕ) (o : Option ℕ)
    → bit_clear bytes bi ≡ false
    → Finds n (bi + 1) b size bytes o
    → Finds (suc n) bi b size bytes o
Finds-suc n bi b size bytes none z h =
    λ i lo hi lt. split_first bytes bi i z lo (λ le. h i le (omega arith) lt)
Finds-suc n bi b size bytes (some k) z h =
    (omega arith, omega arith, h.2, h.3, λ i lo hi. split_first bytes bi i z lo (λ le. h.4 i le hi))

find_clear-Finds :
    (n bi b size : ℕ) (bytes : ℕ → ℕ) → Finds n bi b size bytes (find_clear n bi b size bytes)
unfolding find_clear
find_clear-Finds zero bi b size bytes = λ i lo hi lt. absurd (omega arith)
find_clear-Finds (suc n) bi b size bytes = elim (Bool-cases (ltb (b + bi) size)) [
  | inr out ↦ let le = ltb→le (b + bi) size out in rw out (λ i lo hi lt. absurd (omega arith))
  | inl in_size ↦ elim (Bool-cases (bit_clear bytes bi)) [
    | inl z ↦
        rw (in_size, z)
          (omega arith, omega arith, ltb→lt _ _ in_size, z, λ i lo hi. absurd (omega arith))
    | inr nz ↦
        rw (in_size, nz)
          (Finds-suc n bi b size bytes (find_clear n (bi + 1) b size bytes) nz
            (find_clear-Finds n (bi + 1) b size bytes))
  ]
]

-- What balloc returns: the lowest unused block below the size, marked, or a panic with all used.
abbrev pub Allocates : Superblock → Blocks → Outcome (ℕ × Blocks) → Type 0
Allocates sb d panic = (j : ℕ) → j < sb.size → used sb d j ≡ true
Allocates sb d (ok (n, e)) =
    (n < sb.size)
    × (used sb d n ≡ false)
    × ((j : ℕ) → j < n → used sb d j ≡ true)
    × (e ≡ marked sb d n)

module _ (sb : Superblock) (d : Blocks) where
  -- All blocks below `b` that exist are used.
  abbrev UsedBelow : ℕ → Type 0
  UsedBelow b = (j : ℕ) → j < b → j < sb.size → used sb d j ≡ true

  -- A bit of the bitmap block of `b` is that of a block from `b` on.
  used-offset :
      (b i : ℕ)
      → b % bpb ≡ 0
      → i < bpb
      → used sb d (b + i) ≡ not (bit_clear (d (bmap_block sb b)) i)
  used-offset b i h lt =
      let e : bmap_block sb (b + i) ≡ bmap_block sb b = omega arith in
      let f : (b + i) % bpb ≡ i = omega arith in ap₂ (λ x y. not (bit_clear (d x) y)) e f

  used_upto :
      (b i : ℕ)
      → b % bpb ≡ 0
      → i ≤ bpb
      → UsedBelow b
      → ((k : ℕ) → k < i → b + k < sb.size → bit_clear (d (bmap_block sb b)) k ≡ false)
      → UsedBelow (b + i)
  used_upto b i h le below set j lt in_size = elim (Bool-cases (ltb j b)) [
    | inl l ↦ below j (ltb→lt j b l) in_size
    | inr ge ↦
        let k = j - b in
        let e : b + k ≡ j = omega (arith, ltb→le j b ge) in
        ap (used sb d) (sym e)
        ∙ used-offset b k h (omega arith)
        ∙ ap not (set k (omega arith) (omega arith))
  ]

  balloc_loop-Allocates :
      (k b : ℕ)
      → b % bpb ≡ 0
      → sb.size ≤ b + k * bpb
      → UsedBelow b
      → Allocates sb d (balloc_loop k b sb d)
  unfolding balloc_loop
  balloc_loop-Allocates zero b h le below = λ j lt. below j (omega arith) lt
  balloc_loop-Allocates (suc k) b h le below = elim (Bool-cases (ltb b sb.size)) [
    | inr out ↦ let ge = ltb→le b sb.size out in rw out (λ j lt. below j (omega arith) lt)
    | inl in_size ↦ rw in_size (
        go (λ upto. balloc_loop-Allocates k (b + bpb) (omega arith) (omega arith) upto)
          (find_clear bpb 0 b sb.size (d (bmap_block sb b)))
          (find_clear-Finds bpb 0 b sb.size (d (bmap_block sb b))))
  ]
    where
      go :
          (UsedBelow (b + bpb) → Allocates sb d (balloc_loop k (b + bpb) sb d))
          → (o : Option ℕ) → Finds bpb 0 b sb.size (d (bmap_block sb b)) o
          → Allocates sb d (elim o [
            | some bi ↦ ok (b + bi, update d (bmap_block sb b) (set_bit (d (bmap_block sb b)) bi))
            | none ↦ balloc_loop k (b + bpb) sb d
          ])
      go rest none f =
          rest (used_upto b bpb h (omega arith) below (λ i lt s. f i (omega arith) (omega arith) s))
      go rest (some bi) f =
          let e : bmap_block sb (b + bi) ≡ bmap_block sb b = omega arith in
          let m : (b + bi) % bpb ≡ bi = omega arith in
          (
            f.2,
            used-offset b bi h (omega arith) ∙ ap not f.3,
            λ j lt.
                used_upto b bi h (omega arith) below (λ i l s. f.4 i (omega arith) l) j lt
                  (omega arith),
            ap₂ (λ x y. update d x (set_bit (d x) y)) (sym e) (sym m),
          )

-- balloc returns the lowest block below the file system's size that the bitmap does not mark, and
-- marks it, and nothing else on the disk changes; it panics only when all those blocks are marked.
pub balloc-Allocates : (sb : Superblock) (d : Blocks) → Allocates sb d (balloc sb d)
unfolding balloc
balloc-Allocates sb d =
    balloc_loop-Allocates sb d (sb.size / bpb + 1) 0 (omega arith) (omega arith)
      (λ j lt. absurd (omega arith))

Bytes-marked : (sb : Superblock) (d : Blocks) (n : ℕ) → Bytes d → Bytes (marked sb d n)
Bytes-marked sb d n h k i = ground (
  arith,
  h k i,
  set-clear-lt (d (bmap_block sb n) (n % bpb / 8)) (n % bpb % 8) (h (bmap_block sb n) (n % bpb / 8))
      (omega arith),
)

-- A block that balloc returns can be given to bfree, which does not panic; between the two calls the
-- returned block is the only one whose mark differs, and afterwards none does.
pub bfree-balloc :
    (sb : Superblock) (d : Blocks) {n : ℕ} {e : Blocks}
    → Bytes d
    → balloc sb d ≡ ok (n, e)
    → ((j : ℕ) → used sb e j ≡ ((n == j) || used sb d j))
      × (f : Blocks) × (bfree sb e n ≡ ok f)
      × ((j : ℕ) → used sb f j ≡ used sb d j)
bfree-balloc sb d {n} {e} bytes h =
    let (lt, unused, low, eq) = subst (Allocates sb d) h (balloc-Allocates sb d) in
    let mark : (j : ℕ) → used sb e j ≡ ((n == j) || used sb d j) =
      λ j. ap (λ x. used sb x j) eq ∙ used-marked sb d n j bytes in
    let self : used sb e n ≡ true = mark n ∙ ap (λ x. x || used sb d n) (==_refl n) in
    let bytes' : Bytes e = subst Bytes (sym eq) (Bytes-marked sb d n bytes) in
    (
      mark,
      unmarked sb e n,
      (unfold bfree in rw (not-eq-true _ self)),
      λ j.
          used-unmarked sb e n j bytes'
          ∙ ap (λ x. not (n == j) && x) (mark j)
          ∙ undo j (n == j) refl unused,
    )
  where
    not-eq-true : (b : Bool) → not b ≡ true → b ≡ false
    not-eq-true true h = cc
    not-eq-true false h = refl

    undo :
        (j : ℕ) (b : Bool)
        → (n == j) ≡ b
        → used sb d n ≡ false
        → (not b && (b || used sb d j)) ≡ used sb d j
    undo j false e u = refl
    undo j true e u = let same = (==_iff n j).0 e in sym u ∙ ap (used sb d) same
