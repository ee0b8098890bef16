-- ===== src/Mkfs/Balloc.antt =====
-- The bitmap that src/mkfs.c writes, as balloc of src/kernel/fs.c reads it.
use halo_os.Base.{
  ℕ, zero, suc, ◌+◌, ◌*◌, ◌/◌, ◌%◌, ◌^◌, ◌<◌, ◌≡◌, refl, sym, ap, ◌∙◌, Bool, true, false, not, ◌&&◌,
  ◌||◌, ltb, leb, ◌==◌, arith, bit_and, Bool-cases, inl, inr,
}
use halo_os.Base.Array.{update}
use halo_os.Base.Bits.{set-clear-lt}
use halo_os.Base.Outcome.{Outcome, ok, panic}
use halo_os.Fs.Layout.{Blocks, bsize, bpb, bmap_block}
use halo_os.Fs.Bitmap.{bit_clear, set_bit, balloc}
use halo_os.Fs.Bitmap.Alloc.{used, marked, bit_clear-set_bit, balloc-Allocates, Allocates}
use halo_os.Mkfs.{Image, sb, fssize, mark_loop, mkfs_balloc}

mark_loop_lem :
    (n i j : ℕ) (buf : ℕ → ℕ)
    → ((a : ℕ) → buf a < 256)
    → not (bit_clear (mark_loop n i buf) j) ≡ ((leb i j && ltb j (i + n)) || not (bit_clear buf j))
unfolding mark_loop
mark_loop_lem zero i j buf h = ground arith
mark_loop_lem (suc n) i j buf h =
    let h' : (a : ℕ) → set_bit buf i a < 256 =
      λ a. ground (arith, h a, set-clear-lt (buf (i / 8)) (i % 8) (h (i / 8)) (omega arith)) in
    let range : (b : Bool)
        → ((leb (i + 1) j && ltb j (i + 1 + n)) || ((i == j) || b))
          ≡ ((leb i j && ltb j (i + suc n)) || b) =
      λ b. ground arith in
    mark_loop_lem n (i + 1) j (set_bit buf i) h'
    ∙ ap (λ x. (leb (i + 1) j && ltb j (i + 1 + n)) || x) (bit_clear-set_bit buf i j h)
    ∙ range (not (bit_clear buf j))

zero_bit : (p : ℕ) → p < 8 → (bit_and 0 (2 ^ p) == 0) ≡ true
zero_bit zero lt = refl
zero_bit (suc zero) lt = refl
zero_bit (suc (suc zero)) lt = refl
zero_bit (suc (suc (suc zero))) lt = refl
zero_bit (suc (suc (suc (suc zero)))) lt = refl
zero_bit (suc (suc (suc (suc (suc zero))))) lt = refl
zero_bit (suc (suc (suc (suc (suc (suc zero)))))) lt = refl
zero_bit (suc (suc (suc (suc (suc (suc (suc zero))))))) lt = refl
zero_bit (suc (suc (suc (suc (suc (suc (suc (suc p)))))))) lt = absurd (omega arith)

zero_bits : (j : ℕ) → bit_clear (λ i. 0) j ≡ true
zero_bits j = zero_bit (j % 8) (omega arith)

-- What mkfs leaves: the bitmap marks the blocks below `n`, of those that its block covers, and the
-- first balloc of the kernel takes block `n`.
abbrev pub Ready : (n : ℕ) → Outcome Image → Type 0
Ready n panic = ⊥
Ready n (ok m) =
    ((j : ℕ) → j < bpb → used sb m.blocks j ≡ ltb j n)
    × (balloc sb m.blocks ≡ ok (n, marked sb m.blocks n))

used-first :
    (n : ℕ) (d : Blocks)
    → n < fssize
    → ((j : ℕ) → j < bpb → used sb d j ≡ ltb j n)
    → balloc sb d ≡ ok (n, marked sb d n)
used-first n d lt marks = go (balloc sb d) (balloc-Allocates sb d)
  where
    go : (r : Outcome (ℕ × Blocks)) → Allocates sb d r → r ≡ ok (n, marked sb d n)
    go panic all = let e : true ≡ ltb n n = sym (all n lt) ∙ marks n (omega arith) in ground arith
    go (ok (k, e)) (small, free, below, eq) =
        let f : ltb k n ≡ false = sym (marks k (omega arith)) ∙ free in
        let same : k ≡ n = elim (Bool-cases (ltb n k)) [
          | inl y ↦
              let g : true ≡ ltb n n = sym (below n (ground arith)) ∙ marks n (omega arith) in
              ground arith
          | inr z ↦ ground arith
        ] in
        ap (λ x. ok (x, e)) same ∙ ap (λ x. ok (n, x)) (eq ∙ ap (marked sb d) same)

-- balloc of mkfs for `n` blocks, fewer than there are: it succeeds, its bitmap marks exactly the first
-- `n` of the blocks that the bitmap block covers, and the first balloc of the kernel on this image
-- returns block `n`.
pub mkfs_balloc-Ready : (n : ℕ) (m : Image) → n < fssize → Ready n (mkfs_balloc n m)
unfolding mkfs_balloc
mkfs_balloc-Ready n m lt =
    let fits : ltb n (bsize * 8) ≡ true = ground arith in
    let marks : (j : ℕ)
        → j < bpb
        → used sb (update m.blocks sb.bmapstart (mark_loop n 0 (λ i. 0))) j ≡ ltb j n =
      λ j lj.
        let q : bmap_block sb j ≡ sb.bmapstart = omega arith in
        let w : j % bpb ≡ j = omega arith in
        rw (q, w)
          (mark_loop_lem n 0 j (λ i. 0) (λ a. omega arith) ∙ rw (zero_bits j) (ground arith)) in
    rw fits (marks, used-first n (update m.blocks sb.bmapstart (mark_loop n 0 (λ i. 0))) lt marks)
