-- ===== src/Fs/Directory/Alloc.antt =====
-- ialloc of src/kernel/fs.c takes the first free disk inode.
use halo_os.Base.{
  ℕ, zero, suc, ◌+◌, ◌^◌, ◌≤◌, ◌<◌, ◌≡◌, ◌≢◌, refl, sym, subst, ◌⊎◌, Option, none, some, ◌==◌,
  arith, Bool-cases, inl, inr, ==_refl,
}
use halo_os.Base.Array.{update}
use halo_os.Base.Outcome.{Outcome, ok, ◌>>=◌}
use halo_os.Fs.Layout.{Superblock, Blocks, iblock}
use halo_os.Fs.Dinode.{Inode, half, dinode_at, load}
use halo_os.Fs.Icache.{Cached, iget}
use halo_os.Fs.Directory.{fresh_dinode, ialloc_loop, ialloc}

-- The type of a disk inode.
abbrev pub type_at : Superblock → Blocks → ℕ → ℕ
type_at sb d inum = half (d (iblock sb inum)) (dinode_at inum)

-- The blocks behind an allocation of inode `k`.
abbrev pub with_fresh : Superblock → Blocks → (k kind : ℕ) → Blocks
with_fresh sb d k kind = update d (iblock sb k) (fresh_dinode (d (iblock sb k)) (dinode_at k) kind)

-- What ilock loads for an inode that was just allocated.
pub record Fresh (ip : Inode) (kind : ℕ) : Type 0 where
  pub typed : ip.kind ≡ kind
  pub unlinked : ip.nlink ≡ 0
  pub no_bytes : ip.size ≡ 0
  pub no_blocks : (a : ℕ) → a < 13 → ip.addrs a ≡ 0

pub load-Fresh :
    (sb : Superblock) (d : Blocks) (k kind : ℕ)
    → kind < 2 ^ 16
    → Fresh (load sb k (with_fresh sb d k kind)) kind
unfolding load
load-Fresh sb d k kind small = record {
  typed = rw (==_refl (iblock sb k)) (ground arith);
  unlinked = rw (==_refl (iblock sb k)) (ground arith);
  no_bytes = rw (==_refl (iblock sb k)) (ground arith);
  no_blocks = λ a la. rw (==_refl (iblock sb k)) (ground arith);
}

-- What ialloc is to do.
abbrev pub Iallocs :
    Superblock
    → (ℕ → Cached)
    → (dev kind : ℕ) → Blocks
    → (first : ℕ) → Outcome (Option ℕ × (ℕ → Cached) × Blocks)
    → Type 0
Iallocs sb c dev kind d first r =
    ((k : ℕ) × (first ≤ k)
      × (k < sb.ninodes)
      × (type_at sb d k ≡ 0)
      × ((j : ℕ) → first ≤ j → j < k → type_at sb d j ≢ 0)
      × (r ≡ (iget c dev k >>= λ (i, c'). ok (some i, c', with_fresh sb d k kind)))
      × Fresh (load sb k (with_fresh sb d k kind)) kind)
    ⊎ (((j : ℕ) → first ≤ j → j < sb.ninodes → type_at sb d j ≢ 0) × (r ≡ ok (none, c, d)))

module _ (sb : Superblock) (c : ℕ → Cached) (dev kind : ℕ) (d : Blocks)
    (small : kind < 2 ^ 16) where
  in_use :
      (i j : ℕ) → type_at sb d i ≢ 0 → (suc i ≤ j → type_at sb d j ≢ 0) → i ≤ j → type_at sb d j ≢ 0
  in_use i j used later le = elim (Bool-cases (j == i)) [
    | inl y ↦ let e : j ≡ i = ground arith in subst (λ x. type_at sb d x ≢ 0) (sym e) used
    | inr z ↦ later (ground arith)
  ]

  Iallocs-next :
      (i : ℕ) (r : Outcome (Option ℕ × (ℕ → Cached) × Blocks))
      → type_at sb d i ≢ 0
      → Iallocs sb c dev kind d (suc i) r
      → Iallocs sb c dev kind d i r
  Iallocs-next i r used (inl (k, le, lt, free, before, e, f)) =
      inl (k, omega arith, lt, free, (λ j lo hi. in_use i j used (λ le'. before j le' hi) lo), e, f)
  Iallocs-next i r used (inr (all, e)) =
      inr ((λ j lo hi. in_use i j used (λ le'. all j le' hi) lo), e)

  ialloc_loop-Iallocs :
      (n i : ℕ) → n + i ≡ sb.ninodes → Iallocs sb c dev kind d i (ialloc_loop sb c dev kind n i d)
  unfolding ialloc_loop
  ialloc_loop-Iallocs zero i e = inr ((λ j lo hi. absurd (omega arith)), refl)
  ialloc_loop-Iallocs (suc n) i e = elim (Bool-cases (type_at sb d i == 0)) [
    | inl y ↦
        let free : type_at sb d i ≡ 0 = ground arith in
        rw y (
          inl (
            i,
            omega arith,
            omega arith,
            free,
            (λ j lo hi. absurd (omega arith)),
            refl,
            load-Fresh sb d i kind small,
          ))
    | inr z ↦
        let used : type_at sb d i ≢ 0 = λ q. ground arith in
        let next : i + 1 ≡ suc i = omega arith in
        rw (z, next)
          (Iallocs-next i (ialloc_loop sb c dev kind n (suc i) d) used
            (ialloc_loop-Iallocs n (suc i) (omega arith)))
  ]

-- ialloc takes the first disk inode whose type is 0, counted from inode 0 on, with iget of its
-- number: ilock then loads the new type, no links, size 0 and no blocks. If every inode is in use,
-- it returns null and changes nothing.
pub ialloc-Iallocs :
    (sb : Superblock) (c : ℕ → Cached) (dev kind : ℕ) (d : Blocks)
    → kind < 2 ^ 16
    → Iallocs sb c dev kind d 0 (ialloc sb c dev kind d)
unfolding ialloc
ialloc-Iallocs sb c dev kind d small =
    ialloc_loop-Iallocs sb c dev kind d small sb.ninodes 0 (omega arith)
