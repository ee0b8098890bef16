-- ===== src/Fs/Icache/Unique.antt =====
-- The inode cache of src/kernel/fs.c holds an inode once.
use halo_os.Base.{
  ℕ, zero, suc, ◌+◌, ◌≤◌, ◌<◌, ◌≡◌, ◌≢◌, refl, subst, true, false, Option, none, some, ◌==◌,
  Bool-cases, inl, inr, arith, ◌⊎◌, ==_refl, ==_iff, ==_of_ne, from_here,
}
use halo_os.Base.Array.{update}
use halo_os.Base.Outcome.{Outcome, ok, panic}
use halo_os.Fs.Icache.{
  Cached, inodes, is_live, is_inode, Slot, hit, miss, or_free, find_slot, ref_add, iget,
}

-- No two entries with references are for the same inode.
abbrev pub OnceLive : (ℕ → Cached) → Type 0
OnceLive c =
    (i j : ℕ)
    → i < inodes
    → j < inodes
    → is_live (c i) ≡ true
    → is_live (c j) ≡ true
    → (c i).dev ≡ (c j).dev
    → (c i).inum ≡ (c j).inum
    → i ≡ j

module _ (c : ℕ → Cached) (dev inum : ℕ) where
  -- What the loop of iget finds among the `n` entries from `i` on, with `r` from those before.
  abbrev FindsSlot : (n i : ℕ) → Option ℕ → Slot → Type 0
  FindsSlot n i r (hit k) = (i ≤ k) × (k < i + n) × (is_inode dev inum (c k) ≡ true)
  FindsSlot n i r (miss none) =
      (r ≡ none)
      × ((j : ℕ)
          → i ≤ j
          → j < i + n
          → (is_inode dev inum (c j) ≡ false) × (((c j).ref == 0) ≡ false))
  FindsSlot n i r (miss (some k)) =
      ((j : ℕ) → i ≤ j → j < i + n → is_inode dev inum (c j) ≡ false)
      × ((r ≡ some k) ⊎ ((r ≡ none) × (i ≤ k) × (k < i + n) × (((c k).ref == 0) ≡ true)))

  slot-suc :
      (n i : ℕ) (r : Option ℕ) (s : Slot)
      → is_inode dev inum (c i) ≡ false
      → FindsSlot n (i + 1) (or_free r i (c i)) s
      → FindsSlot (suc n) i r s
  slot-suc n i r (hit k) no_hit (lo, hi, h) = (omega arith, omega arith, h)
  slot-suc n i (some x) (miss none) no_hit (e, h) = cc
  slot-suc n i none (miss none) no_hit (e, h) = elim (Bool-cases ((c i).ref == 0)) [
    | inl z ↦ cc (rw z at e)
    | inr nz ↦ (
      refl,
      λ j lo hi.
          from_here (λ x. (is_inode dev inum (c x) ≡ false) × (((c x).ref == 0) ≡ false)) i j
            (no_hit, nz) lo (λ le. h j (omega arith) (omega arith)),
    )
  ]
  slot-suc n i r (miss (some k)) no_hit (absent, w) = (
    λ j lo hi.
        from_here (λ x. is_inode dev inum (c x) ≡ false) i j no_hit lo
          (λ le. absent j (omega arith) (omega arith)),
    where_from r w,
  )
    where
      where_from :
          (r : Option ℕ)
          → ((or_free r i (c i) ≡ some k)
              ⊎ ((or_free r i (c i) ≡ none)
                  × (i + 1 ≤ k)
                  × (k < i + 1 + n)
                  × (((c k).ref == 0) ≡ true)))
          → (r ≡ some k) ⊎ ((r ≡ none) × (i ≤ k) × (k < i + suc n) × (((c k).ref == 0) ≡ true))
      where_from (some x) (inl e) = inl e
      where_from (some x) (inr (e, lo, hi, z)) = cc
      where_from none (inl e) = elim (Bool-cases ((c i).ref == 0)) [
        | inl z ↦
            let same : some i ≡ some k = rw z at e in
            let eq : i ≡ k = ground arith in
            inr (refl, omega arith, omega arith, subst (λ x. ((c x).ref == 0) ≡ true) eq z)
        | inr nz ↦ cc (rw nz at e)
      ]
      where_from none (inr (e, lo, hi, z)) = inr (refl, omega arith, omega arith, z)

  find_slot-FindsSlot : (n i : ℕ) (r : Option ℕ) → FindsSlot n i r (find_slot n i dev inum r c)
  unfolding find_slot
  find_slot-FindsSlot zero i none = (refl, λ j lo hi. absurd (omega arith))
  find_slot-FindsSlot zero i (some x) = (λ j lo hi. absurd (omega arith), inl refl)
  find_slot-FindsSlot (suc n) i r = elim (Bool-cases (is_inode dev inum (c i))) [
    | inl h ↦ rw h (omega arith, omega arith, h)
    | inr h ↦ rw h (
        slot-suc n i r (find_slot n (i + 1) dev inum (or_free r i (c i)) c) h
          (find_slot-FindsSlot n (i + 1) (or_free r i (c i))))
  ]

  -- What iget comes to: an entry for the inode, with one more reference if it was there, and a free
  -- one taken with one reference if not; other entries stay, and no inode is there twice. It panics
  -- only if the inode is not there and no entry is free.
  abbrev pub IgetGets : Outcome (ℕ × (ℕ → Cached)) → Type 0
  IgetGets panic =
      (j : ℕ) → j < inodes → (is_inode dev inum (c j) ≡ false) × (((c j).ref == 0) ≡ false)
  IgetGets (ok (i, e)) =
      (i < inodes)
      × ((is_inode dev inum (c i) ≡ true) × (e i ≡ ref_add (c i) 1)
          ⊎ (((c i).ref == 0) ≡ true)
            × (e i ≡ record (c i) { dev = dev; inum = inum; ref = 1; vaild = false }))
      × ((j : ℕ) → j ≢ i → e j ≡ c j)
      × OnceLive e

  -- The keys of two entries, of which `i` is live.
  abbrev SameKey : (ℕ → Cached) → (a b : ℕ) → Type 0
  SameKey c a b =
      is_live (c a) ≡ true
      → is_live (c b) ≡ true
      → (c a).dev ≡ (c b).dev
      → (c a).inum ≡ (c b).inum
      → a ≡ b

  module _ (once : OnceLive c) where
    OnceLive-hit :
        (i : ℕ) → is_inode dev inum (c i) ≡ true → OnceLive (update c i (ref_add (c i) 1))
    OnceLive-hit i h a b la lb = elim (Bool-cases (a == i)) [
      | inl ai ↦ elim (Bool-cases (b == i)) [
        | inl bi ↦ rw (ai, bi) (λ x y z w. ground arith)
        | inr bi ↦
            let eq = (==_iff a i).0 ai in
            rw (ai, bi)
              (λ x y z w. once a b la lb (rw eq (ground (arith, h))) y (rw eq z) (rw eq w))
      ]
      | inr ai ↦ elim (Bool-cases (b == i)) [
        | inl bi ↦
            let eq = (==_iff b i).0 bi in
            rw (ai, bi)
              (λ x y z w. once a b la lb x (rw eq (ground (arith, h))) (rw eq z) (rw eq w))
        | inr bi ↦ rw (ai, bi) (once a b la lb)
      ]
    ]

    OnceLive-taken :
        (i : ℕ)
        → ((j : ℕ) → j < inodes → is_inode dev inum (c j) ≡ false)
        → OnceLive (update c i (record (c i) { dev = dev; inum = inum; ref = 1; vaild = false }))
    OnceLive-taken i absent a b la lb = elim (Bool-cases (a == i)) [
      | inl ai ↦ elim (Bool-cases (b == i)) [
        | inl bi ↦ rw (ai, bi) (λ x y z w. ground arith)
        | inr bi ↦ rw (ai, bi) (λ x y z w. ground (arith, absent b lb))
      ]
      | inr ai ↦ elim (Bool-cases (b == i)) [
        | inl bi ↦ rw (ai, bi) (λ x y z w. ground (arith, absent a la))
        | inr bi ↦ rw (ai, bi) (once a b la lb)
      ]
    ]

    stays : (i : ℕ) (x : Cached) (j : ℕ) → j ≢ i → update c i x j ≡ c j
    stays i x j ne = rw (==_of_ne j i ne) refl

    is_set : (i : ℕ) (x : Cached) → update c i x i ≡ x
    is_set i x = rw (==_refl i) refl

    -- While no two entries with references are for the same inode, iget gives the entry for the
    -- inode with one more reference, or, if there is none, a free entry taken with one reference.
    -- Still no two are for the same inode, and the other entries stay. It panics only when the inode
    -- is not there and no entry is free.
    pub iget-IgetGets : IgetGets (iget c dev inum)
    unfolding iget
    iget-IgetGets = go (find_slot inodes 0 dev inum none c) (find_slot-FindsSlot inodes 0 none)
      where
        taken : ℕ → Cached
        taken i = record (c i) { dev = dev; inum = inum; ref = 1; vaild = false }

        take :
            (i : ℕ)
            → i < inodes
            → ((c i).ref == 0) ≡ true
            → ((j : ℕ) → 0 ≤ j → j < 0 + inodes → is_inode dev inum (c j) ≡ false)
            → IgetGets (
                ok
                  (i, update c i (record (c i) { dev = dev; inum = inum; ref = 1; vaild = false })))
        take i lt z absent = (
          lt,
          inr (z, is_set i (taken i)),
          stays i (taken i),
          OnceLive-taken i (λ j lj. absent j (omega arith) (omega arith)),
        )

        go :
            (s : Slot)
            → FindsSlot inodes 0 none s
            → IgetGets (elim s [
              | hit i ↦ ok (i, update c i (ref_add (c i) 1))
              | miss none ↦ panic
              | miss (some i) ↦
                  ok (
                    i,
                    update c i (record (c i) { dev = dev; inum = inum; ref = 1; vaild = false }),
                  )
            ])
        go (hit i) (lo, hi, h) = (
          omega arith,
          inl (h, is_set i (ref_add (c i) 1)),
          stays i (ref_add (c i) 1),
          OnceLive-hit i h,
        )
        go (miss none) (e, h) = λ j lt. h j (omega arith) (omega arith)
        go (miss (some i)) (absent, inl e) = cc
        go (miss (some i)) (absent, inr (e, lo, hi, z)) = take i (omega arith) z absent
