-- ===== src/Fs/Bcache/Unique.antt =====
-- The buffer cache of src/kernel/fs.c holds a block once.
use halo_os.Base.{
  ℕ, ◌+◌, ◌%◌, ◌^◌, ◌≡◌, ◌≢◌, refl, sym, subst, Bool, true, false, Option, none, some, List, [],
  ◌∷◌, ◌==◌, if◌then◌else◌, Bool-cases, inl, inr, arith, ◌⊎◌, ==_refl, ==_iff, ==_of_ne,
}
use halo_os.Base.Array.{update}
use halo_os.Base.Outcome.{Outcome, ok, panic}
use halo_os.Fs.Bcache.{Buf, Bcache, is_block, is_unused, first_buf, last_buf, recycled, bget}

abbrev pub In : ℕ → List ℕ → Type 0
In i [] = ⊥
In i (j ∷ js) = (i ≡ j) ⊎ In i js

-- No two buffers of the ring are for the same block.
abbrev pub Once : Bcache → Type 0
Once c =
    (i j : ℕ)
    → In i c.ring
    → In j c.ring
    → (c.bufs i).dev ≢ 0
    → (c.bufs i).dev ≡ (c.bufs j).dev
    → (c.bufs i).blockno ≡ (c.bufs j).blockno
    → i ≡ j

-- What the first loop finds.
abbrev First : (Buf → Bool) → (ℕ → Buf) → List ℕ → Option ℕ → Type 0
First test bufs ring none = (j : ℕ) → In j ring → test (bufs j) ≡ false
First test bufs ring (some i) = In i ring × (test (bufs i) ≡ true)

module _ (test : Buf → Bool) (bufs : ℕ → Buf) where
  none_here :
      (i : ℕ) (is : List ℕ)
      → test (bufs i) ≡ false
      → ((j : ℕ) → In j is → test (bufs j) ≡ false)
      → (j : ℕ) → In j (i ∷ is)
      → test (bufs j) ≡ false
  none_here i is h rest j (inl e) = subst (λ x. test (bufs x) ≡ false) (sym e) h
  none_here i is h rest j (inr k) = rest j k

  first_buf-First : (ring : List ℕ) → First test bufs ring (first_buf test bufs ring)
  unfolding first_buf
  first_buf-First [] = λ j h. absurd h
  first_buf-First (i ∷ is) = elim (Bool-cases (test (bufs i))) [
    | inl h ↦ rw h (inl refl, h)
    | inr h ↦ rw h (go (first_buf test bufs is) h (first_buf-First is))
  ]
    where
      go :
          (o : Option ℕ) → test (bufs i) ≡ false → First test bufs is o → First test bufs (i ∷ is) o
      go none h f = none_here i is h f
      go (some k) h (a, b) = (inr a, b)

  last_buf-First : (ring : List ℕ) → First test bufs ring (last_buf test bufs ring)
  unfolding last_buf
  last_buf-First [] = λ j h. absurd h
  last_buf-First (i ∷ is) = go (last_buf test bufs is) (last_buf-First is)
    where
      go :
          (o : Option ℕ)
          → First test bufs is o
          → First test bufs
              (i ∷ is)
              (elim o [ some j ↦ some j | none ↦ if test (bufs i) then some i else none ])
      go (some k) (a, b) = (inr a, b)
      go none f = elim (Bool-cases (test (bufs i))) [
        | inl h ↦ rw h (inl refl, h)
        | inr h ↦ rw h (none_here i is h f)
      ]

-- What bget comes to: a buffer of the ring for the block, with one more reference if the block was
-- cached, and one without references if not, whose bytes then count as not read; other buffers stay,
-- and no block is there twice. It panics only if the block is not cached and all buffers are in use.
abbrev pub Gets : Bcache → (dev blockno : ℕ) → Outcome (ℕ × Bcache) → Type 0
Gets c dev blockno panic =
    ((j : ℕ) → In j c.ring → is_block dev blockno (c.bufs j) ≡ false)
    × ((j : ℕ) → In j c.ring → is_unused (c.bufs j) ≡ false)
Gets c dev blockno (ok (i, e)) =
    In i c.ring
    × (e.ring ≡ c.ring)
    × (is_block dev blockno (e.bufs i) ≡ true)
    × ((is_block dev blockno (c.bufs i) ≡ true)
          × (e.bufs i ≡ record (c.bufs i) { refcnt = ((c.bufs i).refcnt + 1) % 2 ^ 32 })
        ⊎ ((j : ℕ) → In j c.ring → is_block dev blockno (c.bufs j) ≡ false)
          × ((c.bufs i).refcnt ≡ 0)
          × (e.bufs i
              ≡ record (c.bufs i) { refcnt = 1; vaild = false; dev = dev; blockno = blockno }))
    × ((j : ℕ) → j ≢ i → e.bufs j ≡ c.bufs j)
    × Once e

module _ (c : Bcache) (dev blockno : ℕ) (nz : dev ≢ 0) (once : Once c) where
  Once-hit :
      (i : ℕ)
      → Once (record c {
        bufs = update c.bufs i (record (c.bufs i) { refcnt = ((c.bufs i).refcnt + 1) % 2 ^ 32 });
      })
  Once-hit i a b ina inb = elim (Bool-cases (a == i)) [
    | inl ai ↦ elim (Bool-cases (b == i)) [
      | inl bi ↦ rw (ai, bi) (λ x y z. ground arith)
      | inr bi ↦
          rw (ai, bi)
            (subst
              (λ k.
                (c.bufs k).dev ≢ 0
                → (c.bufs k).dev ≡ (c.bufs b).dev
                → (c.bufs k).blockno ≡ (c.bufs b).blockno
                → a ≡ b)
              ((==_iff a i).0 ai) (once a b ina inb))
    ]
    | inr ai ↦ elim (Bool-cases (b == i)) [
      | inl bi ↦
          rw (ai, bi)
            (subst
              (λ k.
                (c.bufs a).dev ≢ 0
                → (c.bufs a).dev ≡ (c.bufs k).dev
                → (c.bufs a).blockno ≡ (c.bufs k).blockno
                → a ≡ b)
              ((==_iff b i).0 bi) (once a b ina inb))
      | inr bi ↦ rw (ai, bi) (once a b ina inb)
    ]
  ]

  Once-recycled :
      (i : ℕ)
      → ((j : ℕ) → In j c.ring → is_block dev blockno (c.bufs j) ≡ false)
      → Once (record c { bufs = update c.bufs i (recycled dev blockno (c.bufs i)) })
  Once-recycled i absent a b ina inb = elim (Bool-cases (a == i)) [
    | inl ai ↦ elim (Bool-cases (b == i)) [
      | inl bi ↦ rw (ai, bi) (λ x y z. ground arith)
      | inr bi ↦ rw (ai, bi) (λ x y z. ground (arith, absent b inb))
    ]
    | inr ai ↦ elim (Bool-cases (b == i)) [
      | inl bi ↦ rw (ai, bi) (λ x y z. ground (arith, absent a ina))
      | inr bi ↦ rw (ai, bi) (once a b ina inb)
    ]
  ]

  other_stays : (i : ℕ) (x : Buf) (j : ℕ) → j ≢ i → update c.bufs i x j ≡ c.bufs j
  other_stays i x j ne = rw (==_of_ne j i ne) refl

  self_set : (i : ℕ) (x : Buf) → update c.bufs i x i ≡ x
  self_set i x = rw (==_refl i) refl

  recycle-Gets :
      (o : Option ℕ)
      → First is_unused c.bufs c.ring o
      → ((j : ℕ) → In j c.ring → is_block dev blockno (c.bufs j) ≡ false)
      → Gets c dev blockno (elim o [
        | some i ↦ ok (i, record c { bufs = update c.bufs i (recycled dev blockno (c.bufs i)) })
        | none ↦ panic
      ])
  recycle-Gets none f absent = (absent, f)
  recycle-Gets (some i) (at, free) absent =
      let unused = (==_iff (c.bufs i).refcnt 0).0 free in
      (
        at,
        refl,
        rw (==_refl i, ==_refl dev, ==_refl blockno) refl,
        inr (absent, unused, self_set i (recycled dev blockno (c.bufs i))),
        other_stays i (recycled dev blockno (c.bufs i)),
        Once-recycled i absent,
      )

  -- While no two buffers are for the same block, bget for a block of a device other than 0 gives a
  -- buffer of the ring for the block: the cached one with one more reference, modulo 2^32, or, only
  -- when the block is not cached, one without references, which now has one, the new device and
  -- number, and `vaild` 0. Still no two are for the same block, and the other buffers stay. It panics
  -- only when the block is not cached and every buffer has references.
  pub bget-Gets : Gets c dev blockno (bget c dev blockno)
  unfolding bget
  bget-Gets =
      go (first_buf (is_block dev blockno) c.bufs c.ring)
        (first_buf-First (is_block dev blockno) c.bufs c.ring)
    where
      go :
          (o : Option ℕ)
          → First (is_block dev blockno) c.bufs c.ring o
          → Gets c dev blockno (elim o [
            | some i ↦ ok (
              i,
              record c {
                bufs =
                    update c.bufs i
                      (record (c.bufs i) { refcnt = ((c.bufs i).refcnt + 1) % 2 ^ 32 });
              },
            )
            | none ↦ elim (last_buf is_unused c.bufs c.ring) [
              | some i ↦
                  ok (i, record c { bufs = update c.bufs i (recycled dev blockno (c.bufs i)) })
              | none ↦ panic
            ]
          ])
      go (some i) (at, is) = (
        at,
        refl,
        rw (==_refl i) is,
        inl (is, self_set i (record (c.bufs i) { refcnt = ((c.bufs i).refcnt + 1) % 2 ^ 32 })),
        other_stays i (record (c.bufs i) { refcnt = ((c.bufs i).refcnt + 1) % 2 ^ 32 }),
        Once-hit i,
      )
      go none absent =
          recycle-Gets (last_buf is_unused c.bufs c.ring) (last_buf-First is_unused c.bufs c.ring)
            absent
