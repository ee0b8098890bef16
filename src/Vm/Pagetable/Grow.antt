-- ===== src/Vm/Pagetable/Grow.antt =====
-- walk of src/kernel/vm.c puts a new table behind an entry: the tables stay apart, and nothing that
-- was mapped changes.
use halo_os.Base.{
  ℕ, zero, suc, ◌+◌, ◌*◌, ◌%◌, ◌<◌, ◌≡◌, ◌≢◌, refl, sym, ap, subst, ◌∙◌, true, false, ◌&&◌, none,
  List, ◌∷◌, ltb, leb, ◌==◌, arith, Bool-cases, inl, inr, ==_refl, ==_of_ne, ==_iff, ne_of_==,
  bit_or, ap₂, ◌⊎◌,
}
use halo_os.Base.Array.{update}
use halo_os.Base.Words.{bit_or-one}
use halo_os.Vm.Kmem.{Kmem, pgsize, phystop, fill, kalloc}
use halo_os.Vm.Kmem.FreeList.{IsFrame, NotIn, FreeList, Chain-outside, Allocs, kalloc-Allocs}
use halo_os.Vm.Pagetable.{px, pa2pte, pte2pa, is_valid, slot}
use halo_os.Vm.Pagetable.Table.{
  find, Role, nothing, table, Tables, table-ne-nothing, table_inj, slot_inj, slot_inside,
  slot_outside, px_lt,
}
use halo_os.Vm.Pagetable.Keeps.{Keeps}

table_pte :
    (r : ℕ)
    → r % pgsize ≡ 0
    → r < phystop
    → (is_valid (bit_or (pa2pte r) 1) ≡ true) × (pte2pa (bit_or (pa2pte r) 1) ≡ r)
table_pte r al lt =
    let e = bit_or-one (pa2pte r) in
    let v : bit_or (pa2pte r) 1 % 2 ≡ 1 = omega (arith, e) in (rw v refl, omega (arith, e))

page_apart :
    (p q a : ℕ)
    → p % pgsize ≡ 0
    → q % pgsize ≡ 0
    → p ≢ q
    → (leb p a && ltb a (p + pgsize)) ≡ true
    → (leb q a && ltb a (q + pgsize)) ≡ false
page_apart p q a hp hq ne h = ground arith

-- A new table for entry `i` of the table at `t`.
module _ (end : ℕ) (k : Kmem) (role : ℕ → Role) (r : ℕ) (free : List ℕ) (t l p i : ℕ)
    (tb : Tables end k role (r ∷ free)) (at : role t ≡ table (suc l) p) (lt : i < 512)
    (invalid : is_valid (k.mem (slot t i)) ≡ false) where
  abbrev pub k1 : Kmem
  k1 = (kalloc k).1

  abbrev pub role' : ℕ → Role
  role' = update role r (table l (p * 512 + i))

  abbrev pub entry : ℕ
  entry = bit_or (pa2pte r) 1

  abbrev pub k' : Kmem
  k' = record k1 { mem = update (fill k1.mem r 0) (slot t i) entry }

  got : Allocs end k (r ∷ free) (kalloc k)
  got = kalloc-Allocs end k (r ∷ free) tb.free_list

  IsFrame-r : IsFrame end r
  IsFrame-r = subst (IsFrame end) (got.0) (got.1)

  not_free : NotIn r free
  not_free = subst (λ x. NotIn x free) (got.0) (got.2)

  outside_r : (a : ℕ) → (leb r a && ltb a (r + pgsize)) ≡ false → k1.mem a ≡ k.mem a
  outside_r =
      subst (λ x. (a : ℕ) → (leb x a && ltb a (x + pgsize)) ≡ false → k1.mem a ≡ k.mem a) (got.0)
        (got.4)

  frame_t : (s m q : ℕ) → role s ≡ table m q → (s % pgsize ≡ 0) × (s ≢ r)
  frame_t s m q e = let (f, out) = tb.frames s (table-ne-nothing (role s) m q e) in (f.0, out.0)

  role_r : role r ≡ nothing
  role_r = go (role r) refl
    where
      go : (x : Role) → role r ≡ x → x ≡ nothing
      go nothing e = refl
      go (table m q) e = absurd ((frame_t r m q e).1 refl)

  pub mem-entry : k'.mem (slot t i) ≡ entry
  mem-entry = rw (==_refl (slot t i)) refl

  mem-other :
      (s m q j : ℕ)
      → role s ≡ table m q
      → j < 512
      → slot s j ≢ slot t i
      → k'.mem (slot s j) ≡ k.mem (slot s j)
  mem-other s m q j e lj ne =
      let (al, nr) = frame_t s m q e in
      let o = slot_outside s r j al (IsFrame-r.0) lj nr in
      rw (==_of_ne (slot s j) (slot t i) ne, o) (outside_r (slot s j) o)

  mem-new : (j : ℕ) → j < 512 → k'.mem (slot r j) ≡ 0
  mem-new j lj =
      let (al, nr) = frame_t t (suc l) p at in
      let ne : slot r j ≢ slot t i =
        λ h. nr (sym ((slot_inj r t j i (IsFrame-r.0) al lj lt h).0)) in
      rw (==_of_ne (slot r j) (slot t i) ne, slot_inside r j lj) refl

  find-new : (m va : ℕ) → find m k'.mem r va ≡ none
  unfolding find
  find-new zero va = rw (mem-new (px 0 va) (px_lt 0 va)) refl
  find-new (suc m) va = rw (mem-new (px (suc m) va) (px_lt (suc m) va)) refl

  pub entry-facts : (is_valid entry ≡ true) × (pte2pa entry ≡ r)
  entry-facts = table_pte r (IsFrame-r.0) (IsFrame-r.2)

  find-grown : (m s q va : ℕ) → role s ≡ table m q → find m k'.mem s va ≡ find m k.mem s va
  unfolding find
  find-grown zero s q va e =
      let ne : slot s (px 0 va) ≢ slot t i = λ h.
        let same =
          (slot_inj s t (px 0 va) i ((frame_t s 0 q e).0) ((frame_t t (suc l) p at).0) (px_lt 0 va)
            lt h).0 in
        absurd (omega (arith, (table_inj 0 (suc l) q p (sym e ∙ ap role same ∙ at)).0)) in
      rw (mem-other s 0 q (px 0 va) e (px_lt 0 va) ne) refl
  find-grown (suc m) s q va e = elim (Bool-cases (slot s (px (suc m) va) == slot t i)) [
    | inl hit ↦
        let h = (==_iff (slot s (px (suc m) va)) (slot t i)).0 hit in
        let (v, back) = entry-facts in rw (h, mem-entry, v, back, invalid) (find-new m va)
    | inr miss ↦
        let ne = ne_of_== (slot s (px (suc m) va)) (slot t i) miss in
        rw (mem-other s (suc m) q (px (suc m) va) e (px_lt (suc m) va) ne)
          (elim (Bool-cases (is_valid (k.mem (slot s (px (suc m) va))))) [
            | inl v ↦ rw v (
                find-grown m (pte2pa (k.mem (slot s (px (suc m) va)))) (q * 512 + px (suc m) va) va
                  (tb.links s m q (px (suc m) va) e (px_lt (suc m) va) v))
            | inr v ↦ rw v refl
          ])
  ]

  role-kept : (s m q : ℕ) → role s ≡ table m q → role' s ≡ table m q
  role-kept s m q e = rw (==_of_ne s r ((frame_t s m q e).1)) e

  pub role'-r : role' r ≡ table l (p * 512 + i)
  role'-r = rw (==_refl r) refl

  -- A table behind the change is the new one or was there before.
  old_or_new : (s m q : ℕ) → role' s ≡ table m q → (role s ≡ table m q) × (s ≢ r) ⊎ (s ≡ r)
  old_or_new s m q e = elim (Bool-cases (s == r)) [
    | inl h ↦ inr ((==_iff s r).0 h)
    | inr h ↦ inl (rw h at e, ne_of_== s r h)
  ]

  links-grown :
      (s m q j : ℕ)
      → role' s ≡ table (suc m) q
      → j < 512
      → is_valid (k'.mem (slot s j)) ≡ true
      → role' (pte2pa (k'.mem (slot s j))) ≡ table m (q * 512 + j)
  links-grown s m q j e lj v = elim (old_or_new s (suc m) q e) [
    | inr new ↦
        let h : k'.mem (slot s j) ≡ 0 =
          subst (λ x. k'.mem (slot x j) ≡ 0) (sym new) (mem-new j lj) in
        absurd (omega (arith, (==_iff (k'.mem (slot s j) % 2) 1).0 v, h))
    | inl (old, ne) ↦ elim (Bool-cases (slot s j == slot t i)) [
      | inl hit ↦
          let h = (==_iff (slot s j) (slot t i)).0 hit in
          let (st, ji) =
            slot_inj s t j i ((frame_t s (suc m) q old).0) ((frame_t t (suc l) p at).0) lj lt h in
          let (lm, pq) = table_inj (suc m) (suc l) q p (sym old ∙ ap role st ∙ at) in
          let eq : table l (p * 512 + i) ≡ table m (q * 512 + j) =
            ap₂ table (omega (arith, lm)) (omega (arith, pq, ji)) in
          ap role' (ap pte2pa (ap k'.mem h ∙ mem-entry) ∙ entry-facts.1) ∙ role'-r ∙ eq
      | inr miss ↦
          let h = mem-other s (suc m) q j old lj (ne_of_== (slot s j) (slot t i) miss) in
          let child = tb.links s m q j old lj (sym (ap is_valid h) ∙ v) in
          role-kept (pte2pa (k'.mem (slot s j))) m (q * 512 + j) (ap role (ap pte2pa h) ∙ child)
    ]
  ]

  frames-grown : (s : ℕ) → role' s ≢ nothing → IsFrame end s × NotIn s free
  frames-grown s h = elim (Bool-cases (s == r)) [
    | inl e ↦
        subst (λ x. IsFrame end x × NotIn x free) (sym ((==_iff s r).0 e)) (IsFrame-r, not_free)
    | inr ne ↦ let (f, out) = tb.frames s (λ x. h (rw ne x)) in (f, out.1)
  ]

  FreeList-grown : FreeList end k' free
  FreeList-grown =
      let (f, out) = tb.frames t (table-ne-nothing (role t) (suc l) p at) in
      Chain-outside end (fill k1.mem r 0) k'.mem t k1.freelist free (f.0)
        (λ a h.
          let ne : a ≢ slot t i = λ e. cc (h, slot_inside t i lt, e) in
          rw (==_of_ne a (slot t i) ne) refl)
        (out.1)
        (Chain-outside end k1.mem (fill k1.mem r 0) r k1.freelist free (IsFrame-r.0)
          (λ a h. rw h refl) not_free (got.3))

  pub Tables-grown : Tables end k' role' free
  Tables-grown = record {
    end_pos = tb.end_pos;
    free_list = FreeList-grown;
    frames = frames-grown;
    links = links-grown;
  }

  pub Keeps-grown : Keeps k k' role role' (r ∷ free) free
  Keeps-grown = record {
    roles = role-kept;
    entries = λ s m q j e lj v.
        mem-other s m q j e lj (λ h. cc (ap (λ a. is_valid (k.mem a)) h, v, invalid));
    maps = λ s m q va e. find-grown m s q va e;
    pages = λ pa al e out.
        let ne : pa ≢ r = out.0 in
        let nt : t ≢ pa = λ h. table-ne-nothing (role t) (suc l) p at (ap role h ∙ e) in
        (
          rw (==_of_ne pa r ne) e,
          out.1,
          λ a h.
              let ns : a ≢ slot t i =
                λ x. cc (h, x, slot_outside t pa i ((frame_t t (suc l) p at).0) al lt nt) in
              let nr : (leb r a && ltb a (r + pgsize)) ≡ false =
                page_apart pa r a al (IsFrame-r.0) ne h in
              rw (==_of_ne a (slot t i) ns, nr) (outside_r a nr),
        );
  }
