-- ===== src/Vm/Pagetable/Leaf.antt =====
-- A write of one entry of a last table of src/kernel/vm.c changes the mapping of one page.
use halo_os.Base.{
  ℕ, zero, suc, ◌+◌, ◌*◌, ◌/◌, ◌%◌, ◌≤◌, ◌<◌, ◌≡◌, ◌≢◌, refl, sym, ap, subst, ◌∙◌, true, ◌&&◌, none,
  some, List, ltb, leb, if◌then◌else◌, arith, Bool-cases, inl, inr, ◌⊎◌, ==_refl, ==_of_ne,
}
use halo_os.Base.Array.{update}
use halo_os.Vm.Kmem.{Kmem, pgsize}
use halo_os.Vm.Kmem.FreeList.{NotIn, Chain-outside}
use halo_os.Vm.Pagetable.{maxva, px, pte2pa, is_valid, slot}
use halo_os.Vm.Pagetable.Table.{
  find, lookup, Role, nothing, table, Tables, table-ne-nothing, table_inj, slot_inj, slot_inside,
  slot_outside, px_lt,
}
use halo_os.Vm.Pagetable.Keeps.{Keeps}
use halo_os.Vm.Pagetable.Walk.{down, Reaches, find-Reaches}

-- What a change of the mappings from `lo` up to `hi` leaves: tables that do not overlap, the other
-- mappings, those of other address spaces, and the pages that are neither free nor tables.
pub record Changes (end : ℕ) (k k' : Kmem) (pagetable space : ℕ) (role : ℕ → Role) (free : List ℕ)
    (lo hi : ℕ) : Type 0 where
  pub role' : ℕ → Role
  pub free' : List ℕ
  pub tables : Tables end k' role' free'
  pub root : role' pagetable ≡ table 2 space
  pub outside :
      (va : ℕ)
      → va < maxva
      → (va < lo) ⊎ (hi ≤ va)
      → lookup k'.mem pagetable va ≡ lookup k.mem pagetable va
  pub spaces :
      (other s : ℕ)
      → role other ≡ table 2 s
      → s ≢ space
      → (role' other ≡ table 2 s) × ((va : ℕ) → lookup k'.mem other va ≡ lookup k.mem other va)
  pub pages :
      (pa : ℕ)
      → pa % pgsize ≡ 0
      → role pa ≡ nothing
      → NotIn pa free
      → (role' pa ≡ nothing)
        × NotIn pa free'
        × ((a : ℕ) → (leb pa a && ltb a (pa + pgsize)) ≡ true → k'.mem a ≡ k.mem a)

-- A new value `e` of entry `j` of the table of level 0 at `c`.
module _ (end : ℕ) (k : Kmem) (role : ℕ → Role) (free : List ℕ) (c q j e : ℕ)
    (tb : Tables end k role free) (at : role c ≡ table 0 q) (lj : j < 512) where
  abbrev k' : Kmem
  k' = record k { mem = update k.mem (slot c j) e }

  al_c : c % pgsize ≡ 0
  al_c = (tb.frames c (table-ne-nothing (role c) 0 q at)).0.0

  al : (t l p : ℕ) → role t ≡ table l p → t % pgsize ≡ 0
  al t l p h = (tb.frames t (table-ne-nothing (role t) l p h)).0.0

  above : (t l p i : ℕ) → role t ≡ table (suc l) p → i < 512 → k'.mem (slot t i) ≡ k.mem (slot t i)
  above t l p i h li =
      let ne : slot t i ≢ slot c j = λ x.
        let same = (slot_inj t c i j (al t (suc l) p h) al_c li lj x).0 in
        absurd (omega (arith, (table_inj (suc l) 0 p q (sym h ∙ ap role same ∙ at)).0)) in
      rw (==_of_ne (slot t i) (slot c j) ne) refl

  pub Tables-leaf : Tables end k' role free
  Tables-leaf = record {
    end_pos = tb.end_pos;
    free_list =
        Chain-outside end k.mem k'.mem c k.freelist free al_c
          (λ a h.
            let ne : a ≢ slot c j = λ x. cc (h, slot_inside c j lj, x) in
            rw (==_of_ne a (slot c j) ne) refl)
          ((tb.frames c (table-ne-nothing (role c) 0 q at)).1) tb.free_list;
    frames = tb.frames;
    links = λ t l p i h li v.
        let same = above t l p i h li in
        ap role (ap pte2pa same) ∙ tb.links t l p i h li (sym (ap is_valid same) ∙ v);
  }

  pub Reaches-leaf :
      (level t p va d : ℕ)
      → role t ≡ table level p
      → Reaches level k.mem t va d
      → Reaches level k'.mem t va d
  Reaches-leaf zero t p va d h r = r
  Reaches-leaf (suc l) t p va d h (v, r) =
      let same = above t l p (px (suc l) va) h (px_lt (suc l) va) in
      (
        ap is_valid same ∙ v,
        subst (λ x. Reaches l k'.mem x va d) (sym (ap pte2pa same))
            (Reaches-leaf l (pte2pa (k.mem (slot t (px (suc l) va)))) (p * 512 + px (suc l) va) va d
              (tb.links t l p (px (suc l) va) h (px_lt (suc l) va) v) r),
      )

  -- Addresses whose way does not end in the entry are mapped as before.
  pub find-leaf_other :
      (level t p va : ℕ)
      → role t ≡ table level p
      → (down level p va ≡ q → px 0 va ≢ j)
      → find level k'.mem t va ≡ find level k.mem t va
  unfolding find
  find-leaf_other zero t p va h apart =
      let ne : slot t (px 0 va) ≢ slot c j = λ x.
        let (tc, ij) = slot_inj t c (px 0 va) j (al t 0 p h) al_c (px_lt 0 va) lj x in
        apart ((table_inj 0 0 p q (sym h ∙ ap role tc ∙ at)).1) ij in
      rw (==_of_ne (slot t (px 0 va)) (slot c j) ne) refl
  find-leaf_other (suc l) t p va h apart =
      let i = px (suc l) va in
      rw (above t l p i h (px_lt (suc l) va)) (elim (Bool-cases (is_valid (k.mem (slot t i)))) [
        | inl v ↦ rw v (
            find-leaf_other l (pte2pa (k.mem (slot t i))) (p * 512 + i) va
              (tb.links t l p i h (px_lt (suc l) va) v) apart)
        | inr v ↦ rw v refl
      ])

  pub pages-leaf :
      (pa a : ℕ)
      → pa % pgsize ≡ 0
      → role pa ≡ nothing
      → (leb pa a && ltb a (pa + pgsize)) ≡ true
      → k'.mem a ≡ k.mem a
  pages-leaf pa a al_pa n h =
      let nc : c ≢ pa = λ x. table-ne-nothing (role c) 0 q at (ap role x ∙ n) in
      let ne : a ≢ slot c j = λ x. cc (h, x, slot_outside c pa j al_c al_pa lj nc) in
      rw (==_of_ne a (slot c j) ne) refl

-- The number of a page is that of its last table and its entry there.
pub down-page :
    (s va w : ℕ)
    → va < maxva
    → w < maxva
    → down 2 s va ≡ down 2 s w
    → px 0 va ≡ px 0 w
    → va / pgsize ≡ w / pgsize
down-page s va w lv lw d p = omega arith

-- Last tables of different address spaces have different prefixes.
pub down-space : (s u va w : ℕ) → down 2 s va ≡ down 2 u w → s ≡ u
down-space s u va w d = omega arith

-- A new value of the entry that walk reached for `va` changes the mapping of its page only.
module _ (end pagetable space : ℕ) (k k1 : Kmem) (role role1 : ℕ → Role) (free free1 : List ℕ)
    (va c e : ℕ) (root : role pagetable ≡ table 2 space) (low : va < maxva)
    (aligned : va % pgsize ≡ 0) (tb : Tables end k1 role1 free1)
    (kp : Keeps k k1 role role1 free free1) (at : role1 c ≡ table 0 (down 2 space va)) where
  other_page :
      (w : ℕ)
      → w < maxva
      → (w < va) ⊎ (va + 1 * pgsize ≤ w)
      → down 2 space w ≡ down 2 space va
      → px 0 w ≢ px 0 va
  other_page w lw (inl h) d p = absurd (omega (arith, down-page space w va lw low d p, aligned))
  other_page w lw (inr h) d p = absurd (omega (arith, down-page space w va lw low d p, aligned))

  pub Changes-leaf :
      Changes end k
        (record k1 { mem = update k1.mem (slot c (px 0 va)) e })
        pagetable
        space
        role
        free
        va
        (va + 1 * pgsize)
  Changes-leaf =
      let lj = px_lt 0 va in
      let q = down 2 space va in
      let root1 = kp.roles pagetable 2 space root in
      record {
        role' = role1;
        free' = free1;
        tables = Tables-leaf end k1 role1 free1 c q (px 0 va) e tb at lj;
        root = root1;
        outside = λ w lw h.
            find-leaf_other end k1 role1 free1 c q (px 0 va) e tb at lj 2 pagetable space w root1
              (other_page w lw h)
            ∙ kp.maps pagetable 2 space w root;
        spaces = λ o s at_o ne.
            let at1 = kp.roles o 2 s at_o in
            (
              at1,
              λ w.
                  find-leaf_other end k1 role1 free1 c q (px 0 va) e tb at lj 2 o s w at1
                    (λ d p. ne (down-space s space w va d))
                  ∙ kp.maps o 2 s w at_o,
            );
        pages = λ p al n out.
            let (n1, out1, same) = kp.pages p al n out in
            (
              n1,
              out1,
              λ a h. pages-leaf end k1 role1 free1 c q (px 0 va) e tb at lj p a al n1 h ∙ same a h,
            );
      }

  -- The new mapping of the page itself.
  pub lookup-leaf :
      Reaches 2 k1.mem pagetable va c
      → lookup (update k1.mem (slot c (px 0 va)) e) pagetable va
        ≡ (if is_valid e then some e else none)
  lookup-leaf reach =
      let q = down 2 space va in
      let lj = px_lt 0 va in
      let mem2 = update k1.mem (slot c (px 0 va)) e in
      let reach2 =
        Reaches-leaf end k1 role1 free1 c q (px 0 va) e tb at lj 2 pagetable space va c
          (kp.roles pagetable 2 space root) reach in
      find-Reaches 2 mem2 pagetable va c reach2
      ∙ (unfold find in rw (==_refl (slot c (px 0 va))) refl)

  -- The mapping of the page before.
  pub lookup-before :
      Reaches 2 k1.mem pagetable va c
      → lookup k.mem pagetable va
        ≡ (if is_valid (k1.mem (slot c (px 0 va))) then some (k1.mem (slot c (px 0 va))) else none)
  lookup-before reach =
      sym (kp.maps pagetable 2 space va root)
      ∙ find-Reaches 2 k1.mem pagetable va c reach
      ∙ (unfold find in refl)
