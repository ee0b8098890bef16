-- ===== src/Vm/Pagetable/Walk.antt =====
-- What walk of src/kernel/vm.c reaches.
use halo_os.Base.{
  ℕ, zero, suc, ◌+◌, ◌*◌, ◌≡◌, refl, sym, ap, subst, ◌∙◌, Bool, true, false, Option, none, some,
  List, [],
}
use halo_os.Vm.Kmem.{Kmem}
use halo_os.Vm.Pagetable.{px, pte2pa, is_valid, slot, descend, walk_loop}
use halo_os.Vm.Pagetable.Table.{find, Role, table, Tables, px_lt}
use halo_os.Vm.Pagetable.Keeps.{Keeps, Keeps-refl, Keeps-trans}
use halo_os.Vm.Pagetable.Descend.{Descends, descend-Descends}

-- The prefix of the last table on the way to `va`, from a table with prefix `p`.
abbrev pub down : (level p va : ℕ) → ℕ
down zero p va = p
down (suc l) p va = down l (p * 512 + px (suc l) va) va

-- The entries for `va` lead from the table at `t` to that of level 0 at `c`.
abbrev pub Reaches : (level : ℕ) → (ℕ → ℕ) → (t va c : ℕ) → Type 0
Reaches zero mem t va c = t ≡ c
Reaches (suc l) mem t va c =
    (is_valid (mem (slot t (px (suc l) va))) ≡ true)
    × Reaches l mem (pte2pa (mem (slot t (px (suc l) va)))) va c

pub find-Reaches :
    (level : ℕ) (mem : ℕ → ℕ) (t va c : ℕ)
    → Reaches level mem t va c
    → find level mem t va ≡ find 0 mem c va
unfolding find
find-Reaches zero mem t va c h = rw h refl
find-Reaches (suc l) mem t va c (v, h) =
    rw v (find-Reaches l mem (pte2pa (mem (slot t (px (suc l) va)))) va c h)

-- What walk comes to, from the table at `t` of a level with prefix `p`: a table of level 0, or none,
-- if one is missing and it may not allocate, or no frame is left.
abbrev pub Walks :
    (end : ℕ)
    → (alloc : Bool) → Kmem
    → (ℕ → Role)
    → List ℕ
    → (level t p va : ℕ) → Option ℕ × Kmem
    → Type 0
Walks end alloc k role free level t p va (none, k') =
    (role' : ℕ → Role) × (free' : List ℕ) × Tables end k' role' free'
    × Keeps k k' role role' free free'
    × (alloc ≡ true → free' ≡ [])
    × (alloc ≡ false → (k' ≡ k) × (find level k.mem t va ≡ none))
Walks end alloc k role free level t p va (some c, k') =
    (role' : ℕ → Role) × (free' : List ℕ) × Tables end k' role' free'
    × Keeps k k' role role' free free'
    × (role' c ≡ table 0 (down level p va))
    × Reaches level k'.mem t va c
    × (alloc ≡ false → k' ≡ k)

walk_loop-none :
    (level va : ℕ) (alloc : Bool) (k : Kmem) → walk_loop level va alloc (none, k) ≡ (none, k)
unfolding walk_loop
walk_loop-none zero va alloc k = refl
walk_loop-none (suc l) va alloc k = refl

pub walk_loop-Walks :
    (end : ℕ) (alloc : Bool) (level t p va : ℕ) (k : Kmem) (role : ℕ → Role) (free : List ℕ)
    → Tables end k role free
    → role t ≡ table level p
    → Walks end alloc k role free level t p va (walk_loop level va alloc (some t, k))
unfolding walk_loop
walk_loop-Walks end alloc zero t p va k role free tb at =
    (role, free, tb, Keeps-refl k role free, at, refl, λ h. refl)
walk_loop-Walks end alloc (suc l) t p va k role free tb at =
    next
      (λ c k1 role1 free1 tb1 at1.
        walk_loop-Walks end alloc l c (p * 512 + px (suc l) va) va k1 role1 free1 tb1 at1)
      (descend alloc t (px (suc l) va) k)
      (descend-Descends end alloc k role free t l p (px (suc l) va) tb at (px_lt (suc l) va))
  where
    missing : is_valid (k.mem (slot t (px (suc l) va))) ≡ false → find (suc l) k.mem t va ≡ none
    missing v = unfold find in rw v refl

    combine :
        (c : ℕ) (k1 : Kmem) (role1 : ℕ → Role) (free1 : List ℕ)
        → Keeps k k1 role role1 free free1
        → is_valid (k1.mem (slot t (px (suc l) va))) ≡ true
        → pte2pa (k1.mem (slot t (px (suc l) va))) ≡ c
        → (alloc ≡ false → k1 ≡ k)
        → (r : Option ℕ × Kmem) → Walks end alloc k1 role1 free1 l c (p * 512 + px (suc l) va) va r
        → Walks end alloc k role free (suc l) t p va r
    combine c k1 role1 free1 kp v pa fixed (none, k2) (role2, free2, tb2, kp2, full, same) = (
      role2,
      free2,
      tb2,
      Keeps-trans k k1 k2 role role1 role2 free free1 free2 kp kp2,
      full,
      λ h.
          let (e, f) = same h in
          let e1 = fixed h in
          (
            e ∙ e1,
            unfold find in
                (let v0 : is_valid (k.mem (slot t (px (suc l) va))) ≡ true =
                    ap (λ x. is_valid (x.mem (slot t (px (suc l) va)))) (sym e1) ∙ v in
                  let c0 : pte2pa (k.mem (slot t (px (suc l) va))) ≡ c =
                    ap (λ x. pte2pa (x.mem (slot t (px (suc l) va)))) (sym e1) ∙ pa in
                  rw (v0, c0) (subst (λ x. find l x.mem c va ≡ none) e1 f)),
          ),
    )
    combine c k1 role1 free1 kp v pa fixed (some d, k2) (role2, free2, tb2, kp2, at2, reach, same) =
        let stays =
          kp2.entries t (suc l) p (px (suc l) va) (kp.roles t (suc l) p at) (px_lt (suc l) va) v in
        (
          role2,
          free2,
          tb2,
          Keeps-trans k k1 k2 role role1 role2 free free1 free2 kp kp2,
          at2,
          (
            ap is_valid stays ∙ v,
            subst (λ x. Reaches l k2.mem x va d) (sym (ap pte2pa stays ∙ pa)) reach,
          ),
          λ h. same h ∙ fixed h,
        )

    next :
        ((c : ℕ) (k1 : Kmem) (role1 : ℕ → Role) (free1 : List ℕ)
          → Tables end k1 role1 free1
          → role1 c ≡ table l (p * 512 + px (suc l) va)
          → Walks end alloc k1 role1 free1 l c
              (p * 512 + px (suc l) va)
              va
              (walk_loop l va alloc (some c, k1)))
        → (r : Option ℕ × Kmem) → Descends end alloc k role free t l p (px (suc l) va) r
        → Walks end alloc k role free (suc l) t p va (walk_loop l va alloc r)
    next ih (none, k1) (same, v, full) = rw walk_loop-none (
      role,
      free,
      subst (λ x. Tables end x role free) (sym same) tb,
      subst (λ x. Keeps k x role role free free) (sym same) (Keeps-refl k role free),
      full,
      λ h. (same, missing v),
    )
    next ih (some c, k1) (role1, free1, tb1, kp, at1, v, pa, fixed) =
        combine c k1 role1 free1 kp v pa fixed (walk_loop l va alloc (some c, k1))
          (ih c k1 role1 free1 tb1 at1)
