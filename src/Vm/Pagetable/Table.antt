-- ===== src/Vm/Pagetable/Table.antt =====
-- What a page table of src/kernel/vm.c stands for: a map from virtual pages to entries, and the
-- invariant under which its tables do not overlap.
use halo_os.Base.{
  ℕ, zero, suc, ◌+◌, ◌*◌, ◌/◌, ◌%◌, ◌^◌, ◌<◌, ◌≡◌, ◌≢◌, refl, ap, true, false, ◌&&◌, Option, none,
  some, List, ltb, leb, if◌then◌else◌, arith, Bool-cases, inl, inr,
}
use halo_os.Vm.Kmem.{Kmem, pgsize}
use halo_os.Vm.Kmem.FreeList.{IsFrame, NotIn, FreeList}
use halo_os.Vm.Pagetable.{px, pte2pa, is_valid, slot}

-- The entry for `va` in the table at `t` of a level, if every table on the way is there.
unfoldable pub find : (level : ℕ) → (ℕ → ℕ) → (t va : ℕ) → Option ℕ
find zero mem t va =
    if is_valid (mem (slot t (px 0 va))) then some (mem (slot t (px 0 va))) else none
find (suc level) mem t va =
    let pte = mem (slot t (px (suc level) va)) in
    let rest = find level mem (pte2pa pte) va in if is_valid pte then rest else none

-- The map of a page table with three levels.
abbrev pub lookup : (ℕ → ℕ) → (pagetable va : ℕ) → Option ℕ
lookup mem pagetable va = find 2 mem pagetable va

-- What a frame is used for: nothing that concerns page tables, or the table of a level for the
-- addresses with a common prefix.
pub data Role : Type 0 where
  nothing : Role
  table : (level prefix : ℕ) → Role

abbrev pub level_of : Role → ℕ
level_of nothing = 0
level_of (table l p) = suc l

abbrev pub prefix_of : Role → ℕ
prefix_of nothing = 0
prefix_of (table l p) = p

-- The prefix of the addresses that the table on the way to `va` at a level covers.
abbrev pub prefix : (level va : ℕ) → ℕ
prefix level va = va / 2 ^ (21 + 9 * level)

-- Each table is a frame outside the free list, and the entries of a table above level 0 that are
-- valid lead to the tables of their prefixes. So no two entries lead to the same table.
pub record Tables (end : ℕ) (k : Kmem) (role : ℕ → Role) (free : List ℕ) : Type 0 where
  pub end_pos : 0 < end
  pub free_list : FreeList end k free
  pub frames : (t : ℕ) → role t ≢ nothing → IsFrame end t × NotIn t free
  pub links :
      (t level p i : ℕ)
      → role t ≡ table (suc level) p
      → i < 512
      → is_valid (k.mem (slot t i)) ≡ true
      → role (pte2pa (k.mem (slot t i))) ≡ table level (p * 512 + i)

pub table-ne-nothing : (r : Role) (l p : ℕ) → r ≡ table l p → r ≢ nothing
table-ne-nothing r l p e h = absurd (omega (arith, ap level_of e, ap level_of h))

pub table_inj : (l m p q : ℕ) → table l p ≡ table m q → (l ≡ m) × (p ≡ q)
table_inj l m p q h = (omega (arith, ap level_of h), ap prefix_of h)

-- Two slots of page-aligned tables are the same only in the same table.
pub slot_inj :
    (s t i j : ℕ)
    → s % pgsize ≡ 0
    → t % pgsize ≡ 0
    → i < 512
    → j < 512
    → slot s i ≡ slot t j
    → (s ≡ t) × (i ≡ j)
slot_inj s t i j hs ht hi hj h = (omega arith, omega arith)

pub slot_inside : (t i : ℕ) → i < 512 → (leb t (slot t i) && ltb (slot t i) (t + pgsize)) ≡ true
slot_inside t i h = ground arith

-- A slot of one table is outside the page of another frame.
pub slot_outside :
    (s t i : ℕ)
    → s % pgsize ≡ 0
    → t % pgsize ≡ 0
    → i < 512
    → s ≢ t
    → (leb t (slot s i) && ltb (slot s i) (t + pgsize)) ≡ false
slot_outside s t i hs ht hi ne = ground arith

pub px_lt : (level va : ℕ) → px level va < 512
px_lt level va = omega arith

-- A change of memory that leaves every table as it is leaves what they map.
pub find_same :
    (end : ℕ) (k : Kmem) (role : ℕ → Role) (free : List ℕ) (mem' : ℕ → ℕ)
    → Tables end k role free
    → ((t level p i : ℕ) → role t ≡ table level p → i < 512 → mem' (slot t i) ≡ k.mem (slot t i))
    → (level t p va : ℕ) → role t ≡ table level p
    → find level mem' t va ≡ find level k.mem t va
unfolding find
find_same end k role free mem' tb same zero t p va e =
    let h : mem' (slot t (px 0 va)) ≡ k.mem (slot t (px 0 va)) =
      same t 0 p (px 0 va) e (px_lt 0 va) in
    rw h refl
find_same end k role free mem' tb same (suc l) t p va e =
    let i = px (suc l) va in
    let h : mem' (slot t i) ≡ k.mem (slot t i) = same t (suc l) p i e (px_lt (suc l) va) in
    elim (Bool-cases (is_valid (k.mem (slot t i)))) [
      | inl v ↦
          rw (h, v)
            (find_same end k role free mem' tb same l (pte2pa (k.mem (slot t i))) (p * 512 + i) va
              (tb.links t l p i e (px_lt (suc l) va) v))
      | inr v ↦ rw (h, v) refl
    ]
