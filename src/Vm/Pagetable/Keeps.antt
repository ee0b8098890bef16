-- ===== src/Vm/Pagetable/Keeps.antt =====
-- What changes to page tables leave alone.
use halo_os.Base.{ℕ, ◌+◌, ◌%◌, ◌<◌, ◌≡◌, refl, ap, ◌∙◌, true, ◌&&◌, List, ltb, leb}
use halo_os.Vm.Kmem.{Kmem, pgsize}
use halo_os.Vm.Kmem.FreeList.{NotIn}
use halo_os.Vm.Pagetable.{is_valid, slot}
use halo_os.Vm.Pagetable.Table.{find, Role, nothing, table}

-- What changes to page tables leave alone: the tables that were there, with their valid entries and
-- what they map, and the pages that are neither free nor tables.
pub record Keeps (k k' : Kmem) (role role' : ℕ → Role) (free free' : List ℕ) : Type 0 where
  pub roles : (t level p : ℕ) → role t ≡ table level p → role' t ≡ table level p
  pub entries :
      (t level p i : ℕ)
      → role t ≡ table level p
      → i < 512
      → is_valid (k.mem (slot t i)) ≡ true
      → k'.mem (slot t i) ≡ k.mem (slot t i)
  pub maps :
      (t level p va : ℕ) → role t ≡ table level p → find level k'.mem t va ≡ find level k.mem t va
  pub pages :
      (pa : ℕ)
      → pa % pgsize ≡ 0
      → role pa ≡ nothing
      → NotIn pa free
      → (role' pa ≡ nothing)
        × NotIn pa free'
        × ((a : ℕ) → (leb pa a && ltb a (pa + pgsize)) ≡ true → k'.mem a ≡ k.mem a)

pub Keeps-refl : (k : Kmem) (role : ℕ → Role) (free : List ℕ) → Keeps k k role role free free
Keeps-refl k role free = record {
  roles = λ t l p e. e;
  entries = λ t l p i e lt v. refl;
  maps = λ t l p va e. refl;
  pages = λ pa al e out. (e, out, λ a h. refl);
}

pub Keeps-trans :
    (a b c : Kmem) (r s t : ℕ → Role) (x y z : List ℕ)
    → Keeps a b r s x y
    → Keeps b c s t y z
    → Keeps a c r t x z
Keeps-trans a b c r s t x y z f g = record {
  roles = λ u l p e. g.roles u l p (f.roles u l p e);
  entries = λ u l p i e lt v.
      let h = f.entries u l p i e lt v in
      g.entries u l p i (f.roles u l p e) lt (ap is_valid h ∙ v) ∙ h;
  maps = λ u l p va e. g.maps u l p va (f.roles u l p e) ∙ f.maps u l p va e;
  pages = λ pa al e out.
      let (e', out', h) = f.pages pa al e out in
      let (e'', out'', h') = g.pages pa al e' out' in (e'', out'', λ w i. h' w i ∙ h w i);
}
