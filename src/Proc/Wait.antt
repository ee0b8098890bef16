-- ===== src/Proc/Wait.antt =====
-- wait of src/kernel/proc.c: what one pass over the table comes to.
use halo_os.Base.{ℕ, ◌+◌, ◌≤◌, ◌<◌, ◌≡◌, ◌⊎◌, Bool, true, false}
use halo_os.Base.Outcome.{Outcome, ok, panic}
use halo_os.Proc.{
  State, Chan, Proc, Table, nproc, is_parent, is_zombie, put, freeproc, Scan, reaped, fault, kids,
  Waited, child, failed, sleeps,
}

module _ (copied : Bool) (me : ℕ) (t : Table) where
  -- Process `k` is a child of the caller.
  abbrev pub IsChild : ℕ → Type 0
  IsChild k = is_parent (t.procs k).parent me ≡ true

  abbrev pub IsZombie : ℕ → Type 0
  IsZombie k = is_zombie (t.procs k).state ≡ true

  -- What a pass over the `n` processes from `i` on may find.
  abbrev Found : (i n : ℕ) → Bool → Scan → Type 0
  Found i n have (reaped pid status t') =
      (k : ℕ) × (i ≤ k)
      × (k < i + n)
      × IsChild k
      × IsZombie k
      × (pid ≡ (t.procs k).pid)
      × (status ≡ (t.procs k).xstate)
      × (t' ≡ put t k (freeproc (t.procs k)))
  Found i n have fault =
      (copied ≡ false) × ((k : ℕ) × (i ≤ k) × (k < i + n) × IsChild k × IsZombie k)
  Found i n have (kids b) =
      ((k : ℕ) → i ≤ k → k < i + n → IsChild k → is_zombie (t.procs k).state ≡ false)
      × (b ≡ false → (k : ℕ) → i ≤ k → k < i + n → is_parent (t.procs k).parent me ≡ false)
      × (b ≡ true → (have ≡ true) ⊎ ((k : ℕ) × (i ≤ k) × (k < i + n) × IsChild k))
      × (have ≡ true → b ≡ true)

  -- What wait may come to.
  abbrev pub Waits : Outcome Waited → Type 0
  Waits panic = (copied ≡ false) × ((k : ℕ) × (0 ≤ k) × (k < nproc) × IsChild k × IsZombie k)
  Waits (ok (child pid status t')) =
      (k : ℕ) × (0 ≤ k)
      × (k < nproc)
      × IsChild k
      × IsZombie k
      × (pid ≡ (t.procs k).pid)
      × (status ≡ (t.procs k).xstate)
      × (t' ≡ put t k (freeproc (t.procs k)))
  Waits (ok failed) =
      ((k : ℕ) → k < nproc → IsChild k → is_zombie (t.procs k).state ≡ false)
      × (((k : ℕ) → k < nproc → is_parent (t.procs k).parent me ≡ false)
          ⊎ ((t.procs me).killed ≡ true))
  Waits (ok (sleeps t')) =
      ((k : ℕ) → k < nproc → IsChild k → is_zombie (t.procs k).state ≡ false)
      × ((k : ℕ) × (k < nproc) × IsChild k)
      × ((t.procs me).killed ≡ false)
      × ((t'.procs me).state ≡ State.sleeping)
      × ((t'.procs me).chan ≡ Chan.of_proc me)
