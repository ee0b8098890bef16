-- ===== src/Spinlock/Nesting.antt =====
-- push_off and pop_off of src/kernel/spinlock.c are matched: they nest, and release undoes acquire.
use halo_os.Base.{
  ℕ, zero, suc, ◌+◌, ◌-◌, ◌≡◌, ◌≢◌, inl, inr, refl, Bool, true, false, ◌&&◌, none, some, arith,
  ◌==◌, if◌then◌else◌,
}
use halo_os.Base.{Bool-cases, ne_of_==, ==_refl}
use halo_os.Base.Outcome.{Outcome, ok, panic, ◌>>=◌}
use halo_os.Spinlock.{Cpu, Lock, holdinglock, push_off, pop_one, pop_off, acquire, release}

-- Interrupts are off while any push_off is open.
abbrev pub IsMasked : Cpu → Type 0
IsMasked c = c.noff ≢ 0 → c.sie ≡ false

-- `n` times push_off, and `n` times pop_off.
abbrev pub pushes : ℕ → Cpu → Cpu
pushes zero c = c
pushes (suc n) c = push_off (pushes n c)

abbrev pub pops : ℕ → Cpu → Outcome Cpu
pops zero c = ok c
pops (suc n) c = pop_off c >>= pops n

sie-pop_one : (c : Cpu) → IsMasked c → (pop_one (push_off c)).sie ≡ c.sie
unfolding pop_one push_off
sie-pop_one c h = elim (Bool-cases (c.noff == 0)) [
  | inl z ↦ let e : c.noff + 1 - 1 ≡ c.noff = omega arith in rw (e, z) (go c.sie)
  | inr nz ↦ let e : c.noff + 1 - 1 ≡ c.noff = omega arith in rw (e, nz, h (ne_of_== c.noff 0 nz))
]
  where
    go : (b : Bool) → (if true && b then true else false) ≡ b
    go true = refl
    go false = refl

pop_off-push_off : (c : Cpu) → pop_off (push_off c) ≡ ok (pop_one (push_off c))
unfolding pop_off push_off
pop_off-push_off c = ground arith

noff-pop_one : (c : Cpu) → (pop_one (push_off c)).noff ≡ c.noff
unfolding pop_one push_off
noff-pop_one c = omega arith

-- Inside another push_off, the pair is the identity.
pop_off-push_off_inner : (c : Cpu) → IsMasked c → c.noff ≢ 0 → pop_off (push_off c) ≡ ok c
unfolding pop_off push_off
pop_off-push_off_inner c h ne = unfold pop_one in ground (arith, h ne)

push_off-IsMasked : (c : Cpu) → IsMasked (push_off c) × ((push_off c).noff ≡ c.noff + 1)
unfolding push_off
push_off-IsMasked c = (λ h. refl, refl)

pushes-IsMasked :
    (n : ℕ) (c : Cpu) → IsMasked c → IsMasked (pushes n c) × ((pushes n c).noff ≡ c.noff + n)
pushes-IsMasked zero c h = (h, omega arith)
pushes-IsMasked (suc n) c h =
    let (_, e) = pushes-IsMasked n c h in
    let (m, f) = push_off-IsMasked (pushes n c) in (m, omega arith)

-- Any number of push_offs and as many pop_offs end without a panic, with the nesting depth and the
-- interrupt enable of the start: interrupts come back on only at the outermost pop_off, and only
-- if they were on.
pub pops-pushes :
    (n : ℕ) (c : Cpu)
    → IsMasked c
    → (d : Cpu) × (pops n (pushes n c) ≡ ok d) × (d.noff ≡ c.noff) × (d.sie ≡ c.sie)
pops-pushes zero c h = (c, refl, refl, refl)
pops-pushes (suc zero) c h =
    (pop_one (push_off c), rw (pop_off-push_off c), noff-pop_one c, sie-pop_one c h)
pops-pushes (suc (suc n)) c h =
    let (m, e) = pushes-IsMasked (suc n) c h in
    let (d, r, depth, sie) = pops-pushes (suc n) c h in
    (d, rw (pop_off-push_off_inner (pushes (suc n) c) m (omega arith)) r, depth, sie)

-- release undoes acquire: a CPU that gets a free lock holds it with interrupts off, and its release
-- does not panic, frees the lock and restores the depth and the interrupt enable.
pub release-acquire :
    (c : Cpu) (k : ℕ) (l : Lock)
    → IsMasked c
    → l.locked ≡ 0
    → (c1 : Cpu) × (l1 : Lock) × (c2 : Cpu) × (l2 : Lock) × (acquire c k l ≡ ok (some (c1, l1)))
      × (holdinglock l1 k ≡ true)
      × (c1.sie ≡ false)
      × (release c1 k l1 ≡ ok (c2, l2))
      × (l2.locked ≡ 0)
      × (c2.noff ≡ c.noff)
      × (c2.sie ≡ c.sie)
unfolding acquire release holdinglock
release-acquire c k l h free =
    let l1 : Lock = record { locked = 1; cpu = some k } in
    (
      push_off c,
      l1,
      pop_one (push_off c),
      record { locked = 0; cpu = none },
      rw free,
      ==_refl k,
      unfold push_off in refl,
      rw (==_refl k, pop_off-push_off c),
      refl,
      noff-pop_one c,
      sie-pop_one c h,
    )

-- A CPU that acquires a lock that it holds panics, and so does one that releases a lock that it
-- does not hold.
pub acquire-misuse :
    (c : Cpu) (k : ℕ) (l : Lock)
    → (holdinglock l k ≡ true → acquire c k l ≡ panic)
      × (holdinglock l k ≡ false → release c k l ≡ panic)
unfolding acquire release
acquire-misuse c k l = (λ h. rw h, λ h. rw h)
