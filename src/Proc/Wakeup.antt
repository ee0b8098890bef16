-- ===== src/Proc/Wakeup.antt =====
-- wakeup of src/kernel/proc.c, process by process.
use halo_os.Base.{
  ℕ, zero, suc, ◌+◌, ◌≡◌, refl, ap, ◌∙◌, Bool, true, false, not, ◌&&◌, ltb, leb, ◌==◌,
  if◌then◌else◌, arith, Bool-cases, inl, inr, ==_iff, ==_refl,
}
use halo_os.Proc.{
  State, Chan, Proc, Table, nproc, is_sleeping, same_chan, put, wake_one, wakeup_loop, wakeup,
}

-- What wakeup makes of process `j`.
abbrev pub woken : (me : ℕ) → Chan → ℕ → Proc → Proc
woken me chan j p =
    if not (j == me) && (is_sleeping p.state && same_chan p.chan chan)
    then record p { state = State.runnable }
    else p

abbrev pub among : (i n j : ℕ) → Bool
among i n j = leb i j && ltb j (i + n)

module _ (me : ℕ) (chan : Chan) where
  procs-wake_one :
      (t : Table) (i j : ℕ)
      → (wake_one me chan t i).procs j ≡ (if j == i then woken me chan j (t.procs j) else t.procs j)
  unfolding wake_one
  procs-wake_one t i j = elim (Bool-cases (j == i)) [
    | inl e ↦
        rw ((==_iff j i).0 e)
          (go (not (i == me) && (is_sleeping (t.procs i).state && same_chan (t.procs i).chan chan)))
    | inr ne ↦ rw ne (
        other ne
          (not (i == me) && (is_sleeping (t.procs i).state && same_chan (t.procs i).chan chan)))
  ]
    where
      go :
          (b : Bool)
          → (if b then put t i (record (t.procs i) { state = State.runnable }) else t).procs i ≡ (
              if i == i
              then (if b then record (t.procs i) { state = State.runnable } else t.procs i)
              else t.procs i)
      go true = rw (==_refl i)
      go false = rw (==_refl i)

      other :
          (j == i) ≡ false
          → (b : Bool)
          → (if b then put t i (record (t.procs i) { state = State.runnable }) else t).procs j
            ≡ t.procs j
      other ne true = rw ne
      other ne false = refl

  table-wake_one :
      (t : Table) (i : ℕ)
      → ((wake_one me chan t i).next_pid ≡ t.next_pid) × ((wake_one me chan t i).initp ≡ t.initp)
  unfolding wake_one
  table-wake_one t i =
      go (not (i == me) && (is_sleeping (t.procs i).state && same_chan (t.procs i).chan chan))
    where
      go :
          (b : Bool)
          → ((if b then put t i (record (t.procs i) { state = State.runnable }) else t).next_pid
              ≡ t.next_pid)
            × ((if b then put t i (record (t.procs i) { state = State.runnable }) else t).initp
                ≡ t.initp)
      go true = (refl, refl)
      go false = (refl, refl)

  procs-wakeup_loop :
      (n i : ℕ) (t : Table) (j : ℕ)
      → (wakeup_loop n i me chan t).procs j
        ≡ (if among i n j then woken me chan j (t.procs j) else t.procs j)
  unfolding wakeup_loop
  procs-wakeup_loop zero i t j = let e : among i 0 j ≡ false = ground arith in rw e
  procs-wakeup_loop (suc n) i t j =
      procs-wakeup_loop n (i + 1) (wake_one me chan t i) j
      ∙ ap (λ p. if among (i + 1) n j then woken me chan j p else p) (procs-wake_one t i j)
      ∙ elim (Bool-cases (j == i)) [
        | inl e ↦
            let a : among (i + 1) n j ≡ false = ground arith in
            let b : among i (suc n) j ≡ true = ground arith in rw (e, a, b)
        | inr ne ↦ let a : among (i + 1) n j ≡ among i (suc n) j = ground arith in rw (ne, a)
      ]

  table-wakeup_loop :
      (n i : ℕ) (t : Table)
      → ((wakeup_loop n i me chan t).next_pid ≡ t.next_pid)
        × ((wakeup_loop n i me chan t).initp ≡ t.initp)
  unfolding wakeup_loop
  table-wakeup_loop zero i t = (refl, refl)
  table-wakeup_loop (suc n) i t =
      let (a, b) = table-wakeup_loop n (i + 1) (wake_one me chan t i) in
      let (c, d) = table-wake_one t i in (a ∙ c, b ∙ d)

  -- wakeup makes runnable exactly the processes of the table, other than the caller, that sleep on
  -- the channel, and changes nothing else of them, of other processes or of the table.
  pub wakeup-woken :
      (t : Table) (j : ℕ)
      → ((wakeup me chan t).procs j
          ≡ (if ltb j nproc then woken me chan j (t.procs j) else t.procs j))
        × ((wakeup me chan t).next_pid ≡ t.next_pid)
        × ((wakeup me chan t).initp ≡ t.initp)
  unfolding wakeup
  wakeup-woken t j =
      let e : among 0 nproc j ≡ ltb j nproc = ground arith in
      let (a, b) = table-wakeup_loop nproc 0 t in
      (
        procs-wakeup_loop nproc 0 t j
            ∙ ap (λ c. if c then woken me chan j (t.procs j) else t.procs j) e,
        a,
        b,
      )
