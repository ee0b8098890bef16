-- ===== src/Fs/Directory/Scan.antt =====
-- The loop of inodeByName and dirlink over a directory of one block.
use halo_os.Base.{
  ℕ, zero, suc, ◌+◌, ◌-◌, ◌*◌, ◌/◌, ◌%◌, ◌^◌, ◌≤◌, ◌<◌, ◌≡◌, ◌≢◌, refl, sym, ap, subst, ◌∙◌, Bool,
  true, false, ◌⊎◌, some, ltb, ◌==◌, arith, Bool-cases, inl, inr, min,
}
use native.Mathlib.Nat.{mod-eq_of_lt}
use halo_os.Base.Memory.{Mem}
use halo_os.Base.Outcome.{Outcome, ok}
use halo_os.Util.Move.{inside}
use halo_os.Fs.Layout.{Superblock, Blocks, bsize}
use halo_os.Fs.Dinode.{Inode}
use halo_os.Fs.Content.{bmap, tabulate, readi, store_bytes}
use halo_os.Fs.Content.Mapping.{bmap-direct}
use halo_os.Fs.Content.Reading.{delivered, readi-delivered}
use halo_os.Fs.Directory.{dir_loop, kernel}
use halo_os.Fs.Content.Stored.{store_bytes-tabulate}

-- A directory of `n` entries, all in the block `a`.
pub record OneBlock (sb : Superblock) (ip : Inode) (d : Blocks) (a n : ℕ) : Type 0 where
  pub at : ip.addrs 0 ≡ a
  pub not_null : a ≢ 0
  pub size : ip.size ≡ 16 * n
  pub fits : n ≤ 64

-- `m'` has the entry `i` of the block at `de`, and elsewhere it is `m`.
pub record Holds (bytes : ℕ → ℕ) (de i : ℕ) (m m' : Mem) : Type 0 where
  pub entry : (j : ℕ) → j < 16 → m' (de + j) ≡ bytes (16 * i + j)
  pub outside : (b : ℕ) → inside de 16 b ≡ false → m' b ≡ m b

pub bmap-OneBlock :
    (sb : Superblock) (ip : Inode) (d : Blocks) (a n i : ℕ)
    → OneBlock sb ip d a n
    → i < 64
    → bmap sb ip d (16 * i / bsize) ≡ ok (a, ip, d)
bmap-OneBlock sb ip d a n i one lt =
    let z : 16 * i / bsize ≡ 0 = omega arith in
    let there : ip.addrs 0 ≢ 0 = λ e. one.not_null (sym one.at ∙ e) in
    ap (bmap sb ip d) z ∙ bmap-direct sb ip d 0 (omega arith) there ∙ ap (λ x. ok (x, ip, d)) one.at

module _ (sb : Superblock) (ip : Inode) (d : Blocks) (a n de : ℕ) (one : OneBlock sb ip d a n) where
  -- The memory behind the read of entry `i`.
  abbrev pub with_entry : Mem → ℕ → Mem
  with_entry m i = store_bytes m de (tabulate (delivered d a (16 * i)) 0 16)

  readi-entry :
      (i : ℕ)
      → i < n
      → readi kernel sb ip d de (16 * i) 16
        ≡ ok (record {
          count = some 16;
          out = tabulate (delivered d a (16 * i)) 0 16;
          ip = ip;
          blocks = d;
        })
  readi-entry i lt =
      let k : min 16 (ip.size - 16 * i) ≡ 16 = omega (arith, one.size) in
      let small : 16 * i + 16 < 2 ^ 32 = omega (arith, one.fits) in
      let in_file : 16 * i ≤ ip.size = omega (arith, one.size) in
      let r =
        readi-delivered sb ip d de (16 * i) 16 a
          (bmap-OneBlock sb ip d a n i one (omega (arith, one.fits))) in_file small in
      subst
        (λ x.
          readi kernel sb ip d de (16 * i) 16
          ≡ ok (record {
            count = some x;
            out = tabulate (delivered d a (16 * i)) 0 x;
            ip = ip;
            blocks = d;
          }))
        k r

  pub Holds-with_entry :
      (m0 m : Mem) (i : ℕ)
      → i < n
      → ((b : ℕ) → inside de 16 b ≡ false → m b ≡ m0 b)
      → Holds (d a) de i m0 (with_entry m i)
  Holds-with_entry m0 m i lt same = record {
    entry = λ j lj.
        let y : inside de 16 (de + j) ≡ true = ground arith in
        let e : 0 + (de + j - de) ≡ j = omega arith in
        let o : 16 * i % bsize ≡ 16 * i = omega (arith, one.fits) in
        let r : j % (bsize - 16 * i) ≡ j = mod-eq_of_lt (omega (arith, one.fits)) in
        store_bytes-tabulate m (delivered d a (16 * i)) de 0 16 (de + j) ∙ rw (y, e, o, r) refl;
    outside = λ b h. store_bytes-tabulate m (delivered d a (16 * i)) de 0 16 b ∙ rw h (same b h);
  }

  -- What the loop finds from entry `i` on, if its test on the memory with an entry is `test`: the
  -- first entry that passes the test, or that none does.
  abbrev pub Scans :
      (stop : Mem → Bool) (test : ℕ → Bool)
      → (m0 : Mem) → (i : ℕ) → Outcome (Bool × ℕ × Inode × Blocks × Mem)
      → Type 0
  Scans stop test m0 i r =
      ((k : ℕ) × (i ≤ k)
        × (k < n)
        × (test k ≡ true)
        × ((j : ℕ) → i ≤ j → j < k → test j ≡ false)
        × (m' : Mem) × Holds (d a) de k m0 m'
        × (r ≡ ok (true, 16 * k, ip, d, m')))
      ⊎ (((j : ℕ) → i ≤ j → j < n → test j ≡ false)
          × (m' : Mem) × ((b : ℕ) → inside de 16 b ≡ false → m' b ≡ m0 b)
          × (r ≡ ok (false, 16 * n, ip, d, m')))

  module _ (stop : Mem → Bool) (test : ℕ → Bool) (m0 : Mem)
      (tests : (i : ℕ) (m : Mem) → i < n → Holds (d a) de i m0 m → stop m ≡ test i) where
    Scans-next :
        (i : ℕ) (r : Outcome (Bool × ℕ × Inode × Blocks × Mem))
        → test i ≡ false
        → Scans stop test m0 (suc i) r
        → Scans stop test m0 i r
    Scans-next i r no_stop (inl (k, le, lt, t, before, m', h, e)) =
        inl (k, omega arith, lt, t, earlier, m', h, e)
      where
        earlier : (j : ℕ) → i ≤ j → j < k → test j ≡ false
        earlier j lo hi = elim (Bool-cases (j == i)) [
          | inl same ↦ let q : j ≡ i = ground arith in ap test q ∙ no_stop
          | inr other ↦ before j (ground arith) hi
        ]
    Scans-next i r no_stop (inr (none_here, m', h, e)) = inr (earlier, m', h, e)
      where
        earlier : (j : ℕ) → i ≤ j → j < n → test j ≡ false
        earlier j lo hi = elim (Bool-cases (j == i)) [
          | inl same ↦ let q : j ≡ i = ground arith in ap test q ∙ no_stop
          | inr other ↦ none_here j (ground arith) hi
        ]

    pub dir_loop-Scans :
        (fuel i : ℕ) (m : Mem)
        → i ≤ n
        → n < fuel + i
        → ((b : ℕ) → inside de 16 b ≡ false → m b ≡ m0 b)
        → Scans stop test m0 i (dir_loop stop sb de fuel (16 * i) ip d m)
    unfolding dir_loop
    dir_loop-Scans zero i m le lt same = absurd (omega arith)
    dir_loop-Scans (suc f) i m le lt same = elim (Bool-cases (ltb i n)) [
      | inr end ↦
          let at_end : i ≡ n = ground arith in
          let past : ltb (16 * i) ip.size ≡ false = ground (arith, one.size) in
          rw past (inr (λ j lo hi. absurd (omega arith), m, same, rw at_end refl))
      | inl more ↦
          let li : i < n = ground arith in
          let inner : ltb (16 * i) ip.size ≡ true = ground (arith, one.size) in
          let h = Holds-with_entry m0 m i li same in
          let t = tests i (with_entry m i) li h in
          let next : 16 * i + 16 ≡ 16 * suc i = omega arith in
          rw (inner, readi-entry i li, t)
            (elim (Bool-cases (test i)) [
              | inl y ↦ rw y (
                  inl (
                    i,
                    omega arith,
                    li,
                    y,
                    λ j lo hi. absurd (omega arith),
                    with_entry m i,
                    h,
                    refl,
                  ))
              | inr no_stop ↦
                  rw (no_stop, next)
                    (Scans-next i (dir_loop stop sb de f (16 * suc i) ip d (with_entry m i)) no_stop
                      (dir_loop-Scans f (suc i) (with_entry m i) (omega arith) (omega arith)
                        h.outside))
            ])
    ]
