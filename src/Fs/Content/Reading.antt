-- ===== src/Fs/Content/Reading.antt =====
-- The bytes that readi of src/kernel/fs.c delivers.
use halo_os.Base.{
  ℕ, zero, suc, ◌+◌, ◌-◌, ◌/◌, ◌%◌, ◌^◌, ◌≤◌, ◌<◌, ◌≡◌, refl, sym, ap, ap₂, ◌∙◌, Bool, false, ◌||◌,
  ltb, if◌then◌else◌, arith, min, Bool-cases, inl, inr, ltb→lt, ltb→le, List, [], ◌∷◌, ◌++◌, some,
}
use native.Mathlib.Nat.{mod-add-mod, mod-eq_of_lt, mod_self}
use halo_os.Base.Outcome.{Outcome, ok}
use halo_os.Fs.Layout.{Superblock, Blocks, bsize}
use halo_os.Fs.Dinode.{Inode}
use halo_os.Fs.Content.{bmap, tabulate, Read, read_loop, readi}

tabulate-add :
    (f : ℕ → ℕ) (i a b : ℕ) → tabulate f i (a + b) ≡ tabulate f i a ++ tabulate f (i + a) b
tabulate-add f i zero b =
    ap₂ (tabulate f) {x = i} {y = i + 0} {u = 0 + b} {v = b} (omega arith) (omega arith)
tabulate-add f i (suc a) b =
    let e : suc a + b ≡ suc (a + b) = omega arith in
    let g : i + suc a ≡ i + 1 + a = omega arith in
    rw (e, g) (ap (λ l. f i ∷ l) (tabulate-add f (i + 1) a b))

tabulate-congr :
    (f g : ℕ → ℕ) (i j n : ℕ)
    → ((k : ℕ) → k < n → f (i + k) ≡ g (j + k))
    → tabulate f i n ≡ tabulate g j n
tabulate-congr f g i j zero h = refl
tabulate-congr f g i j (suc n) h =
    let e : i + 0 ≡ i = omega arith in
    let e' : j + 0 ≡ j = omega arith in
    ap₂ ◌∷◌ (ap f (sym e) ∙ h 0 (omega arith) ∙ ap g e') (
      tabulate-congr f g (i + 1) (j + 1) n
        λ k lt. ap f (omega arith) ∙ h (k + 1) (omega arith) ∙ ap g (omega arith))

-- The block of offset `off` is mapped to `a`, so that bmap changes nothing.
abbrev pub MapsTo : Superblock → Inode → Blocks → (off a : ℕ) → Type 0
MapsTo sb ip d off a = bmap sb ip d (off / bsize) ≡ ok (a, ip, d)

-- What the code delivers at position `i`: since `off` stays in the loop, a read that goes past its
-- first block starts over at `off`.
abbrev pub delivered : Blocks → (a off i : ℕ) → ℕ
delivered d a off i = d a (off % bsize + i % (bsize - off % bsize))

abbrev pub never : ℕ → Bool
never dst = false

module _ (sb : Superblock) (ip : Inode) (d : Blocks) (a off n : ℕ) (m : MapsTo sb ip d off a) where
  -- The rest of a block.
  abbrev room : ℕ
  room = bsize - off % bsize

  mod-of-start : (tot i : ℕ) → tot % room ≡ 0 → i < room → (tot + i) % room ≡ i
  mod-of-start tot i z lt =
      sym (mod-add-mod tot room i)
      ∙ ap (λ x. (x + i) % room) z
      ∙ ap (λ x. x % room) {x = 0 + i} {y = i} (omega arith)
      ∙ mod-eq_of_lt lt

  mod-next : (tot : ℕ) → tot % room ≡ 0 → (tot + room) % room ≡ 0
  mod-next tot z =
      sym (mod-add-mod tot room room)
      ∙ ap (λ x. (x + room) % room) z
      ∙ ap (λ x. x % room) {x = 0 + room} {y = room} (omega arith)
      ∙ mod_self room

  chunk :
      (tot k : ℕ)
      → tot % room ≡ 0
      → k ≤ room
      → tabulate (d a) (off % bsize) k ≡ tabulate (delivered d a off) tot k
  chunk tot k z le =
      tabulate-congr (d a) (delivered d a off) (off % bsize) tot k
        λ i lt. ap (λ x. d a (off % bsize + x)) (sym (mod-of-start tot i z (omega arith)))

  -- The result of a read of `n` bytes.
  abbrev whole : Read
  whole = record { count = some n; out = tabulate (delivered d a off) 0 n; ip = ip; blocks = d }

  finished :
      (tot : ℕ) (out : List ℕ)
      → tot ≡ n
      → out ≡ tabulate (delivered d a off) 0 tot
      → ◌≡◌ {A = Outcome Read}
          (ok (record { count = some tot; out = out; ip = ip; blocks = d }))
          (ok whole)
  finished tot out t e =
      ap₂ (λ x o. ok (record { count = some x; out = o; ip = ip; blocks = d })) t
        (e ∙ ap (tabulate (delivered d a off) 0) t)

  read_loop-delivered :
      (fuel dst tot : ℕ) (out : List ℕ)
      → tot ≤ n
      → n - tot ≤ fuel
      → (tot < n → tot % room ≡ 0)
      → out ≡ tabulate (delivered d a off) 0 tot
      → read_loop never sb off n fuel dst tot out ip d ≡ ok whole
  unfolding read_loop
  read_loop-delivered zero dst tot out le fuel z e = finished tot out (omega arith) e
  read_loop-delivered (suc f) dst tot out le fuel z e = elim (Bool-cases (ltb tot n)) [
    | inr stop ↦ rw stop (finished tot out (omega (arith, ltb→le tot n stop)) e)
    | inl more ↦
        let lt = ltb→lt tot n more in
        let k = min (n - tot) room in
        rw (more, m)
          (read_loop-delivered f (dst + k) (tot + k) (out ++ tabulate (d a) (off % bsize) k)
            (omega arith) (omega arith)
            (λ short. ap (λ x. (tot + x) % room) (omega arith) ∙ mod-next tot (z lt))
            (ap₂ ◌++◌ e (
                chunk tot k (z lt) (omega arith)
                ∙ ap (λ x. tabulate (delivered d a off) x k) (omega arith))
              ∙ sym (tabulate-add (delivered d a off) 0 tot k)))
  ]

pub readi-delivered :
    (sb : Superblock) (ip : Inode) (d : Blocks) (dst off n a : ℕ)
    → MapsTo sb ip d off a
    → off ≤ ip.size
    → off + n < 2 ^ 32
    → let k = min n (ip.size - off) in
      readi never sb ip d dst off n
      ≡ ok (record { count = some k; out = tabulate (delivered d a off) 0 k; ip = ip; blocks = d })
unfolding readi
readi-delivered sb ip d dst off n a m le small =
    let w : (off + n) % 2 ^ 32 ≡ off + n = omega arith in
    let c : (ltb ip.size off || ltb (off + n) off) ≡ false = ground arith in
    let k : (if ltb ip.size (off + n) then ip.size - off else n) ≡ min n (ip.size - off) =
      ground arith in
    rw (w, c, k)
      (read_loop-delivered sb ip d a off (min n (ip.size - off)) m (min n (ip.size - off)) dst 0 []
        (omega arith) (omega arith) (λ lt. omega arith) refl)
