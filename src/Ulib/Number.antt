-- ===== src/Ulib/Number.antt =====
-- atoi of src/user/ulib.c against the number that the characters stand for, and as the inverse of
-- the kernel's printInt.
use halo_os.Base.{
  ℕ, zero, suc, ◌+◌, ◌-◌, ◌*◌, ◌%◌, ◌^◌, ◌≤◌, ◌<◌, ◌≡◌, Bool, true, false, ◌&&◌, some, List, [],
  ◌∷◌, arith, leb, length,
}
use halo_os.Base.Memory.{Mem}
use halo_os.Print.Decimal.{value, Digits}
use halo_os.Ulib.{atoi_loop, atoi}

-- The bytes from `s` on are those of the list.
abbrev pub Holds : Mem → ℕ → List ℕ → Type 0
Holds m s [] = Unit
Holds m s (c ∷ cs) = (m s ≡ c) × Holds m (s + 1) cs

abbrev is_digit : ℕ → Bool
is_digit c = leb 48 c && leb c 57

n-le-value : (n : ℕ) (cs : List ℕ) → Digits cs → n ≤ value n cs
n-le-value n [] h = omega arith
n-le-value n (c ∷ cs) h = omega (arith, n-le-value (n * 10 + c - 48) cs h.2)

atoi_loop-value :
    (f : ℕ) (m : Mem) (s n : ℕ) (cs : List ℕ)
    → Holds m s cs
    → Digits cs
    → is_digit (m (s + length cs)) ≡ false
    → length cs < f
    → value n cs < 2 ^ 32
    → atoi_loop f m s n ≡ some (value n cs)
unfolding atoi_loop
atoi_loop-value zero m s n cs h ds end lt small = absurd (omega arith)
atoi_loop-value (suc f) m s n [] h ds end lt small =
    let e : s + 0 ≡ s = omega arith in let stop = rw e at end in rw stop
atoi_loop-value (suc f) m s n (c ∷ cs) h ds end lt small =
    let go : is_digit (m s) ≡ true = ground arith in
    let e : s + suc (length cs) ≡ s + 1 + length cs = omega arith in
    let w : (n * 10 + m s - 48) % 2 ^ 32 ≡ n * 10 + c - 48 =
      omega (arith, h.0, n-le-value (n * 10 + c - 48) cs ds.2) in
    rw (go, w)
      (atoi_loop-value f m (s + 1) (n * 10 + c - 48) cs h.1 ds.2 (rw e at end) (omega arith) small)

-- atoi of a string that begins with digits, whose number fits 31 bits, returns that number when the
-- byte behind the digits is no digit; fuel beyond the number of digits is enough.
pub atoi-value :
    (fuel : ℕ) (m : Mem) (s : ℕ) (cs : List ℕ)
    → Holds m s cs
    → Digits cs
    → is_digit (m (s + length cs)) ≡ false
    → length cs < fuel
    → value 0 cs < 2 ^ 31
    → atoi fuel m s ≡ some (value 0 cs)
unfolding atoi
atoi-value fuel m s cs h ds end lt small = atoi_loop-value fuel m s 0 cs h ds end lt (omega arith)
