-- ===== src/Print/Decimal.antt =====
-- printInt of src/kernel/print.c: the digits that it prints are those of the number.
use mathlib.Core.Option
use halo_os.Base.{
  ℕ, zero, suc, ◌+◌, ◌-◌, ◌*◌, ◌/◌, ◌%◌, ◌^◌, ◌≤◌, ◌<◌, ◌≡◌, refl, false, Option, none, some, List,
  [], ◌∷◌, arith, ◌==◌, leb, if◌then◌else◌, get_elem?, Bool-cases, inl, inr, ap, ◌∙◌, ◌≢◌, ne_of_==,
}
use native.Mathlib.Nat.{pow-suc}
use halo_os.Base.Int.{pos, negsuc, quot, is_positive}
use halo_os.Print.{nums, nums_at, digits_loop, print_int}

pub digit_of : (d : ℕ) → d < 10 → get_elem? nums d ≡ some (48 + d)
digit_of zero h = refl
digit_of (suc zero) h = refl
digit_of (suc (suc zero)) h = refl
digit_of (suc (suc (suc zero))) h = refl
digit_of (suc (suc (suc (suc zero)))) h = refl
digit_of (suc (suc (suc (suc (suc zero))))) h = refl
digit_of (suc (suc (suc (suc (suc (suc zero)))))) h = refl
digit_of (suc (suc (suc (suc (suc (suc (suc zero))))))) h = refl
digit_of (suc (suc (suc (suc (suc (suc (suc (suc zero)))))))) h = refl
digit_of (suc (suc (suc (suc (suc (suc (suc (suc (suc zero))))))))) h = refl
digit_of (suc (suc (suc (suc (suc (suc (suc (suc (suc (suc d)))))))))) h = absurd (omega arith)

-- The number that decimal characters stand for, behind the digits of `n`.
abbrev pub value : ℕ → List ℕ → ℕ
value n [] = n
value n (c ∷ cs) = value (n * 10 + c - 48) cs

-- Every character is one of `0` to `9`.
abbrev pub Digits : List ℕ → Type 0
Digits [] = Unit
Digits (c ∷ cs) = (48 ≤ c) × (c ≤ 57) × Digits cs

-- What a run of the loop has printed.
abbrev pub Printed : (v : ℕ) (out : List ℕ) → Option (List ℕ) → Type 0
Printed v out r = (ds : List ℕ) × (r ≡ some ds) × (value 0 ds ≡ value v out) × Digits ds

digits_loop-last :
    (room v : ℕ) (out : List ℕ)
    → v / 10 ≡ 0
    → digits_loop (suc room) (pos v) out ≡ some ((48 + v % 10) ∷ out)
unfolding digits_loop nums_at Option.bind
digits_loop-last room v out e = rw (e, digit_of (v % 10) (omega arith))

digits_loop-more :
    (room v : ℕ) (out : List ℕ)
    → (v / 10 == 0) ≡ false
    → digits_loop (suc room) (pos v) out ≡ digits_loop room (pos (v / 10)) ((48 + v % 10) ∷ out)
unfolding digits_loop nums_at Option.bind
digits_loop-more room v out e = rw (e, digit_of (v % 10) (omega arith))

room_pos : (room v : ℕ) → v < 10 ^ suc room → v / 10 ≢ 0 → 1 ≤ room
room_pos zero v lt ne = absurd (ne (omega arith))
room_pos (suc room) v lt ne = omega arith

-- With `k` places for `k` digits the loop ends inside the buffer.
digits_loop-Printed :
    (room v : ℕ) (out : List ℕ)
    → v < 10 ^ room
    → 1 ≤ room
    → Digits out
    → Printed v out (digits_loop room (pos v) out)
digits_loop-Printed zero v out lt pos_room ds = absurd (omega arith)
digits_loop-Printed (suc room) v out lt pos_room ds = elim (Bool-cases (v / 10 == 0)) [
  | inl z ↦
      let e : v / 10 ≡ 0 = ground arith in
      (
        (48 + v % 10) ∷ out,
        digits_loop-last room v out e,
        ap (λ n. value n out) (omega (arith, e)),
        (omega arith, omega arith, ds),
      )
  | inr more ↦
      let ne : v / 10 ≢ 0 = ne_of_== (v / 10) 0 more in
      let lt' : v / 10 < 10 ^ room = omega (arith, pow-suc 10 room) in
      let pos_room' : 1 ≤ room = room_pos room v lt ne in
      let (r, e, eq, all) =
        digits_loop-Printed room (v / 10) ((48 + v % 10) ∷ out) lt' pos_room'
          (omega arith, omega arith, ds) in
      (r, digits_loop-more room v out more ∙ e, eq ∙ ap (λ n. value n out) (omega arith), all)
]

-- printInt prints an `int` that is not negative within its buffer of 16 bytes, as decimal digits
-- that stand for the number.
pub print_int-value :
    (v : ℕ)
    → v < 2 ^ 31
    → (ds : List ℕ) × (print_int (pos v) ≡ some ds) × (value 0 ds ≡ v) × Digits ds
unfolding print_int
print_int-value v h = digits_loop-Printed 16 v [] (omega arith) (omega arith) tt

-- printInt of a negative number prints the one digit 0 if 10 divides the number, and otherwise reads
-- `nums` out of range: the remainder is then negative.
pub print_int-negative :
    (n : ℕ) → print_int (negsuc n) ≡ (if (n + 1) % 10 == 0 then some (b'0' ∷ []) else none)
unfolding print_int digits_loop nums_at Option.bind
print_int-negative n =
    let f : is_positive (quot (negsuc n) 10) ≡ false = ground arith in
    elim (Bool-cases ((n + 1) % 10 == 0)) [
      | inl z ↦ let e : (n + 1) % 10 ≡ 0 = ground arith in rw (e, f) refl
      | inr more ↦ let e : leb ((n + 1) % 10) 0 ≡ false = ground arith in rw (e, more, f) refl
    ]
