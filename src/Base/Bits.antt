-- ===== src/Base/Bits.antt =====
-- Single bits of a byte, checked over every byte and every pair of positions.
use Prim.Native.Nat.{ℕ, zero, suc, ◌-◌, ◌^◌, ◌<◌, bit_and, bit_or}
use mathlib.Core.Path.{◌≡◌, refl}
use mathlib.Core.Bool.{Bool, true, false, not, ◌&&◌, ◌||◌}
use native.Mathlib.Omega.{arith}
use halo_os.Base.Tests.{ltb, ◌==◌}

-- `x & (1 << p)` is not 0.
abbrev pub test_bit : ℕ → ℕ → Bool
test_bit x p = not (bit_and x (2 ^ p) == 0)

abbrev pub same : Bool → Bool → Bool
same true b = b
same false b = not b

same-eq : (a b : Bool) → same a b ≡ true → a ≡ b
same-eq true true h = refl
same-eq true false h = cc
same-eq false true h = h
same-eq false false h = refl

all_below : ℕ → (ℕ → Bool) → Bool
all_below zero f = true
all_below (suc n) f = f n && all_below n f

all_below_sound : (n : ℕ) (f : ℕ → Bool) (x : ℕ) → all_below n f ≡ true → x < n → f x ≡ true
unfolding all_below
all_below_sound zero f x h lt = absurd (omega arith)
all_below_sound (suc n) f x h lt = ground (arith, all_below_sound n f x)

-- A property of a byte and two bit positions.
table : (ℕ → ℕ → ℕ → Bool) → Bool
unfolding all_below
table f = all_below 256 (λ x. all_below 8 (λ p. all_below 8 (λ q. f x p q)))

table_sound :
    (f : ℕ → ℕ → ℕ → Bool) (x p q : ℕ) → table f ≡ true → x < 256 → p < 8 → q < 8 → f x p q ≡ true
unfolding table
table_sound f x p q h hx hp hq =
    all_below_sound 8 (λ b. f x p b) q
      (all_below_sound 8 (λ a. all_below 8 (λ b. f x a b)) p
        (all_below_sound 256 (λ z. all_below 8 (λ a. all_below 8 (λ b. f z a b))) x h hx) hp)
      hq

set_table : table (λ x p q. same (test_bit (bit_or x (2 ^ p)) q) ((p == q) || test_bit x q)) ≡ true
unfolding table
set_table = refl

pub test_bit-set :
    (x p q : ℕ)
    → x < 256
    → p < 8
    → q < 8
    → test_bit (bit_or x (2 ^ p)) q ≡ ((p == q) || test_bit x q)
test_bit-set x p q hx hp hq = same-eq _ _ (
    table_sound (λ x p q. same (test_bit (bit_or x (2 ^ p)) q) ((p == q) || test_bit x q)) x p q
      set_table hx hp hq)

clear_table :
    table (λ x p q. same (test_bit (bit_and x (255 - 2 ^ p)) q) (not (p == q) && test_bit x q))
    ≡ true
unfolding table
clear_table = refl

pub test_bit-clear :
    (x p q : ℕ)
    → x < 256
    → p < 8
    → q < 8
    → test_bit (bit_and x (255 - 2 ^ p)) q ≡ (not (p == q) && test_bit x q)
test_bit-clear x p q hx hp hq = same-eq _ _ (
    table_sound
      (λ x p q. same (test_bit (bit_and x (255 - 2 ^ p)) q) (not (p == q) && test_bit x q)) x p q
      clear_table hx hp hq)

range_table :
    table (λ x p q. ltb (bit_or x (2 ^ p)) 256 && ltb (bit_and x (255 - 2 ^ p)) 256) ≡ true
unfolding table
range_table = refl

pub set-clear-lt :
    (x p : ℕ) → x < 256 → p < 8 → (bit_or x (2 ^ p) < 256) × (bit_and x (255 - 2 ^ p) < 256)
set-clear-lt x p hx hp =
    let h =
      table_sound (λ x p q. ltb (bit_or x (2 ^ p)) 256 && ltb (bit_and x (255 - 2 ^ p)) 256) x p 0
        range_table hx hp (omega arith) in
    ground arith
