-- ===== src/Print.antt =====
-- src/kernel/print.c: printf of the kernel, as the characters that it hands to uart_putc. `none` is
-- a run that C does not define: a read outside `nums`, a write outside `buf`, or an argument that
-- is missing or of another type. The lock `pr` and the device are left out: the characters go out
-- in the order of the list.
pub mod Decimal
pub mod Format
mod Tests
use Prim.Native.Char.{code}
use Prim.Native.String.{String}
use halo_os.Base.{
  ℕ, zero, suc, ◌+◌, ◌*◌, ◌/◌, ◌%◌, ◌^◌, Option, none, some, List, [], ◌∷◌, ◌++◌, ◌==◌,
  if◌then◌else◌, get_elem?,
}
use halo_os.Base.Int.{ℤ, pos, negsuc, quot, rem, is_positive}
use mathlib.Core.Option

-- The code points of a text.
abbrev pub codes : String → List ℕ
codes String.[] = []
codes (String.◌∷◌ c s) = code c ∷ codes s

-- `nums`
abbrev pub nums : List ℕ
nums = codes "0123456789abcdef"

-- `nums[i]`; there is nothing at a negative index.
nums_at : ℤ → Option ℕ
nums_at (pos i) = get_elem? nums i
nums_at (negsuc i) = none

-- The loop `do buf[i++] = nums[val % 10]; while ((val /= 10) > 0);` on `room` free places of `buf`.
-- What is stored last is printed first, so `out` is what the second loop prints.
digits_loop : (room : ℕ) → (val : ℤ) → (out : List ℕ) → Option (List ℕ)
unfolding nums_at
digits_loop zero val out = none
digits_loop (suc room) val out =
    let c = nums_at (rem val 10) in
    let rest = Option.bind c (λ d. digits_loop room (quot val 10) (d ∷ out)) in
    let last = Option.map (λ d. d ∷ out) c in if is_positive (quot val 10) then rest else last

unfoldable pub print_int : ℤ → Option (List ℕ)
unfolding digits_loop
print_int val = digits_loop 16 val []

-- `for(i = 0; i < 16; i++, ptr <<= 4) uart_putc(nums[ptr >> 60]);`
hex_loop : (rounds ptr : ℕ) → Option (List ℕ)
hex_loop zero ptr = some []
hex_loop (suc rounds) ptr =
    Option.bind (get_elem? nums (ptr / 2 ^ 60))
      λ d. Option.map (λ out. d ∷ out) (hex_loop rounds (ptr * 2 ^ 4 % 2 ^ 64))

pub print_ptr : ℕ → Option (List ℕ)
unfolding hex_loop
print_ptr ptr = Option.map (λ out. b'0' ∷ b'x' ∷ out) (hex_loop 16 ptr)

-- What stands behind the format in a call; a null string is printed as nothing.
pub data Arg : Type 0 where
  int : ℤ → Arg
  str : Option (List ℕ) → Arg
  ptr : ℕ → Arg

-- The three `va_arg`s.
take_int : List Arg → Option (List ℕ × List Arg)
take_int (int v ∷ rest) = Option.map (λ out. (out, rest)) (print_int v)
take_int _ = none

take_str : List Arg → Option (List ℕ × List Arg)
take_str (str (some s) ∷ rest) = some (s, rest)
take_str (str none ∷ rest) = some ([], rest)
take_str _ = none

take_ptr : List Arg → Option (List ℕ × List Arg)
take_ptr (ptr v ∷ rest) = Option.map (λ out. (out, rest)) (print_ptr v)
take_ptr _ = none

-- `switch (next)`: what one directive prints, and the arguments that are left.
pub directive : ℕ → List Arg → Option (List ℕ × List Arg)
unfolding take_int take_str take_ptr
directive next args =
    if next == b'd'
    then take_int args
    else if next == b's'
    then take_str args
    else if next == b'p'
    then take_ptr args
    else some (next ∷ [], args)

-- The loop over the characters of the format, which end at its NUL.
pub printf : List ℕ → List Arg → Option (List ℕ)
unfolding directive
printf [] args = some []
printf (c ∷ []) args = some (c ∷ [])
printf (c ∷ next ∷ s) args =
    let plain = Option.map (λ out. c ∷ out) (printf (next ∷ s) args) in
    let special =
      Option.bind (directive next args) λ r. Option.map (λ out. r.0 ++ out) (printf s r.1) in
    if c == b'%' then special else plain
