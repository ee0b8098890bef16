-- ===== src/Util/Tests.antt =====
-- The routines of src/kernel/util.c on a concrete memory.
use halo_os.Base.{ℕ, ◌+◌, ◌-◌, ◌%◌, ◌≡◌, ◌↔◌, refl, false, some, arith, if◌then◌else◌, inr, ltb}
use halo_os.Base.Memory.{Mem}
use halo_os.Base.Int.{pos}
use halo_os.Util.{memset, memmove, strncmp, strlen, strncpy, safestrcpy}
use halo_os.Util.Move.{inside, memset-range, memmove-copies}
use halo_os.Util.Compare.{name_of, strncmp-zero_iff}
use halo_os.Util.Copy.{name_of-strncpy, safestrcpy-truncates}

-- `abcdefghi` at address 0 and zeros behind it
abbrev letters : Mem
letters a = if ltb a 9 then 97 + a else 0

test-strlen : strlen 20 letters 2 ≡ some 7
unfolding strlen
test-strlen = refl

test-overlap : memmove letters 2 0 4 5 ≡ 100
unfolding memmove
test-overlap = refl

test-memset : memset letters 2 300 3 4 ≡ (if inside 2 3 4 then 300 % 256 else letters 4)
test-memset = memset-range letters 2 300 3 4

memmove-copies_example :
    memmove letters 2 0 4 5 ≡ (if inside 2 4 5 then letters (0 + (5 - 2)) else letters 5)
memmove-copies_example = memmove-copies letters 2 0 4 5

test-zero_iff : (strncmp letters 20 9 14 ≡ pos 0) ↔ (name_of letters 20 14 ≡ name_of letters 9 14)
test-zero_iff = strncmp-zero_iff letters 20 9 14

test-strncpy : name_of (strncpy letters 40 0 14) 40 14 ≡ name_of letters 0 14
test-strncpy = name_of-strncpy letters 40 0 14 (inr (omega arith))

test-truncates :
    (name_of (safestrcpy letters 40 0 5) 40 5 ≡ name_of letters 0 4)
    × ((a : ℕ) → inside 40 5 a ≡ false → safestrcpy letters 40 0 5 a ≡ letters a)
test-truncates = safestrcpy-truncates letters 40 0 5 (omega arith) (inr (omega arith))
