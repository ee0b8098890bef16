-- ===== src/Ulib/Tests.antt =====
-- The routines of src/user/ulib.c on a concrete memory.
use halo_os.Base.{◌+◌, ◌-◌, ◌≡◌, refl, some, arith, if◌then◌else◌, ltb}
use mathlib.Core.Option
use halo_os.Base.Memory.{Mem}
use halo_os.Base.Int.{pos, negsuc}
use halo_os.Print.{codes}
use halo_os.Ulib.{memmove, memcpy, strlen, atoi, strcmp, memcmp, strchr, strcpy}
use halo_os.Util.Move.{inside}
use halo_os.Ulib.Move.{user_memmove-copies}
use halo_os.Ulib.Number.{atoi-value}

-- `1234` at address 0 and zeros behind it
abbrev digits : Mem
digits a = if ltb a 4 then 49 + a else 0

test-strlen : strlen 9 digits 1 ≡ some 3
unfolding strlen
test-strlen = refl

test-strcmp : strcmp 9 digits 0 1 ≡ some (negsuc 0)
unfolding strcmp
test-strcmp = refl

test-memcmp : memcmp digits 5 6 3 ≡ pos 0
unfolding memcmp
test-memcmp = refl

test-strchr : strchr 9 digits 0 51 ≡ some 2
unfolding strchr
test-strchr = refl

test-memcpy : memcpy digits 1 0 3 3 ≡ 51
unfolding memcpy memmove
test-memcpy = refl

test-strcpy : Option.map (λ m. m 12) (strcpy 9 digits 10 0) ≡ some 51
unfolding strcpy
test-strcpy = refl

test-memmove : memmove digits 1 0 3 3 ≡ (if inside 1 3 3 then digits (0 + (3 - 1)) else digits 3)
test-memmove = user_memmove-copies digits 1 0 3 3

test-atoi_value : atoi 9 digits 0 ≡ some 1234
test-atoi_value =
    atoi-value 9 digits 0 (codes "1234") (refl, (refl, (refl, (refl, tt))))
      (
        omega arith,
        omega arith,
        (omega arith, omega arith, (omega arith, omega arith, (omega arith, omega arith, tt))),
      )
      refl (omega arith) (omega arith)
