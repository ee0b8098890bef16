-- ===== src/Print/Tests.antt =====
-- printf of src/kernel/print.c on concrete formats.
use halo_os.Base.{
  ℕ, ◌+◌, ◌%◌, ◌==◌, if◌then◌else◌, ◌≡◌, refl, some, none, [], ◌∷◌, ◌++◌, List, arith,
}
use mathlib.Core.Option
use halo_os.Base.Int.{pos, negsuc}
use halo_os.Print.{int, codes, print_int, print_ptr, directive, printf}
use halo_os.Print.Decimal.{value, Digits, print_int-value, print_int-negative}
use halo_os.Print.Format.{printf-directive}

test-print_ptr : print_ptr 0x80000000 ≡ some (codes "0x0000000080000000")
unfolding print_ptr Option.bind
test-print_ptr = refl

test-printf : printf (codes "pid %d%%\n") (int (pos 42) ∷ []) ≡ some (codes "pid 42%\n")
unfolding printf print_int Option.bind
test-printf = refl

print_int-value_example :
    (ds : List ℕ) × (print_int (pos 1234) ≡ some ds) × (value 0 ds ≡ 1234) × Digits ds
print_int-value_example = print_int-value 1234 (omega arith)

print_int-negative_example :
    print_int (negsuc 4) ≡ (if (4 + 1) % 10 == 0 then some (b'0' ∷ []) else none)
print_int-negative_example = print_int-negative 4

test-directive :
    printf (codes "n=" ++ (b'%' ∷ b'd' ∷ codes "\n")) (int (pos 42) ∷ [])
    ≡ Option.bind
        (directive b'd' (int (pos 42) ∷ []))
        (λ r. Option.map (λ out. codes "n=" ++ (r.0 ++ out)) (printf (codes "\n") r.1))
test-directive =
    printf-directive (codes "n=") (codes "\n") b'd' (int (pos 42) ∷ []) (refl, (refl, tt))
