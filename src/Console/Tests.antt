-- ===== src/Console/Tests.antt =====
-- The console of src/kernel/console.c on concrete characters.
use halo_os.Base.{ℕ, zero, suc, ◌≡◌, refl, List, [], ◌∷◌, true, false, arith}
use halo_os.Console.{Cons, ctrl_u, consoleintr, count, consoleread}
use halo_os.Console.View.{IsValid, type_char, view}
use halo_os.Console.Intr.{Shows, consoleintr-Shows}
use halo_os.Console.Reading.{no_fault}

abbrev zeros : ℕ → List ℕ
zeros zero = []
zeros (suc n) = 0 ∷ zeros n

-- `hi` and a newline are input, and `x` is being edited.
abbrev typed : Cons
typed = record {
  buf = 104 ∷ 105 ∷ 10 ∷ 120 ∷ zeros 124;
  r = 0;
  w = 3;
  e = 4;
  echo = [];
  wakeups = 0;
}

typed-IsValid : IsValid typed
unfolding halo_os.Base.Window.window
typed-IsValid = record {
  r_lt = omega arith;
  w_lt = omega arith;
  e_lt = omega arith;
  size = refl;
  order = omega arith;
  fits = omega arith;
  clean = (λ h. omega arith, tt);
}

test-kill : (consoleintr typed ctrl_u).e ≡ 3
unfolding consoleintr
test-kill = refl

test-read : (consoleread no_fault 0 10 false typed []).reply ≡ count 3
unfolding consoleread consoleintr
test-read = refl

consoleintr-Shows_example : Shows (type_char (view typed) ctrl_u) (consoleintr typed ctrl_u)
consoleintr-Shows_example = consoleintr-Shows typed ctrl_u typed-IsValid
