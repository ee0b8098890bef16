-- ===== src/Trap/Tests.antt =====
-- The traps of src/kernel/trap.c at concrete causes.
use halo_os.Base.{◌≡◌, refl, true, false, not, ◌&&◌, some, [], ◌∷◌, ◌==◌, if◌then◌else◌}
use halo_os.Base.Outcome.{ok}
use halo_os.Trap.{
  uart, complete, clear_soft, yields, syscall, resumes, sys_exec, devintr, kerneltrap, usertrap,
  dispatch,
}
use halo_os.Trap.Device.{completed, external, devintr-completed}

test-uart : (devintr 0x8000000000000009 10 0).1 ≡ uart ∷ complete 10 ∷ []
unfolding devintr
test-uart = refl

test-kerneltrap : kerneltrap 0x100 0x8000000000000001 0 1 true ≡ ok (clear_soft ∷ yields ∷ [])
unfolding kerneltrap
test-kerneltrap = refl

test-usertrap : usertrap 0 8 0x1000 0 0 false ≡ ok (resumes 0x1004 (syscall ∷ []))
unfolding usertrap
test-usertrap = refl

test-dispatch : dispatch 7 ≡ some sys_exec
unfolding dispatch
test-dispatch = refl

test-completed :
    (completed 10 (devintr 0x8000000000000009 10 0).1
      ≡ (if external 0x8000000000000009 && (not (10 == 0) && (10 == 10)) then 1 else 0))
    × ((devintr 0x8000000000000009 10 0).0 ≡ (
        if external 0x8000000000000009
        then 1
        else if 0x8000000000000009 == 0x8000000000000001
        then 2
        else 0))
test-completed = devintr-completed 0x8000000000000009 10 0 10
