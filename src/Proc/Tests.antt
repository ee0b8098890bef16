-- ===== src/Proc/Tests.antt =====
-- The process table of src/kernel/proc.c on a concrete table.
use halo_os.Base.{
  ℕ, ◌≡◌, refl, true, false, Option, none, some, List, [], if◌then◌else◌, ◌==◌, arith,
}
use halo_os.Base.Outcome.{Outcome, ok, panic}
use halo_os.Proc.{
  State, Chan, Proc, Table, wakeup, allocproc, fork, reparent, exit, schedule, yield, sleep, slept,
}
use halo_os.Proc.Wakeup.{woken, wakeup-woken}
use halo_os.Proc.Sleep.{wakeup-sleep}

abbrev slot : Proc
slot = record {
  state = State.unused;
  name = [];
  pid = 0;
  killed = false;
  xstate = 0;
  parent = none;
  chan = Chan.nowhere;
  sz = 0;
  trapframe = false;
  a0 = 0;
  openfs = [];
  pwd = none;
}

-- Process 0 runs, and process 1 is its child, asleep on process 0.
abbrev family : Table
family = record {
  procs = λ i.
      if i == 0
      then record slot { state = State.running; pid = 1 }
      else if i == 1
      then record slot { state = State.sleeping; pid = 2; parent = some 0; chan = Chan.of_proc 0 }
      else if i == 2
      then record slot { state = State.runnable; pid = 3; parent = some 1 }
      else slot;
  next_pid = 4;
  initp = 0;
}

-- What a call that does not panic leaves in slot `i`.
abbrev state_of : Outcome (Option ℕ × Table) → ℕ → State
state_of panic i = State.unused
state_of (ok (o, t)) i = (t.procs i).state

abbrev exited : Outcome (Table × List ℕ) → Table
exited panic = family
exited (ok (t, fs)) = t

test-allocproc : state_of (allocproc true family) 3 ≡ State.used
unfolding allocproc
test-allocproc = refl

test-fork : state_of (fork true true 0 family) 3 ≡ State.runnable
unfolding fork
test-fork = refl

test-fork_fails : state_of (fork true false 0 family) 3 ≡ State.unused
unfolding fork
test-fork_fails = refl

test-reparent : ((reparent 1 1 family).procs 2).parent ≡ some 0
unfolding reparent
test-reparent = refl

test-exit : ((exited (exit 1 7 family)).procs 1).state ≡ State.zombie
unfolding exit
test-exit = refl

test-schedule : ((schedule family 2).procs 2).state ≡ State.running
unfolding schedule
test-schedule = refl

test-yield : ((yield family 0).procs 0).state ≡ State.runnable
unfolding yield
test-yield = refl

wakeup-woken_example :
    ((wakeup 2 (Chan.of_proc 0) family).procs 1 ≡ woken 2 (Chan.of_proc 0) 1 (family.procs 1))
    × ((wakeup 2 (Chan.of_proc 0) family).next_pid ≡ 4)
    × ((wakeup 2 (Chan.of_proc 0) family).initp ≡ 0)
wakeup-woken_example = wakeup-woken 2 (Chan.of_proc 0) family 1

test-slept : ((slept family 1).procs 1).chan ≡ Chan.nowhere
unfolding slept
test-slept = refl

wakeup-sleep_example :
    (((wakeup 0 (Chan.other 9) (sleep family 2 (Chan.other 9))).procs 2).state ≡ State.runnable)
    × (((wakeup 0 (Chan.other 9) (sleep family 2 (Chan.other 9))).procs 2).chan ≡ Chan.other 9)
wakeup-sleep_example = wakeup-sleep family 2 0 (Chan.other 9) (omega arith) (λ h. omega arith)
