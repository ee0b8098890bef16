-- ===== src/Proc.antt =====
-- src/kernel/proc.c: the process table and what moves a process from state to state. A process is
-- its index in `procs`. Each routine holds the locks of what it changes, and one table step stands
-- for what it does between taking and releasing them. The trapframe and the page table of a process
-- are pages that kalloc and uvmcopy give; whether these succeed is an argument, as is the copy of
-- wait's status to user memory. Files and directories are references, and a call says which it drops.
pub mod Wakeup
pub mod Wait
pub mod Sleep
mod Tests
use halo_os.Base.{
  ℕ, zero, suc, ◌+◌, ◌-◌, ◌%◌, ◌^◌, Bool, true, false, not, ◌&&◌, ◌||◌, Option, none, some, List,
  [], ◌∷◌, ltb, ◌==◌, if◌then◌else◌,
}
use halo_os.Base.Array.{update}
use halo_os.Base.Outcome.{Outcome, ok, panic}

abbrev pub nproc : ℕ
nproc = 64

pub data State : Type 0 where
  unused used sleeping runnable running zombie : State

-- The address that a process sleeps on: none, a process, or another object.
pub data Chan : Type 0 where
  nowhere : Chan
  of_proc : ℕ → Chan
  other : ℕ → Chan

pub record Proc : Type 0 where
  pub state : State
  pub name : List ℕ
  pub pid : ℕ
  pub killed : Bool
  pub xstate : ℕ
  pub parent : Option ℕ
  pub chan : Chan
  pub sz : ℕ
  pub trapframe : Bool
  pub a0 : ℕ
  pub openfs : List (Option ℕ)
  pub pwd : Option ℕ

-- `procs`, `nextPid` and `initp`
pub record Table : Type 0 where
  pub procs : ℕ → Proc
  pub next_pid : ℕ
  pub initp : ℕ

abbrev pub is_unused : State → Bool
is_unused State.unused = true
is_unused _ = false

abbrev pub is_sleeping : State → Bool
is_sleeping State.sleeping = true
is_sleeping _ = false

abbrev pub is_runnable : State → Bool
is_runnable State.runnable = true
is_runnable _ = false

abbrev pub is_zombie : State → Bool
is_zombie State.zombie = true
is_zombie _ = false

abbrev pub same_chan : Chan → Chan → Bool
same_chan nowhere nowhere = true
same_chan (of_proc i) (of_proc j) = i == j
same_chan (other a) (other b) = a == b
same_chan _ _ = false

abbrev pub is_parent : Option ℕ → ℕ → Bool
is_parent none me = false
is_parent (some p) me = p == me

abbrev pub put : Table → ℕ → Proc → Table
put t i p = record t { procs = update t.procs i p }

-- The body of wakeup's loop.
wake_one : (me : ℕ) → Chan → Table → ℕ → Table
wake_one me chan t i =
    if not (i == me) && (is_sleeping (t.procs i).state && same_chan (t.procs i).chan chan)
    then put t i (record (t.procs i) { state = State.runnable })
    else t

-- `for(p = procs; p < procs+NPROC; p++)`, with `n` rounds left
wakeup_loop : (n i : ℕ) → (me : ℕ) → Chan → Table → Table
unfolding wake_one
wakeup_loop zero i me chan t = t
wakeup_loop (suc n) i me chan t = wakeup_loop n (i + 1) me chan (wake_one me chan t i)

pub wakeup : (me : ℕ) → Chan → Table → Table
unfolding wakeup_loop
wakeup me chan t = wakeup_loop nproc 0 me chan t

pub freeproc : Proc → Proc
freeproc p = record p {
  trapframe = false;
  pid = 0;
  chan = nowhere;
  parent = none;
  name = [];
  killed = false;
  state = State.unused;
}

-- The first unused process among `n` from `i` on.
find_unused : (n i : ℕ) → (ℕ → Proc) → Option ℕ
find_unused zero i procs = none
find_unused (suc n) i procs =
    let rest = find_unused n (i + 1) procs in if is_unused (procs i).state then some i else rest

-- allocproc: `none` for no slot. A failing kalloc is a panic, in proc_pagetable too.
pub allocproc : (pages : Bool) → Table → Outcome (Option ℕ × Table)
unfolding find_unused
allocproc pages t = elim (find_unused nproc 0 t.procs) [
  | none ↦ ok (none, t)
  | some i ↦
      if pages
      then ok (
        some i,
        record t {
          procs =
              update t.procs i
                (record (t.procs i) { pid = t.next_pid; state = State.used; trapframe = true });
          next_pid = t.next_pid + 1;
        },
      )
      else panic
]

-- fork: `none` for -1. The user memory is copied by uvmcopy, which may fail.
pub fork : (pages copied : Bool) → (me : ℕ) → Table → Outcome (Option ℕ × Table)
unfolding allocproc freeproc
fork pages copied me t = elim (allocproc pages t) [
  | panic ↦ panic
  | ok (none, t1) ↦ ok (none, t1)
  | ok (some i, t1) ↦
      if copied
      then (let now = t1.procs me in
          ok (
            some (t1.procs i).pid,
            put t1 i (record (t1.procs i) {
              sz = now.sz;
              a0 = 0;
              openfs = now.openfs;
              pwd = now.pwd;
              name = now.name;
              parent = some me;
              state = State.runnable;
            }),
          ))
      else ok (none, put t1 i (freeproc (t1.procs i)))
]

-- The body of reparent's loop.
adopt_one : (p me : ℕ) → Table → ℕ → Table
unfolding wakeup
adopt_one p me t i =
    if is_parent (t.procs i).parent p
    then wakeup me (of_proc t.initp) (put t i (record (t.procs i) { parent = some t.initp }))
    else t

reparent_loop : (n i : ℕ) → (p me : ℕ) → Table → Table
unfolding adopt_one
reparent_loop zero i p me t = t
reparent_loop (suc n) i p me t = reparent_loop n (i + 1) p me (adopt_one p me t i)

pub reparent : (p me : ℕ) → Table → Table
unfolding reparent_loop
reparent p me t = reparent_loop nproc 0 p me t

-- The channel of a process's parent; a null parent is the null channel.
abbrev pub parent_chan : Option ℕ → Chan
parent_chan none = nowhere
parent_chan (some p) = of_proc p

-- The files of a process that are open.
abbrev pub open_files : List (Option ℕ) → List ℕ
open_files [] = []
open_files (none ∷ fs) = open_files fs
open_files (some f ∷ fs) = f ∷ open_files fs

abbrev pub no_files : List (Option ℕ) → List (Option ℕ)
no_files [] = []
no_files (f ∷ fs) = none ∷ no_files fs

-- exit down to sched: the table, and the files that it closes.
pub exit : (me n : ℕ) → Table → Outcome (Table × List ℕ)
unfolding reparent wakeup
exit me n t =
    let p = t.procs me in
    let t1 = put t me (record p { openfs = no_files p.openfs; pwd = none }) in
    let t2 = reparent me me t1 in
    let t3 = wakeup me (parent_chan (t2.procs me).parent) t2 in
    let t4 = put t3 me (record (t3.procs me) { xstate = n; state = State.zombie }) in
    if me == t.initp then panic else ok (t4, open_files p.openfs)

-- What one pass of wait's loop over the table finds.
pub data Scan : Type 0 where
  reaped : (pid status : ℕ) → Table → Scan
  fault : Scan
  kids : Bool → Scan

-- `copied` says that the status reaches user memory, or that none is asked for.
scan : (copied : Bool) → (n i me : ℕ) → (havekids : Bool) → Table → Scan
unfolding freeproc
scan copied zero i me havekids t = kids havekids
scan copied (suc n) i me havekids t =
    let p = t.procs i in
    let skip = scan copied n (i + 1) me havekids t in
    let live = scan copied n (i + 1) me true t in
    let reap = if copied then reaped p.pid p.xstate (put t i (freeproc p)) else fault in
    if is_parent p.parent me then (if is_zombie p.state then reap else live) else skip

-- How a pass of wait ends: with a child's pid, with -1, or asleep on the process itself.
pub data Waited : Type 0 where
  child : (pid status : ℕ) → Table → Waited
  failed : Waited
  sleeps : Table → Waited

pub wait : (copied : Bool) → (me : ℕ) → Table → Outcome Waited
unfolding scan
wait copied me t = elim (scan copied nproc 0 me false t) [
  | reaped pid status t' ↦ ok (child pid status t')
  | fault ↦ panic
  | kids havekids ↦
      if not havekids || (t.procs me).killed
      then ok failed
      else ok
          (sleeps (put t me (record (t.procs me) { chan = of_proc me; state = State.sleeping })))
]

-- The scheduler gives the CPU to a runnable process, and yield gives it back.
pub schedule : Table → ℕ → Table
schedule t i =
    if is_runnable (t.procs i).state
    then put t i (record (t.procs i) { state = State.running })
    else t

pub yield : Table → ℕ → Table
yield t me = put t me (record (t.procs me) { state = State.runnable })

-- sleep down to sched, and behind it.
pub sleep : Table → ℕ → Chan → Table
sleep t me chan = put t me (record (t.procs me) { chan = chan; state = State.sleeping })

pub slept : Table → ℕ → Table
slept t me = put t me (record (t.procs me) { chan = nowhere })
