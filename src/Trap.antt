-- ===== src/Trap.antt =====
-- src/kernel/trap.c and the dispatch of src/kernel/syscall.c: what a trap makes the kernel do, as a
-- list of actions. The registers at the trap, and the number that plic_claim returns, are arguments.
pub mod Device
mod Tests
use halo_os.Base.{
  ℕ, ◌+◌, ◌%◌, ◌^◌, Bool, true, false, not, ◌&&◌, Option, none, some, List, [], ◌∷◌, ◌++◌, ltb,
  ◌==◌, if◌then◌else◌, bit_and,
}
use halo_os.Base.Outcome.{Outcome, ok, panic}

pub data Action : Type 0 where
  uart disk tick clear_soft syscall yields : Action
  unknown complete : ℕ → Action

abbrev pub uart0_irq : ℕ
uart0_irq = 10

abbrev pub virtio0_irq : ℕ
virtio0_irq = 1

-- The handler of an irq.
abbrev pub handler : ℕ → Action
handler irq = if irq == uart0_irq then uart else if irq == virtio0_irq then disk else unknown irq

-- An interrupt of a device comes through the interrupt controller, the timer's as a software
-- interrupt; the first component is what devintr returns.
pub devintr : (scause irq cpu : ℕ) → ℕ × List Action
devintr scause irq cpu =
    if not (bit_and scause 0x8000000000000000 == 0) && (bit_and scause 0xff == 9)
    then (1, handler irq ∷ (if irq == 0 then [] else complete irq ∷ []))
    else if scause == 0x8000000000000001
    then (2, if cpu == 0 then tick ∷ clear_soft ∷ [] else clear_soft ∷ [])
    else (0, [])

-- `SSTATUS_SPP` and `SSTATUS_SIE`
abbrev pub sstatus_spp : ℕ
sstatus_spp = 256

abbrev pub sstatus_sie : ℕ
sstatus_sie = 2

-- kerneltrap behind devintr.
after_kernel : (running : Bool) → ℕ × List Action → Outcome (List Action)
after_kernel running (which, acts) =
    if which == 0
    then panic
    else ok (if (which == 2) && running then acts ++ (yields ∷ []) else acts)

-- kerneltrap: `running` says that the CPU runs a process in state RUNNING.
pub kerneltrap : (sstatus scause irq cpu : ℕ) → (running : Bool) → Outcome (List Action)
unfolding devintr after_kernel
kerneltrap sstatus scause irq cpu running =
    if bit_and sstatus sstatus_spp == 0
    then ok []
    else if not (bit_and sstatus sstatus_sie == 0)
    then ok []
    else after_kernel running (devintr scause irq cpu)

-- How usertrap goes on: back to the process at an address, or with exit(-1).
pub data Back : Type 0 where
  resumes : (epc : ℕ) → List Action → Back
  exits : Back

-- usertrap behind devintr.
after_user : (epc : ℕ) → ℕ × List Action → Outcome Back
after_user epc (which, acts) =
    if which == 0
    then panic
    else ok (resumes epc (if which == 2 then acts ++ (yields ∷ []) else acts))

pub usertrap : (sstatus scause sepc irq cpu : ℕ) → (killed : Bool) → Outcome Back
unfolding devintr after_user
usertrap sstatus scause sepc irq cpu killed =
    if not (bit_and sstatus sstatus_spp == 0)
    then panic
    else if scause == 8
    then ok (if killed then exits else resumes ((sepc + 4) % 2 ^ 64) (syscall ∷ []))
    else after_user sepc (devintr scause irq cpu)

-- The entries of `syscalls`.
pub data Call : Type 0 where
  sys_write sys_exec sys_dup sys_open sys_wait sys_mknod sys_fork sys_read sys_exit sys_sbrk
        sys_fstat sys_close :
      Call

-- `syscalls[num]` for a `num` from the trapframe; `none`: it does not exist, and a0 becomes -1.
pub dispatch : ℕ → Option Call
dispatch num =
    if num == 1
    then some sys_write
    else if num == 2
    then some sys_exec
    else if num == 3
    then some sys_dup
    else if num == 4
    then some sys_open
    else if num == 5
    then some sys_wait
    else if num == 6
    then some sys_mknod
    else if num == 7
    then some sys_exec
    else if num == 8
    then some sys_fork
    else if num == 9
    then some sys_read
    else if num == 10
    then some sys_exit
    else if num == 11
    then some sys_sbrk
    else if num == 12
    then some sys_fstat
    else if num == 13
    then some sys_close
    else none
