-- ===== src/Vm.antt =====
-- src/kernel/vm.c: physical page frames and page tables.
pub mod Kmem
pub mod Pagetable
pub mod Copy
pub mod User
pub mod Kernel
pub mod Grow
