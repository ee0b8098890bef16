-- ===== src/Lib.antt =====
-- haloOS, a small teaching kernel for RISC-V (src/kernel, src/user): its allocators, locks, process
-- table, file system blocks, console, drivers and string routines as functions on explicit states.
--
-- A routine that ends in panic has a result of type Outcome (Base/Outcome), since panic never
-- returns; one that returns -1 or a null pointer has an Option. C arrays are lists with bounds or
-- functions from indices, memory is a function from addresses, which are not wrapped, and each uint
-- that the code counts with or compares keeps its wrap-around where it can pass its range. A
-- routine that holds a spinlock from its first to its last statement is one step; the steps of
-- several CPUs are put together in Spinlock/Exclusion.
--
-- Base: shared helpers; Base/Window has the lemmas on ring buffers and Base/Bits those on bit
--   masks.
-- Vm: src/kernel/vm.c. Vm/Kmem has kfree, freerange and kalloc; the free list lies in the free
--   frames. Vm/Pagetable has walk, mappages, walkaddr and uvmunmap, on the same words of memory;
--   its child Table reads a page table as a map from virtual pages to entries. Vm/User has the
--   address spaces of processes, Vm/Kernel the kernel's, Vm/Grow growproc of src/kernel/proc.c and
--   sys_sbrk, and Vm/Copy the copies between them, with those of src/kernel/spaceswap.c.
-- Spinlock: src/kernel/spinlock.c, with the CPU's interrupt bit as part of the state.
-- Fs: src/kernel/fs.c and fs.h. Fs/Layout has the constants and the superblock, Fs/Bitmap balloc
--   and bfree, Fs/Dinode the disk inode (iupdate, and what ilock loads), Fs/Content bmap, readi,
--   writei and itrunc. There a block is what bread gives.
-- Proc: src/kernel/proc.c, the process table. kalloc's and uvmcopy's success are arguments.
-- Console: src/kernel/console.c; Console/View reads its buffer as two lists. Characters that arrive
--   while consoleread sleeps are an argument.
-- Fs/Directory has inodeByName, dirlink and ialloc: the entries of a directory as bytes of its
--   block, and names as strings in kernel memory. Fs/Bcache and Fs/Icache are the buffer and inode
--   caches of fs.c.
-- Fs/Path has the routines that lock inodes: ilock, iput, iname and create; they end in a result,
--   in panic or asleep (Base/Progress).
-- File/Open: sys_open and sys_mknod of src/kernel/sysfile.c. File: src/kernel/file.c, and the
--   descriptor calls of src/kernel/sysfile.c and syscall.c. The device switch is an argument.
-- Sleeplock: src/kernel/sleeplock.c. Trap: src/kernel/trap.c and the dispatch of syscall.c.
-- Uart: the transmit buffer of src/kernel/memlayout.c. How often the device is idle is an argument.
-- Virt: src/kernel/virt.c. What the device has finished is an argument of the interrupt handler.
-- Print: src/kernel/print.c, as the list of characters sent out.
-- Mkfs: src/mkfs.c, the image of a new file system, on the blocks of Fs.
-- Util: src/kernel/util.c, and safestrcpy of src/kernel/spaceswap.c. Ulib: src/user/ulib.c.
--
-- They meet where the code calls: walk and uvmalloc call kalloc, copyoutpg calls walkaddr and
-- memmove, dirlink calls readi, strncpy and writei, inodeByName calls strncmp and iget, writei and
-- bmap call balloc, iupdate writes the block that ilock reads, fork calls allocproc and freeproc,
-- exit calls reparent and wakeup, iput calls itrunc, fileread calls readi, uartinterrupt calls
-- consoleintr, and printf's numbers are read back by atoi.
--
-- Fuel: kill_line runs at most 128 times, the size of the buffer; free_chain once per descriptor,
-- 8; balloc once per bitmap block; readi and writei once per byte at most; printInt has the 16
-- bytes of its buffer as bound, which an int fits. The string loops of Ulib take fuel as an
-- argument. The loop over a directory runs once per entry and once more, ialloc once per inode, and
-- iappend of mkfs once per byte at most.
--
-- mappages runs once per page of the address space at most, since walk panics behind it; copyin,
-- copyoutpg and copyinstr once per byte at most. freewalk has three levels of tables.
--
-- Not modelled: uvminit, exec (its loader reads the ELF format), the boot code and the assembly,
-- device initialisation, the files that mkfs reads on the host, and the user programs.
pub mod Base
pub mod Console
pub mod File
pub mod Fs
pub mod Mkfs
pub mod Print
pub mod Proc
pub mod Sleeplock
pub mod Spinlock
pub mod Trap
pub mod Uart
pub mod Ulib
pub mod Util
pub mod Virt
pub mod Vm
