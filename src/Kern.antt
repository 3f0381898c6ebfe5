-- ===== src/Kern.antt =====
-- The kernel: physical pages and page tables (kern/pmap.c), TLB misses (kern/tlbex.c), environments
-- (kern/env.c), the scheduler (kern/sched.c) and the system calls (kern/syscall_all.c).
pub mod Pmap
pub mod State
pub mod Env
pub mod Teardown
pub mod Sched
pub mod Syscall
pub mod Vars
pub mod Tlb
pub mod Dir
pub mod Load
mod Tests
