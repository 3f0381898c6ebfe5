-- ===== src/Lib.antt =====
-- A model of the MOS kernel, of its file system and file server, of its pipes, file descriptors and
-- shell, and of its string and printing functions, as functions on explicit states, with theorems on them. MOS is a teaching kernel for 32-bit MIPS: the
-- kernel manages physical pages, environments (processes) and messages between them; files are
-- served by a user environment that keeps the disk in a cache of pages.
--
-- How the parts interact. A system call (kern/syscall_all.c) checks its arguments, finds the
-- environment it acts on by `envid2env` (kern/env.c), and works on that environment's address space
-- by the page table functions of kern/pmap.c, or on its status and on the list of runnable
-- environments, from whose head `schedule` (kern/sched.c) picks the next one to run by `env_run`
-- (kern/env.c). The file server (fs) allocates blocks in a bitmap and reads and writes them through
-- a cache of mapped pages (fs/fs.c) over the disk driver (fs/ide.c). A pipe (user/lib/pipe.c) is a
-- page that two environments share.
--
-- Which file models what:
--   Base           tests on native numbers, lists of numbers, and `Run`: what a C function returns,
--                  with the error codes of include/error.h and the `try` and `assert` macros
--   Bits           `|` and the single bits of unsigned words
--   Kern.Pmap      kern/pmap.c, include/pmap.h, include/mmu.h, `tlb_out` of kern/tlb_asm.S
--   Kern.State     `struct Env`, `struct Trapframe`, the kernel's global variables, and the macros
--                  of include/queue.h on `env_sched_list`
--   Kern.Env       kern/env.c: asid_alloc, asid_free, mkenvid, envid2env, env_init, env_setup_vm,
--                  env_alloc
--   Kern.Teardown  kern/env.c: env_free
--   Kern.Sched     kern/sched.c: schedule; kern/env.c: env_run, env_destroy
--   Kern.Syscall   kern/syscall_all.c: the calls on memory, environments and messages
--   Fs.Block       fs/fs.c: the block cache and the bitmap
--   Fs.Init        fs/fs.c: read_super, read_bitmap
--   Fs.File        fs/fs.c: file_block_walk, file_map_block, file_clear_block, file_get_block,
--                  file_dirty, file_truncate, file_flush
--   Fs.Dir         fs/fs.c: directories, paths, file_create, file_set_size, file_close, file_remove
--   Fs.Serv        fs/serv.c: the table of open files, the handlers and the loop of the server
--   Text           lib/string.c
--   Text.Print     lib/print.c
--   Kern.Vars      kern/syscall_all.c: the shell variables
--   Kern.Tlb       kern/tlbex.c: passive_alloc, _do_tlb_refill, do_tlb_mod
--   Kern.Dir       kern/syscall_all.c: sys_get_env_path, sys_change_dir
--   Kern.Load      lib/elfloader.c; kern/env.c: load_icode, env_create, map_segment
--   User.Fd        user/lib/fd.c; user/lib/file.c: file_read
--   User.History   user/lib/history.c
--   User.Shell     user/sh.c: the tokens and parsecmd
--   User.Shell.Editor, User.Shell.Line
--                  user/sh.c: the line editor, the completion and readline
--   User.Pipe      user/lib/pipe.c: pipe_read and pipe_write, each by itself
-- Functions keep their names in C; a helper is a part of the function that its comment names. The
-- modules below these hold the proofs, and each Tests module holds examples.
--
-- Representation. A `struct Page *` is the number of the page, a `struct Env *` the index of the
-- environment, a page directory the page that holds it, a page table entry its page and index.
-- Linked lists are lists of such numbers, first element first; an operation that C leaves undefined
-- on them, as the removal of an element that is not on the list, is a panic. The pages of the
-- kernel are words of natural numbers, with the wrap of 32-bit (and for reference counts 16-bit)
-- arithmetic written out. An error return is `err` with the state as it was left, and what halts the
-- machine, or faults in kernel mode, is `panic`. `env_run` and `schedule` do not return in C; here
-- they give the state in which the chosen environment goes on. The TLB is the list of the keys
-- (address and address space identifier) that it holds.
--
-- Bounds. Page numbers are below 2^20 in the theorems on address spaces, as 32-bit physical
-- addresses are. Loops run on the number of rounds that is left, which their callers set from
-- the bounds of the C loop (64 address space identifiers, 1024 entries of a table, the directory
-- below UTOP, the blocks of the disk from 3 on), so none can run out of fuel early. `strcpy` of a
-- path has fuel for the 1024 bytes of `env_path`, and running past them is a panic. A path walk has
-- fuel for the bytes of the path, and a theorem says that this is enough; following links has
-- fuel for the depth of the C recursion, which cyclic links exhaust. `print_num` has fuel for 32
-- digits. The loops of `elf_load_seg` end in a panic where their counter wraps and C never ends.
-- Of a library buffer or array the size is part of the model where a theorem depends on it. The loop of
-- `_do_tlb_refill` has fuel, and a theorem says that two rounds are enough. A
-- `pipe_read` or `pipe_write` is a sequence of steps; its loops that wait are steps that change
-- nothing.
--
-- Not modelled: start-up and assembly code, console input and output, the exception entry, the
-- rest of the user library, the start of programs by the shell, and the user programs.
pub mod Base
pub mod Bits
pub mod Kern
pub mod Fs
pub mod User
pub mod Text
