-- ===== src/Kern/Tests.antt =====
-- A small kernel: the environments 0 and 1 are runnable and 0 runs, 2 waits for a message, and
-- the others are free. In `doubled` the waiting environment was made runnable again.
use mos_volca_shell.Base.{
  Bool-cases, ℕ, ◌+◌, ◌≡◌, inl, inr, refl, arith, true, false, ◌==◌, [], ◌∷◌, some, mem,
  if◌then◌else◌, ok, panic, Leaves,
}
use mos_volca_shell.Kern.Pmap.{Mem}
use mos_volca_shell.Kern.Pmap.{read_valid}
use mos_volca_shell.Kern.Pmap.Walk.{slot_of, pte_of}
use mos_volca_shell.Kern.Pmap.Link.{taken}
use mos_volca_shell.Kern.Pmap.Fill.{Inserted}
use mos_volca_shell.Kern.Pmap.Tests.{machine, machine-FreeOk, machine-TableOk, old-OldOk}
use mos_volca_shell.Kern.Syscall.{sys_mem_alloc, sys_mem_map}
use mos_volca_shell.Kern.Syscall.Memory.{sys_mem_alloc-maps, CanMap, sys_mem_map-shares}
use mos_volca_shell.Kern.State.{Trapframe, Env, Kernel, env_runnable, env_not_runnable}
use mos_volca_shell.Kern.Env.{envid2env, permitted}
use mos_volca_shell.Kern.Teardown.{env_release}
use mos_volca_shell.Kern.Teardown.Release.{Released, env_release-unlisted, env_release-Released}
use mos_volca_shell.Kern.Sched.{schedule}
use mos_volca_shell.Kern.Sched.Queue.{SchedOk}
use mos_volca_shell.Kern.Sched.Turns.{
  Turn, must_switch, schedule-SchedOk, schedule-switches, schedule-continues,
}
use mos_volca_shell.Kern.Sched.Fair.{yields, ticks, yields-reach, ticks-slices}
use mos_volca_shell.Kern.Syscall.{is_illegal_va, sys_set_env_status, sys_ipc_recv, sys_ipc_try_send}
use mos_volca_shell.Kern.Syscall.Status.{sys_set_env_status-SchedOk}
use mos_volca_shell.Kern.Syscall.Ipc.{Delivered, try_send-value, try_send-twice}
use mos_volca_shell.Kern.Syscall.Recv.{Blocked, sys_ipc_recv-blocks}
use mos_volca_shell.Kern.Vars.{Shell, check_var, sys_declare_var, max_var_num}
use mos_volca_shell.Kern.Vars.Lookup.{find, is_named, or_else, find_unused, check_var-two_passes}
use mos_volca_shell.Kern.Vars.Declare.{VarsOk, Outcome, sys_declare_var-Outcome}

abbrev frame : Trapframe
frame = record {
  regs = λ r. 0;
  cp0_status = 0;
  hi = 0;
  lo = 0;
  cp0_badvaddr = 0;
  cp0_cause = 0;
  cp0_epc = 0x400000;
}

-- The environment `e`, where 2 has the status `st`.
abbrev env_of : ℕ → ℕ → Env
env_of st e = record {
  tf = frame;
  id = if e == 0 then 0x800 else if e == 1 then 0x1001 else if e == 2 then 0x1802 else 0;
  asid = e;
  parent_id = if e == 0 then 0 else 0x800;
  status = if e == 0 then 1 else if e == 1 then 1 else if e == 2 then st else 0;
  pgdir = 10 + e;
  pri = 3;
  ipc_value = 0;
  ipc_from = 0;
  ipc_recving = if e == 2 then 1 else 0;
  ipc_dstva = 0;
  ipc_perm = 0;
  user_tlb_mod_entry = 0;
  runs = 0;
  path = λ i. 0;
  shell_id = 0;
}

abbrev memory : Mem
memory = record { npage = 16; ref = λ p. 1; free = []; word = λ p i. 0; tlb = [] }

abbrev kernel : Kernel
kernel = record {
  memory = memory;
  envs = env_of env_not_runnable;
  cur = some 0;
  free_envs = 3 ∷ 4 ∷ [];
  sched = 0 ∷ 1 ∷ [];
  base_pgdir = 9;
  asid_bitmap = λ w. if w == 0 then 7 else 0;
  next_id = 3;
  count = 3;
  cur_pgdir = 10;
  user_tf = frame;
}

abbrev doubled : Kernel
doubled = record kernel { envs = env_of env_runnable; sched = 0 ∷ 1 ∷ 2 ∷ [] }

kernel-SchedOk : SchedOk kernel
kernel-SchedOk = record { distinct = (refl, (refl, tt)); listed = λ e. ground arith }

doubled-SchedOk : SchedOk doubled
doubled-SchedOk = record { distinct = (refl, (refl, (refl, tt))); listed = λ e. ground arith }

found : envid2env 0x1802 false kernel ≡ ok 2 kernel
unfolding envid2env
found = refl

found_child : envid2env 0x1001 true kernel ≡ ok 1 kernel
unfolding envid2env permitted
found_child = refl

found_doubled : envid2env 0x1802 false doubled ≡ ok 2 doubled
unfolding envid2env
found_doubled = refl

schedule-SchedOk_example : Leaves SchedOk (schedule true kernel)
schedule-SchedOk_example = schedule-SchedOk true kernel kernel-SchedOk

schedule-switches_example :
    (n : Kernel) × (schedule true kernel ≡ ok tt n) × Turn 1 (1 ∷ 0 ∷ []) 3 kernel n
schedule-switches_example = schedule-switches true kernel kernel-SchedOk 1 (0 ∷ []) refl refl

schedule-continues_example :
    (n : Kernel) × (schedule false kernel ≡ ok tt n) × Turn 0 (0 ∷ 1 ∷ []) 3 kernel n
schedule-continues_example = schedule-continues false kernel kernel-SchedOk 0 refl refl

yields-reach_example : (n : Kernel) × (yields 2 doubled ≡ ok tt n) × (n.cur ≡ some 2)
yields-reach_example = yields-reach (1 ∷ []) [] 0 2 doubled doubled-SchedOk refl refl

ticks-slices_example :
    (n : Kernel) × (ticks 3 kernel ≡ ok tt n)
    × (n.cur ≡ some 0)
    × (n.sched ≡ 0 ∷ 1 ∷ [])
    × (must_switch false n ≡ true)
ticks-slices_example = ticks-slices 3 0 kernel kernel-SchedOk refl refl refl (omega arith)

sys_set_env_status-SchedOk_example :
    (n : Kernel) × (sys_set_env_status 0x1001 2 kernel ≡ ok tt n)
    × SchedOk n
    × ((n.envs 1).status ≡ 2)
    × (mem 1 n.sched ≡ (2 == env_runnable))
sys_set_env_status-SchedOk_example =
    sys_set_env_status-SchedOk 0x1001 2 1 kernel kernel-SchedOk (inr refl) found_child (inl refl)

try_send-value_example :
    (n : Kernel) × (sys_ipc_try_send 0x1802 42 0 7 kernel ≡ ok tt n) × Delivered 0 2 42 7 kernel n
try_send-value_example =
    try_send-value 0x1802 42 0 7 0 2 kernel refl found kernel-SchedOk refl (omega arith) refl refl

try_send-twice_example : sys_ipc_try_send 0x1802 42 0 7 doubled ≡ panic
try_send-twice_example =
    try_send-twice 0x1802 42 0 7 0 2 doubled refl found_doubled doubled-SchedOk refl (omega arith)
      refl

sys_ipc_recv-blocks_example : (n : Kernel) × (sys_ipc_recv 0 kernel ≡ ok tt n) × Blocked 0 0 1 n
sys_ipc_recv-blocks_example = sys_ipc_recv-blocks 0 0 kernel 1 [] kernel-SchedOk refl refl refl refl

env_release-Released_example : (n : Kernel) × (env_release 1 kernel ≡ ok tt n) × Released 1 kernel n
env_release-Released_example = env_release-Released 1 kernel kernel-SchedOk refl

env_release-unlisted_example : env_release 2 kernel ≡ panic
env_release-unlisted_example = env_release-unlisted 2 kernel kernel-SchedOk (omega arith)

-- A shell in which variable 0 has the name "A" and the rest is unused.
abbrev shell : Shell
shell = record {
  vars = λ i.
      if i == 0
      then record { name = 65 ∷ []; value = 49 ∷ []; shell_id = 0; perm = 1 }
      else record { name = []; value = []; shell_id = 0; perm = 0 };
  now_shell_id = 2;
  cur_shell_id = 1;
}

shell-VarsOk : VarsOk shell
shell-VarsOk = record {
  writable =
      λ i. elim (Bool-cases (i == 0)) [ inl e ↦ rw e (λ used. cc) | inr e ↦ rw e (λ used. refl) ];
}

sys_declare_var-Outcome_example :
    Outcome (66 ∷ []) (50 ∷ []) shell (sys_declare_var (66 ∷ []) (50 ∷ []) 0 false shell)
sys_declare_var-Outcome_example =
    sys_declare_var-Outcome 66 [] (50 ∷ []) 0 false shell (omega arith) (omega arith) shell-VarsOk

check_var-two_passes_example :
    check_var (66 ∷ []) true shell
    ≡ or_else (find (is_named (66 ∷ []) shell) max_var_num 0) (find_unused true max_var_num 0 shell)
check_var-two_passes_example = check_var-two_passes (66 ∷ []) true shell

-- The kernel on the machine of the tests of kern/pmap.c, with one address space.
abbrev with_machine : Kernel
with_machine = record kernel {
  memory = machine;
  envs = λ e. record (env_of env_not_runnable e) { pgdir = 1 };
}

found_with_machine : envid2env 0x1001 true with_machine ≡ ok 1 with_machine
unfolding envid2env permitted
found_with_machine = refl

-- The page at 0x400000 is mapped at 0x401000 too.
at_next_page : CanMap with_machine 1 1 0x400000 0x401000 0x5600 (2, 0)
unfolding pte_of slot_of read_valid
at_next_page = record {
  src_ok = machine-TableOk;
  dst_ok = machine-TableOk;
  free_ok = machine-FreeOk;
  found = refl;
  in_range = omega arith;
  in_use = refl;
  old = tt;
  room = inl refl;
}

sys_mem_map-shares_example :
    (n : Mem) × (sys_mem_map 0x1001 0x400000 0x1001 0x401000 0x600 with_machine
      ≡ ok tt (record with_machine { memory = n }))
    × Inserted 509 machine 1 1 5 0x401000 0x600 n
unfolding is_illegal_va
sys_mem_map-shares_example =
    sys_mem_map-shares 0x1001 0x400000 0x1001 0x401000 0x600 1 1 0x5600 (2, 0) with_machine refl
      refl found_with_machine found_with_machine at_next_page

sys_mem_alloc-maps_example :
    (n : Mem) × (sys_mem_alloc 0x1001 0x400000 0x400 with_machine
      ≡ ok tt (record with_machine { memory = n }))
    × Inserted 509 (taken 3 (4 ∷ []) machine) 1 1 3 0x400000 0x400 n
    × ((i : ℕ) → n.word 3 i ≡ 0)
unfolding is_illegal_va pte_of slot_of read_valid
sys_mem_alloc-maps_example =
    sys_mem_alloc-maps 0x1001 0x400000 0x400 1 3 (4 ∷ []) with_machine refl found_with_machine
      machine-FreeOk machine-TableOk refl old-OldOk (inl refl)
