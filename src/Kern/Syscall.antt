-- ===== src/Kern/Syscall.antt =====
-- The system calls of kern/syscall_all.c on address spaces, environments and messages. A call
-- that returns 0 or a value is `ok`, one that returns `-E_X` is `err`.
pub mod Status
pub mod Ipc
pub mod Recv
pub mod Address
pub mod Memory
use mos_volca_shell.Base.{
  ℕ, zero, suc, ◌+◌, ◌-◌, ◌*◌, ◌%◌, ◌^◌, Bool, true, false, not, ◌&&◌, ◌||◌, Option, none, some,
  ◌==◌, ltb, leb, bit_or, if◌then◌else◌, update, inval, ipc_not_recv, Run, ok, err, panic, Cmd,
  ◌>>=◌, ◌>>◌, pure, fail, modify, gets,
}
use mos_volca_shell.Kern.Pmap.{Slot, page_alloc, page_insert, page_lookup, page_remove, pte_v}
use mos_volca_shell.Kern.State.{
  Trapframe, Env, Kernel, env_runnable, env_not_runnable, on_memory, set_env, sched_remove,
  sched_insert_tail,
}
use mos_volca_shell.Kern.Env.{envid2env, env_alloc, current}
use mos_volca_shell.Kern.Sched.{schedule, env_destroy}

-- UTEMP and UTOP
abbrev pub utemp : ℕ
utemp = 0x400000 - 2 * 4096

abbrev pub utop : ℕ
utop = 0x7f400000

unfoldable pub is_illegal_va : ℕ → Bool
is_illegal_va va = ltb va utemp || leb utop va

-- `va + len` wraps.
unfoldable pub is_illegal_va_range : ℕ → ℕ → Bool
is_illegal_va_range va len =
    if len == 0
    then false
    else ltb ((va + len) % 2 ^ 32) va || (ltb va utemp || ltb utop ((va + len) % 2 ^ 32))

-- `pa + len - 1` in 32 bits.
abbrev pub last_byte : ℕ → ℕ → ℕ
last_byte pa len = (pa + len + 2 ^ 32 - 1) % 2 ^ 32

unfoldable pub is_illegal_dev_pa : ℕ → ℕ → Bool
is_illegal_dev_pa pa len =
    if leb 0x10000000 pa && ltb (last_byte pa len) 0x10000020
    then false
    else if leb 0x13000000 pa && ltb (last_byte pa len) 0x13004200
    then false
    else if leb 0x15000000 pa && ltb (last_byte pa len) 0x15000200
    then false
    else true

-- The check of the first step of a call.
pub require : Bool → Cmd Kernel (Unit {0})
require illegal k = if illegal then err inval k else ok tt k

unfoldable pub sys_getenvid : Cmd Kernel ℕ
unfolding current
sys_getenvid = do c ← current; gets (λ k. (k.envs c).id)

unfoldable pub sys_yield : Cmd Kernel (Unit {0})
unfolding schedule
sys_yield = schedule true

unfoldable pub sys_env_destroy : ℕ → Cmd Kernel (Unit {0})
unfolding envid2env env_destroy
sys_env_destroy envid = do e ← envid2env envid true; env_destroy e

unfoldable pub sys_set_tlb_mod_entry : ℕ → ℕ → Cmd Kernel (Unit {0})
unfolding envid2env
sys_set_tlb_mod_entry envid func = do
  e ← envid2env envid true
  modify (set_env e (λ v. record v { user_tlb_mod_entry = func }))

unfoldable pub sys_mem_alloc : ℕ → ℕ → ℕ → Cmd Kernel (Unit {0})
unfolding require is_illegal_va envid2env page_alloc page_insert
sys_mem_alloc envid va perm = do
  require (is_illegal_va va)
  e ← envid2env envid true
  pp ← on_memory page_alloc
  (λ k. on_memory (page_insert ((k.envs e).pgdir) ((k.envs e).asid) pp va perm) k)

-- Step 5 of `sys_mem_map`, and the mapping of a message's page.
pub map_found : ℕ → ℕ → ℕ → Option (ℕ × Slot) → Cmd Kernel (Unit {0})
unfolding page_insert
map_found e va perm none k = err inval k
map_found e va perm (some (pp, slot)) k =
    on_memory (page_insert ((k.envs e).pgdir) ((k.envs e).asid) pp va perm) k

unfoldable pub sys_mem_map : ℕ → ℕ → ℕ → ℕ → ℕ → Cmd Kernel (Unit {0})
unfolding require is_illegal_va envid2env page_lookup map_found
sys_mem_map srcid srcva dstid dstva perm = do
  require (is_illegal_va srcva || is_illegal_va dstva)
  src ← envid2env srcid true
  dst ← envid2env dstid true
  found ← (λ k. on_memory (page_lookup ((k.envs src).pgdir) srcva) k)
  map_found dst dstva perm found

unfoldable pub sys_mem_unmap : ℕ → ℕ → Cmd Kernel (Unit {0})
unfolding require is_illegal_va envid2env page_remove
sys_mem_unmap envid va = do
  require (is_illegal_va va)
  e ← envid2env envid true
  (λ k. on_memory (page_remove ((k.envs e).pgdir) ((k.envs e).asid) va) k)

-- `strcpy` between two byte arrays: the bytes up to and with the first 0 are written, the rest
-- stays. With fuel for the length of the array; running past it is a fault.
unfoldable pub strcpy_from : ℕ → ℕ → (ℕ → ℕ) → (ℕ → ℕ) → Option (ℕ → ℕ)
strcpy_from zero i dst src = none
strcpy_from (suc n) i dst src =
    let rest = strcpy_from n (i + 1) (update dst i (src i)) src in
    if src i == 0 then some (update dst i 0) else rest

-- `env_path` has 1024 bytes.
abbrev pub path_size : ℕ
path_size = 1024

or_panic : Option (ℕ → ℕ) → Cmd Kernel (ℕ → ℕ)
or_panic none k = panic
or_panic (some p) k = ok p k

unfoldable pub sys_exofork : Cmd Kernel ℕ
unfolding current env_alloc strcpy_from or_panic
sys_exofork = do
  c ← current
  e ← (λ k. env_alloc ((k.envs c).id) k)
  modify (λ k.
      set_env e
        (λ v. record v {
          tf = record (k.user_tf) { regs = update (k.user_tf.regs) 2 0 };
          status = env_not_runnable;
        })
        k)
  p ← (λ k. or_panic (strcpy_from path_size 0 ((k.envs e).path) ((k.envs c).path)) k)
  modify (λ k.
      set_env e (λ v. record v { path = p; pri = (k.envs c).pri; shell_id = (k.envs c).shell_id })
        k)
  gets (λ k. (k.envs e).id)

-- Step 3 of `sys_set_env_status`.
pub update_sched : ℕ → ℕ → Cmd Kernel (Unit {0})
unfolding sched_insert_tail sched_remove
update_sched e status k =
    if (k.envs e).status == status
    then ok tt k
    else (if status == env_runnable then sched_insert_tail e else sched_remove e) k

unfoldable pub sys_set_env_status : ℕ → ℕ → Cmd Kernel (Unit {0})
unfolding require envid2env update_sched
sys_set_env_status envid status = do
  require (not (status == env_runnable) && not (status == env_not_runnable))
  e ← envid2env envid true
  update_sched e status
  modify (set_env e (λ v. record v { status = status }))

-- The frame at the user address `va` is `tf`. For the current environment the value is the one
-- that the call returns, since the return value overrides `regs[2]`.
unfoldable pub sys_set_trapframe : ℕ → ℕ → Trapframe → Cmd Kernel ℕ
unfolding require is_illegal_va_range envid2env current
sys_set_trapframe envid va tf = do
  require (is_illegal_va_range va 152)
  e ← envid2env envid true
  c ← current
  if e == c
      then (do modify (λ k. record k { user_tf = tf }); pure (tf.regs 2))
      else (do modify (set_env e (λ v. record v { tf = tf })); pure 0)

unfoldable pub sys_ipc_recv : ℕ → Cmd Kernel (Unit {0})
unfolding require is_illegal_va current sched_remove schedule
sys_ipc_recv dstva = do
  require (not (dstva == 0) && is_illegal_va dstva)
  c ← current
  modify
      (set_env c (λ v. record v { ipc_recving = 1; ipc_dstva = dstva; status = env_not_runnable }))
  sched_remove c
  modify (λ k. record k { user_tf = record (k.user_tf) { regs = update (k.user_tf.regs) 2 0 } })
  schedule true

-- Steps 4 and 5 of `sys_ipc_try_send`: the message, and the receiver runnable again.
pub deliver : ℕ → ℕ → ℕ → ℕ → Cmd Kernel (Unit {0})
unfolding sched_insert_tail
deliver c e value perm = do
  modify (λ k.
      set_env e
        (λ v. record v {
          ipc_value = value;
          ipc_from = (k.envs c).id;
          ipc_perm = bit_or pte_v perm;
          ipc_recving = 0;
          status = env_runnable;
        })
        k)
  sched_insert_tail e

-- Step 6: the page at `srcva`, if there is one to send.
pub send_page : ℕ → ℕ → ℕ → ℕ → Cmd Kernel (Unit {0})
unfolding page_lookup map_found
send_page c e srcva perm k =
    if srcva == 0
    then ok tt k
    else (do
      found ← on_memory (page_lookup ((k.envs c).pgdir) srcva)
      map_found e ((k.envs e).ipc_dstva) perm found)
        k

unfoldable pub sys_ipc_try_send : ℕ → ℕ → ℕ → ℕ → Cmd Kernel (Unit {0})
unfolding require is_illegal_va envid2env current deliver send_page
sys_ipc_try_send envid value srcva perm = do
  require (not (srcva == 0) && is_illegal_va srcva)
  e ← envid2env envid false
  (λ k. if (k.envs e).ipc_recving == 0 then err ipc_not_recv k else ok tt k)
  c ← current
  deliver c e value perm
  send_page c e srcva perm
