-- ===== src/Kern/State.antt =====
-- The state of the kernel: the global variables of kern/env.c, kern/sched.c and kern/pmap.c, with
-- `struct Env` of include/env.h and the registers of `struct Trapframe` of include/trap.h.
-- A `struct Env *` is its index in `envs`.
use mos_volca_shell.Base.{
  ℕ, Option, List, update, Run, ok, err, panic, Cmd, mem, if◌then◌else◌, erase, ◌∷◌, [], ◌++◌,
}
use mos_volca_shell.Kern.Pmap.{Mem}

pub record Trapframe : Type 0 where
  pub regs : ℕ → ℕ
  pub cp0_status : ℕ
  pub hi : ℕ
  pub lo : ℕ
  pub cp0_badvaddr : ℕ
  pub cp0_cause : ℕ
  pub cp0_epc : ℕ

pub record Env : Type 0 where
  pub tf : Trapframe
  pub id : ℕ
  pub asid : ℕ
  pub parent_id : ℕ
  pub status : ℕ
  pub pgdir : ℕ
  pub pri : ℕ
  pub ipc_value : ℕ
  pub ipc_from : ℕ
  pub ipc_recving : ℕ
  pub ipc_dstva : ℕ
  pub ipc_perm : ℕ
  pub user_tlb_mod_entry : ℕ
  pub runs : ℕ
  -- `env_path`, byte by byte
  pub path : ℕ → ℕ
  pub shell_id : ℕ

-- ENV_FREE, ENV_RUNNABLE, ENV_NOT_RUNNABLE and NENV
abbrev pub env_free_status : ℕ
env_free_status = 0

abbrev pub env_runnable : ℕ
env_runnable = 1

abbrev pub env_not_runnable : ℕ
env_not_runnable = 2

abbrev pub nenv : ℕ
nenv = 1024

pub record Kernel : Type 0 where
  pub memory : Mem
  pub envs : ℕ → Env
  -- `curenv`, none for NULL
  pub cur : Option ℕ
  -- `env_free_list` and `env_sched_list`, first element first
  pub free_envs : List ℕ
  pub sched : List ℕ
  pub base_pgdir : ℕ
  -- the words of `asid_bitmap`
  pub asid_bitmap : ℕ → ℕ
  -- the static counter of `mkenvid`
  pub next_id : ℕ
  -- the static `count` of `schedule`, a 32-bit pattern
  pub count : ℕ
  pub cur_pgdir : ℕ
  -- the context of the user program: `*((struct Trapframe *)KSTACKTOP - 1)` in the kernel
  pub user_tf : Trapframe

-- A function of kern/pmap.c, run on the memory of the kernel.
abbrev pub with_memory : {A : Type 0} → Kernel → Run Mem A → Run Kernel A
with_memory k (ok a m) = ok a (record k { memory = m })
with_memory k (err e m) = err e (record k { memory = m })
with_memory k panic = panic

abbrev pub on_memory : {A : Type 0} → Cmd Mem A → Cmd Kernel A
on_memory c k = with_memory k (c k.memory)

-- An assignment to fields of one environment.
abbrev pub set_env : ℕ → (Env → Env) → Kernel → Kernel
set_env e f k = record k { envs = update k.envs e (f (k.envs e)) }

-- `TAILQ_INSERT_HEAD`, `TAILQ_INSERT_TAIL` and `TAILQ_REMOVE` on `env_sched_list`. An element that
-- is put in twice, or taken out while it is not on the list, leaves broken links behind: what
-- follows is undefined in C, and the model stops.
unfoldable pub sched_insert_head : ℕ → Cmd Kernel (Unit {0})
sched_insert_head e k = if mem e k.sched then panic else ok tt (record k { sched = e ∷ k.sched })

unfoldable pub sched_insert_tail : ℕ → Cmd Kernel (Unit {0})
sched_insert_tail e k =
    if mem e k.sched then panic else ok tt (record k { sched = k.sched ++ (e ∷ []) })

unfoldable pub sched_remove : ℕ → Cmd Kernel (Unit {0})
sched_remove e k = if mem e k.sched then ok tt (record k { sched = erase e k.sched }) else panic
