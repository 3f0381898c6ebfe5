-- ===== src/Kern/Sched.antt =====
-- `schedule` of kern/sched.c, with `env_run` and `env_destroy` of kern/env.c.
pub mod Queue
pub mod Turns
pub mod Fair
use mos_volca_shell.Base.{
  ℕ, zero, suc, ◌+◌, ◌-◌, ◌*◌, ◌/◌, ◌%◌, ◌^◌, Bool, true, false, not, ◌&&◌, ◌||◌, Option, none,
  some, List, [], ◌∷◌, ◌==◌, if◌then◌else◌, update, Run, ok, err, panic, Cmd, ◌>>=◌, ◌>>◌, pure,
  modify, assert,
}
use mos_volca_shell.Kern.Pmap.{
  page_remove, page_decref, tlb_invalidate, valid, ppn, pte_addr, pa2page, kaddr, store,
}
use mos_volca_shell.Kern.State.{
  Kernel, env_free_status, env_runnable, on_memory, set_env, sched_remove, sched_insert_tail,
}
use mos_volca_shell.Kern.Teardown.{env_free}

-- The context of the running program is saved in its environment.
save_context : Option ℕ → Kernel → Kernel
save_context none k = k
save_context (some c) k = set_env c (λ v. record v { tf = k.user_tf }) k

-- The switch to an environment. `env_pop_tf` continues with its saved context.
resume : ℕ → Kernel → Kernel
resume e k = record k {
  envs = update k.envs e (record (k.envs e) { runs = ((k.envs e).runs + 1) % 2 ^ 32 });
  cur = some e;
  cur_pgdir = (k.envs e).pgdir;
  user_tf = (k.envs e).tf;
}

-- `env_run`, without the tracing of `pre_env_run` that only test builds compile in.
unfoldable pub env_run : ℕ → Cmd Kernel (Unit {0})
unfolding save_context resume
env_run e = do
  (λ k. assert ((k.envs e).status == env_runnable) k)
  modify (λ k. resume e (save_context k.cur k))

-- `e && e->env_status == ENV_RUNNABLE`
abbrev pub still_runnable : Option ℕ → Kernel → Bool
still_runnable none k = false
still_runnable (some c) k = (k.envs c).status == env_runnable

-- A current environment that can go on moves to the tail of the list.
pub requeue : Option ℕ → Cmd Kernel (Unit {0})
unfolding sched_remove sched_insert_tail
requeue none k = ok tt k
requeue (some c) k =
    if (k.envs c).status == env_runnable then (sched_remove c >> sched_insert_tail c) k else ok tt k

-- The head of the list is next, for as many ticks as its priority says.
pub pick : List ℕ → Cmd Kernel ℕ
pick [] k = panic
pick (e ∷ rest) k = ok e (record k { count = (k.envs e).pri })

-- `count--` and `env_run`.
pub tick : ℕ → Cmd Kernel (Unit {0})
unfolding env_run
tick e = do modify (λ k. record k { count = (k.count + 2 ^ 32 - 1) % 2 ^ 32 }); env_run e

pub switch : Cmd Kernel (Unit {0})
unfolding requeue pick tick
switch = do (λ k. requeue k.cur k); e ← (λ k. pick k.sched k); tick e

continue : Option ℕ → Cmd Kernel (Unit {0})
unfolding tick
continue none k = panic
continue (some c) k = tick c k

unfoldable pub schedule : Bool → Cmd Kernel (Unit {0})
unfolding switch continue
schedule yield k =
    if yield || (k.count == 0 || not (still_runnable k.cur k)) then switch k else continue k.cur k

unfoldable pub is_current : Option ℕ → ℕ → Bool
is_current none e = false
is_current (some c) e = c == e

unfoldable pub env_destroy : ℕ → Cmd Kernel (Unit {0})
unfolding env_free is_current schedule
env_destroy e = do
  env_free e
  (λ k. if is_current k.cur e then schedule true (record k { cur = none }) else ok tt k)
