-- ===== src/Kern/Teardown.antt =====
-- `env_free` of kern/env.c: the end of an environment and of its address space.
pub mod Release
use mos_volca_shell.Base.{
  ℕ, zero, suc, ◌+◌, ◌-◌, ◌*◌, ◌/◌, ◌%◌, ◌^◌, Bool, true, false, not, ◌&&◌, ◌||◌, Option, none,
  some, List, [], ◌∷◌, ◌==◌, if◌then◌else◌, update, Run, ok, err, panic, Cmd, ◌>>=◌, ◌>>◌, pure,
  modify, assert,
}
use mos_volca_shell.Kern.Pmap.{
  page_remove, page_decref, tlb_invalidate, valid, ppn, pte_addr, pa2page, kaddr, store,
}
use mos_volca_shell.Kern.State.{
  Kernel, env_free_status, env_runnable, on_memory, set_env, sched_remove, sched_insert_tail,
}
use mos_volca_shell.Kern.Env.{asid_free, pdx_utop, pdx_uvpt}

abbrev pub uvpt : ℕ
uvpt = 0x7fc00000

-- The inner loop of `env_free` over the entries of one table from `pteno` on, `n` of them left.
unfoldable pub free_entries : ℕ → ℕ → ℕ → ℕ → ℕ → Cmd Kernel (Unit {0})
free_entries zero pteno pdeno pt e k = ok tt k
free_entries (suc n) pteno pdeno pt e k =
    (on_memory (
          if valid (k.memory.word pt pteno)
          then page_remove ((k.envs e).pgdir) ((k.envs e).asid) (pdeno * 2 ^ 22 + pteno * 2 ^ 12)
          else pure tt)
        >> free_entries n (pteno + 1) pdeno pt e)
      k

-- One table: its entries are unmapped, then the table itself is released.
unfoldable pub free_table : ℕ → ℕ → ℕ → Cmd Kernel (Unit {0})
unfolding free_entries
free_table pdeno pa e k =
    (do
      pt ← on_memory (kaddr pa)
      free_entries 1024 0 pdeno pt e
      modify (λ k. record k { memory = store ((k.envs e).pgdir, pdeno) 0 k.memory })
      pp ← on_memory (pa2page pa)
      on_memory (page_decref pp)
      modify (λ k. record k {
        memory = tlb_invalidate ((k.envs e).asid) (uvpt + pdeno * 2 ^ 12) k.memory;
      }))
      k

-- The outer loop of `env_free` over the directory below UTOP.
unfoldable pub free_tables : ℕ → ℕ → ℕ → Cmd Kernel (Unit {0})
unfolding free_table
free_tables zero pdeno e k = ok tt k
free_tables (suc n) pdeno e k =
    ((if valid (k.memory.word ((k.envs e).pgdir) pdeno)
          then free_table pdeno (pte_addr (k.memory.word ((k.envs e).pgdir) pdeno)) e
          else pure tt)
        >> free_tables n (pdeno + 1) e)
      k

-- The last steps of `env_free`: the identifiers and the lists.
unfoldable pub env_release : ℕ → Cmd Kernel (Unit {0})
unfolding asid_free sched_remove
env_release e = do
  modify (λ k. asid_free ((k.envs e).asid) k)
  modify (λ k. record k {
    memory = tlb_invalidate ((k.envs e).asid) (uvpt + pdx_uvpt * 2 ^ 12) k.memory;
  })
  modify (set_env e (λ v. record v { status = env_free_status }))
  modify (λ k. record k { free_envs = e ∷ k.free_envs })
  sched_remove e

unfoldable pub env_free : ℕ → Cmd Kernel (Unit {0})
unfolding free_tables env_release
env_free e = do
  free_tables pdx_utop 0 e
  (λ k. on_memory (page_decref ((k.envs e).pgdir)) k)
  env_release e
