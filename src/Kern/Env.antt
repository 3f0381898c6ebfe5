-- ===== src/Kern/Env.antt =====
-- kern/env.c: address space identifiers, environment identifiers, and the life of an environment.
pub mod Ids
pub mod Asid
use mos_volca_shell.Base.{
  ℕ, zero, suc, ◌+◌, ◌-◌, ◌*◌, ◌/◌, ◌%◌, ◌^◌, Bool, true, false, not, ◌&&◌, ◌||◌, Option, none,
  some, List, [], ◌∷◌, ◌==◌, ltb, leb, if◌then◌else◌, update, bit_or, bad_env, no_free_env, Run, ok,
  err, panic, Cmd, ◌>>=◌, ◌>>◌, pure, modify, gets, mem, erase,
}
use mos_volca_shell.Bits.{test_bit, set_bit, clear_bit}
use mos_volca_shell.Kern.Pmap.{
  Mem, page_alloc, page_remove, page_decref, page_insert, incref, tlb_invalidate, valid, ppn,
  pte_addr, pte_v, page2pa, pa2page, kaddr, write,
}
use mos_volca_shell.Kern.State.{
  Trapframe, Env, Kernel, env_free_status, env_runnable, nenv, on_memory, set_env, sched_remove,
}

-- NASID
abbrev pub nasid : ℕ
nasid = 64

-- `asid_bitmap[i >> 5] & (1 << (i & 31))`
unfoldable pub asid_used : (ℕ → ℕ) → ℕ → Bool
asid_used bitmap i = test_bit (bitmap (i / 32)) (i % 32)

pub asid_mark : ℕ → Kernel → Kernel
asid_mark i k = record k {
  asid_bitmap = update k.asid_bitmap (i / 32) (set_bit (k.asid_bitmap (i / 32)) (i % 32));
}

-- The loop of `asid_alloc` from `i` on, with `n` rounds left.
unfoldable pub asid_scan : ℕ → ℕ → Cmd Kernel ℕ
unfolding asid_used asid_mark
asid_scan zero i k = err no_free_env k
asid_scan (suc n) i k =
    let rest = asid_scan n (i + 1) k in
    if asid_used k.asid_bitmap i then rest else ok i (asid_mark i k)

unfoldable pub asid_alloc : Cmd Kernel ℕ
unfolding asid_scan
asid_alloc = asid_scan nasid 0

unfoldable pub asid_free : ℕ → Kernel → Kernel
asid_free i k = record k {
  asid_bitmap = update k.asid_bitmap (i / 32) (clear_bit (k.asid_bitmap (i / 32)) (i % 32));
}

-- `((++i) << (1 + LOG2NENV)) | (e - envs)`
unfoldable pub mkenvid : ℕ → Cmd Kernel ℕ
mkenvid e k =
    let i = (k.next_id + 1) % 2 ^ 32 in
    ok (bit_or (i * 2 ^ 11 % 2 ^ 32) e) (record k { next_id = i })

-- ENVX
abbrev pub envx : ℕ → ℕ
envx envid = envid % nenv

-- The check of `checkperm`: the environment is the current one or its immediate child.
unfoldable pub permitted : Option ℕ → ℕ → Cmd Kernel ℕ
permitted none e k = panic
permitted (some c) e k =
    if not ((k.envs e).parent_id == (k.envs c).id) && not ((k.envs e).id == (k.envs c).id)
    then err bad_env k
    else ok e k

-- `curenv`, which every caller dereferences.
unfoldable pub current : Cmd Kernel ℕ
current k = elim k.cur [ none ↦ panic | some c ↦ ok c k ]

unfoldable pub envid2env : ℕ → Bool → Cmd Kernel ℕ
unfolding permitted current
envid2env envid checkperm k =
    if envid == 0
    then current k
    else if (k.envs (envx envid)).status == env_free_status
        || not ((k.envs (envx envid)).id == envid)
    then err bad_env k
    else if checkperm
    then permitted k.cur (envx envid) k
    else ok (envx envid) k

-- The loop of `env_init` over the environments below `n`, from the last one down.
init_envs : ℕ → Kernel → Kernel
init_envs zero k = k
init_envs (suc n) k = init_envs n (record k {
  envs = update k.envs n (record (k.envs n) { status = env_free_status });
  free_envs = n ∷ k.free_envs;
})

-- `env_init` up to the mapping of UPAGES and UENVS.
unfoldable pub env_init_lists : Kernel → Kernel
unfolding init_envs
env_init_lists k = init_envs nenv (record k { free_envs = []; sched = [] })

-- PDX(UTOP) and PDX(UVPT)
abbrev pub pdx_utop : ℕ
pdx_utop = 509

abbrev pub pdx_uvpt : ℕ
pdx_uvpt = 511

-- The words of a new page directory: `base_pgdir` from UTOP up to UVPT, and at UVPT itself.
unfoldable pub directory : ℕ → ℕ → Mem → ℕ → ℕ
directory base p m i =
    if i == pdx_uvpt
    then bit_or (page2pa p) pte_v
    else if leb pdx_utop i && ltb i pdx_uvpt
    then m.word base i
    else m.word p i

unfoldable pub env_setup_vm : ℕ → Cmd Kernel (Unit {0})
unfolding page_alloc incref directory
env_setup_vm e = do
  p ← on_memory page_alloc
  modify (λ k. record k { memory = incref p k.memory })
  modify (set_env e (λ v. record v { pgdir = p }))
  modify (λ k. record k {
    memory = record (k.memory) {
      word = update (k.memory.word) p (directory k.base_pgdir p k.memory);
    };
  })

-- USTACKTOP - sizeof(int) - sizeof(char **), and STATUS_IM4 | STATUS_KUp | STATUS_IEp
abbrev pub initial_sp : ℕ
initial_sp = 0x7f400000 - 2 * 4096 - 8

abbrev pub initial_status : ℕ
initial_status = 0x1000 + 0x8 + 0x4

-- Steps 3 to 5 of `env_alloc`, once the address space is there.
unfoldable pub env_fill : ℕ → ℕ → Cmd Kernel ℕ
unfolding mkenvid asid_alloc
env_fill e parent_id = do
  modify
      (set_env e (λ v. record v { user_tlb_mod_entry = 0; runs = 0; path = update v.path 0 b'/' }))
  id ← mkenvid e
  modify (set_env e (λ v. record v { id = id; shell_id = 0 }))
  asid ← asid_alloc
  modify (
      set_env e (λ v. record v {
        asid = asid;
        parent_id = parent_id;
        tf = record (v.tf) { cp0_status = initial_status; regs = update (v.tf.regs) 29 initial_sp };
      }))
  modify (λ k. record k { free_envs = erase e k.free_envs })
  pure e

alloc_first : List ℕ → ℕ → Cmd Kernel ℕ
unfolding env_setup_vm env_fill
alloc_first [] parent_id k = err no_free_env k
alloc_first (e ∷ rest) parent_id k = (env_setup_vm e >> env_fill e parent_id) k

unfoldable pub env_alloc : ℕ → Cmd Kernel ℕ
unfolding alloc_first
env_alloc parent_id k = alloc_first k.free_envs parent_id k
