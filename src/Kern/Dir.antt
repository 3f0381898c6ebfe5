-- ===== src/Kern/Dir.antt =====
-- The working directories of kern/syscall_all.c, which each environment keeps in `env_path`.
use mos_volca_shell.Base.{
  ℕ, zero, suc, Bool, true, false, none, some, ◌==◌, if◌then◌else◌, ok, panic, Cmd, ◌>>=◌, ◌>>◌,
  pure,
}
use mos_volca_shell.Kern.State.{Kernel, nenv, set_env}
use mos_volca_shell.Kern.Env.{envid2env, current}
use mos_volca_shell.Kern.Syscall.{strcpy_from, path_size}

-- The bytes that `strcpy` leaves in the caller's buffer, when it held `buf`.
unfoldable pub sys_get_env_path : ℕ → (ℕ → ℕ) → Cmd Kernel (ℕ → ℕ)
unfolding envid2env strcpy_from
sys_get_env_path envid buf = do
  e ← envid2env envid true
  (λ k. elim (strcpy_from path_size 0 buf ((k.envs e).path)) [ none ↦ panic | some p ↦ ok p k ])

-- `strcpy(env->env_path, env_path)`
unfoldable pub set_path : ℕ → (ℕ → ℕ) → Cmd Kernel (Unit {0})
unfolding strcpy_from
set_path e path k = elim (strcpy_from path_size 0 ((k.envs e).path) path) [
  | none ↦ panic
  | some p ↦ ok tt (set_env e (λ v. record v { path = p }) k)
]

-- The loop of `sys_change_dir` over the parents of `e`. There are no more of them than environments,
-- unless the identifiers run in a circle, where the C loop does not end.
unfoldable pub change_parents : ℕ → ℕ → (ℕ → ℕ) → Cmd Kernel (Unit {0})
unfolding envid2env set_path
change_parents zero e path k = panic
change_parents (suc n) e path k =
    (if (k.envs e).parent_id == 0 then pure tt else (do
      p ← envid2env ((k.envs e).parent_id) false
      set_path p path
      change_parents n p path))
      k

unfoldable pub sys_change_dir : (ℕ → ℕ) → Bool → Cmd Kernel (Unit {0})
unfolding change_parents current set_path
sys_change_dir path change_parent = do
  c ← current
  if change_parent then change_parents nenv c path else pure tt
  set_path c path
