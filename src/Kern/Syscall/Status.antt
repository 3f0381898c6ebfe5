-- ===== src/Kern/Syscall/Status.antt =====
-- `sys_set_env_status` of kern/syscall_all.c keeps the list of runnable environments exact.
use mos_volca_shell.Base.{
  ℕ, ◌≡◌, ◌≢◌, ◌⊎◌, refl, sym, subst, arith, Bool, true, false, not, ◌&&◌, ◌==◌, if◌then◌else◌, [],
  ◌∷◌, ◌++◌, ok, Bool-cases, inl, inr, ==_iff, ==-ne, ==-refl, ◌∙◌, ap, mem, erase, mem-append,
  mem-erase_ne, mem-erase_self, erase-Distinct, append-Distinct,
}
use mos_volca_shell.Kern.State.{
  Kernel, env_runnable, env_not_runnable, set_env, sched_insert_tail, sched_remove,
}
use mos_volca_shell.Kern.Env.{envid2env}
use mos_volca_shell.Kern.Sched.Queue.{SchedOk}
use mos_volca_shell.Kern.Syscall.{update_sched, sys_set_env_status}

abbrev pub with_status : ℕ → ℕ → Kernel → Kernel
with_status e status k = set_env e (λ v. record v { status = status }) k

-- An environment that becomes runnable goes to the tail of the list.
pub insert-SchedOk :
    (e : ℕ) (k : Kernel)
    → SchedOk k
    → mem e k.sched ≡ false
    → SchedOk (with_status e env_runnable (record k { sched = k.sched ++ (e ∷ []) }))
insert-SchedOk e k h out = record {
  distinct = append-Distinct k.sched e h.distinct out;
  listed = λ q. ground (arith, mem-append q k.sched (e ∷ []), h.listed q, ==_iff q e);
}

-- One that stops to be runnable leaves it.
pub remove-SchedOk :
    (e status : ℕ) (k : Kernel)
    → SchedOk k
    → status ≢ env_runnable
    → SchedOk (with_status e status (record k { sched = erase e k.sched }))
remove-SchedOk e status k h ne = record {
  distinct = erase-Distinct e k.sched h.distinct;
  listed = λ q. elim (Bool-cases (q == e)) [
    | inl same ↦
        rw ((==_iff _ _).0 same)
          (rw (==-refl e, mem-erase_self e k.sched h.distinct) (sym (==-ne status env_runnable ne)))
    | inr other ↦ rw (other, mem-erase_ne q e k.sched other) (h.listed q)
  ];
}

-- A status that stays changes nothing.
same-SchedOk :
    (e status : ℕ) (k : Kernel)
    → SchedOk k
    → (k.envs e).status ≡ status
    → SchedOk (with_status e status k)
same-SchedOk e status k h same = record {
  distinct = h.distinct;
  listed = λ q. ground (arith, h.listed q, ==_iff q e);
}

-- The environment is alive: its status is one of the two that a system call may set.
abbrev pub IsAlive : ℕ → Kernel → Type 0
IsAlive e k = ((k.envs e).status ≡ env_runnable) ⊎ ((k.envs e).status ≡ env_not_runnable)

abbrev pub IsStatus : ℕ → Type 0
IsStatus s = (s ≡ env_runnable) ⊎ (s ≡ env_not_runnable)

update_sched-SchedOk :
    (e status : ℕ) (k : Kernel)
    → SchedOk k
    → IsStatus status
    → IsAlive e k
    → (n : Kernel) × (update_sched e status k ≡ ok tt n) × SchedOk (with_status e status n)
unfolding update_sched
update_sched-SchedOk e status k h which alive = elim (Bool-cases ((k.envs e).status == status)) [
  | inl same ↦ (k, rw same refl, same-SchedOk e status k h ((==_iff _ _).0 same))
  | inr ne ↦ rw ne (changed ne (status == env_runnable) refl)
]
  where
    off : ((k.envs e).status == env_runnable) ≡ false → mem e k.sched ≡ false
    off stopped = h.listed e ∙ stopped

    on : ((k.envs e).status == env_runnable) ≡ true → mem e k.sched ≡ true
    on running = h.listed e ∙ running

    changed :
        ((k.envs e).status == status) ≡ false
        → (b : Bool) → (status == env_runnable) ≡ b
        → (n : Kernel) × ((if b then sched_insert_tail e else sched_remove e) k ≡ ok tt n)
          × SchedOk (with_status e status n)
    changed ne true to_run =
        let out : mem e k.sched ≡ false = off (ground arith) in
        (
          record k { sched = k.sched ++ (e ∷ []) },
          rw out refl,
          subst (λ (t : ℕ). SchedOk (with_status e t (record k { sched = k.sched ++ (e ∷ []) })))
              (sym ((==_iff _ _).0 to_run)) (insert-SchedOk e k h out),
        )
    changed ne false to_stop = (
      record k { sched = erase e k.sched },
      rw (on (ground arith)) refl,
      remove-SchedOk e status k h (ground arith),
    )

require_status :
    (status : ℕ)
    → IsStatus status
    → (not (status == env_runnable) && not (status == env_not_runnable)) ≡ false
require_status status which = ground arith

-- With the invariant of the list, a legal status and an identifier that `envid2env` accepts as
-- that of an environment that is not free, `sys_set_env_status` succeeds, the environment has the
-- status, the list is again exactly the runnable environments, and the environment is on it if
-- and only if it is runnable now.
pub sys_set_env_status-SchedOk :
    (envid status e : ℕ) (k : Kernel)
    → SchedOk k
    → IsStatus status
    → envid2env envid true k ≡ ok e k
    → IsAlive e k
    → (n : Kernel) × (sys_set_env_status envid status k ≡ ok tt n)
      × SchedOk n
      × ((n.envs e).status ≡ status)
      × (mem e n.sched ≡ (status == env_runnable))
unfolding sys_set_env_status
sys_set_env_status-SchedOk envid status e k h which found alive =
    let (n, run, h') = update_sched-SchedOk e status k h which alive in
    let set : ((with_status e status n).envs e).status ≡ status = rw (==-refl e) refl in
    (
      with_status e status n,
      rw (require_status status which, found, run) refl,
      h',
      set,
      h'.listed e ∙ ap (λ (s : ℕ). s == env_runnable) set,
    )
