-- ===== src/Kern/Syscall/Ipc.antt =====
-- Messages between environments: `sys_ipc_recv` and `sys_ipc_try_send` of kern/syscall_all.c.
use mos_volca_shell.Base.{
  ℕ, ◌≡◌, ◌≢◌, refl, arith, true, false, not, ◌&&◌, ◌==◌, Option, none, some, [], ◌∷◌, ◌++◌, Run,
  ok, err, panic, ipc_not_recv, ==_iff, ==-ne, ==-refl, ◌∙◌, ap, mem, bit_or, mem-append,
  append-Distinct, and_then,
}
use mos_volca_shell.Kern.Pmap.{pte_v}
use mos_volca_shell.Kern.State.{Env, Kernel, env_runnable, env_not_runnable, set_env}
use mos_volca_shell.Kern.Env.{envid2env, current}
use mos_volca_shell.Kern.Sched.Queue.{SchedOk}
use mos_volca_shell.Kern.Syscall.{require, is_illegal_va, deliver, send_page, sys_ipc_try_send}

-- What a delivered message changes: the receiver `e` can run again and holds the message.
pub record Delivered (c e val prm : ℕ) (k n : Kernel) : Type 0 where
  pub sched_ok : SchedOk n
  pub sched : n.sched ≡ k.sched ++ (e ∷ [])
  pub runnable : (n.envs e).status ≡ env_runnable
  pub value : (n.envs e).ipc_value ≡ val
  pub from : (n.envs e).ipc_from ≡ (k.envs c).id
  pub perm : (n.envs e).ipc_perm ≡ bit_or pte_v prm
  pub closed : (n.envs e).ipc_recving ≡ 0
  pub others : (q : ℕ) → q ≢ e → n.envs q ≡ k.envs q
  pub memory : n.memory ≡ k.memory

module _ (c e val prm : ℕ) (k : Kernel) where
  abbrev message : Env → Env
  message v = record v {
    ipc_value = val;
    ipc_from = (k.envs c).id;
    ipc_perm = bit_or pte_v prm;
    ipc_recving = 0;
    status = env_runnable;
  }

  abbrev delivered : Kernel
  delivered = record (set_env e message k) { sched = k.sched ++ (e ∷ []) }

  deliver-run : mem e k.sched ≡ false → deliver c e val prm k ≡ ok tt delivered
  unfolding deliver
  deliver-run out = rw out refl

  delivered-Delivered : SchedOk k → mem e k.sched ≡ false → Delivered c e val prm k delivered
  delivered-Delivered h out = record {
    sched_ok = record {
      distinct = append-Distinct k.sched e h.distinct out;
      listed = λ q. ground (arith, mem-append q k.sched (e ∷ []), h.listed q, ==_iff q e);
    };
    sched = refl;
    runnable = rw (==-refl e) refl;
    value = rw (==-refl e) refl;
    from = rw (==-refl e) refl;
    perm = rw (==-refl e) refl;
    closed = rw (==-refl e) refl;
    others = λ q ne. rw (==-ne q e ne) refl;
    memory = refl;
  }

-- The address is 0 or legal.
abbrev pub IsLegal : ℕ → Type 0
IsLegal va = (not (va == 0) && is_illegal_va va) ≡ false

send_page-none : (c e srcva prm : ℕ) (k : Kernel) → srcva ≡ 0 → send_page c e srcva prm k ≡ ok tt k
unfolding send_page
send_page-none c e srcva prm k z = rw ((==_iff _ _).1 z) refl

module _ (envid val srcva prm c e : ℕ) (k : Kernel) (legal : IsLegal srcva)
    (found : envid2env envid false k ≡ ok e k) where
  -- Nobody waits for the message.
  pub try_send-not_recv :
      (k.envs e).ipc_recving ≡ 0 → sys_ipc_try_send envid val srcva prm k ≡ err ipc_not_recv k
  unfolding sys_ipc_try_send require
  try_send-not_recv closed = rw (legal, found, (==_iff _ _).1 closed) refl

  send_rest : Option ℕ → Run Kernel (Unit {0})
  send_rest o =
      and_then (elim o [ none ↦ panic | some d ↦ ok d k ])
        (λ d s. and_then (deliver d e val prm s) (λ _ s. send_page d e srcva prm s))

  try_send-run :
      (k.envs e).ipc_recving ≢ 0
      → k.cur ≡ some c
      → sys_ipc_try_send envid val srcva prm k
        ≡ and_then (deliver c e val prm k) (λ _ s. send_page c e srcva prm s)
  unfolding sys_ipc_try_send require current send_rest
  try_send-run waits cur = rw (legal, found, ==-ne _ 0 waits) (ap send_rest cur)

  -- Whether or not a page is sent along, a message to an environment that waits is delivered, and
  -- all that is left of the call is the mapping of the page.
  pub try_send-delivers :
      SchedOk k
      → k.cur ≡ some c
      → (k.envs e).ipc_recving ≢ 0
      → (k.envs e).status ≡ env_not_runnable
      → (n : Kernel) × (sys_ipc_try_send envid val srcva prm k ≡ send_page c e srcva prm n)
        × Delivered c e val prm k n
  try_send-delivers h cur waits stopped =
      let out : mem e k.sched ≡ false = h.listed e ∙ ap (λ (t : ℕ). t == env_runnable) stopped in
      (
        delivered c e val prm k,
        try_send-run waits cur
            ∙ ap (λ r. and_then r (λ _ s. send_page c e srcva prm s))
                (deliver-run c e val prm k out),
        delivered-Delivered c e val prm k h out,
      )

  -- A message without a page to an environment that waits succeeds: the receiver is runnable and
  -- last on the list, which stays exact, it holds the value, the sender and the permission, it no
  -- longer receives, and no other environment and no memory changes.
  pub try_send-value :
      SchedOk k
      → k.cur ≡ some c
      → (k.envs e).ipc_recving ≢ 0
      → (k.envs e).status ≡ env_not_runnable
      → srcva ≡ 0
      → (n : Kernel) × (sys_ipc_try_send envid val srcva prm k ≡ ok tt n)
        × Delivered c e val prm k n
  try_send-value h cur waits stopped z =
      let (n, run, d) = try_send-delivers h cur waits stopped in
      (n, run ∙ send_page-none c e srcva prm n z, d)

  -- With the invariant of the list, a message to an environment that still receives but was made
  -- runnable meanwhile inserts it into `env_sched_list` a second time, which the model ends in a
  -- panic.
  pub try_send-twice :
      SchedOk k
      → k.cur ≡ some c
      → (k.envs e).ipc_recving ≢ 0
      → (k.envs e).status ≡ env_runnable
      → sys_ipc_try_send envid val srcva prm k ≡ panic
  unfolding deliver
  try_send-twice h cur waits running =
      let on : mem e k.sched ≡ true = h.listed e ∙ ap (λ (t : ℕ). t == env_runnable) running in
      try_send-run waits cur ∙ rw on refl
