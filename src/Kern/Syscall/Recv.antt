-- ===== src/Kern/Syscall/Recv.antt =====
-- `sys_ipc_recv` of kern/syscall_all.c: the caller blocks until a message comes.
use mos_volca_shell.Base.{
  ℕ, ◌≡◌, ◌≢◌, refl, arith, Bool, true, false, ◌==◌, if◌then◌else◌, Option, none, some, List, [],
  ◌∷◌, ◌++◌, Run, ok, panic, Bool-cases, inl, inr, ==_iff, ==-refl, ◌∙◌, ap, mem, erase, update,
  mem-erase_ne, mem-erase_self, erase-Distinct, and_then,
}
use mos_volca_shell.Kern.State.{Env, Kernel, env_runnable, env_not_runnable, set_env, sched_remove}
use mos_volca_shell.Kern.Env.{current}
use mos_volca_shell.Kern.Sched.{schedule}
use mos_volca_shell.Kern.Sched.Queue.{SchedOk, rotate}
use mos_volca_shell.Kern.Sched.Turns.{schedule-SchedOk, schedule-switches}
use mos_volca_shell.Kern.Syscall.{require, sys_ipc_recv}
use mos_volca_shell.Kern.Syscall.Ipc.{IsLegal}

-- The receiver is blocked and off the list, and `q` has the CPU.
pub record Blocked (c dstva q : ℕ) (n : Kernel) : Type 0 where
  pub sched_ok : SchedOk n
  pub off : mem c n.sched ≡ false
  pub current : n.cur ≡ some q
  pub other : q ≢ c

module _ (c dstva : ℕ) (k : Kernel) where
  abbrev pub waits : Env → Env
  waits v = record v { ipc_recving = 1; ipc_dstva = dstva; status = env_not_runnable }

  -- The state in which the receiver calls `schedule`.
  abbrev pub stopped : Kernel
  stopped = record (set_env c waits k) {
    sched = erase c k.sched;
    user_tf = record (k.user_tf) { regs = update (k.user_tf.regs) 2 0 };
  }

  stopped-SchedOk : SchedOk k → SchedOk stopped
  stopped-SchedOk h = record {
    distinct = erase-Distinct c k.sched h.distinct;
    listed = λ q. elim (Bool-cases (q == c)) [
      | inl same ↦ rw ((==_iff _ _).0 same) (rw (==-refl c) (mem-erase_self c k.sched h.distinct))
      | inr ne ↦ rw (ne, mem-erase_ne q c k.sched ne) (h.listed q)
    ];
  }

  recv_rest : Option ℕ → Run Kernel (Unit {0})
  recv_rest o =
      and_then (elim o [ none ↦ panic | some d ↦ ok d k ])
        (λ d s. and_then (sched_remove d (set_env d waits s)) (λ _ s.
          schedule true
            (record s { user_tf = record (s.user_tf) { regs = update (s.user_tf.regs) 2 0 } })))

  recv-run :
      IsLegal dstva
      → k.cur ≡ some c
      → mem c k.sched ≡ true
      → sys_ipc_recv dstva k ≡ schedule true stopped
  unfolding sys_ipc_recv require current recv_rest sched_remove
  recv-run legal cur on = rw legal (ap recv_rest cur ∙ rw on refl)

  first_other : (l : List ℕ) (q : ℕ) (rest : List ℕ) → l ≡ q ∷ rest → mem c l ≡ false → q ≢ c
  first_other l q rest e out same =
      let out' : mem c (q ∷ rest) ≡ false = rw e at out in ground arith

  -- A receive at 0 or a legal address by the running environment, with another environment first
  -- on the rest of the list, succeeds: the caller leaves the list, which stays exact, and that
  -- other environment runs.
  pub sys_ipc_recv-blocks :
      (q : ℕ) (rest : List ℕ)
      → SchedOk k
      → IsLegal dstva
      → k.cur ≡ some c
      → (k.envs c).status ≡ env_runnable
      → erase c k.sched ≡ q ∷ rest
      → (n : Kernel) × (sys_ipc_recv dstva k ≡ ok tt n) × Blocked c dstva q n
  sys_ipc_recv-blocks q rest h legal cur running next =
      let gone : mem c (erase c k.sched) ≡ false = mem-erase_self c k.sched h.distinct in
      let on : mem c k.sched ≡ true = h.listed c ∙ (==_iff _ _).1 running in
      let turn : rotate k.cur (erase c k.sched) ≡ q ∷ rest =
        ap (λ o. rotate o (erase c k.sched)) cur
        ∙ ap (λ (b : Bool). if b then erase c (erase c k.sched) ++ (c ∷ []) else erase c k.sched)
            gone
        ∙ next in
      let h' : SchedOk stopped = stopped-SchedOk h in
      let (n, run, t) = schedule-switches true stopped h' q rest refl turn in
      (
        n,
        recv-run legal cur on ∙ run,
        record {
          sched_ok = rw run at (schedule-SchedOk true stopped h');
          off = rw t.sched (rw next at gone);
          current = t.current;
          other = first_other (erase c k.sched) q rest next gone;
        },
      )
