-- ===== src/Kern/Sched/Queue.antt =====
-- The invariant that kern/env.c states of `env_sched_list`, and what `schedule` of kern/sched.c
-- does to the list.
use mos_volca_shell.Base.{
  ℕ, ◌+◌, ◌%◌, ◌^◌, ◌≡◌, refl, ◌∙◌, arith, Bool, true, false, ◌||◌, Option, none, some, List, [],
  ◌∷◌, ◌++◌, ◌==◌, if◌then◌else◌, ok, mem, Distinct, erase, Bool-cases, inl, inr, ==_iff, ==-refl,
  mem-append, mem-erase_ne, mem-erase_self, erase-Distinct, append-Distinct,
}
use mos_volca_shell.Kern.State.{Kernel, env_runnable}
use mos_volca_shell.Kern.Sched.{env_run, resume, is_current, save_context, requeue}

-- `env_sched_list` holds exactly the runnable environments, each once.
pub record SchedOk (k : Kernel) : Type 0 where
  pub distinct : Distinct k.sched
  pub listed : (e : ℕ) → mem e k.sched ≡ ((k.envs e).status == env_runnable)

-- The list after the current environment went to its tail, if it is on the list.
abbrev pub rotate : Option ℕ → List ℕ → List ℕ
rotate none l = l
rotate (some c) l = if mem c l then erase c l ++ (c ∷ []) else l

pub requeue-run :
    (o : Option ℕ) (k : Kernel)
    → SchedOk k
    → requeue o k ≡ ok tt (record k { sched = rotate o k.sched })
unfolding requeue
requeue-run none k h = refl
requeue-run (some c) k h = elim (Bool-cases (mem c k.sched)) [
  | inl i ↦ rw (← h.listed c, i, mem-erase_self c k.sched h.distinct) refl
  | inr i ↦ rw (← h.listed c, i) refl
]

or-false : (b : Bool) → (b || false) ≡ b
or-false true = refl
or-false false = refl

pub mem-rotate : (o : Option ℕ) (l : List ℕ) (e : ℕ) → Distinct l → mem e (rotate o l) ≡ mem e l
mem-rotate none l e d = refl
mem-rotate (some c) l e d = elim (Bool-cases (mem c l)) [
  | inl i ↦ rw (i, mem-append e (erase c l) (c ∷ [])) (moved i)
  | inr i ↦ rw i refl
]
  where
    moved : mem c l ≡ true → (mem e (erase c l) || (e == c || false)) ≡ mem e l
    moved i = elim (Bool-cases (e == c)) [
      | inl same ↦ rw (same, (==_iff e c).0 same, i, mem-erase_self c l d) refl
      | inr ne ↦ rw (ne, mem-erase_ne e c l ne) (or-false (mem e l))
    ]

pub rotate-Distinct : (o : Option ℕ) (l : List ℕ) → Distinct l → Distinct (rotate o l)
rotate-Distinct none l d = d
rotate-Distinct (some c) l d = elim (Bool-cases (mem c l)) [
  | inl i ↦ rw i (append-Distinct (erase c l) c (erase-Distinct c l d) (mem-erase_self c l d))
  | inr i ↦ rw i d
]

-- Saving the context of the running program changes that context only.
record Saved (o : Option ℕ) (k n : Kernel) : Type 0 where
  sched : n.sched ≡ k.sched
  count : n.count ≡ k.count
  statuses : (q : ℕ) → (n.envs q).status ≡ (k.envs q).status
  priorities : (q : ℕ) → (n.envs q).pri ≡ (k.envs q).pri
  runs : (q : ℕ) → (n.envs q).runs ≡ (k.envs q).runs
  directories : (q : ℕ) → (n.envs q).pgdir ≡ (k.envs q).pgdir
  contexts : (q : ℕ) → (n.envs q).tf ≡ (if is_current o q then k.user_tf else (k.envs q).tf)

save_context-Saved : (o : Option ℕ) (k : Kernel) → Saved o k (save_context o k)
unfolding save_context is_current
save_context-Saved none k = record {
  sched = refl;
  count = refl;
  statuses = λ q. refl;
  priorities = λ q. refl;
  runs = λ q. refl;
  directories = λ q. refl;
  contexts = λ q. refl;
}
save_context-Saved (some c) k = record {
  sched = refl;
  count = refl;
  statuses = λ q. ground (arith, ==_iff q c);
  priorities = λ q. ground (arith, ==_iff q c);
  runs = λ q. ground (arith, ==_iff q c);
  directories = λ q. ground (arith, ==_iff q c);
  contexts = λ q. ground (arith, ==_iff q c);
}

-- What `env_run` leaves: the environment runs in its own address space, with the context that it
-- was stopped in, which for the one that was running is the context of the program itself.
pub record Ran (e : ℕ) (k n : Kernel) : Type 0 where
  pub current : n.cur ≡ some e
  pub sched : n.sched ≡ k.sched
  pub count : n.count ≡ k.count
  pub statuses : (q : ℕ) → (n.envs q).status ≡ (k.envs q).status
  pub priorities : (q : ℕ) → (n.envs q).pri ≡ (k.envs q).pri
  pub runs : (n.envs e).runs ≡ ((k.envs e).runs + 1) % 2 ^ 32
  pub directory : n.cur_pgdir ≡ (k.envs e).pgdir
  pub context : n.user_tf ≡ (if is_current k.cur e then k.user_tf else (k.envs e).tf)
  pub stopped : (q : ℕ) → (n.envs q).tf ≡ (if is_current k.cur q then k.user_tf else (k.envs q).tf)

resume-Ran : (e : ℕ) (k s : Kernel) → Saved k.cur k s → Ran e k (resume e s)
unfolding resume
resume-Ran e k s h = record {
  current = refl;
  sched = h.sched;
  count = h.count;
  statuses = λ q. ground (arith, ==_iff q e, h.statuses q, h.statuses e);
  priorities = λ q. ground (arith, ==_iff q e, h.priorities q, h.priorities e);
  runs = rw (==-refl e, h.runs e) refl;
  directory = h.directories e;
  context = h.contexts e;
  stopped = λ q. same q ∙ h.contexts q;
}
  where
    same : (q : ℕ) → ((resume e s).envs q).tf ≡ (s.envs q).tf
    same q = ground (arith, ==_iff q e)

-- `env_run` of a runnable environment succeeds: it becomes current with its own directory and the
-- context it was stopped in, its run count goes up by one modulo 2^32, the context of the program
-- that ran before is saved in its environment, and the list, the slices, the statuses and the
-- priorities stay.
pub env_run-Ran :
    (e : ℕ) (k : Kernel)
    → ((k.envs e).status == env_runnable) ≡ true
    → (n : Kernel) × (env_run e k ≡ ok tt n) × Ran e k n
unfolding env_run
env_run-Ran e k h = (
  resume e (save_context k.cur k),
  rw h refl,
  resume-Ran e k (save_context k.cur k) (save_context-Saved k.cur k),
)
