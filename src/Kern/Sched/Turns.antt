-- ===== src/Kern/Sched/Turns.antt =====
-- Whose turn it is after `schedule` of kern/sched.c, and that the list keeps its invariant.
use mos_volca_shell.Base.{
  ℕ, ◌+◌, ◌-◌, ◌%◌, ◌^◌, ◌≡◌, refl, sym, ap, ◌∙◌, arith, Bool, true, false, not, ◌||◌, Option, none,
  some, List, [], ◌∷◌, ◌==◌, ok, panic, mem, Distinct, Bool-cases, inl, inr, ==-refl, Leaves, subst,
}
use mos_volca_shell.Kern.State.{Kernel, env_runnable}
use mos_volca_shell.Kern.Sched.{still_runnable, pick, tick, switch, continue, schedule}
use mos_volca_shell.Kern.Sched.Queue.{
  SchedOk, rotate, requeue-run, mem-rotate, rotate-Distinct, env_run-Ran,
}

-- When `schedule` picks another environment.
abbrev pub must_switch : Bool → Kernel → Bool
must_switch yield k = yield || (k.count == 0 || not (still_runnable k.cur k))

-- The turn of `e`, with the list and the slices that are left.
pub record Turn (e : ℕ) (l : List ℕ) (count : ℕ) (k n : Kernel) : Type 0 where
  pub current : n.cur ≡ some e
  pub sched : n.sched ≡ l
  pub slices : n.count ≡ (count + 2 ^ 32 - 1) % 2 ^ 32
  pub statuses : (q : ℕ) → (n.envs q).status ≡ (k.envs q).status
  pub priorities : (q : ℕ) → (n.envs q).pri ≡ (k.envs q).pri

head_mem : (a : ℕ) (l : List ℕ) → mem a (a ∷ l) ≡ true
head_mem a l = rw (==-refl a) refl

tick-Turn :
    (e : ℕ) (k : Kernel)
    → ((k.envs e).status == env_runnable) ≡ true
    → (n : Kernel) × (tick e k ≡ ok tt n) × Turn e k.sched k.count k n
unfolding tick
tick-Turn e k h =
    let (n, run, r) = env_run-Ran e (record k { count = (k.count + 2 ^ 32 - 1) % 2 ^ 32 }) h in
    (
      n,
      run,
      record {
        current = r.current;
        sched = r.sched;
        slices = r.count;
        statuses = r.statuses;
        priorities = r.priorities;
      },
    )

module _ (yield : Bool) (k : Kernel) (h : SchedOk k) where
  -- With no runnable environment at all the kernel panics.
  pub schedule-empty :
      must_switch yield k ≡ true → rotate k.cur k.sched ≡ [] → schedule yield k ≡ panic
  unfolding schedule switch pick
  schedule-empty m e = rw (m, requeue-run k.cur k h, e) refl

  -- With the invariant of the list, when `schedule` must pick an environment (a yield, no slices
  -- left, or no current runnable environment) and `e` heads the list after the current
  -- environment was moved to the tail, `schedule` succeeds and `e` runs, the list is the rotated
  -- one, the slices are the priority of `e` less one modulo 2^32, and no status or priority
  -- changes.
  pub schedule-switches :
      (e : ℕ) (rest : List ℕ)
      → must_switch yield k ≡ true
      → rotate k.cur k.sched ≡ e ∷ rest
      → (n : Kernel) × (schedule yield k ≡ ok tt n) × Turn e (e ∷ rest) ((k.envs e).pri) k n
  unfolding schedule switch pick
  schedule-switches e rest m eq =
      let runnable : ((k.envs e).status == env_runnable) ≡ true =
        sym (h.listed e)
        ∙ sym (mem-rotate k.cur k.sched e h.distinct)
        ∙ ap (mem e) eq
        ∙ head_mem e rest in
      let (n, run, t) =
        tick-Turn e (record k { sched = e ∷ rest; count = (k.envs e).pri }) runnable in
      (
        n,
        rw (m, requeue-run k.cur k h, eq) run,
        record {
          current = t.current;
          sched = t.sched;
          slices = t.slices;
          statuses = t.statuses;
          priorities = t.priorities;
        },
      )

  runnable_of : (y z b : Bool) → (y || (z || not b)) ≡ false → b ≡ true
  runnable_of y z b e = ground arith

  -- Otherwise the current environment goes on, with one slice less.
  pub schedule-continues :
      (c : ℕ)
      → must_switch yield k ≡ false
      → k.cur ≡ some c
      → (n : Kernel) × (schedule yield k ≡ ok tt n) × Turn c k.sched k.count k n
  unfolding schedule continue
  schedule-continues c m e =
      let runnable : ((k.envs c).status == env_runnable) ≡ true =
        ap (λ o. still_runnable o k) (sym e)
        ∙ runnable_of yield (k.count == 0) (still_runnable k.cur k) m in
      let (n, run, t) = tick-Turn c k runnable in (n, rw m (ap (λ o. continue o k) e ∙ run), t)

-- A turn keeps the invariant of the list.
pub Turn-SchedOk :
    (e count : ℕ) (l : List ℕ) (k n : Kernel)
    → SchedOk k
    → Distinct l
    → ((q : ℕ) → mem q l ≡ mem q k.sched)
    → Turn e l count k n
    → SchedOk n
Turn-SchedOk e count l k n h d same t = record {
  distinct = rw t.sched d;
  listed = λ q. rw (t.sched, t.statuses q) (same q ∙ h.listed q);
}

switch-SchedOk :
    (yield : Bool) (k : Kernel) (l : List ℕ)
    → SchedOk k
    → must_switch yield k ≡ true
    → rotate k.cur k.sched ≡ l
    → Leaves SchedOk (schedule yield k)
switch-SchedOk yield k [] h m e = rw (schedule-empty yield k h m e) tt
switch-SchedOk yield k (e ∷ rest) h m eq =
    let (n, run, t) = schedule-switches yield k h e rest m eq in
    rw run (
      Turn-SchedOk e ((k.envs e).pri) (e ∷ rest) k n h
        (rw eq at (rotate-Distinct k.cur k.sched h.distinct))
        (λ q. ap (mem q) (sym eq) ∙ mem-rotate k.cur k.sched q h.distinct) t)

continue-SchedOk :
    (yield : Bool) (k : Kernel) (o : Option ℕ)
    → SchedOk k
    → must_switch yield k ≡ false
    → k.cur ≡ o
    → Leaves SchedOk (schedule yield k)
unfolding schedule continue
continue-SchedOk yield k none h m e = rw m (subst (λ o. Leaves SchedOk (continue o k)) (sym e) tt)
continue-SchedOk yield k (some c) h m e =
    let (n, run, t) = schedule-continues yield k h c m e in
    rw run (Turn-SchedOk c k.count k.sched k n h h.distinct (λ q. refl) t)

-- `schedule` keeps `env_sched_list` exact, as the list of the runnable environments, each once,
-- unless it panics.
pub schedule-SchedOk : (yield : Bool) (k : Kernel) → SchedOk k → Leaves SchedOk (schedule yield k)
schedule-SchedOk yield k h = elim (Bool-cases (must_switch yield k)) [
  | inl m ↦ switch-SchedOk yield k (rotate k.cur k.sched) h m refl
  | inr m ↦ continue-SchedOk yield k k.cur h m refl
]
