-- ===== src/Kern/Sched/Fair.antt =====
-- Every runnable environment gets its turn under `schedule` of kern/sched.c, and keeps it for as
-- many ticks as it has slices.
use mos_volca_shell.Base.{
  ℕ, zero, suc, ◌<◌, ◌^◌, ◌≡◌, ◌≢◌, refl, ap, ◌∙◌, arith, Bool, true, false, not, ◌||◌, some, List,
  [], ◌∷◌, ◌++◌, ◌==◌, ok, Cmd, and_then, mem, Distinct, erase, Bool-cases, inl, inr, ==_iff,
  ==-refl, ==-ne, length, append_assoc, mem-erase_ne, mem-erase_self,
}
use mos_volca_shell.Kern.State.{Kernel, env_runnable}
use mos_volca_shell.Kern.Sched.{still_runnable, schedule}
use mos_volca_shell.Kern.Sched.Queue.{SchedOk, rotate}
use mos_volca_shell.Kern.Sched.Turns.{
  must_switch, schedule-switches, schedule-continues, schedule-SchedOk,
}

-- With another runnable environment on the list, yielding passes the turn on.
other_first :
    (c q : ℕ) (l : List ℕ)
    → Distinct l
    → mem q l ≡ true
    → (q == c) ≡ false
    → (e : ℕ) × (rest : List ℕ) × (rotate (some c) l ≡ e ∷ rest) × ((e == c) ≡ false)
other_first c q l d i ne = elim (Bool-cases (mem c l)) [
  | inl on ↦ rw on (first (erase c l) (mem-erase_ne q c l ne ∙ i) (mem-erase_self c l d))
  | inr off ↦ rw off (second l i off)
]
  where
    first :
        (r : List ℕ)
        → mem q r ≡ true
        → mem c r ≡ false
        → (e : ℕ) × (rest : List ℕ) × (r ++ (c ∷ []) ≡ e ∷ rest) × ((e == c) ≡ false)
    first [] j o = cc
    first (e ∷ rest) j o = (e, rest ++ (c ∷ []), refl, ground arith)

    second :
        (r : List ℕ)
        → mem q r ≡ true
        → mem c r ≡ false
        → (e : ℕ) × (rest : List ℕ) × (r ≡ e ∷ rest) × ((e == c) ≡ false)
    second [] j o = cc
    second (e ∷ rest) j o = (e, rest, refl, ground arith)

-- When another environment is runnable, a yield succeeds and gives the CPU to an environment
-- other than the caller.
pub yield-passes :
    (k : Kernel) (c q : ℕ)
    → SchedOk k
    → k.cur ≡ some c
    → (k.envs q).status ≡ env_runnable
    → q ≢ c
    → (e : ℕ) × (n : Kernel) × (schedule true k ≡ ok tt n) × (n.cur ≡ some e) × (e ≢ c)
yield-passes k c q h cur runnable ne =
    let listed : mem q k.sched ≡ true = h.listed q ∙ (==_iff _ _).1 runnable in
    let (e, rest, eq, other) = other_first c q k.sched h.distinct listed (==-ne q c ne) in
    let (n, run, t) =
      schedule-switches true k h e rest refl (ap (λ o. rotate o k.sched) cur ∙ eq) in
    (e, n, run, t.current, ground arith)

-- `n` yields, one after the other.
unfoldable pub yields : ℕ → Cmd Kernel (Unit {0})
yields zero k = ok tt k
yields (suc n) k = and_then (schedule true k) (λ _ s. yields n s)

rotate-head : (c : ℕ) (l : List ℕ) → rotate (some c) (c ∷ l) ≡ l ++ (c ∷ [])
rotate-head c l = rw (==-refl c) refl

turned :
    (c : ℕ) (l : List ℕ) (k : Kernel)
    → k.cur ≡ some c
    → k.sched ≡ c ∷ l
    → rotate k.cur k.sched ≡ l ++ (c ∷ [])
turned c l k cur eq = ap (λ o. rotate o k.sched) cur ∙ ap (rotate (some c)) eq ∙ rotate-head c l

-- With the invariant of the list, when the running environment is the head of the list and `xs`
-- are the environments before `y` behind it, one yield more than `xs` has elements succeeds and
-- gives the CPU to `y`.
pub yields-reach :
    (xs ys : List ℕ) (c y : ℕ) (k : Kernel)
    → SchedOk k
    → k.cur ≡ some c
    → k.sched ≡ c ∷ (xs ++ (y ∷ ys))
    → (n : Kernel) × (yields (suc (length xs)) k ≡ ok tt n) × (n.cur ≡ some y)
unfolding yields
yields-reach [] ys c y k h cur eq =
    let (n, run, t) =
      schedule-switches true k h y (ys ++ (c ∷ [])) refl (turned c (y ∷ ys) k cur eq) in
    (n, rw run refl, t.current)
yields-reach (x ∷ xs) ys c y k h cur eq =
    let (s, run, t) =
      schedule-switches true k h x ((xs ++ (y ∷ ys)) ++ (c ∷ [])) refl
        (turned c (x ∷ (xs ++ (y ∷ ys))) k cur eq) in
    let h' : SchedOk s = rw run at (schedule-SchedOk true k h) in
    let (n, run', reached) =
      yields-reach xs (ys ++ (c ∷ [])) x y s h' t.current
        (t.sched ∙ ap (λ l. x ∷ l) (append_assoc xs (y ∷ ys) (c ∷ []))) in
    (n, rw run run', reached)

stays : (count : ℕ) (b : Bool) → count ≢ 0 → b ≡ true → (count == 0 || not b) ≡ false
stays count b pos e = ground arith

used_up : (count : ℕ) (b : Bool) → count ≡ 0 → (count == 0 || not b) ≡ true
used_up count b e = ground arith

-- `n` timer ticks, one after the other.
unfoldable pub ticks : ℕ → Cmd Kernel (Unit {0})
ticks zero k = ok tt k
ticks (suc n) k = and_then (schedule false k) (λ _ s. ticks n s)

-- A runnable environment that runs with `p` slices left keeps the CPU for `p` timer ticks, during
-- which the list does not change, and after them the next tick has to switch.
pub ticks-slices :
    (p : ℕ) (c : ℕ) (k : Kernel)
    → SchedOk k
    → k.cur ≡ some c
    → (k.envs c).status ≡ env_runnable
    → k.count ≡ p
    → p < 2 ^ 32
    → (n : Kernel) × (ticks p k ≡ ok tt n)
      × (n.cur ≡ some c)
      × (n.sched ≡ k.sched)
      × (must_switch false n ≡ true)
unfolding ticks
ticks-slices zero c k h cur st count lt =
    (k, refl, cur, refl, used_up k.count (still_runnable k.cur k) count)
ticks-slices (suc p) c k h cur st count lt =
    let stay : must_switch false k ≡ false =
      stays k.count (still_runnable k.cur k) (omega arith)
        (ap (λ o. still_runnable o k) cur ∙ (==_iff _ _).1 st) in
    let (s, run, t) = schedule-continues false k h c stay cur in
    let h' : SchedOk s = rw run at (schedule-SchedOk false k h) in
    let (n, run', at_c, same, done) =
      ticks-slices p c s h' t.current (t.statuses c ∙ st) (omega (arith, t.slices)) (omega arith) in
    (n, rw run run', at_c, same ∙ t.sched, done)
