-- ===== src/Kern/Env/Ids.antt =====
-- Environment identifiers of kern/env.c: how `mkenvid` makes them and `envid2env` reads them.
use native.Mathlib.Nat.{pow-suc}
use mos_volca_shell.Base.{
  ℕ, zero, suc, ◌+◌, ◌*◌, ◌<◌, ◌/◌, ◌%◌, ◌^◌, ◌≡◌, ◌≢◌, ◌⊎◌, refl, sym, subst, arith, Bool, true,
  false, not, ◌&&◌, ◌||◌, ◌==◌, if◌then◌else◌, Option, none, some, bit_or, ok, err, panic, bad_env,
  Bool-cases, inl, inr, ==_iff, ==-ne, ap,
}
use mos_volca_shell.Bits.{bit_or_step, bit_or-zero}
use mos_volca_shell.Kern.State.{Kernel, env_free_status, nenv}
use mos_volca_shell.Kern.Env.{mkenvid, envx, envid2env, permitted}

shifted-suc : (q k : ℕ) → q * 2 ^ suc k ≡ 2 * (q * 2 ^ k)
shifted-suc q k = omega (arith, ap (λ (t : ℕ). q * t) (pow-suc 2 k))

-- A disjunction of disjoint fields is a sum.
bit_or-add : (k q r : ℕ) → r < 2 ^ k → bit_or (q * 2 ^ k) r ≡ q * 2 ^ k + r
bit_or-add zero q r h = ground (arith, bit_or-zero q)
bit_or-add (suc k) q r h =
    ground
      (arith, bit_or_step (q * 2 ^ suc k) r, shifted-suc q k, bit_or-add k q (r / 2) (omega arith))

-- `mkenvid` counts up modulo 2^32 and makes an identifier with the index of the environment in
-- its low bits, where `envid2env` looks for it, and the low 21 bits of the counter above bit 11.
pub mkenvid-fields :
    (e : ℕ) (k : Kernel)
    → e < nenv
    → (id : ℕ) × (n : Kernel) × (mkenvid e k ≡ ok id n)
      × (envx id ≡ e)
      × (id / 2 ^ 11 ≡ n.next_id % 2 ^ 21)
      × (n.next_id ≡ (k.next_id + 1) % 2 ^ 32)
unfolding mkenvid
mkenvid-fields e k lt = (
  bit_or (i * 2 ^ 11 % 2 ^ 32) e,
  record k { next_id = i },
  refl,
  omega (arith, sum),
  omega (arith, sum),
  refl,
)
  where
    i : ℕ
    i = (k.next_id + 1) % 2 ^ 32

    sum : bit_or (i * 2 ^ 11 % 2 ^ 32) e ≡ i % 2 ^ 21 * 2 ^ 11 + e
    sum =
        subst (λ (t : ℕ). bit_or t e ≡ i % 2 ^ 21 * 2 ^ 11 + e) (omega arith)
          (bit_or-add 11 (i % 2 ^ 21) e (omega arith))

-- The caller may act on the environment `e` under the name `envid`.
pub record MayAct (c e envid : ℕ) (checkperm : Bool) (k : Kernel) : Type 0 where
  pub alive : (k.envs e).status ≢ env_free_status
  pub named : (k.envs e).id ≡ envid
  pub allowed :
      (checkperm ≡ false)
      ⊎ (((k.envs e).parent_id ≡ (k.envs c).id) ⊎ ((k.envs e).id ≡ (k.envs c).id))

module _ (c e envid : ℕ) (k : Kernel) (alive : (k.envs e).status ≢ env_free_status)
    (named : (k.envs e).id ≡ envid) where
  permitted-decides :
      ((permitted (some c) e k ≡ ok e k) × MayAct c e envid true k)
      ⊎ ((permitted (some c) e k ≡ err bad_env k) × (¬ (MayAct c e envid true k)))
  unfolding permitted
  permitted-decides = elim (Bool-cases ((k.envs e).parent_id == (k.envs c).id)) [
    | inl child ↦ inl (
      rw child refl,
      record { alive = alive; named = named; allowed = inr (inl ((==_iff _ _).0 child)) },
    )
    | inr other ↦ elim (Bool-cases ((k.envs e).id == (k.envs c).id)) [
      | inl self ↦ inl (
        rw (other, self) refl,
        record { alive = alive; named = named; allowed = inr (inr ((==_iff _ _).0 self)) },
      )
      | inr stranger ↦ inr (rw (other, stranger) refl, λ m. refused m.allowed other stranger)
    ]
  ]
    where
      refused :
          (true ≡ false)
            ⊎ (((k.envs e).parent_id ≡ (k.envs c).id) ⊎ ((k.envs e).id ≡ (k.envs c).id))
          → ((k.envs e).parent_id == (k.envs c).id) ≡ false
          → ((k.envs e).id == (k.envs c).id) ≡ false
          → ⊥
      refused a other stranger = ground arith

  checked-decides :
      (checkperm : Bool)
      → (((if checkperm then permitted (some c) e k else ok e k) ≡ ok e k)
          × MayAct c e envid checkperm k)
        ⊎ (((if checkperm then permitted (some c) e k else ok e k) ≡ err bad_env k)
            × (¬ (MayAct c e envid checkperm k)))
  checked-decides true = permitted-decides
  checked-decides false = inl (refl, record { alive = alive; named = named; allowed = inl refl })

-- For an identifier other than 0 and a current environment, `envid2env` finds the environment of
-- that index exactly when it is not free, has that identifier, and (with `checkperm`) is the
-- caller or its child; else it answers E_BAD_ENV; it changes nothing.
envid2env-decides :
    (envid : ℕ) (checkperm : Bool) (c : ℕ) (k : Kernel)
    → envid ≢ 0
    → k.cur ≡ some c
    → ((envid2env envid checkperm k ≡ ok (envx envid) k) × MayAct c (envx envid) envid checkperm k)
      ⊎ ((envid2env envid checkperm k ≡ err bad_env k)
          × (¬ (MayAct c (envx envid) envid checkperm k)))
unfolding envid2env
envid2env-decides envid checkperm c k ne cur =
    elim (Bool-cases ((k.envs (envx envid)).status == env_free_status)) [
      | inl dead ↦ inr (rw (==-ne envid 0 ne, dead) refl, λ m. m.alive ((==_iff _ _).0 dead))
      | inr alive ↦ elim (Bool-cases ((k.envs (envx envid)).id == envid)) [
        | inr other ↦ inr (rw (==-ne envid 0 ne, alive, other) refl, λ m. ground (arith, m.named))
        | inl named ↦
            rw (==-ne envid 0 ne, alive, named)
              (subst
                (λ o.
                  (((if checkperm then permitted o (envx envid) k else ok (envx envid) k)
                      ≡ ok (envx envid) k)
                    × MayAct c (envx envid) envid checkperm k)
                  ⊎ (((if checkperm then permitted o (envx envid) k else ok (envx envid) k)
                        ≡ err bad_env k)
                      × (¬ (MayAct c (envx envid) envid checkperm k))))
                (sym cur)
                (checked-decides c (envx envid) envid k (ground arith) ((==_iff _ _).0 named)
                  checkperm))
      ]
    ]

-- The identifier 0 stands for the caller itself, with no check.
pub envid2env-zero :
    (checkperm : Bool) (c : ℕ) (k : Kernel) → k.cur ≡ some c → envid2env 0 checkperm k ≡ ok c k
unfolding envid2env
envid2env-zero checkperm c k cur =
    subst (λ (o : Option ℕ). (elim o [ none ↦ panic | some c ↦ ok c k ]) ≡ ok c k) (sym cur) refl

-- A call of `envid2env` leaves the kernel as it was.
pub envid2env-pure :
    (envid : ℕ) (checkperm : Bool) (k : Kernel)
    → (envid2env envid checkperm k ≡ panic)
      ⊎ ((envid2env envid checkperm k ≡ err bad_env k)
          ⊎ ((e : ℕ) × (envid2env envid checkperm k ≡ ok e k)))
unfolding envid2env
envid2env-pure envid checkperm k = elim (Bool-cases (envid == 0)) [
  | inl self ↦ rw self (of_current k.cur)
  | inr other ↦
      elim (Bool-cases (
        (k.envs (envx envid)).status == env_free_status
        || not ((k.envs (envx envid)).id == envid))) [
          | inl dead ↦ rw (other, dead) (inr (inl refl))
          | inr alive ↦ rw (other, alive) (checked checkperm k.cur)
        ]
]
  where
    of_current :
        (o : Option ℕ)
        → ((elim o [ none ↦ panic | some c ↦ ok c k ]) ≡ panic)
          ⊎ (((elim o [ none ↦ panic | some c ↦ ok c k ]) ≡ err bad_env k)
              ⊎ ((e : ℕ) × ((elim o [ none ↦ panic | some c ↦ ok c k ]) ≡ ok e k)))
    of_current none = inl refl
    of_current (some c) = inr (inr (c, refl))

    checked :
        (b : Bool) (o : Option ℕ)
        → ((if b then permitted o (envx envid) k else ok (envx envid) k) ≡ panic)
          ⊎ (((if b then permitted o (envx envid) k else ok (envx envid) k) ≡ err bad_env k)
              ⊎ ((e : ℕ) × ((if b then permitted o (envx envid) k else ok (envx envid) k)
                    ≡ ok e k)))
    checked false o = inr (inr (envx envid, refl))
    checked true none = inl refl
    checked true (some c) =
        elim (Bool-cases (
          not ((k.envs (envx envid)).parent_id == (k.envs c).id)
          && not ((k.envs (envx envid)).id == (k.envs c).id))) [
            | inl no_right ↦ rw no_right (inr (inl refl))
            | inr right ↦ rw right (inr (inr (envx envid, refl)))
          ]
