-- ===== src/Kern/Teardown/Release.antt =====
-- The last steps of `env_free` of kern/env.c: the identifiers and the lists.
use mos_volca_shell.Base.{
  ℕ, ◌≡◌, ◌≢◌, refl, false, not, ◌&&◌, ◌==◌, ◌∷◌, ok, panic, Bool-cases, inl, inr, ==_iff, ==-ne,
  ==-refl, mem, erase, update, mem-erase_ne, mem-erase_self, erase-Distinct,
}
use mos_volca_shell.Kern.State.{Kernel, env_runnable, env_free_status}
use mos_volca_shell.Kern.Env.{asid_used, asid_free}
use mos_volca_shell.Kern.Env.Asid.{used-asid_free}
use mos_volca_shell.Kern.Pmap.{tlb_invalidate}
use mos_volca_shell.Kern.Sched.Queue.{SchedOk}
use mos_volca_shell.Kern.Teardown.{env_release}

-- The environment is free again, with its address space identifier.
pub record Released (e : ℕ) (k n : Kernel) : Type 0 where
  pub sched_ok : SchedOk n
  pub free : n.free_envs ≡ e ∷ k.free_envs
  pub status : (n.envs e).status ≡ env_free_status
  pub off : mem e n.sched ≡ false
  pub asids :
      (j : ℕ)
      → asid_used n.asid_bitmap j ≡ (not (j == (k.envs e).asid) && asid_used k.asid_bitmap j)
  pub others : (q : ℕ) → q ≢ e → n.envs q ≡ k.envs q

module _ (e : ℕ) (k : Kernel) (h : SchedOk k) where
  -- With the invariant of the list, the last steps of `env_free` on an environment that is not
  -- runnable take it off `env_sched_list` although it is not on it, which the model ends in a
  -- panic.
  pub env_release-unlisted : (k.envs e).status ≢ env_runnable → env_release e k ≡ panic
  unfolding env_release
  env_release-unlisted stopped = rw (h.listed e, ==-ne _ _ stopped) refl

  released :
      (k.envs e).status ≡ env_runnable
      → (n : Kernel) × (env_release e k ≡ ok tt n)
        × (n.sched ≡ erase e k.sched)
        × (n.free_envs ≡ e ∷ k.free_envs)
        × (n.envs ≡ update k.envs e (record (k.envs e) { status = env_free_status }))
        × (n.asid_bitmap ≡ (asid_free ((k.envs e).asid) k).asid_bitmap)
  unfolding env_release
  released running = (
    record k {
      memory = tlb_invalidate ((k.envs e).asid) (0x7fdff000) k.memory;
      envs = update k.envs e (record (k.envs e) { status = env_free_status });
      free_envs = e ∷ k.free_envs;
      sched = erase e k.sched;
      asid_bitmap = (asid_free ((k.envs e).asid) k).asid_bitmap;
    },
    rw (h.listed e, (==_iff _ _).1 running) refl,
    refl,
    refl,
    refl,
    refl,
  )

  -- The last steps of `env_free` on a runnable environment succeed: it is free and first on the
  -- free list, its address space identifier and no other is given back, it is off
  -- `env_sched_list`, which stays exact, and no other environment changes.
  pub env_release-Released :
      (k.envs e).status ≡ env_runnable → (n : Kernel) × (env_release e k ≡ ok tt n) × Released e k n
  env_release-Released running =
      let (n, run, es, ef, ee, ea) = released running in
      (
        n,
        run,
        record {
          sched_ok = record {
            distinct = rw es (erase-Distinct e k.sched h.distinct);
            listed = λ q.
                rw (es, ee)
                  (elim (Bool-cases (q == e)) [
                    | inl same ↦
                        rw ((==_iff _ _).0 same)
                          (rw (==-refl e) (mem-erase_self e k.sched h.distinct))
                    | inr ne ↦ rw (ne, mem-erase_ne q e k.sched ne) (h.listed q)
                  ]);
          };
          free = ef;
          status = rw (ee, ==-refl e) refl;
          off = rw es (mem-erase_self e k.sched h.distinct);
          asids = λ j. rw ea (used-asid_free ((k.envs e).asid) j k);
          others = λ q ne. rw (ee, ==-ne q e ne) refl;
        },
      )
