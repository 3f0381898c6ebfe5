-- ===== src/Kern/Env/Asid.antt =====
-- The bitmap of address space identifiers of kern/env.c.
use mos_volca_shell.Base.{
  ℕ, zero, suc, ◌+◌, ◌≤◌, ◌<◌, ◌/◌, ◌%◌, ◌≡◌, ◌⊎◌, refl, arith, true, false, not, ◌&&◌, ◌||◌, ◌==◌,
  ok, err, no_free_env, Bool-cases, inl, inr, ==_iff,
}
use mos_volca_shell.Bits.{test_bit, test_bit-set_bit, test_bit-clear_bit}
use mos_volca_shell.Kern.State.{Kernel}
use mos_volca_shell.Kern.Env.{nasid, asid_used, asid_mark, asid_scan, asid_alloc, asid_free}

same_bit : (i j : ℕ) → ((j / 32 == i / 32) && (j % 32 == i % 32)) ≡ (j == i)
same_bit i j = ground arith

-- Marking changes one identifier.
used-mark :
    (i j : ℕ) (k : Kernel)
    → asid_used ((asid_mark i k).asid_bitmap) j ≡ ((j == i) || asid_used k.asid_bitmap j)
unfolding asid_used asid_mark
used-mark i j k = elim (Bool-cases (j / 32 == i / 32)) [
  | inl same ↦ rw (same, test_bit-set_bit (k.asid_bitmap (i / 32)) (i % 32) (j % 32)) (in_word same)
  | inr ne ↦ rw ne (other ne)
]
  where
    in_word :
        (j / 32 == i / 32) ≡ true
        → ((j % 32 == i % 32) || test_bit (k.asid_bitmap (i / 32)) (j % 32))
          ≡ ((j == i) || test_bit (k.asid_bitmap (j / 32)) (j % 32))
    in_word same = rw (← same_bit i j, same, (==_iff _ _).0 same) refl

    other :
        (j / 32 == i / 32) ≡ false
        → test_bit (k.asid_bitmap (j / 32)) (j % 32)
          ≡ ((j == i) || test_bit (k.asid_bitmap (j / 32)) (j % 32))
    other ne = rw (← same_bit i j, ne) refl

-- `asid_free` of an identifier ends its use and that of no other one.
pub used-asid_free :
    (i j : ℕ) (k : Kernel)
    → asid_used ((asid_free i k).asid_bitmap) j ≡ (not (j == i) && asid_used k.asid_bitmap j)
unfolding asid_used asid_free
used-asid_free i j k = elim (Bool-cases (j / 32 == i / 32)) [
  | inl same ↦
      rw (same, test_bit-clear_bit (k.asid_bitmap (i / 32)) (i % 32) (j % 32)) (in_word same)
  | inr ne ↦ rw ne (other ne)
]
  where
    in_word :
        (j / 32 == i / 32) ≡ true
        → (not (j % 32 == i % 32) && test_bit (k.asid_bitmap (i / 32)) (j % 32))
          ≡ (not (j == i) && test_bit (k.asid_bitmap (j / 32)) (j % 32))
    in_word same = rw (← same_bit i j, same, (==_iff _ _).0 same) refl

    other :
        (j / 32 == i / 32) ≡ false
        → test_bit (k.asid_bitmap (j / 32)) (j % 32)
          ≡ (not (j == i) && test_bit (k.asid_bitmap (j / 32)) (j % 32))
    other ne = rw (← same_bit i j, ne) refl

-- The identifier that was found: the least that was not in use, and now it is the only change.
pub record Allocated (lo hi i : ℕ) (k n : Kernel) : Type 0 where
  pub above : lo ≤ i
  pub below : i < hi
  pub was_free : asid_used k.asid_bitmap i ≡ false
  pub least : (j : ℕ) → lo ≤ j → j < i → asid_used k.asid_bitmap j ≡ true
  pub used_after : (j : ℕ) → asid_used n.asid_bitmap j ≡ ((j == i) || asid_used k.asid_bitmap j)

asid_scan-found :
    (n lo : ℕ) (k : Kernel)
    → ((i : ℕ) × (s : Kernel) × (asid_scan n lo k ≡ ok i s) × Allocated lo (lo + n) i k s)
      ⊎ ((asid_scan n lo k ≡ err no_free_env k)
          × ((j : ℕ) → lo ≤ j → j < lo + n → asid_used k.asid_bitmap j ≡ true))
unfolding asid_scan
asid_scan-found zero lo k = inr (refl, λ j ge lt. absurd (omega arith))
asid_scan-found (suc n) lo k = elim (Bool-cases (asid_used k.asid_bitmap lo)) [
  | inr here ↦ inl (
    lo,
    asid_mark lo k,
    rw here refl,
    record {
      above = omega arith;
      below = omega arith;
      was_free = here;
      least = λ j ge lt. absurd (omega arith);
      used_after = λ j. used-mark lo j k;
    },
  )
  | inl taken ↦ rw taken (later taken (asid_scan-found n (lo + 1) k))
]
  where
    all_used :
        asid_used k.asid_bitmap lo ≡ true
        → (hi : ℕ) → ((j : ℕ) → lo + 1 ≤ j → j < hi → asid_used k.asid_bitmap j ≡ true)
        → (j : ℕ) → lo ≤ j
        → j < hi
        → asid_used k.asid_bitmap j ≡ true
    all_used taken hi rest j ge lt = elim (Bool-cases (j == lo)) [
      | inl same ↦ rw ((==_iff _ _).0 same) taken
      | inr ne ↦ rest j (ground arith) lt
    ]

    later :
        asid_used k.asid_bitmap lo ≡ true
        → ((i : ℕ) × (s : Kernel) × (asid_scan n (lo + 1) k ≡ ok i s)
            × Allocated (lo + 1) (lo + 1 + n) i k s)
          ⊎ ((asid_scan n (lo + 1) k ≡ err no_free_env k)
              × ((j : ℕ) → lo + 1 ≤ j → j < lo + 1 + n → asid_used k.asid_bitmap j ≡ true))
        → ((i : ℕ) × (s : Kernel) × (asid_scan n (lo + 1) k ≡ ok i s)
            × Allocated lo (lo + suc n) i k s)
          ⊎ ((asid_scan n (lo + 1) k ≡ err no_free_env k)
              × ((j : ℕ) → lo ≤ j → j < lo + suc n → asid_used k.asid_bitmap j ≡ true))
    later taken (inl (i, s, run, a)) = inl (
      i,
      s,
      run,
      record {
        above = omega (arith, a.above);
        below = omega (arith, a.below);
        was_free = a.was_free;
        least = all_used taken i a.least;
        used_after = a.used_after;
      },
    )
    later taken (inr (run, full)) =
        inr (run, λ j ge lt. all_used taken (lo + 1 + n) full j ge (omega arith))

-- `asid_alloc` hands out the least address space identifier that is not in use and marks it and
-- no other, and fails exactly when all 64 are in use, then changing nothing.
pub asid_alloc-least :
    (k : Kernel)
    → ((i : ℕ) × (s : Kernel) × (asid_alloc k ≡ ok i s) × Allocated 0 nasid i k s)
      ⊎ ((asid_alloc k ≡ err no_free_env k)
          × ((j : ℕ) → j < nasid → asid_used k.asid_bitmap j ≡ true))
unfolding asid_alloc
asid_alloc-least k = elim (asid_scan-found nasid 0 k) [
  | inl r ↦ inl r
  | inr (run, full) ↦ inr (run, λ j lt. full j (omega arith) lt)
]
