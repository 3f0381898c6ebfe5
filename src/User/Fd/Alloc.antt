-- ===== src/User/Fd/Alloc.antt =====
-- `fd_alloc` of user/lib/fd.c: the descriptor it finds.
use mos_volca_shell.Base.{
  ℕ, zero, suc, ◌+◌, ◌-◌, ◌≤◌, ◌<◌, true, false, ◌==◌, ==_iff, Bool-cases, inl, inr, ◌⊎◌, ◌≡◌, refl,
  arith, ok, err, max_open,
}
use mos_volca_shell.User.Fd.{Table, max_fd, fd_scan, fd_alloc}

module _ {S : Type 0} where
  -- The descriptors from `from` on and below `end` are mapped.
  abbrev pub AllUsed : ℕ → ℕ → Table S → Type 0
  AllUsed from end s = (i : ℕ) → from ≤ i → i < end → s.used i ≡ true

  -- Whether a search of `n` descriptors from `from` on finds the first that is not mapped.
  abbrev pub Scanned : ℕ → ℕ → Table S → Type 0
  Scanned n from s =
      ((fd : ℕ) × (fd_scan n from s ≡ ok fd s)
        × (from ≤ fd)
        × (fd < from + n)
        × (s.used fd ≡ false)
        × AllUsed from fd s)
      ⊎ ((fd_scan n from s ≡ err max_open s) × AllUsed from (from + n) s)

  used_too :
      (from end : ℕ) (s : Table S)
      → s.used from ≡ true
      → AllUsed (from + 1) end s
      → AllUsed from end s
  used_too from end s u all i ge lt = elim (Bool-cases (from == i)) [
    | inl e ↦ rw (← (==_iff from i).0 e) u
    | inr ne ↦ all i (ground (arith, ge, ne)) lt
  ]

  fd_scan-Scanned : (n from : ℕ) (s : Table S) → Scanned n from s
  unfolding fd_scan
  fd_scan-Scanned zero from s = inr (refl, λ i ge lt. absurd (omega arith))
  fd_scan-Scanned (suc n) from s = elim (Bool-cases (s.used from)) [
    | inl u ↦ elim (fd_scan-Scanned n (from + 1) s) [
      | inl (fd, run, ge, lt, free, all) ↦
          inl (fd, rw u run, omega (arith, ge), omega (arith, lt), free, used_too from fd s u all)
      | inr (run, all) ↦
          inr (rw u run, used_too from (from + suc n) s u (λ i ge lt. all i ge (omega (arith, lt))))
    ]
    | inr free ↦ inl (
      from,
      rw free refl,
      omega arith,
      omega arith,
      free,
      λ i ge lt. absurd (omega (arith, ge, lt)),
    )
  ]

  -- `fd_alloc` changes nothing: it answers the least descriptor that is not mapped, which is
  -- below MAXFD - 1, or E_MAX_OPEN when all of these are mapped.
  pub fd_alloc-least :
      (s : Table S)
      → ((fd : ℕ) × (fd_alloc s ≡ ok fd s)
          × (fd < max_fd - 1)
          × (s.used fd ≡ false)
          × AllUsed 0 fd s)
        ⊎ ((fd_alloc s ≡ err max_open s) × AllUsed 0 (max_fd - 1) s)
  unfolding fd_alloc
  fd_alloc-least s = elim (fd_scan-Scanned (max_fd - 1) 0 s) [
    | inl (fd, run, ge, lt, free, all) ↦ inl (fd, run, lt, free, all)
    | inr (run, all) ↦ inr (run, all)
  ]
