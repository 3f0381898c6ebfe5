-- ===== src/Kern/Pmap/Entry.antt =====
-- The words that kern/pmap.c writes into directories and tables, read back.
use mos_volca_shell.Base.{ℕ, ◌<◌, ◌%◌, ◌^◌, ◌/◌, true, ◌≡◌, refl, arith, bit_or, ap}
use mos_volca_shell.Bits.{bit_or-shift, bit_or_step, bit_or-zero}
use mos_volca_shell.Kern.Pmap.{valid, ppn, pte_addr, page2pa, make_pte, make_pde, pte_v, pte_d}

bit_or-odd : (a b : ℕ) → a % 2 ≡ 1 → bit_or a b % 2 ≡ 1
bit_or-odd a b h = omega (arith, bit_or_step a b)

bit_or-odd_right : (a b : ℕ) → b % 2 ≡ 1 → bit_or a b % 2 ≡ 1
bit_or-odd_right a b h = omega (arith, bit_or_step a b)

ppn-page2pa : (pp : ℕ) → pp < 2 ^ 20 → page2pa pp / 2 ^ 12 ≡ pp
ppn-page2pa pp h = omega arith

pub valid-make_pte : (pp perm : ℕ) → valid (make_pte pp perm) ≡ true
unfolding make_pte
valid-make_pte pp perm =
    let x : ℕ = bit_or (page2pa pp) perm in
    ground (arith, bit_or-shift 9 x pte_v, bit_or-odd_right (x / 2 ^ 9) 1 refl)

pub ppn-make_pte : (pp perm : ℕ) → pp < 2 ^ 20 → ppn (make_pte pp perm) ≡ bit_or pp (perm / 2 ^ 12)
unfolding make_pte
ppn-make_pte pp perm h =
    let a : ℕ = page2pa pp in
    omega (
      arith,
      bit_or-shift 12 (bit_or a perm) pte_v,
      bit_or-zero (bit_or a perm / 2 ^ 12),
      bit_or-shift 12 a perm,
      ap (λ (t : ℕ). bit_or t (perm / 2 ^ 12)) (ppn-page2pa pp h),
    )

pub valid-make_pde : (pp : ℕ) → valid (make_pde pp) ≡ true
unfolding make_pde
valid-make_pde pp =
    let a : ℕ = pte_addr (page2pa pp) in
    ground (
      arith,
      bit_or-shift 9 (bit_or a pte_v) pte_d,
      bit_or-odd (bit_or a pte_v / 2 ^ 9) 2,
      bit_or-shift 9 a pte_v,
      bit_or-odd_right (a / 2 ^ 9) 1 refl,
    )

pub ppn-make_pde : (pp : ℕ) → pp < 2 ^ 20 → ppn (make_pde pp) ≡ pp
unfolding make_pde
ppn-make_pde pp h =
    let a : ℕ = pte_addr (page2pa pp) in
    omega (
      arith,
      bit_or-shift 12 (bit_or a pte_v) pte_d,
      bit_or-zero (bit_or a pte_v / 2 ^ 12),
      bit_or-shift 12 a pte_v,
      bit_or-zero (a / 2 ^ 12),
    )
