-- ===== src/Kern/Syscall/Address.antt =====
-- The address checks of kern/syscall_all.c.
use mos_volca_shell.Base.{ℕ, ◌+◌, ◌≤◌, ◌<◌, ◌^◌, ◌≡◌, ◌⊎◌, ◌↔◌, arith, false}
use mos_volca_shell.Kern.Syscall.{utemp, utop, is_illegal_va_range, is_illegal_dev_pa}

-- For 32-bit arguments `is_illegal_va_range` lets a range pass exactly when it is empty or lies
-- between UTEMP and UTOP without wrapping.
pub va_range-legal :
    (va len : ℕ)
    → va < 2 ^ 32
    → len < 2 ^ 32
    → (is_illegal_va_range va len ≡ false) ↔ ((len ≡ 0) ⊎ ((utemp ≤ va) × (va + len ≤ utop)))
unfolding is_illegal_va_range
va_range-legal va len hv hl = (λ h. ground arith, λ h. ground arith)

-- The range lies in the registers of one device: the console, the disk or the clock.
abbrev pub InDevice : ℕ → ℕ → Type 0
InDevice pa len =
    ((0x10000000 ≤ pa) × (pa + len ≤ 0x10000020))
    ⊎ (((0x13000000 ≤ pa) × (pa + len ≤ 0x13004200))
        ⊎ ((0x15000000 ≤ pa) × (pa + len ≤ 0x15000200)))

-- For a range that is not empty and does not wrap, `is_illegal_dev_pa` lets it pass exactly when
-- it lies in the registers of one device.
pub dev_range-legal :
    (pa len : ℕ)
    → 0 < len
    → pa + len ≤ 2 ^ 32
    → (is_illegal_dev_pa pa len ≡ false) ↔ InDevice pa len
unfolding is_illegal_dev_pa
dev_range-legal pa len pos fits = (λ h. ground arith, λ h. ground arith)

-- A 32-bit range that starts at or above the console and wraps round to at most the end address
-- of the console passes `is_illegal_dev_pa`.
dev_range-wraps :
    (pa len : ℕ)
    → pa < 2 ^ 32
    → len < 2 ^ 32
    → 0x10000000 ≤ pa
    → 2 ^ 32 < pa + len
    → pa + len ≤ 2 ^ 32 + 0x10000020
    → is_illegal_dev_pa pa len ≡ false
unfolding is_illegal_dev_pa
dev_range-wraps pa len hp hl from wraps below = ground arith
