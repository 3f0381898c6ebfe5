-- ===== src/Bits/Word.antt =====
-- Shifting a disjunction, and the single bits of a word.
use native.Mathlib.Nat.{pow-suc, div-div-eq-div-mul}
use mos_volca_shell.Base.{
  ℕ, zero, suc, ◌+◌, ◌*◌, ◌/◌, ◌%◌, ◌^◌, ◌<◌, ◌≡◌, ap, arith, bit_or, Bool, true, false, ◌||◌, ◌&&◌,
  not, ◌==◌,
}
use mos_volca_shell.Bits.Or.{bit_or_step, bit_or-zero}

pub bit_or-half : (a b : ℕ) → bit_or a b / 2 ≡ bit_or (a / 2) (b / 2)
bit_or-half a b = omega (arith, bit_or_step a b)

div-one : (a : ℕ) → a / 1 ≡ a
div-one a = omega arith

div-pow-suc : (a k : ℕ) → a / 2 ^ suc k ≡ a / 2 / 2 ^ k
div-pow-suc a k = rw (div-div-eq-div-mul, pow-suc) (ap (λ (t : ℕ). a / t) (omega arith))

pub bit_or-shift : (k a b : ℕ) → bit_or a b / 2 ^ k ≡ bit_or (a / 2 ^ k) (b / 2 ^ k)
bit_or-shift zero a b = rw (div-one (bit_or a b), div-one a, div-one b)
bit_or-shift (suc k) a b =
    rw (div-pow-suc (bit_or a b) k, div-pow-suc a k, div-pow-suc b k, bit_or-half a b)
      (bit_or-shift k (a / 2) (b / 2))

-- `(w & (1 << i)) != 0`.
unfoldable pub test_bit : ℕ → ℕ → Bool
test_bit w zero = w % 2 == 1
test_bit w (suc i) = test_bit (w / 2) i

-- `w | (1 << i)`.
unfoldable pub set_bit : ℕ → ℕ → ℕ
set_bit w zero = w / 2 * 2 + 1
set_bit w (suc i) = set_bit (w / 2) i * 2 + w % 2

-- `w & ~(1 << i)`.
unfoldable pub clear_bit : ℕ → ℕ → ℕ
clear_bit w zero = w / 2 * 2
clear_bit w (suc i) = clear_bit (w / 2) i * 2 + w % 2

pub set_bit-eq-bit_or : (w i : ℕ) → set_bit w i ≡ bit_or w (2 ^ i)
unfolding set_bit
set_bit-eq-bit_or w zero = omega (arith, bit_or_step w 1, bit_or-zero (w / 2))
set_bit-eq-bit_or w (suc i) = omega (
  arith,
  bit_or_step w (2 ^ suc i),
  pow-suc 2 i,
  set_bit-eq-bit_or (w / 2) i,
  ap (λ (t : ℕ). bit_or (w / 2) t) half,
)
  where
    half : 2 ^ suc i / 2 ≡ 2 ^ i
    half = omega (arith, pow-suc 2 i)

half-of_double : (b c : ℕ) → c < 2 → (b * 2 + c) / 2 ≡ b
half-of_double b c h = omega arith

pub test_bit-set_bit : (w i j : ℕ) → test_bit (set_bit w i) j ≡ ((j == i) || test_bit w j)
unfolding test_bit set_bit
test_bit-set_bit w zero zero = ground arith
test_bit-set_bit w zero (suc j) = ground (arith, half-of_double (w / 2) 1)
test_bit-set_bit w (suc i) zero = ground arith
test_bit-set_bit w (suc i) (suc j) =
    ground (arith, half-of_double (set_bit (w / 2) i) (w % 2), test_bit-set_bit (w / 2) i j)

pub test_bit-clear_bit : (w i j : ℕ) → test_bit (clear_bit w i) j ≡ (not (j == i) && test_bit w j)
unfolding test_bit clear_bit
test_bit-clear_bit w zero zero = ground arith
test_bit-clear_bit w zero (suc j) = ground (arith, half-of_double (w / 2) 0)
test_bit-clear_bit w (suc i) zero = ground arith
test_bit-clear_bit w (suc i) (suc j) =
    ground (arith, half-of_double (clear_bit (w / 2) i) (w % 2), test_bit-clear_bit (w / 2) i j)

-- Clearing a bit that was set, and setting it again, gives the word back.
pub set_bit-clear_bit : (w i : ℕ) → test_bit w i ≡ true → set_bit (clear_bit w i) i ≡ w
unfolding test_bit set_bit clear_bit
set_bit-clear_bit w zero h = ground arith
set_bit-clear_bit w (suc i) h =
    ground (arith, half-of_double (clear_bit (w / 2) i) (w % 2), set_bit-clear_bit (w / 2) i h)

pub clear_bit-set_bit : (w i : ℕ) → test_bit w i ≡ false → clear_bit (set_bit w i) i ≡ w
unfolding test_bit set_bit clear_bit
clear_bit-set_bit w zero h = ground arith
clear_bit-set_bit w (suc i) h =
    ground (arith, half-of_double (set_bit (w / 2) i) (w % 2), clear_bit-set_bit (w / 2) i h)
