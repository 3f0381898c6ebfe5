-- ===== src/Text/Print/Decimal.antt =====
-- `print_num` of lib/print.c and `strToUint` of lib/string.c: what one prints the other reads.
use mos_volca_shell.Base.{
  ℕ, zero, suc, ◌+◌, ◌-◌, ◌^◌, ◌<◌, ◌≤◌, Bool, true, false, ◌&&◌, ltb, leb, if◌then◌else◌, ◌≡◌, ◌∙◌,
  refl, ap, arith, subst,
}
use mos_volca_shell.Text.{str_to_uint, is_digit}
use mos_volca_shell.Text.Memory.{Bytes}
use mos_volca_shell.Text.Number.{all_digits, low_value, backwards, str_to_uint-backwards}
use mos_volca_shell.Text.Print.{
  put_padding, put_digits, put_sign, pad, swap_ends, out_bytes, finish_num, print_num,
}
use mos_volca_shell.Text.Print.Loops.{
  Digits, put_digits-Digits, swap_ends-turned, put_padding-within, out_bytes-backwards,
  out_bytes-same,
}

-- `m` zeros at `i`.
all_zeros :
    (m i : ℕ) (f : Bytes)
    → ((k : ℕ) → i ≤ k → k < i + m → f k ≡ b'0')
    → (all_digits (out_bytes m i f) ≡ true) × (low_value (out_bytes m i f) ≡ 0)
unfolding out_bytes
all_zeros zero i f h = (refl, refl)
all_zeros (suc m) i f h =
    let rest : (all_digits (out_bytes m (i + 1) f) ≡ true)
        × (low_value (out_bytes m (i + 1) f) ≡ 0) =
      all_zeros m (i + 1) f (λ k lo hi. h k (omega (arith, lo)) (omega (arith, hi))) in
    let here : f i ≡ b'0' = h i (omega arith) (omega arith) in
    (rw (here, rest.0) refl, rw (here, rest.1) refl)

-- Zeros behind the lowest digits change nothing.
zeros_behind :
    (n m i : ℕ) (f : Bytes)
    → ((k : ℕ) → i + n ≤ k → k < i + n + m → f k ≡ b'0')
    → all_digits (out_bytes n i f) ≡ true
    → (all_digits (out_bytes (n + m) i f) ≡ true)
      × (low_value (out_bytes (n + m) i f) ≡ low_value (out_bytes n i f))
unfolding out_bytes
zeros_behind zero m i f h a =
    subst (λ n. (all_digits (out_bytes n i f) ≡ true) × (low_value (out_bytes n i f) ≡ 0))
      (omega arith) (all_zeros m i f (λ k lo hi. h k (omega (arith, lo)) (omega (arith, hi))))
zeros_behind (suc n) m i f h a =
    let rest : (all_digits (out_bytes (n + m) (i + 1) f) ≡ true)
        × (low_value (out_bytes (n + m) (i + 1) f) ≡ low_value (out_bytes n (i + 1) f)) =
      zeros_behind n m (i + 1) f (λ k lo hi. h k (omega (arith, lo)) (omega (arith, hi)))
        (ground arith) in
    let digit : is_digit (f i) ≡ true = ground arith in
    let longer : suc (n + m) ≡ suc n + m = omega arith in
    subst
      (λ k.
        (all_digits (out_bytes k i f) ≡ true)
        × (low_value (out_bytes k i f) ≡ low_value (out_bytes (suc n) i f)))
      longer (rw (digit, rest.0) refl, rw (rest.1) refl)

module _ (u t : ℕ) (buf : Bytes) (r : ℕ × Bytes) (d : Digits u 0 buf r) (le : r.0 ≤ t) where
  abbrev padded : Bytes
  padded = put_padding (t - r.0) (r.0) b'0' (r.1)

  digits_kept : out_bytes (r.0) 0 padded ≡ out_bytes (r.0) 0 (r.1)
  digits_kept =
      out_bytes-same (r.0) 0 padded (r.1)
        (λ k lo hi. put_padding-within (t - r.0) (r.0) b'0' (r.1) k ∙ ground (arith, hi))

  len_end : d.len ≡ r.0
  len_end = omega (arith, d.end)

  padded_value : (all_digits (out_bytes t 0 padded) ≡ true) × (low_value (out_bytes t 0 padded) ≡ u)
  padded_value =
      let a : all_digits (out_bytes (r.0) 0 padded) ≡ true =
        ap all_digits digits_kept
        ∙ subst (λ n. all_digits (out_bytes n 0 (r.1)) ≡ true) len_end (d.all) in
      let v : low_value (out_bytes (r.0) 0 padded) ≡ u =
        ap low_value digits_kept
        ∙ subst (λ n. low_value (out_bytes n 0 (r.1)) ≡ u) len_end (d.value) in
      let z =
        zeros_behind (r.0) (t - r.0) 0 padded
          (λ k lo hi. put_padding-within (t - r.0) (r.0) b'0' (r.1) k ∙ ground (arith, lo, hi)) a in
      subst
        (λ n. (all_digits (out_bytes n 0 padded) ≡ true) × (low_value (out_bytes n 0 padded) ≡ u))
        (omega (arith, le)) (z.0, z.1 ∙ v)

  turned : out_bytes t 0 (swap_ends t 0 (t - 1) padded) ≡ backwards (out_bytes t 0 padded)
  turned =
      out_bytes-backwards t padded (swap_ends t 0 (t - 1) padded)
        (λ k lt. swap_ends-turned t 0 (t - 1) padded (omega (arith, lt)) k ∙ in_range k lt)
    where
      in_range :
          (k : ℕ)
          → k < t
          → (if leb 0 k && leb k (t - 1) then padded (0 + (t - 1) - k) else padded k)
            ≡ padded (t - 1 - k)
      in_range k lt =
          let inside : (leb 0 k && leb k (t - 1)) ≡ true = ground (arith, lt) in
          rw inside (ap padded (omega arith))

  read_back : u < 2 ^ 32 → str_to_uint (out_bytes t 0 (swap_ends t 0 (t - 1) padded)) ≡ u
  read_back lt =
      ap str_to_uint turned
      ∙ str_to_uint-backwards (out_bytes t 0 padded) (padded_value.0)
          (omega (arith, padded_value.1, lt))
      ∙ padded_value.1

total_le : (a width : ℕ) → a ≤ (if ltb width a then a else width)
total_le a width = ground arith

-- Padded with zeros to any width, or not at all, `print_num` prints a number below 2^31 in
-- decimal so that `strToUint` reads it back.
pub str_to_uint-print_num :
    (buf : Bytes) (u width : ℕ) (upcase : Bool)
    → u < 2 ^ 31
    → str_to_uint (print_num buf u 10 false width false b'0' upcase) ≡ u
unfolding print_num put_sign finish_num pad
str_to_uint-print_num buf u width upcase lt =
    let r : ℕ × Bytes = put_digits 32 u 10 upcase 0 buf in
    let t : ℕ = if ltb width (r.0) then r.0 else width in
    read_back u t buf r (put_digits-Digits 31 u 0 upcase buf (omega (arith, lt)))
      (total_le (r.0) width) (omega (arith, lt))
