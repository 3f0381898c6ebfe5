-- ===== src/Text/Number.antt =====
-- `strToUint` of lib/string.c reads decimal numbers.
use mos_volca_shell.Base.{
  ℕ, ◌+◌, ◌-◌, ◌*◌, ◌%◌, ◌^◌, ◌<◌, Bool, true, false, ◌&&◌, none, some, [], ◌∷◌, ◌++◌, ◌≡◌, ◌∙◌,
  refl, sym, ap, arith, some-injective, none-ne-some, Bool-cases, inl, inr,
}
use mos_volca_shell.Text.{Str, is_digit, to_uint, as_int, minus_one, str_to_uint}

abbrev pub all_digits : Str → Bool
all_digits [] = true
all_digits (c ∷ s) = is_digit c && all_digits s

-- The number that decimal digits write, the lowest digit first.
abbrev pub low_value : Str → ℕ
low_value [] = 0
low_value (c ∷ s) = (c - b'0') + 10 * low_value s

-- The last byte first.
abbrev pub backwards : Str → Str
backwards [] = []
backwards (c ∷ s) = backwards s ++ (c ∷ [])

to_uint-append :
    (r v c : ℕ) (s : Str)
    → to_uint r s ≡ some v
    → is_digit c ≡ true
    → to_uint r (s ++ (c ∷ [])) ≡ some (((c - b'0') + v * 10) % 2 ^ 32)
unfolding to_uint
to_uint-append r v c [] e d = rw d (ground (arith, some-injective r v e))
to_uint-append r v c (x ∷ s) e d = elim (Bool-cases (is_digit x)) [
  | inl dx ↦ rw dx (to_uint-append (((x - b'0') + r * 10) % 2 ^ 32) v c s (sym (rw dx refl) ∙ e) d)
  | inr nx ↦ absurd (none-ne-some v (sym (rw nx refl) ∙ e))
]

-- Written highest digit first, a number below 2^32 is read as it is.
pub to_uint-backwards :
    (s : Str)
    → all_digits s ≡ true
    → low_value s < 2 ^ 32
    → to_uint 0 (backwards s) ≡ some (low_value s)
unfolding to_uint
to_uint-backwards [] a lt = refl
to_uint-backwards (c ∷ s) a lt =
    to_uint-append 0 (low_value s) c (backwards s)
      (to_uint-backwards s (ground arith) (omega (arith, lt))) (ground arith)
    ∙ ap some (omega (arith, lt))

to_uint-digits : (r : ℕ) (s : Str) → all_digits s ≡ false → to_uint r s ≡ none
unfolding to_uint
to_uint-digits r [] a = ground arith
to_uint-digits r (c ∷ s) a = ground (arith, to_uint-digits (((c - b'0') + r * 10) % 2 ^ 32) s)

-- `strToUint` returns -1 for every string with a byte that is no digit.
pub str_to_uint-digits : (s : Str) → all_digits s ≡ false → str_to_uint s ≡ minus_one
unfolding str_to_uint as_int
str_to_uint-digits s a = ap as_int (to_uint-digits 0 s a)

-- What digits write, as an `int`.
pub str_to_uint-backwards :
    (s : Str) → all_digits s ≡ true → low_value s < 2 ^ 32 → str_to_uint (backwards s) ≡ low_value s
unfolding str_to_uint as_int
str_to_uint-backwards s a lt = ap as_int (to_uint-backwards s a lt)
