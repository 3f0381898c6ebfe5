-- ===== src/Text/Order.antt =====
-- `strcmp` and `strContain` of lib/string.c decide equality, order and prefixes.
use mos_volca_shell.Base.{
  ℕ, true, Option, some, [], ◌∷◌, ◌++◌, ◌==◌, ◌≡◌, ◌≢◌, ◌↔◌, refl, sym, subst, arith, ==-refl,
  Bool-cases, inl, inr,
}
use mos_volca_shell.Text.{
  Str, IsStr, Sign, less, same, greater, strcmp, compare_byte, first_byte, str_contain, is_visible,
}

abbrev pub opposite : Sign → Sign
opposite less = greater
opposite same = same
opposite greater = less

compare_byte-swap : (c d : ℕ) → compare_byte d c ≡ opposite (compare_byte c d)
unfolding compare_byte
compare_byte-swap c d = ground arith

strcmp_refl : (p : Str) → strcmp p p ≡ same
unfolding strcmp compare_byte
strcmp_refl [] = refl
strcmp_refl (c ∷ p) = rw (==-refl c) (strcmp_refl p)

strcmp_sound : (p q : Str) → IsStr p → IsStr q → strcmp p q ≡ same → p ≡ q
unfolding strcmp compare_byte
strcmp_sound [] [] a b e = refl
strcmp_sound [] (d ∷ q) a b e = ground (arith, b.0)
strcmp_sound (c ∷ p) [] a b e = ground (arith, a.0)
strcmp_sound (c ∷ p) (d ∷ q) a b e = ground (arith, strcmp_sound p q a.1 b.1)

-- `strcmp` returns 0 for two strings exactly when they are the same.
pub strcmp-same : (p q : Str) → IsStr p → IsStr q → (strcmp p q ≡ same) ↔ (p ≡ q)
strcmp-same p q a b = (strcmp_sound p q a b, λ e. subst (λ r. strcmp p r ≡ same) e (strcmp_refl p))

pub strcmp-swap : (p q : Str) → strcmp q p ≡ opposite (strcmp p q)
unfolding strcmp
strcmp-swap [] [] = compare_byte-swap 0 0
strcmp-swap [] (d ∷ q) = compare_byte-swap 0 d
strcmp-swap (c ∷ p) [] = compare_byte-swap c 0
strcmp-swap (c ∷ p) (d ∷ q) = elim (Bool-cases (c == d)) [
  | inl e ↦ ground (arith, strcmp-swap p q)
  | inr e ↦ ground (arith, compare_byte-swap c d)
]

str_contain_complete :
    (past : Option Str) (child rest : Str)
    → is_visible (first_byte rest) ≡ true
    → str_contain past (child ++ rest) child ≡ some rest
unfolding str_contain
str_contain_complete past [] [] v = ground arith
str_contain_complete past [] (c ∷ rest) v = rw v refl
str_contain_complete past (c ∷ child) rest v =
    rw (==-refl c) (str_contain_complete past child rest v)

str_contain_sound :
    (past : Option Str) (parent child rest : Str)
    → parent ≢ child
    → str_contain past parent child ≡ some rest
    → (parent ≡ child ++ rest) × (is_visible (first_byte rest) ≡ true)
unfolding str_contain
str_contain_sound past [] [] rest ne e = absurd (ne refl)
str_contain_sound past [] (d ∷ child) rest ne e = ground arith
str_contain_sound past (c ∷ parent) [] rest ne e = ground arith
str_contain_sound past (c ∷ parent) (d ∷ child) rest ne e = elim (Bool-cases (c == d)) [
  | inl same_byte ↦
      let s : (parent ≡ child ++ rest) × (is_visible (first_byte rest) ≡ true) =
        str_contain_sound past parent child rest (λ p. ne (ground (arith, p))) (ground arith) in
      (ground (arith, s.0), s.1)
  | inr other ↦ ground arith
]

-- For two different strings, `strContain` stores a rest exactly when the parent is the child
-- followed by it and it starts with a visible byte.
pub str_contain-rest :
    (past : Option Str) (parent child rest : Str)
    → parent ≢ child
    → (str_contain past parent child ≡ some rest)
      ↔ ((parent ≡ child ++ rest) × (is_visible (first_byte rest) ≡ true))
str_contain-rest past parent child rest ne = (
  str_contain_sound past parent child rest ne,
  λ (e, v).
      subst (λ p. str_contain past p child ≡ some rest) (sym e)
        (str_contain_complete past child rest v),
)
