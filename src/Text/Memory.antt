-- ===== src/Text/Memory.antt =====
-- `memcpy` and `memset` of lib/string.c on a memory of bytes. Both move single bytes up to an aligned
-- address, then words of four bytes, then the bytes that are left. Each loop has the number `n` of
-- the bytes up to `max` instead of that address.
use mos_volca_shell.Base.{
  ℕ, zero, suc, ◌+◌, ◌-◌, ◌%◌, ◌≤◌, Bool, true, ◌&&◌, ◌==◌, ltb, leb, if◌then◌else◌, update, ◌≡◌,
  ◌⊎◌, inl, inr, ◌∙◌, arith, Bool-cases,
}

abbrev pub Bytes : Type 0
Bytes = ℕ → ℕ

-- `lo <= x && x < lo + n`
abbrev pub is_within : ℕ → ℕ → ℕ → Bool
is_within lo n x = leb lo x && ltb x (lo + n)

-- `*(uint32_t *)dst = *(uint32_t *)src`
unfoldable pub copy_word : ℕ → ℕ → Bytes → Bytes
copy_word dst src m x = if is_within dst 4 x then m (src + (x - dst)) else m x

unfoldable pub copy_bytes : ℕ → ℕ → ℕ → Bytes → Bytes
copy_bytes zero dst src m = m
copy_bytes (suc n) dst src m = copy_bytes n (dst + 1) (src + 1) (update m dst (m src))

-- There are `fuel` rounds left, which need not be more than `n`.
unfoldable pub copy_words : ℕ → ℕ → ℕ → ℕ → Bytes → Bytes
unfolding copy_bytes copy_word
copy_words zero n dst src m = copy_bytes n dst src m
copy_words (suc fuel) n dst src m =
    let rest = copy_words fuel (n - 4) (dst + 4) (src + 4) (copy_word dst src m) in
    if leb 4 n then rest else copy_bytes n dst src m

unfoldable pub copy_head : ℕ → ℕ → ℕ → Bytes → Bytes
unfolding copy_words
copy_head zero dst src m = copy_words zero zero dst src m
copy_head (suc n) dst src m =
    let rest = copy_head n (dst + 1) (src + 1) (update m dst (m src)) in
    if dst % 4 == 0 then copy_words (suc n) (suc n) dst src m else rest

unfoldable pub memcpy : ℕ → ℕ → ℕ → Bytes → Bytes
unfolding copy_bytes copy_head
memcpy dst src n m = if src % 4 == dst % 4 then copy_head n dst src m else copy_bytes n dst src m

-- The four bytes of a word that holds `byte` four times.
unfoldable pub set_word : ℕ → ℕ → Bytes → Bytes
set_word dst byte m x = if is_within dst 4 x then byte else m x

unfoldable pub set_bytes : ℕ → ℕ → ℕ → Bytes → Bytes
set_bytes zero dst byte m = m
set_bytes (suc n) dst byte m = set_bytes n (dst + 1) byte (update m dst byte)

unfoldable pub set_words : ℕ → ℕ → ℕ → ℕ → Bytes → Bytes
unfolding set_bytes set_word
set_words zero n dst byte m = set_bytes n dst byte m
set_words (suc fuel) n dst byte m =
    let rest = set_words fuel (n - 4) (dst + 4) byte (set_word dst byte m) in
    if leb 4 n then rest else set_bytes n dst byte m

unfoldable pub set_head : ℕ → ℕ → ℕ → Bytes → Bytes
unfolding set_words
set_head zero dst byte m = set_words zero zero dst byte m
set_head (suc n) dst byte m =
    let rest = set_head n (dst + 1) byte (update m dst byte) in
    if dst % 4 == 0 then set_words (suc n) (suc n) dst byte m else rest

unfoldable pub memset : ℕ → ℕ → ℕ → Bytes → Bytes
unfolding set_head
memset dst c n m = set_head n dst (c % 256) m

-- A forward copy is safe when the source does not start below the destination and reach into it.
abbrev pub IsForward : ℕ → ℕ → ℕ → Type 0
IsForward dst src n = (dst ≤ src) ⊎ (src + n ≤ dst)

-- What a copy of `n` bytes puts at `x`.
abbrev pub copied : ℕ → ℕ → ℕ → Bytes → ℕ → ℕ
copied dst src n m x = if is_within dst n x then m (src + (x - dst)) else m x

copied-byte :
    (n dst src : ℕ) (m : Bytes)
    → IsForward dst src (suc n)
    → (x : ℕ) → copied (dst + 1) (src + 1) n (update m dst (m src)) x ≡ copied dst src (suc n) m x
copied-byte n dst src m (inl f) x = grind arith
copied-byte n dst src m (inr f) x = grind arith

copied-word :
    (n dst src : ℕ) (m : Bytes)
    → IsForward dst src n
    → leb 4 n ≡ true
    → (x : ℕ) → copied (dst + 4) (src + 4) (n - 4) (copy_word dst src m) x ≡ copied dst src n m x
unfolding copy_word
copied-word n dst src m (inl f) le x = grind arith
copied-word n dst src m (inr f) le x = grind arith

IsForward-step : (n dst src : ℕ) → IsForward dst src (suc n) → IsForward (dst + 1) (src + 1) n
IsForward-step n dst src (inl f) = inl (omega (arith, f))
IsForward-step n dst src (inr f) = inr (omega (arith, f))

IsForward-word :
    (n dst src : ℕ) → leb 4 n ≡ true → IsForward dst src n → IsForward (dst + 4) (src + 4) (n - 4)
IsForward-word n dst src le (inl f) = inl (omega (arith, f))
IsForward-word n dst src le (inr f) = inr (ground (arith, f))

copy_bytes-copied :
    (n dst src : ℕ) (m : Bytes)
    → IsForward dst src n
    → (x : ℕ) → copy_bytes n dst src m x ≡ copied dst src n m x
unfolding copy_bytes
copy_bytes-copied zero dst src m f x = ground arith
copy_bytes-copied (suc n) dst src m f x =
    copy_bytes-copied n (dst + 1) (src + 1) (update m dst (m src)) (IsForward-step n dst src f) x
    ∙ copied-byte n dst src m f x

copy_words-copied :
    (fuel n dst src : ℕ) (m : Bytes)
    → IsForward dst src n
    → (x : ℕ) → copy_words fuel n dst src m x ≡ copied dst src n m x
unfolding copy_words
copy_words-copied zero n dst src m f x = copy_bytes-copied n dst src m f x
copy_words-copied (suc fuel) n dst src m f x = elim (Bool-cases (leb 4 n)) [
  | inl le ↦ rw le (
      copy_words-copied fuel (n - 4) (dst + 4) (src + 4) (copy_word dst src m)
        (IsForward-word n dst src le f) x
      ∙ copied-word n dst src m f le x)
  | inr gt ↦ rw gt (copy_bytes-copied n dst src m f x)
]

copy_head-copied :
    (n dst src : ℕ) (m : Bytes)
    → IsForward dst src n
    → (x : ℕ) → copy_head n dst src m x ≡ copied dst src n m x
unfolding copy_head
copy_head-copied zero dst src m f x = copy_words-copied zero zero dst src m f x
copy_head-copied (suc n) dst src m f x = elim (Bool-cases (dst % 4 == 0)) [
  | inl aligned ↦ rw aligned (copy_words-copied (suc n) (suc n) dst src m f x)
  | inr off ↦ rw off (
      copy_head-copied n (dst + 1) (src + 1) (update m dst (m src)) (IsForward-step n dst src f) x
      ∙ copied-byte n dst src m f x)
]

-- When the source does not start below the destination and reach into it, `memcpy` by bytes and
-- words leaves in each byte of the destination what the source held there before, and changes no
-- other byte.
pub memcpy-copied :
    (dst src n : ℕ) (m : Bytes)
    → IsForward dst src n
    → (x : ℕ) → memcpy dst src n m x ≡ (if is_within dst n x then m (src + (x - dst)) else m x)
unfolding memcpy
memcpy-copied dst src n m f x = elim (Bool-cases (src % 4 == dst % 4)) [
  | inl e ↦ rw e (copy_head-copied n dst src m f x)
  | inr e ↦ rw e (copy_bytes-copied n dst src m f x)
]

-- What setting `n` bytes puts at `x`.
abbrev pub filled : ℕ → ℕ → ℕ → Bytes → ℕ → ℕ
filled dst byte n m x = if is_within dst n x then byte else m x

filled-byte :
    (n dst byte : ℕ) (m : Bytes) (x : ℕ)
    → filled (dst + 1) byte n (update m dst byte) x ≡ filled dst byte (suc n) m x
filled-byte n dst byte m x = ground arith

filled-word :
    (n dst byte : ℕ) (m : Bytes)
    → leb 4 n ≡ true
    → (x : ℕ) → filled (dst + 4) byte (n - 4) (set_word dst byte m) x ≡ filled dst byte n m x
unfolding set_word
filled-word n dst byte m le x = ground arith

set_bytes-filled :
    (n dst byte : ℕ) (m : Bytes) (x : ℕ) → set_bytes n dst byte m x ≡ filled dst byte n m x
unfolding set_bytes
set_bytes-filled zero dst byte m x = ground arith
set_bytes-filled (suc n) dst byte m x =
    set_bytes-filled n (dst + 1) byte (update m dst byte) x ∙ filled-byte n dst byte m x

set_words-filled :
    (fuel n dst byte : ℕ) (m : Bytes) (x : ℕ)
    → set_words fuel n dst byte m x ≡ filled dst byte n m x
unfolding set_words
set_words-filled zero n dst byte m x = set_bytes-filled n dst byte m x
set_words-filled (suc fuel) n dst byte m x = elim (Bool-cases (leb 4 n)) [
  | inl le ↦ rw le (
      set_words-filled fuel (n - 4) (dst + 4) byte (set_word dst byte m) x
      ∙ filled-word n dst byte m le x)
  | inr gt ↦ rw gt (set_bytes-filled n dst byte m x)
]

set_head-filled :
    (n dst byte : ℕ) (m : Bytes) (x : ℕ) → set_head n dst byte m x ≡ filled dst byte n m x
unfolding set_head
set_head-filled zero dst byte m x = set_words-filled zero zero dst byte m x
set_head-filled (suc n) dst byte m x = elim (Bool-cases (dst % 4 == 0)) [
  | inl aligned ↦ rw aligned (set_words-filled (suc n) (suc n) dst byte m x)
  | inr off ↦
      rw off (set_head-filled n (dst + 1) byte (update m dst byte) x ∙ filled-byte n dst byte m x)
]

pub memset-filled :
    (dst c n : ℕ) (m : Bytes) (x : ℕ)
    → memset dst c n m x ≡ (if is_within dst n x then c % 256 else m x)
unfolding memset
memset-filled dst c n m x = set_head-filled n dst (c % 256) m x
