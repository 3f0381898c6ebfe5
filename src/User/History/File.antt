-- ===== src/User/History/File.antt =====
-- The file of user/lib/history.c: what was written at an offset is read there, until it is written over.
use mos_volca_shell.Base.{
  ℕ, suc, ◌+◌, ◌/◌, ◌%◌, ◌^◌, ◌<◌, ◌≤◌, true, false, ◌&&◌, [], ◌∷◌, ltb, leb, length, ◌≡◌, ◌⊎◌, ◌∙◌,
  refl, ap, arith, inl, inr, ltb-lt, ltb-le,
}
use mos_volca_shell.Text.{Str, strlen}
use mos_volca_shell.User.History.{
  History, max_file_size, byte_of, byte_at, write_at, read_at, int_bytes, read_int,
}

-- The bytes `s` stand at the offset `o` of the file.
pub record Has (h : History) (o : ℕ) (s : Str) : Type 0 where
  pub inside : o + length s ≤ h.size
  pub same : (k : ℕ) → k < length s → h.bytes (o + k) ≡ byte_of s k

pub strlen-length : (s : Str) → strlen s ≡ length s
unfolding strlen
strlen-length [] = refl
strlen-length (c ∷ s) = omega (arith, strlen-length s)

write_fits :
    (o : ℕ) (s : Str) → o + length s ≤ max_file_size → ltb max_file_size (o + length s) ≡ false
write_fits o s fits = ltb-le max_file_size (o + length s) fits

pub write_at-Has :
    (o : ℕ) (s : Str) (h : History) → o + length s ≤ max_file_size → Has (write_at o s h) o s
unfolding write_at
write_at-Has o s h fits = rw (write_fits o s fits) (record {
  inside = ground arith;
  same = λ k lt.
      let within : (leb o (o + k) && ltb (o + k) (o + length s)) ≡ true = ground (arith, lt) in
      rw within (ap (byte_of s) (omega arith));
})

pub write_at-keeps :
    (o p : ℕ) (s t : Str) (h : History)
    → Has h p t
    → (p + length t ≤ o) ⊎ (o + length s ≤ p)
    → o + length s ≤ max_file_size
    → Has (write_at o s h) p t
unfolding write_at
write_at-keeps o p s t h has apart fits = rw (write_fits o s fits) (record {
  inside = ground (arith, has.inside);
  same = λ k lt.
      let outside : (leb o (p + k) && ltb (p + k) (o + length s)) ≡ false = elim apart [
        | inl before ↦ ground (arith, before, lt)
        | inr behind ↦ ground (arith, behind, lt)
      ] in
      rw outside (has.same k lt);
})

-- The rest of bytes that stand in the file.
Has-tail : (h : History) (o c : ℕ) (s : Str) → Has h o (c ∷ s) → Has h (o + 1) s
Has-tail h o c s has = record {
  inside = omega (arith, has.inside);
  same = λ k lt. ap h.bytes (omega arith) ∙ has.same (suc k) (omega (arith, lt));
}

byte_at-Has :
    (h : History) (o k old : ℕ) (s : Str)
    → Has h o s
    → k < length s
    → byte_at h (o + k) old ≡ byte_of s k
byte_at-Has h o k old s has lt =
    rw (ltb-lt (o + k) h.size (omega (arith, has.inside, lt))) (has.same k lt)

pub read_at-Has :
    (s : Str) (o : ℕ) (old : ℕ → ℕ) (h : History) → Has h o s → read_at (length s) o old h ≡ s
unfolding read_at
read_at-Has [] o old h has = refl
read_at-Has (c ∷ s) o old h has =
    let first : byte_at h o (old 0) ≡ c =
      ap (λ k. byte_at h k (old 0)) (omega arith)
      ∙ byte_at-Has h o 0 (old 0) (c ∷ s) has (omega arith) in
    rw (first, read_at-Has s (o + 1) (λ k. old (k + 1)) h (Has-tail h o c s has)) refl

pub read_int-Has :
    (v o old : ℕ) (h : History) → v < 2 ^ 32 → Has h o (int_bytes v) → read_int o old h ≡ v
unfolding read_int int_bytes
read_int-Has v o old h lt has =
    let first : byte_at h o (old % 256) ≡ v % 256 =
      ap (λ k. byte_at h k (old % 256)) (omega arith)
      ∙ byte_at-Has h o 0 (old % 256) (int_bytes v) has (omega arith) in
    rw
      (
        first,
        byte_at-Has h o 1 (old / 256 % 256) (int_bytes v) has (omega arith),
        byte_at-Has h o 2 (old / 65536 % 256) (int_bytes v) has (omega arith),
        byte_at-Has h o 3 (old / 16777216 % 256) (int_bytes v) has (omega arith),
      )
      (omega (arith, lt))
