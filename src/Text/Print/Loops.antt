-- ===== src/Text/Print/Loops.antt =====
-- The loops of `print_num` of lib/print.c on its buffer.
use mos_volca_shell.Base.{
  ℕ, zero, suc, ◌+◌, ◌-◌, ◌/◌, ◌%◌, ◌^◌, ◌<◌, ◌≤◌, Bool, true, ◌&&◌, [], ◌∷◌, ◌++◌, ◌==◌, ltb, leb,
  if◌then◌else◌, update, ◌≡◌, ◌∙◌, refl, ap, arith, Bool-cases, inl, inr, ==-refl, ==-ne,
}
use native.Mathlib.Nat.{pow-suc}
use mos_volca_shell.Text.Memory.{Bytes}
use mos_volca_shell.Text.Number.{all_digits, low_value, backwards}
use mos_volca_shell.Text.Print.{digit_char, put_digits, put_padding, swap_ends, out_bytes}

pub out_bytes-same :
    (n i : ℕ) (f g : Bytes)
    → ((k : ℕ) → i ≤ k → k < i + n → f k ≡ g k)
    → out_bytes n i f ≡ out_bytes n i g
unfolding out_bytes
out_bytes-same zero i f g h = refl
out_bytes-same (suc n) i f g h =
    rw
      (
        h i (omega arith) (omega arith),
        out_bytes-same n (i + 1) f g (λ k lo hi. h k (omega (arith, lo)) (omega (arith, hi))),
      )
      refl

out_bytes-shift : (n i : ℕ) (f : Bytes) → out_bytes n (i + 1) f ≡ out_bytes n i (λ k. f (k + 1))
unfolding out_bytes
out_bytes-shift zero i f = refl
out_bytes-shift (suc n) i f = ap (λ r. f (i + 1) ∷ r) (out_bytes-shift n (i + 1) f)

out_bytes-last : (n i : ℕ) (f : Bytes) → out_bytes (suc n) i f ≡ out_bytes n i f ++ (f (i + n) ∷ [])
unfolding out_bytes
out_bytes-last zero i f = ap (λ k. f k ∷ []) (omega arith)
out_bytes-last (suc n) i f =
    let shifted : i + 1 + n ≡ i + suc n = omega arith in
    ap (λ r. f i ∷ r)
      (out_bytes-last n (i + 1) f ∙ ap (λ k. out_bytes n (i + 1) f ++ (f k ∷ [])) shifted)

out_bytes-backwards_from :
    (n i j : ℕ) (f g : Bytes)
    → ((k : ℕ) → k < n → g (j + k) ≡ f (i + n - 1 - k))
    → out_bytes n j g ≡ backwards (out_bytes n i f)
unfolding out_bytes
out_bytes-backwards_from zero i j f g h = refl
out_bytes-backwards_from (suc n) i j f g h =
    let last : g (j + n) ≡ f i = h n (omega arith) ∙ ap f (omega arith) in
    let inner : out_bytes n j g ≡ backwards (out_bytes n (i + 1) f) =
      out_bytes-backwards_from n (i + 1) j f g
        (λ k lt. h k (omega (arith, lt)) ∙ ap f (omega (arith, lt))) in
    out_bytes-last n j g ∙ rw (last, inner) refl

-- A buffer that was turned around is put out backwards.
pub out_bytes-backwards :
    (n : ℕ) (f g : Bytes)
    → ((k : ℕ) → k < n → g k ≡ f (n - 1 - k))
    → out_bytes n 0 g ≡ backwards (out_bytes n 0 f)
out_bytes-backwards n f g h =
    out_bytes-backwards_from n 0 0 f g (λ k lt. ap g (omega arith) ∙ h k lt ∙ ap f (omega arith))

turned_step :
    (begin end k : ℕ) (buf : Bytes)
    → begin < end
    → (if leb (begin + 1) k && leb k (end - 1)
        then update (update buf begin (buf end)) end (buf begin) (begin + 1 + (end - 1) - k)
        else update (update buf begin (buf end)) end (buf begin) k)
      ≡ (if leb begin k && leb k end then buf (begin + end - k) else buf k)
turned_step begin end k buf lt = grind arith

turned_all :
    (begin end k : ℕ) (buf : Bytes)
    → end ≤ begin
    → buf k ≡ (if leb begin k && leb k end then buf (begin + end - k) else buf k)
turned_all begin end k buf le = grind arith

-- The loop that turns the digits around does it when it has half as many rounds as bytes.
pub swap_ends-turned :
    (n begin end : ℕ) (buf : Bytes)
    → end < begin + n + n + 1
    → (k : ℕ)
    → swap_ends n begin end buf k
      ≡ (if leb begin k && leb k end then buf (begin + end - k) else buf k)
unfolding swap_ends
swap_ends-turned zero begin end buf h k = turned_all begin end k buf (omega (arith, h))
swap_ends-turned (suc n) begin end buf h k = elim (Bool-cases (ltb begin end)) [
  | inl lt ↦ rw lt (
      swap_ends-turned n (begin + 1) (end - 1) (update (update buf begin (buf end)) end (buf begin))
        (ground arith) k
      ∙ turned_step begin end k buf (ground arith))
  | inr ge ↦ rw ge (turned_all begin end k buf (ground arith))
]

pub put_padding-within :
    (n i padc : ℕ) (buf : Bytes) (k : ℕ)
    → put_padding n i padc buf k ≡ (if leb i k && ltb k (i + n) then padc else buf k)
unfolding put_padding
put_padding-within zero i padc buf k = ground arith
put_padding-within (suc n) i padc buf k =
    ground (arith, put_padding-within n (i + 1) padc (update buf i padc) k)

-- The digits of a number below 10^n: they end at `p + len`, and leave the bytes before `p`.
pub record Digits (u p : ℕ) (buf : Bytes) (r : ℕ × Bytes) : Type 0 where
  pub len : ℕ
  pub end : r.0 ≡ p + len
  pub some_digit : 1 ≤ len
  pub all : all_digits (out_bytes len p (r.1)) ≡ true
  pub value : low_value (out_bytes len p (r.1)) ≡ u
  pub below : (k : ℕ) → k < p → r.1 k ≡ buf k

Digits-last :
    (u p : ℕ) (upcase : Bool) (buf : Bytes)
    → u < 10
    → Digits u p buf (p + 1, update buf p (digit_char upcase (u % 10)))
unfolding out_bytes digit_char
Digits-last u p upcase buf lt =
    let char : digit_char upcase (u % 10) ≡ b'0' + u = ground arith in
    let byte : update buf p (digit_char upcase (u % 10)) p ≡ b'0' + u = rw (==-refl p) char in
    record {
      len = 1;
      end = refl;
      some_digit = omega arith;
      all = rw byte (ground arith);
      value = rw byte (omega arith);
      below = λ k lt. rw (==-ne k p (omega (arith, lt))) refl;
    }

-- A digit in front of the others.
Digits-cons :
    (u p : ℕ) (upcase : Bool) (buf : Bytes) (r : ℕ × Bytes)
    → Digits (u / 10) (p + 1) (update buf p (digit_char upcase (u % 10))) r
    → Digits u p buf r
unfolding out_bytes digit_char
Digits-cons u p upcase buf r d =
    let char : digit_char upcase (u % 10) ≡ b'0' + u % 10 = ground arith in
    let byte : r.1 p ≡ b'0' + u % 10 = d.below p (omega arith) ∙ rw (==-refl p) char in
    record {
      len = suc (d.len);
      end = omega (arith, d.end);
      some_digit = omega arith;
      all = rw (byte, d.all) (ground arith);
      value = rw (byte, d.value) (omega arith);
      below = λ k lt. d.below k (omega (arith, lt)) ∙ rw (==-ne k p (omega (arith, lt))) refl;
    }

pub put_digits-Digits :
    (n u p : ℕ) (upcase : Bool) (buf : Bytes)
    → u < 10 ^ suc n
    → Digits u p buf (put_digits (suc n) u 10 upcase p buf)
unfolding put_digits
put_digits-Digits zero u p upcase buf lt =
    let done : (u / 10 == 0) ≡ true = ground (arith, lt) in
    rw done (Digits-last u p upcase buf (omega (arith, lt)))
put_digits-Digits (suc n) u p upcase buf lt = elim (Bool-cases (u / 10 == 0)) [
  | inl last ↦ rw last (Digits-last u p upcase buf (ground (arith, last)))
  | inr more ↦ rw more (
      Digits-cons u p upcase buf _ (
        put_digits-Digits n (u / 10) (p + 1) upcase (update buf p (digit_char upcase (u % 10)))
          (omega (arith, lt, pow-suc 10 (suc n)))))
]
