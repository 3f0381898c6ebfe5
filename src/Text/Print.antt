-- ===== src/Text/Print.antt =====
-- lib/print.c. What is printed is the string that the calls of `out` are given, one after the other.
-- A word is 32 bits, a `long` like an `int`, and the buffer of `print_num` is the memory from its
-- start on.
pub mod Loops
pub mod Decimal
use mos_volca_shell.Base.{
  ℕ, zero, suc, ◌+◌, ◌-◌, ◌*◌, ◌/◌, ◌%◌, ◌^◌, Bool, true, false, not, ◌&&◌, ◌||◌, Option, none,
  some, List, [], ◌∷◌, ◌++◌, ◌==◌, ltb, leb, if◌then◌else◌, update,
}
use mos_volca_shell.Text.{Str, strlen, first_byte}
use mos_volca_shell.Text.Memory.{Bytes}

unfoldable pub digit_char : Bool → ℕ → ℕ
digit_char upcase t = if leb t 9 then b'0' + t else if upcase then b'A' + t - 10 else b'a' + t - 10

-- The loop that writes the digits, the lowest first, from `buf[p]` on, with the position behind
-- them. There are `n` rounds left.
unfoldable pub put_digits : ℕ → ℕ → ℕ → Bool → ℕ → Bytes → ℕ × Bytes
unfolding digit_char
put_digits zero u base upcase p buf = (p, buf)
put_digits (suc n) u base upcase p buf =
    let next : Bytes = update buf p (digit_char upcase (u % base)) in
    let rest = put_digits n (u / base) base upcase (p + 1) next in
    if u / base == 0 then (p + 1, next) else rest

-- `n` rounds of `buf[i] = padc`
unfoldable pub put_padding : ℕ → ℕ → ℕ → Bytes → Bytes
put_padding zero i padc buf = buf
put_padding (suc n) i padc buf = put_padding n (i + 1) padc (update buf i padc)

unfoldable pub pad : Bool → ℕ → ℕ → ℕ → Bytes → Bytes
unfolding put_padding
pad behind_sign actual length padc buf =
    if behind_sign
    then update (put_padding (length - actual) (actual - 1) padc buf) (length - 1) b'-'
    else put_padding (length - actual) actual padc buf

-- The loop that turns the bytes from `begin` to `end` around. There are `n` rounds left.
unfoldable pub swap_ends : ℕ → ℕ → ℕ → Bytes → Bytes
swap_ends zero begin end buf = buf
swap_ends (suc n) begin end buf =
    let rest =
      swap_ends n (begin + 1) (end - 1) (update (update buf begin (buf end)) end (buf begin)) in
    if ltb begin end then rest else buf

-- `out(data, buf + i, n)`
unfoldable pub out_bytes : ℕ → ℕ → Bytes → Str
out_bytes zero i buf = []
out_bytes (suc n) i buf = buf i ∷ out_bytes n (i + 1) buf

unfoldable pub put_sign : Bool → ℕ × Bytes → ℕ × Bytes
put_sign neg_flag (p, buf) = if neg_flag then (p + 1, update buf p b'-') else (p, buf)

-- What follows the digits and the sign, which take `actual` bytes.
unfoldable pub finish_num : Bool → ℕ → Bool → ℕ → ℕ × Bytes → Str
unfolding pad swap_ends out_bytes
finish_num neg_flag width ladjust padc (actual, buf) =
    let length : ℕ = if ltb width actual then actual else width in
    let padding : ℕ = if ladjust then b' ' else padc in
    let padded : Bytes =
      pad (neg_flag && (not ladjust && (padding == b'0'))) actual length padding buf in
    let end : ℕ = if ladjust then actual - 1 else length - 1 in
    out_bytes length 0 (swap_ends length 0 end padded)

-- A word has at most 32 digits.
unfoldable pub print_num : Bytes → ℕ → ℕ → Bool → ℕ → Bool → ℕ → Bool → Str
unfolding put_digits put_sign finish_num
print_num buf u base neg_flag width ladjust padc upcase =
    finish_num neg_flag width ladjust padc (put_sign neg_flag (put_digits 32 u base upcase 0 buf))

unfoldable pub spaces : ℕ → Str
spaces zero = []
spaces (suc n) = b' ' ∷ spaces n

unfoldable pub print_char : ℕ → ℕ → Bool → Str
unfolding spaces
print_char c width ladjust =
    let length : ℕ = if ltb width 1 then 1 else width in
    if ladjust then c ∷ spaces (length - 1) else spaces (length - 1) ++ (c ∷ [])

unfoldable pub print_str : Str → ℕ → Bool → Str
unfolding spaces strlen
print_str s width ladjust =
    let length : ℕ = if ltb width (strlen s) then strlen s else width in
    if ladjust then s ++ spaces (length - strlen s) else spaces (length - strlen s) ++ s

-- The arguments behind the format: a word, or a pointer to a string.
pub data Arg : Type 0 where
  word : ℕ → Arg
  string : Str → Arg

-- What stands between the percent sign and the letter.
pub record Directive : Type 0 where
  pub ladjust : Bool
  pub padc : ℕ
  pub width : ℕ

-- One byte that may stand at the head of the format, and the format behind it.
unfoldable pub scan_flag : ℕ → Str → Bool × Str
scan_flag c [] = (false, [])
scan_flag c (d ∷ fmt) = if d == c then (true, fmt) else (false, d ∷ fmt)

unfoldable pub scan_width : ℕ → Str → ℕ × Str
scan_width w [] = (w, [])
scan_width w (c ∷ fmt) =
    let rest = scan_width (w * 10 + (c - b'0')) fmt in
    if leb b'0' c && leb c b'9' then rest else (w, c ∷ fmt)

-- A width does not start with a zero: one zero before it is the flag.
unfoldable pub scan_width_from : Str → ℕ × Str
unfolding scan_width
scan_width_from fmt =
    if ltb b'0' (first_byte fmt) && leb (first_byte fmt) b'9' then scan_width 0 fmt else (0, fmt)

unfoldable pub scan_directive : Str → Directive × Str
unfolding scan_flag scan_width_from
scan_directive fmt =
    let minus = scan_flag b'-' fmt in
    let zeros = scan_flag b'0' (minus.1) in
    let width = scan_width_from (zeros.1) in
    let long = scan_flag b'l' (width.1) in
    (record { ladjust = minus.0; padc = if zeros.0 then b'0' else b' '; width = width.0 }, long.1)

-- A word as a signed number: whether it is negative, and its absolute value.
unfoldable pub signed : ℕ → Bool × ℕ
signed w = if ltb w (2 ^ 31) then (false, w) else (true, (2 ^ 32 - w) % 2 ^ 32)

abbrev pub is_one_of : ℕ → ℕ → ℕ → Bool
is_one_of c a b = (c == a) || (c == b)

-- The letters that print a number; `none` for the others. `buf` is what the buffer on the stack
-- holds before.
unfoldable pub convert_num : Bytes → Directive → ℕ → ℕ → Option Str
unfolding print_num signed
convert_num buf d c num =
    let unsigned : ℕ → Bool → Str =
      λ base upcase. print_num buf num base false (d.width) (d.ladjust) (d.padc) upcase in
    if c == b'b'
    then some (unsigned 2 false)
    else if is_one_of c b'd' b'D'
    then some
        (print_num buf ((signed num).1) 10 ((signed num).0) (d.width) (d.ladjust) (d.padc) false)
    else if is_one_of c b'o' b'O'
    then some (unsigned 8 false)
    else if is_one_of c b'u' b'U'
    then some (unsigned 10 false)
    else if c == b'x'
    then some (unsigned 16 false)
    else if c == b'X'
    then some (unsigned 16 true)
    else if c == b'c'
    then some (print_char (num % 256) (d.width) (d.ladjust))
    else none

abbrev pub is_letter : ℕ → Bool
is_letter c =
    is_one_of c b'b' b'd'
    || is_one_of c b'D' b'o'
    || is_one_of c b'O' b'u'
    || is_one_of c b'U' b'x'
    || is_one_of c b'X' b'c'

-- What a letter prints, and the arguments that it leaves. C leaves it undefined when the argument
-- that it reads is missing or of another kind: `none`.
unfoldable pub convert : Bytes → Directive → ℕ → List Arg → Option (Str × List Arg)
unfolding convert_num print_str
convert buf d c [] = if is_letter c || (c == b's') then none else some (c ∷ [], [])
convert buf d c (word num ∷ args) =
    if is_letter c
    then elim (convert_num buf d c num) [ none ↦ none | some s ↦ some (s, args) ]
    else if c == b's'
    then none
    else some (c ∷ [], word num ∷ args)
convert buf d c (string s ∷ args) =
    if is_letter c
    then none
    else if c == b's'
    then some (print_str s (d.width) (d.ladjust), args)
    else some (c ∷ [], string s ∷ args)

unfoldable pub print_then : Str → Option Str → Option Str
print_then s none = none
print_then s (some rest) = some (s ++ rest)

-- What follows a directive; `go_on` is the rest of the loop.
unfoldable pub after_percent :
    (Str → List Arg → Option Str) → Bytes → List Arg → Directive × Str → Option Str
unfolding convert print_then
after_percent go_on buf args (d, []) = some []
after_percent go_on buf args (d, l ∷ rest) = elim (convert buf d l args) [
  | none ↦ none
  | some (s, left) ↦ print_then s (go_on rest left)
]

-- The loop of `vprintfmt`, with `n` bytes of the format left at most.
unfoldable pub vprintfmt : ℕ → Bytes → Str → List Arg → Option Str
unfolding scan_directive after_percent print_then
vprintfmt zero buf fmt args = some []
vprintfmt (suc n) buf [] args = some []
vprintfmt (suc n) buf (c ∷ fmt) args =
    let plain = vprintfmt n buf fmt args in
    if c == b'%'
    then after_percent (λ rest left. vprintfmt n buf rest left) buf args (scan_directive fmt)
    else print_then (c ∷ []) plain
