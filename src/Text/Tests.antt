-- ===== src/Text/Tests.antt =====
-- Examples for lib/string.c and lib/print.c.
use mos_volca_shell.Base.{
  ◌+◌, ◌-◌, ◌≤◌, false, some, [], ◌∷◌, ◌++◌, if◌then◌else◌, length, ◌≡◌, ◌↔◌, refl, arith, inr, mem,
  cons-ne-nil,
}
use mos_volca_shell.Text.{
  Str, split_path, cat_path, to_parent_path, slash, max_name_len, str_to_uint,
}
use mos_volca_shell.Text.Path.{joined, split_path-joined, to_parent_path-cat_path}
use mos_volca_shell.Text.Memory.{Bytes, is_within, memcpy, memcpy-copied}
use mos_volca_shell.Text.Print.{print_num}
use mos_volca_shell.Text.Print.Decimal.{str_to_uint-print_num}

abbrev bin : Str
bin = b'b' ∷ b'i' ∷ b'n' ∷ []

abbrev ls : Str
ls = b'l' ∷ b's' ∷ []

split_path-joined_example : (split_path (bin ++ (slash ∷ ls)) ≡ some (bin, some ls)) ↔ (
    (bin ++ (slash ∷ ls) ≡ joined bin (some ls))
    × (mem slash bin ≡ false)
    × (length bin ≤ max_name_len))
split_path-joined_example = split_path-joined (bin ++ (slash ∷ ls)) bin (some ls) refl

to_parent_path-cat_path_example : to_parent_path (cat_path 0 (slash ∷ bin) ls) ≡ slash ∷ bin
to_parent_path-cat_path_example =
    to_parent_path-cat_path 0 (slash ∷ bin) ls (refl, (refl, (refl, (refl, tt)))) (refl, (refl, tt))
      (inr (cons-ne-nil slash bin, refl)) refl

abbrev memory : Bytes
memory k = k + 1

memcpy-copied_example :
    memcpy 100 4 6 memory 102
    ≡ (if is_within 100 6 102 then memory (4 + (102 - 100)) else memory 102)
memcpy-copied_example = memcpy-copied 100 4 6 memory (inr (omega arith)) 102

str_to_uint-print_num_example :
    str_to_uint (print_num memory 1234 10 false 8 false b'0' false) ≡ 1234
str_to_uint-print_num_example = str_to_uint-print_num memory 1234 8 false (omega arith)
