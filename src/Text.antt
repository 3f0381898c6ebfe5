-- ===== src/Text.antt =====
-- lib/string.c. A string is the list of its bytes before the NUL, and the room of a destination is
-- not limited here; the bytes of memory of `memcpy` and `memset` are in the module for them.
pub mod Order
pub mod Memory
pub mod Path
pub mod Number
pub mod Print
mod Tests
use mos_volca_shell.Base.{
  ℕ, zero, suc, ◌+◌, ◌-◌, ◌*◌, ◌%◌, ◌^◌, Bool, true, false, not, ◌&&◌, ◌||◌, Option, none, some,
  List, [], ◌∷◌, ◌++◌, ◌==◌, ltb, leb, if◌then◌else◌, ◌≡◌,
}

abbrev pub Str : Type 0
Str = List ℕ

-- No byte of the string is the NUL that ends it.
abbrev pub IsStr : Str → Type 0
IsStr [] = Unit {0}
IsStr (c ∷ s) = ((c == 0) ≡ false) × IsStr s

-- The byte that a pointer to the string reads.
abbrev pub first_byte : Str → ℕ
first_byte [] = 0
first_byte (c ∷ s) = c

abbrev pub slash : ℕ
slash = b'/'

unfoldable pub strlen : Str → ℕ
strlen [] = 0
strlen (c ∷ s) = strlen s + 1

-- What `dst` holds afterwards, whatever it held before.
unfoldable pub strcpy : Str → Str
strcpy [] = []
strcpy (c ∷ s) = c ∷ strcpy s

-- The rest of the string from the byte that was found on.
unfoldable pub strchr : Str → ℕ → Option Str
strchr [] c = none
strchr (d ∷ s) c = let rest = strchr s c in if d == c then some (d ∷ s) else rest

-- The results -1, 0 and 1 of `strcmp`.
pub data Sign : Type 0 where
  less same greater : Sign

unfoldable pub compare_byte : ℕ → ℕ → Sign
compare_byte c d = if ltb c d then less else if ltb d c then greater else same

unfoldable pub strcmp : Str → Str → Sign
unfolding compare_byte
strcmp [] q = compare_byte 0 (first_byte q)
strcmp (c ∷ p) [] = compare_byte c 0
strcmp (c ∷ p) (d ∷ q) = let rest = strcmp p q in if c == d then rest else compare_byte c d

unfoldable pub strcat : Str → Str → Str
unfolding strcpy
strcat [] src = strcpy src
strcat (c ∷ dst) src = c ∷ strcat dst src

-- isVisable
abbrev pub is_visible : ℕ → Bool
is_visible c = leb 32 c && leb c 126

-- The rest of `parent` that is stored in `waitToComp`; `none` is the result -1. The loop does not
-- stop at the NUL: on two equal strings C reads on behind both of them, and `past` is what the code
-- then gives.
unfoldable pub str_contain : Option Str → Str → Str → Option Str
str_contain past [] [] = past
str_contain past [] (d ∷ child) = none
str_contain past (c ∷ parent) [] = if is_visible c then some (c ∷ parent) else none
str_contain past (c ∷ parent) (d ∷ child) =
    let rest = str_contain past parent child in if c == d then rest else none

-- The last byte of the string, `before` for an empty one: `pre[-1]`.
abbrev pub last_byte_of : ℕ → Str → ℕ
last_byte_of before [] = before
last_byte_of before (c ∷ s) = last_byte_of c s

-- `before` is the byte in front of the buffer, which C reads when `pre` is empty.
unfoldable pub cat_path : ℕ → Str → Str → Str
unfolding strcpy
cat_path before pre path =
    if not (last_byte_of before pre == slash) && not (first_byte path == slash)
    then pre ++ (slash ∷ strcpy path)
    else pre ++ strcpy path

-- The loop of `toParentPath` keeps what stands before the last slash: `none` where there is none.
unfoldable pub before_last_slash : Str → Option Str
before_last_slash [] = none
before_last_slash (c ∷ s) = elim (before_last_slash s) [
  | some p ↦ some (c ∷ p)
  | none ↦ if c == slash then some [] else none
]

-- An empty result becomes "/".
unfoldable pub or_root : Option Str → Str
or_root none = slash ∷ []
or_root (some []) = slash ∷ []
or_root (some (c ∷ p)) = c ∷ p

-- What follows the comparison of the path with "/".
unfoldable pub cut_last : Sign → Str → Str
unfolding before_last_slash or_root
cut_last same path_name = path_name
cut_last less path_name = or_root (before_last_slash path_name)
cut_last greater path_name = or_root (before_last_slash path_name)

unfoldable pub to_parent_path : Str → Str
unfolding cut_last strcmp
to_parent_path path_name = cut_last (strcmp path_name (slash ∷ [])) path_name

abbrev pub max_name_len : ℕ
max_name_len = 128

-- The loop of `splitPath` over the first name, with `room` bytes of it left: the name, and the rest
-- from the slash or the NUL on; `none` when the name is too long.
unfoldable pub first_name : ℕ → Str → Option (Str × Str)
first_name room [] = some ([], [])
first_name zero (c ∷ s) = if c == slash then some ([], c ∷ s) else none
first_name (suc room) (c ∷ s) =
    let rest = first_name room s in
    if c == slash
    then some ([], c ∷ s)
    else elim rest [ none ↦ none | some (name, left) ↦ some (c ∷ name, left) ]

-- `firDir` and what is stored in `nextPath`, `none` where it is left as it was.
unfoldable pub split_end : Str × Str → Str × Option Str
split_end (name, []) = (name, none)
split_end (name, c ∷ rest) = (name, some rest)

unfoldable pub split_path : Str → Option (Str × Option Str)
unfolding first_name split_end
split_path path_name =
    if first_byte path_name == slash
    then none
    else elim (first_name max_name_len path_name) [ none ↦ none | some r ↦ some (split_end r) ]

abbrev pub is_digit : ℕ → Bool
is_digit c = leb b'0' c && leb c b'9'

-- The loop of `strToUint`, on the 32 bits of its `int`; `none` is the result -1.
unfoldable pub to_uint : ℕ → Str → Option ℕ
to_uint r [] = some r
to_uint r (c ∷ s) =
    let rest = to_uint (((c - b'0') + r * 10) % 2 ^ 32) s in if is_digit c then rest else none

-- An `int` is the word that holds it, and -1 is this one. A number that does not fit overflows the
-- `int`, which wraps here: from 2^31 on the word is negative for the callers.
abbrev pub minus_one : ℕ
minus_one = 2 ^ 32 - 1

unfoldable pub as_int : Option ℕ → ℕ
as_int none = minus_one
as_int (some r) = r

unfoldable pub str_to_uint : Str → ℕ
unfolding to_uint as_int
str_to_uint s = as_int (to_uint 0 s)
