-- ===== src/User/Shell/Editor.antt =====
-- The line editor of user/sh.c. `before` is what stands in `beforeCur`, from 0 to `beforeLen - 1`, and
-- `after` what stands in `afterCur`, from `afterLen - 1` down to 0: both in the order of the line. A
-- function returns what it prints too.
pub mod Screen
pub mod Keys
use mos_volca_shell.Base.{
  ℕ, zero, suc, ◌+◌, ◌-◌, ◌≤◌, Bool, true, false, not, ◌&&◌, ◌||◌, Option, none, some, List, [],
  ◌∷◌, ◌++◌, ◌==◌, ltb, leb, if◌then◌else◌, length,
}
use mos_volca_shell.Text.{Str, is_visible, slash, str_contain}
use mos_volca_shell.User.History.{
  History, Junk, Browsed, refused, stays, moved, history_next, history_write,
}

pub record Editor : Type 0 where
  pub input_len : ℕ
  pub cursor : ℕ
  pub before : Str
  pub after : Str

-- What is printed: a byte, or the sequence ESC [ C or ESC [ D.
pub data Out : Type 0 where
  put : ℕ → Out
  right left : Out

abbrev pub puts : Str → List Out
puts [] = []
puts (c ∷ s) = put c ∷ puts s

abbrev pub load_buf : Editor → Str
load_buf e = e.before ++ e.after

abbrev pub repeat : ℕ → ℕ → List Out
repeat zero c = []
repeat (suc n) c = put c ∷ repeat n c

abbrev pub print_back : ℕ → List Out
print_back num = repeat num 8

abbrev pub print_space : ℕ → List Out
print_space num = repeat num b' '

abbrev pub drop : ℕ → Str → Str
drop zero s = s
drop (suc n) [] = []
drop (suc n) (c ∷ s) = drop n s

abbrev pub line_len : Editor → ℕ
line_len e = length e.before + length e.after

-- The two parts of `updateCons`, with `flushAll` and without it.
unfoldable pub redraw_all : Editor → Editor × List Out
redraw_all e = (
  record e { input_len = line_len e; cursor = length e.before },
  print_back e.cursor
      ++ (puts e.before
          ++ (puts e.after
              ++ (print_space (e.input_len - line_len e)
                  ++ print_back ((e.input_len - line_len e) + length e.after)))),
)

unfoldable pub redraw : Editor → Editor × List Out
redraw e = if e.input_len == line_len e then (record e { cursor = length e.before }, []) else (
  record e { input_len = line_len e; cursor = length e.before },
  (if ltb (length e.before) e.cursor
        then print_back (e.cursor - length e.before)
        else puts (drop e.cursor e.before))
      ++ (puts e.after
          ++ (print_space (e.input_len - line_len e)
              ++ print_back ((e.input_len - line_len e) + length e.after))),
)

unfoldable pub update_cons : Bool → Editor → Editor × List Out
unfolding redraw_all redraw
update_cons flush_all e = if flush_all then redraw_all e else redraw e

abbrev pub without_last : Str → Str
without_last [] = []
without_last (c ∷ []) = []
without_last (c ∷ d ∷ s) = c ∷ without_last (d ∷ s)

abbrev pub last_of : Str → ℕ
last_of [] = 0
last_of (c ∷ []) = c
last_of (c ∷ d ∷ s) = last_of (d ∷ s)

abbrev pub without_first : Str → Str
without_first [] = []
without_first (c ∷ s) = s

abbrev pub first_of : Str → ℕ
first_of [] = 0
first_of (c ∷ s) = c

-- `op` is whether it is DEL.
unfoldable pub back_or_delete : Bool → Editor → Editor × List Out
unfolding update_cons
back_or_delete is_del e =
    if e.input_len == 0
    then (e, [])
    else if is_del
    then (if length e.after == 0
        then (e, [])
        else update_cons false (record e { after = without_first e.after }))
    else if length e.before == 0
    then (e, [])
    else update_cons false (record e { before = without_last e.before })

-- UP, DOWN, RIGHT, LEFT and DEL
pub data Key : Type 0 where
  key_up key_down key_right key_left key_del : Key

-- The bytes behind ESC; `none` is -1.
unfoldable pub last_byte_of_key : ℕ → Str → Option Key × Str
last_byte_of_key c rest =
    if c == b'A'
    then (some key_up, rest)
    else if c == b'B'
    then (some key_down, rest)
    else if c == b'C'
    then (some key_right, rest)
    else if c == b'D'
    then (some key_left, rest)
    else (none, rest)

unfoldable pub after_three : Str → Option Key × Str
after_three [] = (none, [])
after_three (c ∷ rest) = if c == 126 then (some key_del, rest) else (none, rest)

unfoldable pub after_bracket : Str → Option Key × Str
unfolding last_byte_of_key after_three
after_bracket [] = (none, [])
after_bracket (c ∷ rest) = if c == b'3' then after_three rest else last_byte_of_key c rest

unfoldable pub read_dir : Str → Option Key × Str
unfolding after_bracket
read_dir [] = (none, [])
read_dir (c ∷ rest) = if c == 91 then after_bracket rest else (none, rest)

abbrev pub with_history : History → Editor × List Out → History × Editor × List Out
with_history h (e, out) = (h, e, out)

-- The end of the keys UP and DOWN. A result of 0 empties the line, and -1 leaves it.
unfoldable pub show_history : History → Editor → Browsed → History × Editor × List Out
unfolding update_cons
show_history h e refused = with_history h (update_cons true e)
show_history h e stays = with_history h (update_cons true (record e { before = []; after = [] }))
show_history h e (moved entry n) =
    with_history n (update_cons true (record e { before = entry; after = [] }))

unfoldable pub move_right : Editor → Editor × List Out
unfolding update_cons
move_right e =
    if length e.before == e.input_len
    then (e, [])
    else let r = update_cons false (record e {
      before = e.before ++ (first_of e.after ∷ []);
      after = without_first e.after;
    }) in
      (r.0, right ∷ r.1)

unfoldable pub move_left : Editor → Editor × List Out
unfolding update_cons
move_left e =
    if length e.before == 0
    then (e, [])
    else let r =
        update_cons false
          (record e { before = without_last e.before; after = last_of e.before ∷ e.after }) in
      (r.0, left ∷ r.1)

unfoldable pub move_cursor : Junk → Key → History → Editor → History × Editor × List Out
unfolding show_history history_next move_right move_left
move_cursor j key_up h e = show_history h e (history_next j (load_buf e) true h)
move_cursor j key_down h e = show_history h e (history_next j [] false h)
move_cursor j key_right h e = with_history h (move_right e)
move_cursor j key_left h e = with_history h (move_left e)
move_cursor j key_del h e = (h, e, [])

-- The bytes of `buf`, `beforeCur` and `afterCur`.
abbrev pub buf_size : ℕ
buf_size = 1024

-- Both texts fit in their arrays with the NUL behind them.
abbrev pub fits_arrays : Editor → Bool
fits_arrays e = ltb (length e.before) buf_size && ltb (length e.after) buf_size

-- A visible byte is added, and the end of the loop's body shows it. The head of the loop and the sizes
-- of the arrays are in `round`.
unfoldable pub type_byte : ℕ → Editor → Editor × List Out
unfolding update_cons
type_byte c e = update_cons false (record e { before = e.before ++ (c ∷ []) })

-- The keys that change the line or move in it.
pub data Press : Type 0 where
  type_key : ℕ → Press
  backspace_key delete_key left_key right_key : Press

unfoldable pub press : Press → Editor → Editor × List Out
unfolding type_byte back_or_delete move_left move_right
press (type_key c) = type_byte c
press backspace_key = back_or_delete false
press delete_key = back_or_delete true
press left_key = move_left
press right_key = move_right

-- Where C has written behind the end of an array: none.
unfoldable pub in_arrays : Editor × List Out → Option (Editor × List Out)
in_arrays (e, out) = if fits_arrays e then some (e, out) else none

-- A round of the loop of `readline` with such a key: none when the line is too long.
unfoldable pub round : Press → Editor → Option (Editor × List Out)
unfolding press in_arrays
round k e = if leb buf_size e.input_len then none else in_arrays (press k e)

-- `getTbCom`: the directory and the beginning of the name in front of the cursor. The text is read
-- backwards, and `tmp` is what was read, turned around.
unfoldable pub tb_scan : Str → Str → Option Str → Str × Option Str
tb_scan [] tmp tobe = (tmp, tobe)
tb_scan (c ∷ s) tmp none =
    let name = tb_scan s (slash ∷ []) (some tmp) in
    let rest = tb_scan s (c ∷ tmp) none in
    if c == b' ' then (tmp, none) else if c == slash then name else rest
tb_scan (c ∷ s) tmp (some name) =
    let rest = tb_scan s (c ∷ tmp) (some name) in if c == b' ' then (tmp, some name) else rest

abbrev pub turned_around : Str → Str
turned_around [] = []
turned_around (c ∷ s) = turned_around s ++ (c ∷ [])

unfoldable pub get_tb_com : Str → Str × Str
unfolding tb_scan
get_tb_com before = split (tb_scan (turned_around before) [] none)
  where
    split : Str × Option Str → Str × Str
    split (tmp, none) = ([], tmp)
    split (tmp, some name) = (tmp, name)

-- The loop of `tabFlushDir` over the names of the directory's files; `past` is as for `strContain`.
unfoldable pub completions_of : Option Str → Str → List Str → List Str
unfolding str_contain
completions_of past tobe [] = []
completions_of past tobe (name ∷ names) =
    let rest = completions_of past tobe names in
    if length name == 0
    then rest
    else elim (str_contain past name tobe) [ none ↦ rest | some s ↦ s ∷ rest ]

-- The loop of `tabComplete` that takes the rest of a word off the text behind the cursor.
unfoldable pub drop_word : Str → Str
drop_word [] = []
drop_word (c ∷ s) = let rest = drop_word s in if c == b' ' then c ∷ s else rest

abbrev pub first_bytes : ℕ → Str → Str
first_bytes zero s = []
first_bytes (suc n) [] = []
first_bytes (suc n) (c ∷ s) = c ∷ first_bytes n s

abbrev pub string_at : ℕ → List Str → Str
string_at n [] = []
string_at zero (s ∷ names) = s
string_at (suc n) (s ∷ names) = string_at n names

-- With the completions, `tabPoint` and `beforeTab`; the new `tabPoint` is returned too.
unfoldable pub tab_complete : List Str → ℕ → ℕ → Editor → ℕ × Editor × List Out
unfolding drop_word update_cons
tab_complete [] tab_point before_tab e = (tab_point, e, [])
tab_complete (s ∷ names) tab_point before_tab e =
    let point : ℕ = if leb (length (s ∷ names)) tab_point then 0 else tab_point in
    let cut =
      update_cons false
        (record e { before = first_bytes before_tab e.before; after = drop_word e.after }) in
    let full =
      update_cons false (record (cut.0) { before = cut.0.before ++ string_at point (s ∷ names) }) in
    (point + 1, full.0, cut.1 ++ full.1)
