-- ===== src/User/Shell/Line.antt =====
-- `readline` of user/sh.c, over the bytes that are typed.
use mos_volca_shell.Base.{
  ℕ, zero, suc, ◌+◌, Bool, true, false, ◌||◌, Option, none, some, List, [], ◌∷◌, ◌++◌, ◌==◌, leb,
  if◌then◌else◌, length,
}
use mos_volca_shell.Text.{Str, is_visible}
use mos_volca_shell.User.History.{History, Junk, history_write}
use mos_volca_shell.User.Shell.Editor.{
  Editor, Out, put, load_buf, update_cons, back_or_delete, Key, key_del, read_dir, move_cursor,
  get_tb_com, completions_of, tab_complete,
}

-- The editor with its history and its completions: `tabFlush`, `completions`, `tabPoint` and
-- `beforeTab`.
pub record Session : Type 0 where
  pub history : History
  pub editor : Editor
  pub tab_flush : Bool
  pub completions : List Str
  pub tab_point : ℕ
  pub before_tab : ℕ

abbrev pub Done : Type 0
Done = Session × List Out

abbrev pub with_editor : Session → Editor × List Out → Done
with_editor s (e, out) = (record s { editor = e }, out)

-- `tabFlushDir`. `names` gives the names of the files in a directory, where it can be opened; an empty
-- path stands for the working directory. `past` is as for `strContain`.
unfoldable pub tab_flush_dir : (Str → Option (List Str)) → Option Str → Session → Session
unfolding get_tb_com completions_of
tab_flush_dir names past s =
    let parts = get_tb_com s.editor.before in
    if length (parts.1) == 0 then s else elim (names (parts.0)) [
      | none ↦ s
      | some files ↦ record s { completions = completions_of past (parts.1) files }
    ]

unfoldable pub refresh_tab : (Str → Option (List Str)) → Option Str → Session → Session
unfolding tab_flush_dir
refresh_tab names past s =
    if s.tab_flush
    then record (tab_flush_dir names past (record s { completions = [] })) {
      tab_flush = false;
      before_tab = length s.editor.before;
    }
    else s

unfoldable pub complete : Session → Done
unfolding tab_complete
complete s =
    let r = tab_complete s.completions s.tab_point s.before_tab s.editor in
    (record s { tab_point = r.0; editor = r.1 }, r.2)

unfoldable pub deal_tab : (Str → Option (List Str)) → Option Str → Session → Done
unfolding refresh_tab complete
deal_tab names past s = complete (refresh_tab names past s)

-- DEL deletes, and the other keys move.
unfoldable pub on_key : Junk → Key → Session → Done
unfolding back_or_delete move_cursor
on_key j key_del s = with_editor s (back_or_delete true s.editor)
on_key j key s =
    let r = move_cursor j key s.history s.editor in (record s { history = r.0; editor = r.1 }, r.2)

-- A byte that is neither ESC nor the end of the line. The last test of the code is always true, so
-- every other byte is shown as a control character.
unfoldable pub on_byte : (Str → Option (List Str)) → Option Str → ℕ → Session → Done
unfolding deal_tab back_or_delete
on_byte names past c s =
    if (c == 8) || (c == 0x7f)
    then with_editor s (back_or_delete false s.editor)
    else if c == b'\t'
    then deal_tab names past s
    else if is_visible c
    then (record s { editor = record (s.editor) { before = s.editor.before ++ (c ∷ []) } }, [])
    else (s, put b'^' ∷ put (c + 0x40) ∷ [])

-- `updateCons(0)` at the end of the loop's body.
unfoldable pub end_round : Done → Done
unfolding update_cons
end_round (s, out) = let r = update_cons false s.editor in (record s { editor = r.0 }, out ++ r.1)

-- The line, or the end of the loop without one, with what was printed and the input that is left.
pub data Line : Type 0 where
  entered : Str → Session → List Out → Str → Line
  broken : Session → List Out → Str → Line

abbrev pub print_first : List Out → Line → Line
print_first out (entered line s more rest) = entered line s (out ++ more) rest
print_first out (broken s more rest) = broken s (out ++ more) rest

-- A history that cannot be written stays as it is.
abbrev pub written : History → Option History → History
written h none = h
written h (some n) = n

unfoldable pub enter : Bool → Session → Str → Line
unfolding history_write
enter opens s rest =
    let e : Editor = record (s.editor) { cursor = 0; input_len = 0 } in
    entered (load_buf e)
      (record s {
        editor = e;
        history = written s.history (history_write opens (load_buf e) s.history);
      })
      (put b'\n' ∷ []) rest

abbrev pub flush_next : ℕ → Session → Session
flush_next c s = if c == b'\t' then s else record s { tab_flush = true }

-- What follows a round of the loop; `go_on` is the rest of it.
abbrev pub next_round : Done → (Session → Line) → Line
next_round (s, out) go_on = print_first out (go_on s)

-- After ESC.
unfoldable pub after_escape : Junk → Session → Option Key × Str → (Session → Str → Line) → Line
unfolding on_key end_round
after_escape j s (none, rest) go_on = broken s [] rest
after_escape j s (some key, rest) go_on =
    next_round (end_round (on_key j key s)) (λ n. go_on n rest)

-- The loop, for a buffer of `max` bytes, with at most `n` rounds. `opens` is whether the history can be
-- opened.
unfoldable pub read_loop :
    ℕ → ℕ → Junk → Bool → (Str → Option (List Str)) → Option Str → Session → Str → Line
unfolding read_dir after_escape enter on_byte end_round
read_loop zero max j opens names past s input = broken s [] input
read_loop (suc n) max j opens names past s [] = broken s [] []
read_loop (suc n) max j opens names past s (c ∷ input) =
    let t : Session = flush_next c s in
    let go_on : Session → Str → Line = λ u rest. read_loop n max j opens names past u rest in
    if leb max s.editor.input_len
    then broken s [] (c ∷ input)
    else if c == 27
    then after_escape j t (read_dir input) go_on
    else if (c == b'\r') || (c == b'\n')
    then enter opens t input
    else next_round (end_round (on_byte names past c t)) (λ u. go_on u input)

-- The rest of a line that was broken off is passed over.
unfoldable pub to_line_end : Str → Str
to_line_end [] = []
to_line_end (c ∷ input) =
    let rest = to_line_end input in if (c == b'\r') || (c == b'\n') then input else rest

unfoldable pub after_loop : Line → Line
unfolding to_line_end
after_loop (entered line s out rest) = entered line s out rest
after_loop (broken s out rest) = entered [] s out (to_line_end rest)

-- The messages of `readline` are not in its output here.
unfoldable pub readline :
    ℕ → Junk → Bool → (Str → Option (List Str)) → Option Str → Session → Str → Line
unfolding read_loop after_loop
readline max j opens names past s input =
    let empty : Editor = record (s.editor) { input_len = 0; before = []; after = [] } in
    after_loop
      (read_loop (length input + 1) max j opens names past (record s { editor = empty }) input)
