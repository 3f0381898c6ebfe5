-- ===== src/User/Shell.antt =====
-- The shell, user/sh.c: its tokens. The line editor is a module of its own.
pub mod Editor
pub mod Tokens
pub mod Line
mod Tests
use mos_volca_shell.Base.{
  ℕ, zero, suc, ◌+◌, Bool, true, false, not, ◌&&◌, ◌||◌, Option, none, some, List, [], ◌∷◌, ◌==◌,
  if◌then◌else◌, mem, leb, length, ◌++◌,
}
use mos_volca_shell.Text.{Str}

-- WHITESPACE and SYMBOLS; `strchr` finds the NUL in neither.
abbrev pub whitespace : List ℕ
whitespace = b' ' ∷ b'\t' ∷ b'\r' ∷ b'\n' ∷ []

abbrev pub symbols : List ℕ
symbols = b'<' ∷ b'|' ∷ b'>' ∷ b'&' ∷ b';' ∷ b'(' ∷ b')' ∷ b'$' ∷ []

unfoldable pub skip_whitespace : Str → Str
skip_whitespace [] = []
skip_whitespace (c ∷ s) = let rest = skip_whitespace s in if mem c whitespace then rest else c ∷ s

-- What `_gettoken` returns, with the text of the token: the end of the string, a word, or a symbol.
pub data Token : Type 0 where
  end_of_line : Token
  word : Str → Token
  symbol : ℕ → Token

-- The text up to the closing quote, and the rest behind it.
unfoldable pub quoted : Str → Str × Option Str
quoted [] = ([], none)
quoted (c ∷ s) = let rest = quoted s in if c == b'"' then ([], some s) else (c ∷ rest.0, rest.1)

-- The text up to white space or a symbol. The byte behind a word is overwritten when the next token
-- is read, which keeps it in mind before.
unfoldable pub plain_word : Str → Str × Str
plain_word [] = ([], [])
plain_word (c ∷ s) =
    let rest = plain_word s in
    if mem c whitespace || mem c symbols then ([], c ∷ s) else (c ∷ rest.0, rest.1)

-- The rest behind a word without its closing quote is what stands in memory behind the line: `past`.
unfoldable pub quoted_token : Str → Str × Option Str → Token × Str
quoted_token past (text, none) = (word text, past)
quoted_token past (text, some rest) = (word text, rest)

unfoldable pub token_at : Str → Str → Token × Str
unfolding quoted quoted_token plain_word
token_at past [] = (end_of_line, [])
token_at past (c ∷ s) =
    if c == b'"'
    then quoted_token past (quoted s)
    else if mem c symbols
    then (symbol c, s)
    else (word ((plain_word (c ∷ s)).0), (plain_word (c ∷ s)).1)

unfoldable pub get_token : Str → Str → Token × Str
unfolding skip_whitespace token_at
get_token past s = token_at past (skip_whitespace s)

-- What an element of `argv` points to: a token of the line, or the buffer `varBuf`, which all
-- variables of a command share.
pub data Argument : Type 0 where
  of_line : Str → Argument
  of_var : Argument

-- The changes of the descriptors 0 and 1, in order.
pub data Redirect : Type 0 where
  input_from output_to : Str → Redirect
  input_pipe output_pipe : Redirect

-- The program that a process runs at the end of `parsecmd`: the arguments, what `varBuf` holds, and
-- the redirections.
pub record Command : Type 0 where
  pub argv : List Argument
  pub var_buf : Str
  pub redirects : List Redirect

-- What a line means: a program; two processes with a pipe between them; a child that the parent
-- waits for, or does not wait for, before the rest of the line; or an error, after which the process
-- exits. `unread` is a line that was not read to its end.
pub data Plan : Type 0 where
  run : Command → Plan
  piped sequence background : Command → Plan → Plan
  syntax_error no_variable too_many_args unread : Plan

-- MAXARGS
abbrev pub max_args : ℕ
max_args = 128

abbrev pub no_args : Command → Command
no_args c = record c { argv = [] }

-- An argument of `argv`; only words are counted.
unfoldable pub add_word : Str → Command → (Command → Plan) → Plan
add_word t c go_on =
    if leb max_args (length c.argv)
    then too_many_args
    else go_on (record c { argv = c.argv ++ (of_line t ∷ []) })

-- The word behind a `$`, `<` or `>`.
unfoldable pub after_symbol :
    (Str → Option Str) → ℕ → Token × Str → Command → (Str → Command → Plan) → Plan
after_symbol get_var c (end_of_line, s) cmd go_on = syntax_error
after_symbol get_var c (symbol d, s) cmd go_on = syntax_error
after_symbol get_var c (word t, s) cmd go_on =
    if c == b'$'
    then elim (get_var t) [
      | none ↦ no_variable
      | some v ↦ go_on s (record cmd { argv = cmd.argv ++ (of_var ∷ []); var_buf = v })
    ]
    else if c == b'<'
    then go_on s (record cmd { redirects = cmd.redirects ++ (input_from t ∷ []) })
    else go_on s (record cmd { redirects = cmd.redirects ++ (output_to t ∷ []) })

abbrev pub add_redirect : Redirect → Command → Command
add_redirect r c = record c { redirects = c.redirects ++ (r ∷ []) }

-- The case of a symbol; `s` is the rest of the line. The parentheses are passed over.
unfoldable pub on_symbol :
    (Str → Option Str) → Str → ℕ → Str → Command → (Str → Command → Plan) → Plan
unfolding after_symbol get_token
on_symbol get_var past c s cmd go_on =
    if (c == b'$') || ((c == b'<') || (c == b'>'))
    then after_symbol get_var c (get_token past s) cmd go_on
    else if c == b'|'
    then piped (add_redirect output_pipe cmd) (go_on s (no_args (add_redirect input_pipe cmd)))
    else if c == b';'
    then sequence cmd (go_on s (no_args cmd))
    else if c == b'&'
    then background cmd (go_on s (no_args cmd))
    else go_on s cmd

unfoldable pub on_token :
    (Str → Option Str) → Str → Token × Str → Command → (Str → Command → Plan) → Plan
unfolding on_symbol add_word
on_token get_var past (end_of_line, s) cmd go_on = run cmd
on_token get_var past (word t, s) cmd go_on = add_word t cmd (go_on s)
on_token get_var past (symbol c, s) cmd go_on = on_symbol get_var past c s cmd go_on

-- `parsecmd` on a line, with at most `n` rounds. `get_var` is the system call for variables, and
-- every `fork` succeeds.
unfoldable pub parse_cmd : ℕ → (Str → Option Str) → Str → Str → Command → Plan
unfolding on_token get_token
parse_cmd zero get_var past s cmd = unread
parse_cmd (suc n) get_var past s cmd =
    on_token get_var past (get_token past s) cmd (λ rest next. parse_cmd n get_var past rest next)
