-- ===== src/User/Shell/Tokens.antt =====
-- The tokens of user/sh.c: words with blanks between them are read back as they are.
use mos_volca_shell.Base.{
  ℕ, zero, suc, ◌+◌, ◌<◌, ◌≤◌, Bool, true, false, not, ◌&&◌, ◌||◌, Option, List, [], ◌∷◌, ◌++◌,
  ◌==◌, leb, mem, length, length-append, ◌≡◌, ◌∙◌, refl, sym, ap, arith, append_assoc, append-nil,
}
use mos_volca_shell.Text.{Str}
use mos_volca_shell.User.Shell.{
  whitespace, symbols, skip_whitespace, word, plain_word, token_at, get_token, Argument, of_line,
  Command, run, max_args, add_word, on_token, parse_cmd,
}

-- A byte that neither ends a word nor starts a quoted one.
abbrev pub is_word_byte : ℕ → Bool
is_word_byte c = not (mem c whitespace || mem c symbols) && not (c == b'"')

abbrev pub are_word_bytes : Str → Bool
are_word_bytes [] = true
are_word_bytes (c ∷ s) = is_word_byte c && are_word_bytes s

abbrev pub is_word : Str → Bool
is_word [] = false
is_word (c ∷ s) = are_word_bytes (c ∷ s)

abbrev pub all_words : List Str → Bool
all_words [] = true
all_words (w ∷ words) = is_word w && all_words words

-- The line with a blank behind each word.
abbrev pub line_of : List Str → Str
line_of [] = []
line_of (w ∷ words) = w ++ (b' ' ∷ line_of words)

abbrev pub arguments : List Str → List Argument
arguments [] = []
arguments (w ∷ words) = of_line w ∷ arguments words

plain_word-word :
    (w s : Str) → are_word_bytes w ≡ true → plain_word (w ++ (b' ' ∷ s)) ≡ (w, b' ' ∷ s)
unfolding plain_word
plain_word-word [] s a = refl
plain_word-word (c ∷ w) s a =
    let inner : (mem c whitespace || mem c symbols) ≡ false = ground arith in
    let rest : plain_word (w ++ (b' ' ∷ s)) ≡ (w, b' ' ∷ s) = plain_word-word w s (ground arith) in
    rw (inner, rest) refl

get_token-word :
    (past w s : Str) → is_word w ≡ true → get_token past (w ++ (b' ' ∷ s)) ≡ (word w, b' ' ∷ s)
unfolding get_token skip_whitespace token_at
get_token-word past [] s a = ground arith
get_token-word past (c ∷ w) s a =
    let no_white : mem c whitespace ≡ false = ground arith in
    let no_quote : (c == b'"') ≡ false = ground arith in
    let no_symbol : mem c symbols ≡ false = ground arith in
    let rest : plain_word (w ++ (b' ' ∷ s)) ≡ (w, b' ' ∷ s) = plain_word-word w s (ground arith) in
    rw no_white (rw (no_quote, no_symbol, no_white, rest) refl)

parse_cmd-blank :
    (n : ℕ) (get_var : Str → Option Str) (past s : Str) (cmd : Command)
    → parse_cmd n get_var past (b' ' ∷ s) cmd ≡ parse_cmd n get_var past s cmd
unfolding parse_cmd get_token skip_whitespace
parse_cmd-blank zero get_var past s cmd = refl
parse_cmd-blank (suc n) get_var past s cmd = refl

-- One word is added to the arguments.
parse_cmd-word :
    (n : ℕ) (get_var : Str → Option Str) (past w s : Str) (cmd : Command)
    → is_word w ≡ true
    → length cmd.argv < max_args
    → parse_cmd (suc n) get_var past (w ++ (b' ' ∷ s)) cmd
      ≡ parse_cmd n get_var past s (record cmd { argv = cmd.argv ++ (of_line w ∷ []) })
unfolding parse_cmd on_token add_word
parse_cmd-word n get_var past w s cmd a lt =
    ap (λ r. on_token get_var past r cmd (λ rest next. parse_cmd n get_var past rest next))
      (get_token-word past w s a)
    ∙ rw (ltb_room lt)
        (parse_cmd-blank n get_var past s (record cmd { argv = cmd.argv ++ (of_line w ∷ []) }))
  where
    ltb_room : length cmd.argv < max_args → leb max_args (length cmd.argv) ≡ false
    ltb_room le = ground (arith, le)

at_end :
    (n : ℕ) (get_var : Str → Option Str) (past : Str) (cmd : Command)
    → parse_cmd (suc n) get_var past [] cmd ≡ run cmd
unfolding parse_cmd on_token get_token skip_whitespace token_at
at_end n get_var past cmd = refl

-- A line of words without white space, symbols and quotes, with a blank behind each, at most as
-- many as there is room for in `argv`, is parsed to the program that has them as its further
-- arguments.
pub parse_cmd-words :
    (words : List Str) (n : ℕ) (get_var : Str → Option Str) (past : Str) (cmd : Command)
    → all_words words ≡ true
    → length words < n
    → length cmd.argv + length words ≤ max_args
    → parse_cmd n get_var past (line_of words) cmd
      ≡ run (record cmd { argv = cmd.argv ++ arguments words })
unfolding parse_cmd
parse_cmd-words words zero get_var past cmd a lt room = absurd (omega (arith, lt))
parse_cmd-words [] (suc n) get_var past cmd a lt room =
    at_end n get_var past cmd
    ∙ ap (λ args. run (record cmd { argv = args })) (sym (append-nil cmd.argv))
parse_cmd-words (w ∷ words) (suc n) get_var past cmd a lt room =
    let longer : length (cmd.argv ++ (of_line w ∷ [])) ≡ length cmd.argv + 1 =
      length-append cmd.argv (of_line w ∷ []) in
    parse_cmd-word n get_var past w (line_of words) cmd (ground arith) (omega (arith, room))
    ∙ parse_cmd-words words n get_var past (record cmd { argv = cmd.argv ++ (of_line w ∷ []) })
        (ground arith) (omega (arith, lt)) (omega (arith, room, longer))
    ∙ ap (λ args. run (record cmd { argv = args }))
        (append_assoc cmd.argv (of_line w ∷ []) (arguments words))
