-- ===== src/User/Shell/Tests.antt =====
-- Examples for the shell, user/sh.c.
use mos_volca_shell.Base.{◌≡◌, refl, arith, none, List, [], ◌∷◌}
use mos_volca_shell.Text.{Str}
use mos_volca_shell.User.Shell.{Command, run, parse_cmd}
use mos_volca_shell.User.Shell.Tokens.{line_of, arguments, parse_cmd-words}
use mos_volca_shell.User.Shell.Editor.{Press, type_key, backspace_key, left_key}
use mos_volca_shell.User.Shell.Editor.Keys.{
  KeptInStep, presses, presses-InStep, empty_line, blank_line, empty_line-InStep,
}

abbrev echo_words : List Str
echo_words = (b'e' ∷ b'c' ∷ b'h' ∷ b'o' ∷ []) ∷ (b'h' ∷ b'i' ∷ []) ∷ []

abbrev fresh : Command
fresh = record { argv = []; var_buf = []; redirects = [] }

parse_cmd-words_example :
    parse_cmd 3 (λ s. none) [] (line_of echo_words) fresh
    ≡ run (record fresh { argv = arguments echo_words })
parse_cmd-words_example =
    parse_cmd-words echo_words 3 (λ s. none) [] fresh refl (omega arith) (omega arith)

abbrev some_keys : List Press
some_keys = type_key b'l' ∷ type_key b'x' ∷ left_key ∷ type_key b's' ∷ backspace_key ∷ []

presses-InStep_example : KeptInStep blank_line (presses some_keys empty_line)
presses-InStep_example =
    presses-InStep some_keys empty_line blank_line refl (omega arith) empty_line-InStep
