-- ===== src/User/History/Tests.antt =====
-- An example for user/lib/history.c: two commands over an old history file.
use mos_volca_shell.Base.{◌≡◌, refl, arith, some, [], ◌∷◌}
use mos_volca_shell.Text.{Str}
use mos_volca_shell.User.History.{History, Junk, history_init, history_get_all}
use mos_volca_shell.User.History.All.{write_all, total_size, history_get_all-written}

abbrev ls_command : Str
ls_command = b'l' ∷ b's' ∷ []

abbrev cd_command : Str
cd_command = b'c' ∷ b'd' ∷ b' ' ∷ b'a' ∷ []

abbrev old_history : History
old_history = record { now_off = 3; max_off = 9; fake_max_off = 9; size = 50; bytes = λ k. k }

abbrev junk : Junk
junk = record { len = 77; buf = λ k. 1 }

history_get_all-written_example :
    (n : History) × (write_all (ls_command ∷ cd_command ∷ []) (history_init old_history) ≡ some n)
    × (history_get_all junk n
        ≡ some (
          ls_command ∷ cd_command ∷ [],
          record n { now_off = total_size (ls_command ∷ cd_command ∷ []) },
        ))
history_get_all-written_example =
    history_get_all-written junk ls_command (cd_command ∷ []) old_history
      (refl, omega arith, (refl, omega arith, tt)) (omega arith) (omega arith)
