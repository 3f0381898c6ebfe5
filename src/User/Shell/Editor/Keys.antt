-- ===== src/User/Shell/Editor/Keys.antt =====
-- The keys of the line editor of user/sh.c keep the screen and the line in step.
use mos_volca_shell.Base.{
  ℕ, zero, suc, ◌+◌, ◌-◌, ◌<◌, ◌≤◌, leb, Option, none, some, Bool, true, false, ◌&&◌, List, [], ◌∷◌,
  ◌++◌, ◌==◌, length, length-append, ◌≡◌, ◌∙◌, refl, sym, ap, subst, arith, Bool-cases, inl, inr,
  ==_iff, ==-ne, append_assoc,
}
use mos_volca_shell.Text.{Str, is_visible}
use mos_volca_shell.User.History.{byte_of}
use mos_volca_shell.User.Shell.Editor.{
  Editor, Out, right, left, line_len, redraw, update_cons, back_or_delete, move_right, move_left,
  type_byte, Press, type_key, backspace_key, delete_key, left_key, right_key, press, in_arrays,
  round, buf_size, fits_arrays, without_last, without_first, last_of, first_of,
}
use mos_volca_shell.User.Shell.Editor.Screen.{
  Screen, IsPlain, Shows, Stale, first_part, rest_part, settled, show, show_out, redraw-Shows,
  byte_of-first, show-append,
}

-- The line has no backspace in it, and the screen shows it.
pub record InStep (e : Editor) (s : Screen) : Type 0 where
  pub plain_before : IsPlain (e.before)
  pub plain_after : IsPlain (e.after)
  pub shows : Shows e s

-- What a key leaves: the editor, and the screen after its output.
abbrev pub StepOf : Screen → Editor × List Out → Type 0
StepOf s (e, out) = InStep e (show out s)

redraw_changed :
    (e : Editor)
    → (e.input_len == line_len e) ≡ false
    → redraw e ≡ (settled e, first_part e ++ rest_part e)
unfolding redraw
redraw_changed e ne = rw ne refl

-- A change of the text that makes the line longer or shorter.
changed-StepOf :
    (e : Editor) (s : Screen)
    → IsPlain (e.before)
    → IsPlain (e.after)
    → Stale e s
    → (e.input_len == line_len e) ≡ false
    → StepOf s (update_cons false e)
unfolding update_cons
changed-StepOf e s p q st ne =
    subst (StepOf s) (sym (redraw_changed e ne))
      (record { plain_before = p; plain_after = q; shows = redraw-Shows e s p q st })

-- The text in front of both cursors stays.
changed-Stale :
    (e : Editor) (before after : Str) (s : Screen)
    → Shows e s
    → ((k : ℕ) → k < length e.before → k < length before → byte_of e.before k ≡ byte_of before k)
    → Stale (record e { before = before; after = after }) s
changed-Stale e before after s sh same = record {
  pos = sh.pos ∙ sym sh.at;
  kept = λ k lt lt'.
      let inside : k < length e.before = omega (arith, lt, sh.at) in
      sh.text k (omega (arith, inside))
      ∙ byte_of-first e.before e.after k inside
      ∙ same k inside lt';
  blank = λ k le. sh.blank k (omega (arith, le, sh.len));
  cursor_inside = omega (arith, sh.len, sh.at);
}

append-IsPlain : (s t : Str) → IsPlain s → IsPlain t → IsPlain (s ++ t)
append-IsPlain [] t p q = q
append-IsPlain (c ∷ s) t p q = (p.0, append-IsPlain s t (p.1) q)

visible_ne : (c : ℕ) → is_visible c ≡ true → (c == 8) ≡ false
visible_ne c v = ground (arith, v)

type_byte-StepOf :
    (c : ℕ) (e : Editor) (s : Screen) → is_visible c ≡ true → InStep e s → StepOf s (type_byte c e)
unfolding type_byte
type_byte-StepOf c e s v h =
    let longer : length (e.before ++ (c ∷ [])) ≡ length e.before + 1 =
      length-append e.before (c ∷ []) in
    changed-StepOf (record e { before = e.before ++ (c ∷ []) }) s
      (append-IsPlain e.before (c ∷ []) h.plain_before (visible_ne c v, tt)) h.plain_after
      (changed-Stale e (e.before ++ (c ∷ [])) e.after s h.shows
        (λ k lt lt'. sym (byte_of-first e.before (c ∷ []) k lt)))
      (==-ne e.input_len (length (e.before ++ (c ∷ [])) + length e.after)
        (omega (arith, longer, h.shows.len)))

length-without_last : (s : Str) → length (without_last s) ≡ length s - 1
length-without_last [] = omega arith
length-without_last (c ∷ []) = omega arith
length-without_last (c ∷ d ∷ s) = omega (arith, length-without_last (d ∷ s))

without_last-last_of :
    (s t : Str) → (length s == 0) ≡ false → without_last s ++ (last_of s ∷ t) ≡ s ++ t
without_last-last_of [] t ne = ground arith
without_last-last_of (c ∷ []) t ne = refl
without_last-last_of (c ∷ d ∷ s) t ne =
    ap (λ r. c ∷ r) (without_last-last_of (d ∷ s) t (==-ne (length (d ∷ s)) 0 (omega arith)))

byte_of-without_last :
    (s : Str) (k : ℕ) → k < length (without_last s) → byte_of s k ≡ byte_of (without_last s) k
byte_of-without_last [] k lt = refl
byte_of-without_last (c ∷ []) k lt = absurd (omega (arith, lt))
byte_of-without_last (c ∷ d ∷ s) zero lt = refl
byte_of-without_last (c ∷ d ∷ s) (suc k) lt = byte_of-without_last (d ∷ s) k (omega (arith, lt))

without_last-IsPlain : (s : Str) → IsPlain s → IsPlain (without_last s)
without_last-IsPlain [] p = tt
without_last-IsPlain (c ∷ []) p = tt
without_last-IsPlain (c ∷ d ∷ s) p = (p.0, without_last-IsPlain (d ∷ s) (p.1))

last_of-IsPlain : (s : Str) → IsPlain s → (length s == 0) ≡ false → (last_of s == 8) ≡ false
last_of-IsPlain [] p ne = ground arith
last_of-IsPlain (c ∷ []) p ne = p.0
last_of-IsPlain (c ∷ d ∷ s) p ne =
    last_of-IsPlain (d ∷ s) (p.1) (==-ne (length (d ∷ s)) 0 (omega arith))

backspace-StepOf : (e : Editor) (s : Screen) → InStep e s → StepOf s (back_or_delete false e)
unfolding back_or_delete
backspace-StepOf e s h = elim (Bool-cases (e.input_len == 0)) [
  | inl empty ↦ rw empty h
  | inr full ↦ elim (Bool-cases (length e.before == 0)) [
    | inl first ↦ rw (full, first) h
    | inr later ↦
        let shorter : length (without_last e.before) ≡ length e.before - 1 =
          length-without_last e.before in
        rw (full, later)
          (changed-StepOf (record e { before = without_last e.before }) s
            (without_last-IsPlain e.before h.plain_before) h.plain_after
            (changed-Stale e (without_last e.before) e.after s h.shows
              (λ k lt lt'. byte_of-without_last e.before k lt'))
            (==-ne e.input_len (length (without_last e.before) + length e.after)
              (ground (arith, shorter, h.shows.len, later))))
  ]
]

length-without_first : (t : Str) → length (without_first t) ≡ length t - 1
length-without_first [] = omega arith
length-without_first (c ∷ t) = omega arith

delete-StepOf : (e : Editor) (s : Screen) → InStep e s → StepOf s (back_or_delete true e)
unfolding back_or_delete
delete-StepOf e s h = elim (Bool-cases (e.input_len == 0)) [
  | inl empty ↦ rw empty h
  | inr full ↦ elim (Bool-cases (length e.after == 0)) [
    | inl last ↦ rw (full, last) h
    | inr earlier ↦
        let shorter : length (without_first e.after) ≡ length e.after - 1 =
          length-without_first e.after in
        rw (full, earlier)
          (changed-StepOf (record e { after = without_first e.after }) s h.plain_before
            (rest_plain e.after h.plain_after)
            (changed-Stale e e.before (without_first e.after) s h.shows (λ k lt lt'. refl))
            (==-ne e.input_len (length e.before + length (without_first e.after))
              (ground (arith, shorter, h.shows.len, earlier))))
  ]
]
  where
    rest_plain : (t : Str) → IsPlain t → IsPlain (without_first t)
    rest_plain [] p = tt
    rest_plain (c ∷ t) p = p.1

redraw_same :
    (e : Editor)
    → (e.input_len == line_len e) ≡ true
    → redraw e ≡ (record e { cursor = length e.before }, [])
unfolding redraw
redraw_same e same = rw same refl

-- A key that moves the cursor by one place: `o` is the sequence that it prints.
moved-StepOf :
    (e : Editor) (s : Screen) (o : Out) (before after : Str)
    → IsPlain before
    → IsPlain after
    → Shows e s
    → before ++ after ≡ e.before ++ e.after
    → length before + length after ≡ line_len e
    → (show_out o s).pos ≡ length before
    → ((k : ℕ) → (show_out o s).cells k ≡ s.cells k)
    → StepOf s (
      (update_cons false (record e { before = before; after = after })).0,
      o ∷ (update_cons false (record e { before = before; after = after })).1,
    )
unfolding update_cons
moved-StepOf e s o before after p q sh line total pos cells =
    let n : Editor = record e { before = before; after = after } in
    let same : (e.input_len == line_len n) ≡ true =
      (==_iff e.input_len (line_len n)).1 (sh.len ∙ sym total) in
    subst (λ (r : Editor × List Out). StepOf s (r.0, o ∷ r.1)) (sym (redraw_same n same))
      (record {
        plain_before = p;
        plain_after = q;
        shows = record {
          len = sh.len ∙ sym total;
          at = refl;
          pos = pos;
          text = λ k lt.
              cells k ∙ sh.text k (omega (arith, lt, total)) ∙ ap (λ t. byte_of t k) (sym line);
          blank = λ k le. cells k ∙ sh.blank k (omega (arith, le, total));
        };
      })

move_left-StepOf : (e : Editor) (s : Screen) → InStep e s → StepOf s (move_left e)
unfolding move_left
move_left-StepOf e s h = elim (Bool-cases (length e.before == 0)) [
  | inl first ↦ rw first h
  | inr later ↦
      let shorter : length (without_last e.before) ≡ length e.before - 1 =
        length-without_last e.before in
      rw later (
        moved-StepOf e s left (without_last e.before) (last_of e.before ∷ e.after)
          (without_last-IsPlain e.before h.plain_before)
          (last_of-IsPlain e.before h.plain_before later, h.plain_after) h.shows
          (without_last-last_of e.before e.after later) (ground (arith, shorter, later))
          (ground (arith, shorter, h.shows.pos)) (λ k. refl))
]

first_of-without_first : (t : Str) → (length t == 0) ≡ false → first_of t ∷ without_first t ≡ t
first_of-without_first [] ne = ground arith
first_of-without_first (c ∷ t) ne = refl

move_right-StepOf : (e : Editor) (s : Screen) → InStep e s → StepOf s (move_right e)
unfolding move_right
move_right-StepOf e s h = elim (Bool-cases (length e.before == e.input_len)) [
  | inl last ↦ rw last h
  | inr earlier ↦
      let some_left : (length e.after == 0) ≡ false = ground (arith, h.shows.len, earlier) in
      let whole : first_of e.after ∷ without_first e.after ≡ e.after =
        first_of-without_first e.after some_left in
      let plain : IsPlain (first_of e.after ∷ without_first e.after) =
        subst IsPlain (sym whole) h.plain_after in
      let one_less : suc (length (without_first e.after)) ≡ length e.after = ap length whole in
      let longer : length (e.before ++ (first_of e.after ∷ [])) ≡ length e.before + 1 =
        length-append e.before (first_of e.after ∷ []) in
      rw earlier (
        moved-StepOf e s right (e.before ++ (first_of e.after ∷ [])) (without_first e.after)
          (append-IsPlain e.before (first_of e.after ∷ []) h.plain_before (plain.0, tt)) (plain.1)
          h.shows
          (append_assoc e.before (first_of e.after ∷ []) (without_first e.after)
            ∙ ap (λ t. e.before ++ t) whole)
          (omega (arith, longer, one_less)) (omega (arith, longer, h.shows.pos)) (λ k. refl))
]

-- A key typed is a visible byte.
abbrev pub is_typed : Press → Bool
is_typed (type_key c) = is_visible c
is_typed _ = true

abbrev pub all_typed : List Press → Bool
all_typed [] = true
all_typed (k ∷ keys) = is_typed k && all_typed keys

-- Rounds with the keys one after the other, and all that they print.
abbrev pub print_first : List Out → Option (Editor × List Out) → Option (Editor × List Out)
print_first out none = none
print_first out (some (e, more)) = some (e, out ++ more)

abbrev pub then_press :
    Option (Editor × List Out) → (Editor → Option (Editor × List Out)) → Option (Editor × List Out)
then_press none go_on = none
then_press (some (e, out)) go_on = print_first out (go_on e)

unfoldable pub presses : List Press → Editor → Option (Editor × List Out)
unfolding round
presses [] e = some (e, [])
presses (k ∷ keys) e = then_press (round k e) (presses keys)

press-StepOf :
    (k : Press) (e : Editor) (s : Screen) → is_typed k ≡ true → InStep e s → StepOf s (press k e)
unfolding press
press-StepOf (type_key c) e s v h = type_byte-StepOf c e s v h
press-StepOf backspace_key e s v h = backspace-StepOf e s h
press-StepOf delete_key e s v h = delete-StepOf e s h
press-StepOf left_key e s v h = move_left-StepOf e s h
press-StepOf right_key e s v h = move_right-StepOf e s h

-- `updateCons` leaves the text.
update_cons-text :
    (e : Editor)
    → ((update_cons false e).0.before ≡ e.before) × ((update_cons false e).0.after ≡ e.after)
unfolding update_cons redraw
update_cons-text e = elim (Bool-cases (e.input_len == line_len e)) [
  | inl same ↦ rw same (refl, refl)
  | inr other ↦ rw other (refl, refl)
]

line_len-update_cons : (e : Editor) → line_len (update_cons false e).0 ≡ line_len e
line_len-update_cons e =
    omega (arith, ap length ((update_cons-text e).0), ap length ((update_cons-text e).1))

-- A change to a text that is longer by one byte at most.
updated_le :
    (n : Editor) (len : ℕ) → line_len n ≤ len + 1 → line_len (update_cons false n).0 ≤ len + 1
updated_le n len le = omega (arith, line_len-update_cons n, le)

backspaced_le : (e : Editor) → line_len (back_or_delete false e).0 ≤ line_len e + 1
unfolding back_or_delete
backspaced_le e = elim (Bool-cases (e.input_len == 0)) [
  | inl empty ↦ rw empty (omega arith)
  | inr full ↦ elim (Bool-cases (length e.before == 0)) [
    | inl first ↦ rw (full, first) (omega arith)
    | inr later ↦
        rw (full, later)
          (updated_le (record e { before = without_last e.before }) (line_len e)
            (omega (arith, length-without_last e.before)))
  ]
]

deleted_le : (e : Editor) → line_len (back_or_delete true e).0 ≤ line_len e + 1
unfolding back_or_delete
deleted_le e = elim (Bool-cases (e.input_len == 0)) [
  | inl empty ↦ rw empty (omega arith)
  | inr full ↦ elim (Bool-cases (length e.after == 0)) [
    | inl last ↦ rw (full, last) (omega arith)
    | inr earlier ↦
        rw (full, earlier)
          (updated_le (record e { after = without_first e.after }) (line_len e)
            (omega (arith, length-without_first e.after)))
  ]
]

moved_left_le : (e : Editor) → line_len (move_left e).0 ≤ line_len e + 1
unfolding move_left
moved_left_le e = elim (Bool-cases (length e.before == 0)) [
  | inl first ↦ rw first (omega arith)
  | inr later ↦ rw later (
      updated_le (record e { before = without_last e.before; after = last_of e.before ∷ e.after })
        (line_len e) (omega (arith, length-without_last e.before)))
]

moved_right_le : (e : Editor) → line_len (move_right e).0 ≤ line_len e + 1
unfolding move_right
moved_right_le e = elim (Bool-cases (length e.before == e.input_len)) [
  | inl last ↦ rw last (omega arith)
  | inr earlier ↦ rw earlier (
      updated_le
        (record e { before = e.before ++ (first_of e.after ∷ []); after = without_first e.after })
        (line_len e)
        (omega
          (arith, length-append e.before (first_of e.after ∷ []), length-without_first e.after)))
]

-- A key makes the line longer by one byte at most.
line_len-press : (k : Press) (e : Editor) → line_len (press k e).0 ≤ line_len e + 1
unfolding press type_byte
line_len-press (type_key c) e =
    updated_le (record e { before = e.before ++ (c ∷ []) }) (line_len e)
      (omega (arith, length-append e.before (c ∷ [])))
line_len-press backspace_key e = backspaced_le e
line_len-press delete_key e = deleted_le e
line_len-press left_key e = moved_left_le e
line_len-press right_key e = moved_right_le e

-- A round with a key that leaves the line short enough.
round-press :
    (k : Press) (e : Editor)
    → e.input_len < buf_size
    → line_len (press k e).0 < buf_size
    → round k e ≡ some (press k e)
unfolding round in_arrays
round-press k e lt le =
    let open_round : leb buf_size e.input_len ≡ false = ground (arith, lt) in
    let fits : fits_arrays ((press k e).0) ≡ true = ground (arith, le) in rw (open_round, fits) refl

-- What a sequence of keys leaves.
abbrev pub KeptInStep : Screen → Option (Editor × List Out) → Type 0
KeptInStep s r = (n : Editor) × (out : List Out) × (r ≡ some (n, out)) × InStep n (show out s)

-- From a state in which the screen shows the line of the editor, with the cursor at its place and
-- blanks behind it, and the line has no backspace in it, any sequence of visible bytes,
-- backspaces, DEL, LEFT and RIGHT that is shorter than 1024 together with the line is taken to
-- its end in rounds of the loop of `readline` and prints what brings the screen to show the line
-- again, with the cursor at its place.
pub presses-InStep :
    (keys : List Press) (e : Editor) (s : Screen)
    → all_typed keys ≡ true
    → line_len e + length keys < buf_size
    → InStep e s
    → KeptInStep s (presses keys e)
unfolding presses
presses-InStep [] e s v lt h = (e, [], refl, h)
presses-InStep (k ∷ keys) e s v lt h =
    let one : InStep ((press k e).0) (show ((press k e).1) s) =
      press-StepOf k e s (ground arith) h in
    let grown : line_len (press k e).0 ≤ line_len e + 1 = line_len-press k e in
    let first : round k e ≡ some (press k e) =
      round-press k e (omega (arith, lt, h.shows.len)) (omega (arith, lt, grown)) in
    let (n, out, run, kept) =
      presses-InStep keys ((press k e).0) (show ((press k e).1) s) (ground arith)
        (omega (arith, lt, grown)) one in
    (
      n,
      (press k e).1 ++ out,
      rw (first, run) refl,
      subst (InStep n) (sym (show-append ((press k e).1) out s)) kept,
    )

-- A new line.
abbrev pub empty_line : Editor
empty_line = record { input_len = 0; cursor = 0; before = []; after = [] }

abbrev pub blank_line : Screen
blank_line = record { cells = λ k. b' '; pos = 0 }

pub empty_line-InStep : InStep empty_line blank_line
empty_line-InStep = record {
  plain_before = tt;
  plain_after = tt;
  shows = record {
    len = refl;
    at = refl;
    pos = refl;
    text = λ k lt. absurd (omega (arith, lt));
    blank = λ k le. refl;
  };
}
