-- ===== src/User/Shell/Editor/Screen.antt =====
-- What a terminal shows of the output of the line editor of user/sh.c, from the column on where the
-- line begins: a backspace and the two sequences move the cursor, and any other byte is shown at it.
use mos_volca_shell.Base.{
  ℕ, zero, suc, ◌+◌, ◌-◌, ◌<◌, ◌≤◌, true, false, ◌&&◌, List, [], ◌∷◌, ◌++◌, ◌==◌, ltb, leb,
  if◌then◌else◌, update, length, ◌≡◌, ◌∙◌, refl, sym, ap, arith, Bool-cases, inl, inr, ==_iff,
  subst,
}
use mos_volca_shell.Text.{Str}
use mos_volca_shell.User.History.{byte_of}
use mos_volca_shell.User.Shell.Editor.{
  Editor, Out, put, right, left, puts, print_back, print_space, drop, line_len,
}

pub record Screen : Type 0 where
  pub cells : ℕ → ℕ
  pub pos : ℕ

abbrev pub show_out : Out → Screen → Screen
show_out (put c) s =
    if c == 8
    then record s { pos = s.pos - 1 }
    else record { cells = update s.cells s.pos c; pos = s.pos + 1 }
show_out right s = record s { pos = s.pos + 1 }
show_out left s = record s { pos = s.pos - 1 }

abbrev pub show : List Out → Screen → Screen
show [] s = s
show (o ∷ out) s = show out (show_out o s)

-- No byte is a backspace.
abbrev pub IsPlain : Str → Type 0
IsPlain [] = Unit {0}
IsPlain (c ∷ s) = ((c == 8) ≡ false) × IsPlain s

-- The screen shows the line, with blanks behind it, and the cursor where the editor has it.
pub record Shows (e : Editor) (s : Screen) : Type 0 where
  pub len : e.input_len ≡ line_len e
  pub at : e.cursor ≡ length e.before
  pub pos : s.pos ≡ length e.before
  pub text : (k : ℕ) → k < line_len e → s.cells k ≡ byte_of (e.before ++ e.after) k
  pub blank : (k : ℕ) → line_len e ≤ k → s.cells k ≡ b' '

pub show-append : (xs ys : List Out) (s : Screen) → show (xs ++ ys) s ≡ show ys (show xs s)
show-append [] ys s = refl
show-append (x ∷ xs) ys s = show-append xs ys (show_out x s)

abbrev with_put : ℕ → Screen → Screen
with_put c s = record { cells = update s.cells s.pos c; pos = s.pos + 1 }

show_put : (c : ℕ) (s : Screen) → (c == 8) ≡ false → show_out (put c) s ≡ with_put c s
show_put c s p = ap (λ b. if b then record s { pos = s.pos - 1 } else with_put c s) p

pos-puts : (t : Str) (s : Screen) → IsPlain t → (show (puts t) s).pos ≡ s.pos + length t
pos-puts [] s p = omega arith
pos-puts (c ∷ t) s p =
    ap (λ u. (show (puts t) u).pos) (show_put c s (p.0))
    ∙ omega (arith, pos-puts t (with_put c s) (p.1))

puts_step :
    (c : ℕ) (t : Str) (cells : ℕ → ℕ) (at k : ℕ)
    → (if leb (at + 1) k && ltb k (at + 1 + length t)
        then byte_of t (k - (at + 1))
        else update cells at c k)
      ≡ (if leb at k && ltb k (at + suc (length t)) then byte_of (c ∷ t) (k - at) else cells k)
puts_step c t cells at k = elim (Bool-cases (k == at)) [
  | inl e ↦
      let here : byte_of (c ∷ t) (k - at) ≡ c =
        ap (byte_of (c ∷ t)) (no_more ((==_iff k at).0 e)) in
      ground (arith, (==_iff k at).0 e, here)
  | inr e ↦ elim (Bool-cases (ltb at k)) [
    | inl lt ↦
        let later : byte_of (c ∷ t) (k - at) ≡ byte_of t (k - (at + 1)) = later_byte lt in
        ground (arith, later)
    | inr ge ↦ ground arith
  ]
]
  where
    no_more : k ≡ at → k - at ≡ 0
    no_more e = omega (arith, e)

    later_byte : ltb at k ≡ true → byte_of (c ∷ t) (k - at) ≡ byte_of t (k - (at + 1))
    later_byte lt =
        let next : k - at ≡ suc (k - (at + 1)) = ground (arith, lt) in ap (byte_of (c ∷ t)) next

cells-puts :
    (t : Str) (s : Screen) (k : ℕ)
    → IsPlain t
    → (show (puts t) s).cells k
      ≡ (if leb s.pos k && ltb k (s.pos + length t) then byte_of t (k - s.pos) else s.cells k)
cells-puts [] s k p = ground arith
cells-puts (c ∷ t) s k p =
    ap (λ u. (show (puts t) u).cells k) (show_put c s (p.0))
    ∙ cells-puts t (with_put c s) k (p.1)
    ∙ puts_step c t s.cells s.pos k

pos-print_back : (n : ℕ) (s : Screen) → (show (print_back n) s).pos ≡ s.pos - n
pos-print_back zero s = omega arith
pos-print_back (suc n) s = omega (arith, pos-print_back n (record s { pos = s.pos - 1 }))

cells-print_back : (n : ℕ) (s : Screen) (k : ℕ) → (show (print_back n) s).cells k ≡ s.cells k
cells-print_back zero s k = refl
cells-print_back (suc n) s k = cells-print_back n (record s { pos = s.pos - 1 }) k

pos-print_space : (n : ℕ) (s : Screen) → (show (print_space n) s).pos ≡ s.pos + n
pos-print_space zero s = omega arith
pos-print_space (suc n) s =
    omega (arith, pos-print_space n (record { cells = update s.cells s.pos b' '; pos = s.pos + 1 }))

cells-print_space :
    (n : ℕ) (s : Screen) (k : ℕ)
    → (show (print_space n) s).cells k
      ≡ (if leb s.pos k && ltb k (s.pos + n) then b' ' else s.cells k)
cells-print_space zero s k = ground arith
cells-print_space (suc n) s k =
    ground
      (arith, cells-print_space n (record { cells = update s.cells s.pos b' '; pos = s.pos + 1 }) k)

-- The screen before a redraw: its cursor is where the editor believes it, the text before both
-- cursors is as it will be, and there are blanks behind the old text.
pub record Stale (e : Editor) (s : Screen) : Type 0 where
  pub pos : s.pos ≡ e.cursor
  pub kept : (k : ℕ) → k < e.cursor → k < length e.before → s.cells k ≡ byte_of (e.before) k
  pub blank : (k : ℕ) → e.input_len ≤ k → s.cells k ≡ b' '
  pub cursor_inside : e.cursor ≤ e.input_len

byte_of-drop : (n k : ℕ) (t : Str) → byte_of (drop n t) k ≡ byte_of t (n + k)
byte_of-drop zero k t = ap (byte_of t) (omega arith)
byte_of-drop (suc n) k [] = refl
byte_of-drop (suc n) k (c ∷ t) =
    let next : suc n + k ≡ suc (n + k) = omega arith in
    byte_of-drop n k t ∙ ap (byte_of (c ∷ t)) (sym next)

length-drop : (n : ℕ) (t : Str) → length (drop n t) ≡ length t - n
length-drop zero t = omega arith
length-drop (suc n) [] = omega arith
length-drop (suc n) (c ∷ t) = omega (arith, length-drop n t)

drop-IsPlain : (n : ℕ) (t : Str) → IsPlain t → IsPlain (drop n t)
drop-IsPlain zero t p = p
drop-IsPlain (suc n) [] p = p
drop-IsPlain (suc n) (c ∷ t) p = drop-IsPlain n t (p.1)

pub byte_of-first : (s t : Str) (k : ℕ) → k < length s → byte_of (s ++ t) k ≡ byte_of s k
byte_of-first [] t k lt = absurd (omega (arith, lt))
byte_of-first (c ∷ s) t zero lt = refl
byte_of-first (c ∷ s) t (suc k) lt = byte_of-first s t k (omega (arith, lt))

byte_of-second : (s t : Str) (k : ℕ) → byte_of (s ++ t) (length s + k) ≡ byte_of t k
byte_of-second [] t k = ap (byte_of t) (omega arith)
byte_of-second (c ∷ s) t k =
    let next : length (c ∷ s) + k ≡ suc (length s + k) = omega arith in
    ap (byte_of ((c ∷ s) ++ t)) next ∙ byte_of-second s t k

-- The first part of a redraw: the text before the cursor.
abbrev pub first_part : Editor → List Out
first_part e =
    if ltb (length e.before) e.cursor
    then print_back (e.cursor - length e.before)
    else puts (drop e.cursor e.before)

record Before (e : Editor) (s t : Screen) : Type 0 where
  pos : t.pos ≡ length e.before
  text : (k : ℕ) → k < length e.before → t.cells k ≡ byte_of (e.before) k
  blank : (k : ℕ) → e.input_len ≤ k → length e.before ≤ k → t.cells k ≡ b' '

back_part-Before :
    (e : Editor) (s : Screen)
    → length e.before < e.cursor
    → Stale e s
    → Before e s (show (print_back (e.cursor - length e.before)) s)
back_part-Before e s lt st =
    let n : ℕ = e.cursor - length e.before in
    record {
      pos = omega (arith, pos-print_back n s, st.pos, lt);
      text = λ k b. cells-print_back n s k ∙ st.kept k (omega (arith, b, lt)) b;
      blank = λ k i b. cells-print_back n s k ∙ st.blank k i;
    }

forth_part-Before :
    (e : Editor) (s : Screen)
    → e.cursor ≤ length e.before
    → IsPlain (e.before)
    → Stale e s
    → Before e s (show (puts (drop e.cursor e.before)) s)
forth_part-Before e s le p st =
    let t : Str = drop e.cursor e.before in
    let len : length t ≡ length e.before - e.cursor = length-drop e.cursor e.before in
    record {
      pos = omega (arith, pos-puts t s (drop-IsPlain e.cursor e.before p), st.pos, len, le);
      text = λ k b.
          cells-puts t s k (drop-IsPlain e.cursor e.before p) ∙ elim (Bool-cases (ltb k e.cursor)) [
            | inl lt ↦
                let outside : (leb s.pos k && ltb k (s.pos + length t)) ≡ false =
                  ground (arith, st.pos, lt) in
                rw outside (st.kept k (ground (arith, lt)) b)
            | inr ge ↦
                let within : (leb s.pos k && ltb k (s.pos + length t)) ≡ true =
                  ground (arith, st.pos, len, b, ge) in
                let place : e.cursor + (k - s.pos) ≡ k = ground (arith, st.pos, ge) in
                rw within (byte_of-drop e.cursor (k - s.pos) e.before ∙ ap (byte_of e.before) place)
          ];
      blank = λ k i b.
          let outside : (leb s.pos k && ltb k (s.pos + length t)) ≡ false =
            ground (arith, st.pos, len, b, le) in
          cells-puts t s k (drop-IsPlain e.cursor e.before p) ∙ rw outside (st.blank k i);
    }

first_part-Before :
    (e : Editor) (s : Screen) → IsPlain (e.before) → Stale e s → Before e s (show (first_part e) s)
first_part-Before e s p st = elim (Bool-cases (ltb (length e.before) e.cursor)) [
  | inl back ↦
      subst (λ b. Before e s (show (if b then back_out else forth_out) s)) (sym back)
        (back_part-Before e s (ground (arith, back)) st)
  | inr forth ↦
      subst (λ b. Before e s (show (if b then back_out else forth_out) s)) (sym forth)
        (forth_part-Before e s (ground (arith, forth)) p st)
]
  where
    back_out : List Out
    back_out = print_back (e.cursor - length e.before)

    forth_out : List Out
    forth_out = puts (drop e.cursor e.before)

-- What the rest of a redraw leaves on the screen.
abbrev pub rest_part : Editor → List Out
rest_part e =
    puts e.after
    ++ (print_space (e.input_len - line_len e)
        ++ print_back ((e.input_len - line_len e) + length e.after))

module _ (e : Editor) (s t : Screen) (p : IsPlain (e.after)) (b : Before e s t) where
  abbrev blanks : ℕ
  blanks = e.input_len - line_len e

  abbrev with_after : Screen
  with_after = show (puts e.after) t

  abbrev with_blanks : Screen
  with_blanks = show (print_space blanks) with_after

  abbrev at_end : Screen
  at_end = show (print_back (blanks + length e.after)) with_blanks

  rest_at_end : show (rest_part e) t ≡ at_end
  rest_at_end =
      show-append (puts e.after) (print_space blanks ++ print_back (blanks + length e.after)) t
      ∙ show-append (print_space blanks) (print_back (blanks + length e.after)) with_after

  after_pos : with_after.pos ≡ line_len e
  after_pos = omega (arith, pos-puts e.after t p, b.pos)

  end_pos : at_end.pos ≡ length e.before
  end_pos = omega (
    arith,
    after_pos,
    pos-print_space blanks with_after,
    pos-print_back (blanks + length e.after) with_blanks,
  )

  end_cells :
      (k : ℕ)
      → at_end.cells k ≡ (
          if leb with_after.pos k && ltb k (with_after.pos + blanks)
          then b' '
          else with_after.cells k)
  end_cells k =
      cells-print_back (blanks + length e.after) with_blanks k
      ∙ cells-print_space blanks with_after k

  end_text : (k : ℕ) → k < line_len e → at_end.cells k ≡ byte_of (e.before ++ e.after) k
  end_text k lt =
      let no_blank : (leb with_after.pos k && ltb k (with_after.pos + blanks)) ≡ false =
        ground (arith, after_pos, lt) in
      end_cells k
      ∙ rw no_blank (
          cells-puts e.after t k p ∙ elim (Bool-cases (ltb k (length e.before))) [
            | inl first ↦
                let outside : (leb t.pos k && ltb k (t.pos + length e.after)) ≡ false =
                  ground (arith, b.pos, first) in
                rw outside (
                  b.text k (ground (arith, first))
                  ∙ sym (byte_of-first e.before e.after k (ground (arith, first))))
            | inr second ↦
                let within : (leb t.pos k && ltb k (t.pos + length e.after)) ≡ true =
                  ground (arith, b.pos, second, lt) in
                let place : length e.before + (k - t.pos) ≡ k = ground (arith, b.pos, second) in
                rw within (
                  sym (byte_of-second e.before e.after (k - t.pos))
                  ∙ ap (byte_of (e.before ++ e.after)) place)
          ])

  end_blank : (k : ℕ) → line_len e ≤ k → at_end.cells k ≡ b' '
  end_blank k le = end_cells k ∙ elim (Bool-cases (ltb k (line_len e + blanks))) [
    | inl near ↦
        let within : (leb with_after.pos k && ltb k (with_after.pos + blanks)) ≡ true =
          ground (arith, after_pos, le, near) in
        rw within refl
    | inr far ↦
        let outside : (leb with_after.pos k && ltb k (with_after.pos + blanks)) ≡ false =
          ground (arith, after_pos, far) in
        let behind : (leb t.pos k && ltb k (t.pos + length e.after)) ≡ false =
          ground (arith, b.pos, le) in
        rw outside (
          cells-puts e.after t k p
          ∙ rw behind (b.blank k (ground (arith, far, le)) (omega (arith, le))))
  ]

-- The editor as it is after a redraw.
abbrev pub settled : Editor → Editor
settled e = record e { input_len = line_len e; cursor = length e.before }

pub redraw-Shows :
    (e : Editor) (s : Screen)
    → IsPlain (e.before)
    → IsPlain (e.after)
    → Stale e s
    → Shows (settled e) (show (first_part e ++ rest_part e) s)
redraw-Shows e s p q st =
    let t : Screen = show (first_part e) s in
    let b : Before e s t = first_part-Before e s p st in
    let whole : show (first_part e ++ rest_part e) s ≡ at_end e s t q b =
      show-append (first_part e) (rest_part e) s ∙ rest_at_end e s t q b in
    subst (Shows (settled e)) (sym whole) (record {
      len = refl;
      at = refl;
      pos = end_pos e s t q b;
      text = end_text e s t q b;
      blank = end_blank e s t q b;
    })
