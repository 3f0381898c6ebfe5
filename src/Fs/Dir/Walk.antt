-- ===== src/Fs/Dir/Walk.antt =====
-- `walk_path` of fs/fs.c goes down the names of a path, one directory after the other.
use mos_volca_shell.Base.{
  ℕ, zero, suc, ◌<◌, ◌≤◌, Bool, true, false, ◌&&◌, Option, none, some, List, [], ◌∷◌, ◌++◌, ◌==◌,
  leb, if◌then◌else◌, Run, ok, err, panic, Cmd, ◌≡◌, ◌≢◌, ◌∙◌, refl, sym, ap, arith, Bool-cases,
  inl, inr, append_assoc, append-nil, Error, bad_path, not_found,
}
use mos_volca_shell.Text.{Str, slash, strlen, first_byte, max_name_len}
use mos_volca_shell.Fs.Block.{Fs}
use mos_volca_shell.Fs.File.{Ptr, read_word}
use mos_volca_shell.Fs.Dir.{
  Walked, found, absent, failed, after_lookup, walk_name, walk_from, walk_path_at, next_name,
  skip_slash, is_end, is_not_found, f_type, ftype_dir, dir_lookup,
}

-- A name that is not empty, and the names behind it.
abbrev pub with_name : Str → List Str → List Str
with_name [] names = names
with_name (c ∷ name) names = (c ∷ name) ∷ names

abbrev pub names_from : Str → Str → List Str
names_from name [] = with_name name []
names_from name (c ∷ path) =
    if c == slash then with_name name (names_from [] path) else names_from (name ++ (c ∷ [])) path

-- The names of a path: what stands between its slashes and is not empty.
abbrev pub names_of : Str → List Str
names_of path = names_from [] path

abbrev pub no_names : List Str → Bool
no_names [] = true
no_names (n ∷ names) = false

-- A walk over a list of names.
abbrev pub walk_names : List Str → Option Ptr → Ptr → Cmd Fs Walked
walk_names [] dir file s = ok (found dir (some file)) s
walk_names (name ∷ names) dir file s =
    walk_name file name (no_names names) (λ f. walk_names names (some file) f) s

names_from-skip_slash : (path : Str) → names_of (skip_slash path) ≡ names_of path
unfolding skip_slash
names_from-skip_slash [] = refl
names_from-skip_slash (c ∷ path) = elim (Bool-cases (c == slash)) [
  | inl e ↦ rw e (names_from-skip_slash path)
  | inr e ↦ rw e (rw e refl)
]

-- The name in front of the first slash comes first.
names_from-next_name :
    (name path : Str)
    → names_from name path ≡ with_name (name ++ (next_name path).0) (names_of ((next_name path).1))
unfolding next_name
names_from-next_name name [] = ap (λ n. with_name n []) (sym (append-nil name))
names_from-next_name name (c ∷ path) = elim (Bool-cases (c == slash)) [
  | inl e ↦ rw e (rw e (ap (λ n. with_name n (names_of path)) (sym (append-nil name))))
  | inr e ↦ rw e (
      names_from-next_name (name ++ (c ∷ [])) path
      ∙ ap (λ n. with_name n (names_of ((next_name path).1)))
          (append_assoc name (c ∷ []) ((next_name path).0)))
]

-- A path that starts with a name.
starts_name :
    (c : ℕ) (path : Str)
    → (c == slash) ≡ false
    → names_of (c ∷ path)
      ≡ (next_name (c ∷ path)).0 ∷ names_of (skip_slash ((next_name (c ∷ path)).1))
unfolding next_name
starts_name c path ne =
    names_from-next_name [] (c ∷ path)
    ∙ rw ne
        (ap (λ r. (c ∷ (next_name path).0) ∷ r) (sym (names_from-skip_slash ((next_name path).1))))

skip_slash-first : (path : Str) → (first_byte (skip_slash path) == slash) ≡ false
unfolding skip_slash
skip_slash-first [] = refl
skip_slash-first (c ∷ path) = elim (Bool-cases (c == slash)) [
  | inl e ↦ rw e (skip_slash-first path)
  | inr e ↦ rw e e
]

no_names-of :
    (path : Str) → (first_byte path == slash) ≡ false → no_names (names_of path) ≡ is_end path
no_names-of [] ne = refl
no_names-of (c ∷ path) ne = rw (starts_name c path ne) refl

strlen-skip_slash : (path : Str) → strlen (skip_slash path) ≤ strlen path
unfolding skip_slash strlen
strlen-skip_slash [] = omega arith
strlen-skip_slash (c ∷ path) = ground (arith, strlen-skip_slash path)

strlen-next_name : (path : Str) → strlen ((next_name path).1) ≤ strlen path
unfolding next_name strlen
strlen-next_name [] = omega arith
strlen-next_name (c ∷ path) = ground (arith, strlen-next_name path)

-- Each round of the loop shortens the path.
shorter :
    (c : ℕ) (path : Str)
    → (c == slash) ≡ false
    → strlen (skip_slash ((next_name (c ∷ path)).1)) < strlen (c ∷ path)
unfolding next_name strlen
shorter c path ne =
    rw ne (omega (arith, strlen-next_name path, strlen-skip_slash ((next_name path).1)))

walk_name-same :
    (file : Ptr) (name : Str) (is_last : Bool) (g h : Ptr → Cmd Fs Walked)
    → ((f : Ptr) (t : Fs) → g f t ≡ h f t)
    → (s : Fs) → walk_name file name is_last g s ≡ walk_name file name is_last h s
unfolding walk_name after_lookup
walk_name-same file name is_last g h same s = elim (Bool-cases (leb max_name_len (strlen name))) [
  | inl long ↦ rw long refl
  | inr short ↦ elim (Bool-cases (read_word (f_type file) s == ftype_dir)) [
    | inl dir ↦ rw (short, dir) (after (dir_lookup file name s))
    | inr other ↦ rw (short, other) refl
  ]
]
  where
    after :
        (r : Run Fs Ptr) → after_lookup file name is_last r g ≡ after_lookup file name is_last r h
    after (ok f t) = same f t
    after (err e t) = refl
    after panic = refl

walk_from-names :
    (n : ℕ) (path : Str) (dir : Option Ptr) (file : Ptr) (s : Fs)
    → strlen path ≤ n
    → (first_byte path == slash) ≡ false
    → walk_from n path dir file s ≡ walk_names (names_of path) dir file s
unfolding walk_from strlen
walk_from-names zero [] dir file s le ne = refl
walk_from-names zero (c ∷ path) dir file s le ne = absurd (omega (arith, le))
walk_from-names (suc n) [] dir file s le ne = refl
walk_from-names (suc n) (c ∷ path) dir file s le ne =
    let left : Str = skip_slash ((next_name (c ∷ path)).1) in
    let first : (first_byte left == slash) ≡ false = skip_slash-first ((next_name (c ∷ path)).1) in
    walk_name-same file ((next_name (c ∷ path)).0) (is_end left)
      (λ f. walk_from n left (some file) f) (λ f. walk_names (names_of left) (some file) f)
      (λ f t. walk_from-names n left (some file) f t (omega (arith, le, shorter c path ne)) first) s
    ∙ sym (rw (starts_name c path ne, no_names-of left first) refl)

-- `walk_path_at` walks over the names of the path, which are what stands between its slashes and
-- is not empty: it looks up one after the other in the directory found before, and always comes
-- to the end of the path.
pub walk_path_at-names :
    (dir : Ptr) (path : Str) (s : Fs)
    → walk_path_at dir path s ≡ walk_names (names_of path) none dir s
unfolding walk_path_at
walk_path_at-names dir path s =
    walk_from-names (strlen path) (skip_slash path) none dir s (strlen-skip_slash path)
      (skip_slash-first path)
    ∙ ap (λ names. walk_names names none dir s) (names_from-skip_slash path)

names_from-joined :
    (name p q : Str) → names_from name (p ++ (slash ∷ q)) ≡ names_from name p ++ names_of q
names_from-joined [] [] q = refl
names_from-joined (d ∷ name) [] q = refl
names_from-joined name (c ∷ p) q = elim (Bool-cases (c == slash)) [
  | inl e ↦ rw (e, names_from-joined [] p q) (with_name-append name (names_of p) (names_of q))
  | inr e ↦ rw e (names_from-joined (name ++ (c ∷ [])) p q)
]
  where
    with_name-append : (n : Str) (xs ys : List Str) → with_name n (xs ++ ys) ≡ with_name n xs ++ ys
    with_name-append [] xs ys = refl
    with_name-append (x ∷ n) xs ys = refl

-- A name that a walk passes: the walk goes on from `file` and `state`, whichever way it goes on.
record Passed (dir : Ptr) (name : Str) (g : Ptr → Cmd Fs Walked) (s : Fs) (r : Run Fs Walked)
    : Type 0 where
  file : Ptr
  state : Fs
  goes : (l : Bool) (h : Ptr → Cmd Fs Walked) → walk_name dir name l h s ≡ h file state
  after : g file state ≡ r

walk_name-Passed :
    (dir : Ptr) (name : Str) (l : Bool) (g : Ptr → Cmd Fs Walked) (s t : Fs) (d f : Option Ptr)
    → walk_name dir name l g s ≡ ok (found d f) t
    → Passed dir name g s (ok (found d f) t)
unfolding walk_name after_lookup
walk_name-Passed dir name l g s t d f e = elim (Bool-cases (leb max_name_len (strlen name))) [
  | inl long ↦ absurd (failed_ne bad_path {u = s} (sym (rw long refl) ∙ e))
  | inr short ↦ elim (Bool-cases (read_word (f_type dir) s == ftype_dir)) [
    | inl is_dir ↦ after short is_dir (dir_lookup dir name s) refl
    | inr other ↦ absurd (failed_ne not_found {u = s} (sym (rw (short, other) refl) ∙ e))
  ]
]
  where
    failed_ne : (x : Error) {u : Fs} → ok (failed x) u ≢ ok (found d f) t
    failed_ne x q = ground arith

    absent_ne : {u : Fs} → ok (absent dir name) u ≢ ok (found d f) t
    absent_ne q = ground arith

    panic_ne : panic ≢ ok (found d f) t
    panic_ne q = ground arith

    after :
        leb max_name_len (strlen name) ≡ false
        → (read_word (f_type dir) s == ftype_dir) ≡ true
        → (r : Run Fs Ptr) → dir_lookup dir name s ≡ r
        → Passed dir name g s (ok (found d f) t)
    after short is_dir (ok p u) q = record {
      file = p;
      state = u;
      goes = λ m h. rw (short, is_dir, q) refl;
      after = sym (rw (short, is_dir, q) refl) ∙ e;
    }
    after short is_dir (err x u) q = elim (Bool-cases (is_not_found x && l)) [
      | inl last ↦ absurd (absent_ne {u = u} (sym (rw (short, is_dir, q, last) refl) ∙ e))
      | inr more ↦ absurd (failed_ne x {u = u} (sym (rw (short, is_dir, q, more) refl) ∙ e))
    ]
    after short is_dir panic q = absurd (panic_ne (sym (rw (short, is_dir, q) refl) ∙ e))

walk_names-append :
    (xs : List Str) (y : Str) (ys : List Str) (dir d : Option Ptr) (file f : Ptr) (s t : Fs)
    → walk_names xs dir file s ≡ ok (found d (some f)) t
    → walk_names (xs ++ (y ∷ ys)) dir file s ≡ walk_names (y ∷ ys) none f t
walk_names-append [] y ys dir d file f s t e =
    let same_file : file ≡ f = ground arith in
    let same_state : s ≡ t = ground arith in rw (same_file, same_state) refl
walk_names-append (x ∷ xs) y ys dir d file f s t e =
    let p =
      walk_name-Passed file x (no_names xs) (λ g. walk_names xs (some file) g) s t d (some f) e in
    p.goes (no_names (xs ++ (y ∷ ys))) (λ g. walk_names (xs ++ (y ∷ ys)) (some file) g)
    ∙ walk_names-append xs y ys (some file) d (p.file) f (p.state) t (p.after)

-- When a walk over `p` finds a file, and `q` has a name in it, the walk over `p`, a slash and `q`
-- is the walk over `q` from that file in the state that the first one left.
pub walk_path_at-joined :
    (dir f : Ptr) (p q : Str) (d : Option Ptr) (s t : Fs)
    → names_of q ≢ []
    → walk_path_at dir p s ≡ ok (found d (some f)) t
    → walk_path_at dir (p ++ (slash ∷ q)) s ≡ walk_path_at f q t
walk_path_at-joined dir f p q d s t ne e =
    walk_path_at-names dir (p ++ (slash ∷ q)) s
    ∙ ap (λ names. walk_names names none dir s) (names_from-joined [] p q)
    ∙ behind (names_of q) ne (sym (walk_path_at-names dir p s) ∙ e)
    ∙ sym (walk_path_at-names f q t)
  where
    behind :
        (ys : List Str)
        → ys ≢ []
        → walk_names (names_of p) none dir s ≡ ok (found d (some f)) t
        → walk_names (names_of p ++ ys) none dir s ≡ walk_names ys none f t
    behind [] some_name e = absurd (some_name refl)
    behind (y ∷ ys) some_name e = walk_names-append (names_of p) y ys none d dir f s t e
