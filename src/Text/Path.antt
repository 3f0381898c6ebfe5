-- ===== src/Text/Path.antt =====
-- `splitPath`, `catPath` and `toParentPath` of lib/string.c take paths apart and put them together.
use mos_volca_shell.Base.{
  ℕ, zero, suc, ◌≤◌, false, Option, none, some, [], ◌∷◌, ◌++◌, ◌==◌, length, ◌≡◌, ◌≢◌, ◌↔◌, refl,
  sym, ap, ◌∙◌, arith, ==_iff, Bool-cases, inl, inr, subst, mem, ◌⊎◌, cons-ne-nil, tail,
  some-injective, some-ne-none, append-nil,
}
use mos_volca_shell.Text.Order.{strcmp-same}
use mos_volca_shell.Text.{
  Str, slash, strcpy, strcmp, first_byte, last_byte_of, cat_path, before_last_slash, or_root,
  to_parent_path, max_name_len, first_name, split_end, split_path, Sign, same, less, greater,
  cut_last, IsStr,
}

strcpy-id : (s : Str) → strcpy s ≡ s
unfolding strcpy
strcpy-id [] = refl
strcpy-id (c ∷ s) = ap (λ r. c ∷ r) (strcpy-id s)

-- The path that a name and what follows it make.
abbrev pub joined : Str → Option Str → Str
joined name none = name
joined name (some rest) = name ++ (slash ∷ rest)

==-swap : (a b : ℕ) → (a == b) ≡ false → (b == a) ≡ false
==-swap a b ne = ground arith

first_name_complete :
    (room : ℕ) (name left : Str)
    → mem slash name ≡ false
    → length name ≤ room
    → (left ≡ []) ⊎ (first_byte left ≡ slash)
    → first_name room (name ++ left) ≡ some (name, left)
unfolding first_name
first_name_complete room [] [] h le e = refl
first_name_complete zero [] (c ∷ left) h le (inl e) = absurd (cons-ne-nil _ _ e)
first_name_complete zero [] (c ∷ left) h le (inr e) = rw ((==_iff c slash).1 e) refl
first_name_complete (suc room) [] (c ∷ left) h le (inl e) = absurd (cons-ne-nil _ _ e)
first_name_complete (suc room) [] (c ∷ left) h le (inr e) = rw ((==_iff c slash).1 e) refl
first_name_complete zero (c ∷ name) left h le e = absurd (omega (arith, le))
first_name_complete (suc room) (c ∷ name) left h le e =
    rw
      (
        ==-swap slash c (ground arith),
        first_name_complete room name left (ground arith) (omega (arith, le)) e,
      )
      refl

-- What the loop of `splitPath` finds.
record Found (room : ℕ) (s name left : Str) : Type 0 where
  whole : s ≡ name ++ left
  no_slash : mem slash name ≡ false
  fits : length name ≤ room
  ends : (left ≡ []) ⊎ (first_byte left ≡ slash)

first_name-Found :
    (room : ℕ) (s : Str)
    → (first_name room s ≡ none)
      ⊎ ((name left : Str) × (first_name room s ≡ some (name, left)) × Found room s name left)
unfolding first_name
first_name-Found room [] =
    inr
      ([], [], refl, record { whole = refl; no_slash = refl; fits = omega arith; ends = inl refl })
first_name-Found zero (c ∷ s) = elim (Bool-cases (c == slash)) [
  | inl e ↦ inr (
    [],
    c ∷ s,
    rw e refl,
    record { whole = refl; no_slash = refl; fits = omega arith; ends = inr ((==_iff c slash).0 e) },
  )
  | inr e ↦ inl (rw e refl)
]
first_name-Found (suc room) (c ∷ s) = elim (Bool-cases (c == slash)) [
  | inl e ↦ inr (
    [],
    c ∷ s,
    rw e refl,
    record { whole = refl; no_slash = refl; fits = omega arith; ends = inr ((==_iff c slash).0 e) },
  )
  | inr e ↦ elim (first_name-Found room s) [
    | inl none_left ↦ inl (rw (e, none_left) refl)
    | inr (name, left, run, found) ↦ inr (
      c ∷ name,
      left,
      rw (e, run) refl,
      record {
        whole = ap (λ r. c ∷ r) (found.whole);
        no_slash = rw (==-swap c slash e) (found.no_slash);
        fits = omega (arith, found.fits);
        ends = found.ends;
      },
    )
  ]
]

split_sound :
    (room : ℕ) (s name left n : Str) (next : Option Str)
    → Found room s n left
    → some (split_end (n, left)) ≡ some (name, next)
    → (s ≡ joined name next) × (mem slash name ≡ false) × (length name ≤ room)
unfolding split_end
split_sound room s name [] n next f e =
    let same_name : n ≡ name = ap (λ (r : Str × Option Str). r.0) (some-injective _ _ e) in
    let same_next : none ≡ next = ap (λ (r : Str × Option Str). r.1) (some-injective _ _ e) in
    (
      f.whole ∙ append-nil n ∙ same_name ∙ ap (joined name) same_next,
      subst (λ m. mem slash m ≡ false) same_name (f.no_slash),
      subst (λ m. length m ≤ room) same_name (f.fits),
    )
split_sound room s name (c ∷ left) n next f e =
    let same_name : n ≡ name = ap (λ (r : Str × Option Str). r.0) (some-injective _ _ e) in
    let same_next : some left ≡ next = ap (λ (r : Str × Option Str). r.1) (some-injective _ _ e) in
    (
      f.whole
          ∙ ap (λ d. n ++ (d ∷ left)) (starts (f.ends))
          ∙ ap (λ m. joined m (some left)) same_name
          ∙ ap (joined name) same_next,
      subst (λ m. mem slash m ≡ false) same_name (f.no_slash),
      subst (λ m. length m ≤ room) same_name (f.fits),
    )
  where
    starts : ((c ∷ left) ≡ []) ⊎ (c ≡ slash) → c ≡ slash
    starts (inl e) = absurd (cons-ne-nil _ _ e)
    starts (inr e) = e

split_complete :
    (s name : Str) (next : Option Str)
    → (first_byte s == slash) ≡ false
    → s ≡ joined name next
    → mem slash name ≡ false
    → length name ≤ max_name_len
    → split_path s ≡ some (name, next)
unfolding split_path split_end
split_complete s name none relative e h le =
    let found : first_name max_name_len s ≡ some (name, []) =
      ap (first_name max_name_len) (e ∙ sym (append-nil name))
      ∙ first_name_complete max_name_len name [] h le (inl refl) in
    rw (relative, found) refl
split_complete s name (some rest) relative e h le =
    let found : first_name max_name_len s ≡ some (name, slash ∷ rest) =
      ap (first_name max_name_len) e
      ∙ first_name_complete max_name_len name (slash ∷ rest) h le (inr refl) in
    rw (relative, found) refl

-- For a path that does not start with a slash, `splitPath` gives a name and a rest exactly when
-- the path is the name, a slash and the rest, or the name alone where no rest is stored, and the
-- name has no slash and at most 128 bytes.
pub split_path-joined :
    (s name : Str) (next : Option Str)
    → (first_byte s == slash) ≡ false
    → (split_path s ≡ some (name, next))
      ↔ ((s ≡ joined name next) × (mem slash name ≡ false) × (length name ≤ max_name_len))
unfolding split_path
split_path-joined s name next relative = (
  λ run. elim (first_name-Found max_name_len s) [
    | inl none_left ↦ absurd (some-ne-none _ (sym run ∙ rw (relative, none_left) refl))
    | inr (n, left, found_run, found) ↦
        split_sound max_name_len s name left n next found
          (sym (rw (relative, found_run) refl) ∙ run)
  ],
  λ (e, h, le). split_complete s name next relative e h le,
)

before_last_slash-none : (name : Str) → mem slash name ≡ false → before_last_slash name ≡ none
unfolding before_last_slash
before_last_slash-none [] h = refl
before_last_slash-none (c ∷ name) h =
    rw (before_last_slash-none name (ground arith), ==-swap slash c (ground arith)) refl

before_last_slash-last :
    (pre name : Str) → mem slash name ≡ false → before_last_slash (pre ++ (slash ∷ name)) ≡ some pre
unfolding before_last_slash
before_last_slash-last [] name h = rw (before_last_slash-none name h) refl
before_last_slash-last (c ∷ pre) name h = rw (before_last_slash-last pre name h) refl

cut_last-other : (t : Sign) (s : Str) → t ≢ same → cut_last t s ≡ or_root (before_last_slash s)
unfolding cut_last
cut_last-other less s ne = refl
cut_last-other same s ne = absurd (ne refl)
cut_last-other greater s ne = refl

or_root-id : (s : Str) → s ≢ [] → or_root (some s) ≡ s
unfolding or_root
or_root-id [] ne = absurd (ne refl)
or_root-id (c ∷ s) ne = refl

root_byte : (name : Str) → mem slash name ≡ false → (first_byte name == slash) ≡ false
root_byte [] h = refl
root_byte (c ∷ name) h = ==-swap slash c (ground arith)

IsStr-append : (p q : Str) → IsStr p → IsStr q → IsStr (p ++ q)
IsStr-append [] q a b = b
IsStr-append (c ∷ p) q a b = (a.0, IsStr-append p q a.1 b)

longer : (pre name : Str) → pre ≢ [] → pre ++ (slash ∷ name) ≢ slash ∷ []
longer [] name ne e = ne refl
longer (c ∷ []) name ne e = cons-ne-nil _ _ (ap tail e)
longer (c ∷ d ∷ pre) name ne e = cons-ne-nil _ _ (ap tail e)

-- The parent of a path with a slash behind `pre`.
parent_of :
    (pre name : Str)
    → IsStr pre
    → IsStr name
    → pre ≢ []
    → mem slash name ≡ false
    → to_parent_path (pre ++ (slash ∷ name)) ≡ pre
unfolding to_parent_path
parent_of pre name a b ne h =
    cut_last-other (strcmp (pre ++ (slash ∷ name)) (slash ∷ [])) (pre ++ (slash ∷ name))
      (λ e. longer pre name ne ((strcmp-same _ _ (IsStr-append pre _ a (refl, b)) (refl, tt)).0 e))
    ∙ ap or_root (before_last_slash-last pre name h)
    ∙ or_root-id pre ne

parent_of_root :
    (name : Str) → IsStr name → mem slash name ≡ false → to_parent_path (slash ∷ name) ≡ slash ∷ []
unfolding to_parent_path cut_last or_root strcmp
parent_of_root [] b h = refl
parent_of_root (c ∷ name) b h =
    cut_last-other (strcmp (slash ∷ c ∷ name) (slash ∷ [])) (slash ∷ c ∷ name) (λ e.
      cons-ne-nil _ _
        (ap tail ((strcmp-same (slash ∷ c ∷ name) (slash ∷ []) (refl, b) (refl, tt)).0 e)))
    ∙ ap or_root (before_last_slash-last [] (c ∷ name) h)

-- The directory "/", or a path that does not end in a slash.
abbrev pub IsDirPath : Str → Type 0
IsDirPath pre = (pre ≡ slash ∷ []) ⊎ ((pre ≢ []) × ((last_byte_of 0 pre == slash) ≡ false))

last_byte_of-any : (b d : ℕ) (pre : Str) → pre ≢ [] → last_byte_of b pre ≡ last_byte_of d pre
last_byte_of-any b d [] ne = absurd (ne refl)
last_byte_of-any b d (c ∷ pre) ne = refl

-- For strings and a name without a slash, `toParentPath` takes off the name that `catPath` put
-- behind the path "/" or behind a path that is not empty and does not end in a slash.
pub to_parent_path-cat_path :
    (before : ℕ) (pre name : Str)
    → IsStr pre
    → IsStr name
    → IsDirPath pre
    → mem slash name ≡ false
    → to_parent_path (cat_path before pre name) ≡ pre
unfolding cat_path
to_parent_path-cat_path before pre name a b (inl e) h =
    rw e (rw (strcpy-id name) (parent_of_root name b h))
to_parent_path-cat_path before pre name a b (inr (ne, last)) h =
    rw (last_byte_of-any before 0 pre ne, last, root_byte name h, strcpy-id name)
      (parent_of pre name a b ne h)
