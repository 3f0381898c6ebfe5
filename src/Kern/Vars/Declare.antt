-- ===== src/Kern/Vars/Declare.antt =====
-- What a program reads back from the shell variables of kern/syscall_all.c.
use mos_volca_shell.Base.{
  ℕ, zero, suc, ◌+◌, ◌<◌, Bool, true, false, ◌||◌, Option, none, some, [], ◌∷◌, ◌==◌, leb, length,
  if◌then◌else◌, update, ◌≡◌, ◌≢◌, ◌⊎◌, refl, ap, ◌∙◌, arith, Bool-cases, inl, inr, ==-ne, ==-refl,
  Run, ok, err, unspecified, bad_env,
}
use mos_volca_shell.Kern.Vars.{
  Bytes, Var, Shell, max_var_num, var_name_len, var_value_len, is_same, is_unused, is_read_only,
  is_allow, check_var, fill_var, declare_at, sys_declare_var, sys_get_var, get_at,
}
use mos_volca_shell.Kern.Vars.Lookup.{
  find, is_named, or_else, find_unused, check_var-two_passes, IsFirst, FindOk, find-FindOk,
  find-first,
}

is_same_refl : (xs : Bytes) → is_same xs xs ≡ true
unfolding is_same
is_same_refl [] = refl
is_same_refl (x ∷ xs) = rw (==-refl x) (is_same_refl xs)

-- Every unused variable can be filled.
pub record VarsOk (s : Shell) : Type 0 where
  pub writable : (i : ℕ) → is_unused (s.vars i) ≡ true → is_read_only (s.vars i) ≡ false

find-nothing : (n i : ℕ) → find (λ j. false) n i ≡ none
unfolding find
find-nothing zero i = refl
find-nothing (suc n) i = find-nothing n (i + 1)

or_else-none : (o : Option ℕ) → or_else o none ≡ o
or_else-none none = refl
or_else-none (some r) = refl

-- A lookup that fills nothing is the first pass.
lookup-find :
    (name : Bytes) (s : Shell) → check_var name false s ≡ find (is_named name s) max_var_num 0
unfolding find_unused
lookup-find name s =
    check_var-two_passes name false s
    ∙ ap (or_else (find (is_named name s) max_var_num 0)) (find-nothing max_var_num 0)
    ∙ or_else-none (find (is_named name s) max_var_num 0)

-- The variable that a declaration fills: the first one that the caller sees under the name, or else
-- the first unused one. It can be written.
pub record Chosen (name : Bytes) (s : Shell) (r : ℕ) : Type 0 where
  pub writable_before : is_read_only (s.vars r) ≡ false
  pub first_choice :
      IsFirst (is_named name s) 0 max_var_num r
      ⊎ (((i : ℕ) → i < max_var_num → is_named name s i ≡ false)
          × IsFirst (λ j. is_unused (s.vars j)) 0 max_var_num r)

-- The outcomes of a declaration: the chosen variable has the value, no other one has changed, and the
-- value can be read back; or the variable is read-only; or there is no such variable and none to fill.
pub data Outcome (name value : Bytes) (s : Shell) : Run Shell (Unit {0}) → Type 0 where
  declared :
      (r : ℕ) (n : Shell)
      → Chosen name s r
      → (n.vars r).name ≡ name
      → (n.vars r).value ≡ value
      → ((j : ℕ) → j ≢ r → n.vars j ≡ s.vars j)
      → sys_get_var name n ≡ ok value n
      → VarsOk n
      → Outcome name value s (ok tt n)
  protected :
      (r : ℕ)
      → IsFirst (is_named name s) 0 max_var_num r
      → is_read_only (s.vars r) ≡ true
      → Outcome name value s (err bad_env s)
  no_room :
      ((i : ℕ) → i < max_var_num → is_named name s i ≡ false)
      → ((i : ℕ) → i < max_var_num → is_unused (s.vars i) ≡ false)
      → Outcome name value s (err unspecified s)

module _ (c : ℕ) (cs value : Bytes) (perm : ℕ) (is_global : Bool) (s : Shell)
    (short : length (c ∷ cs) < var_name_len) (fits : length value < var_value_len)
    (h : VarsOk s) where
  abbrev name : Bytes
  name = c ∷ cs

  abbrev var : Var
  var = record {
    name = name;
    value = value;
    shell_id = if is_global then 0 else s.cur_shell_id;
    perm = perm;
  }

  abbrev filled : ℕ → Shell
  filled r = record s { vars = update s.vars r var }

  allowed :
      (g : Bool) (id : ℕ) → (((if g then 0 else id) == 0) || ((if g then 0 else id) == id)) ≡ true
  allowed true id = refl
  allowed false id = rw (==-refl id) (or_true (id == 0))
    where
      or_true : (b : Bool) → (b || true) ≡ true
      or_true true = refl
      or_true false = refl

  named_here : (r : ℕ) → is_named name (filled r) r ≡ true
  unfolding is_named is_allow
  named_here r = rw (==-refl r, is_same_refl name) (allowed is_global s.cur_shell_id)

  named_other : (r j : ℕ) → j ≢ r → is_named name (filled r) j ≡ is_named name s j
  unfolding is_named is_allow
  named_other r j ne = rw (==-ne j r ne) refl

  reads_back :
      (r : ℕ)
      → r < max_var_num
      → ((j : ℕ) → j < r → is_named name s j ≡ false)
      → sys_get_var name (filled r) ≡ ok value (filled r)
  unfolding sys_get_var get_at
  reads_back r lt before =
      rw
        (
          lookup-find name (filled r),
          find-first (is_named name (filled r)) max_var_num 0 r (record {
            above = omega arith;
            below = lt;
            passes = named_here r;
            first = λ j ge lt'. named_other r j (omega arith) ∙ before j lt';
          }),
          ==-refl r,
        )
        refl

  filled-VarsOk : (r : ℕ) → VarsOk (filled r)
  filled-VarsOk r = record {
    writable =
        λ i. elim (Bool-cases (i == r)) [ inl e ↦ rw e (λ used. cc) | inr e ↦ rw e (h.writable i) ];
  }

  fill-Outcome :
      (r : ℕ)
      → r < max_var_num
      → Chosen name s r
      → ((j : ℕ) → j < r → is_named name s j ≡ false)
      → Outcome name value s (declare_at (some r) name value perm is_global s)
  unfolding declare_at fill_var
  fill-Outcome r lt chosen before =
      let short' : leb var_name_len (length name) ≡ false = ground arith in
      let fits' : leb var_value_len (length value) ≡ false = ground arith in
      rw (chosen.writable_before, short', fits')
        (declared r (filled r) chosen (rw (==-refl r) refl) (rw (==-refl r) refl)
          (λ j ne. rw (==-ne j r ne) refl) (reads_back r lt before) (filled-VarsOk r))

  Outcome-at :
      (o u : Option ℕ)
      → FindOk (is_named name s) 0 max_var_num o
      → FindOk (λ j. is_unused (s.vars j)) 0 max_var_num u
      → Outcome name value s (declare_at (or_else o u) name value perm is_global s)
  unfolding declare_at
  Outcome-at none none f g = no_room (λ i lt. f i (omega arith) lt) (λ i lt. g i (omega arith) lt)
  Outcome-at none (some r) f g =
      fill-Outcome r g.below
        (record {
          writable_before = h.writable r g.passes;
          first_choice = inr (λ i lt. f i (omega arith) lt, g);
        })
        (λ j lt. f j (omega arith) (omega (arith, g.below)))
  Outcome-at (some r) u f g = elim (Bool-cases (is_read_only (s.vars r))) [
    | inl e ↦ rw e (protected r f e)
    | inr e ↦
        fill-Outcome r f.below (record { writable_before = e; first_choice = inl f })
          (λ j lt. f.first j (omega arith) lt)
  ]

  -- For a name that is not empty and a value, both short enough for their arrays, when every
  -- unused variable can be written, a declaration has one of three outcomes: it succeeds, and the
  -- first variable that the caller sees under the name, or else the first unused one, which could
  -- be written, has the name and the value, no other variable has changed, `sys_get_var` of the
  -- name gives the value, and again every unused variable can be written; or the first variable
  -- that the caller sees under the name is read-only, and nothing changes; or there is no such
  -- variable and no unused one, and nothing changes.
  pub sys_declare_var-Outcome : Outcome name value s (sys_declare_var name value perm is_global s)
  unfolding sys_declare_var find_unused
  sys_declare_var-Outcome = rw (check_var-two_passes name true s) (
      Outcome-at (find (is_named name s) max_var_num 0) (find_unused true max_var_num 0 s)
        (find-FindOk (is_named name s) max_var_num 0)
        (find-FindOk (λ j. is_unused (s.vars j)) max_var_num 0))
