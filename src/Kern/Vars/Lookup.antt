-- ===== src/Kern/Vars/Lookup.antt =====
-- `checkVar` of kern/syscall_all.c finds in one pass what two passes over the variables find.
use mos_volca_shell.Base.{
  ℕ, zero, suc, ◌+◌, ◌≤◌, ◌<◌, Bool, true, false, not, ◌&&◌, Option, none, some, ◌==◌,
  if◌then◌else◌, ◌≡◌, refl, sym, arith, Bool-cases, inl, inr, ==_iff, subst,
}
use mos_volca_shell.Kern.Vars.{
  Bytes, Shell, max_var_num, is_same, is_unused, is_allow, note_empty, check_scan, check_var,
}

-- The first of the `n` numbers from `i` on that passes the test.
unfoldable pub find : (ℕ → Bool) → ℕ → ℕ → Option ℕ
find test zero i = none
find test (suc n) i = let rest = find test n (i + 1) in if test i then some i else rest

-- The variable can be seen under the name.
unfoldable pub is_named : Bytes → Shell → ℕ → Bool
is_named name s i = not (is_unused (s.vars i)) && (is_same ((s.vars i).name) name && is_allow s i)

abbrev pub or_else : Option ℕ → Option ℕ → Option ℕ
or_else none y = y
or_else (some i) y = some i

-- The first unused variable, where one may be filled.
unfoldable pub find_unused : Bool → ℕ → ℕ → Shell → Option ℕ
unfolding find
find_unused needfill n i s = find (λ j. needfill && is_unused (s.vars j)) n i

or_else-none : (x : Option ℕ) → or_else x none ≡ x
or_else-none none = refl
or_else-none (some i) = refl

-- One round of the one pass, and of the two.
one_round :
    (unused matches needfill : Bool) (i : ℕ) (empty x y : Option ℕ)
    → (if not unused && matches
        then some i
        else or_else x (or_else (if unused then note_empty needfill i empty else empty) y))
      ≡ or_else
          (if not unused && matches then some i else x)
          (or_else empty (if needfill && unused then some i else y))
unfolding note_empty
one_round true matches true i none x y = refl
one_round true matches true i (some j) x y = refl
one_round true matches false i none x y = refl
one_round true matches false i (some j) x y = refl
one_round false true needfill i empty x y = refl
one_round false false true i empty x y = refl
one_round false false false i empty x y = refl

check_scan-eq :
    (n i : ℕ) (needfill : Bool) (empty : Option ℕ) (name : Bytes) (s : Shell)
    → check_scan n i needfill empty name s
      ≡ or_else (find (is_named name s) n i) (or_else empty (find_unused needfill n i s))
unfolding check_scan find is_named find_unused
check_scan-eq zero i needfill empty name s = sym (or_else-none empty)
check_scan-eq (suc n) i needfill empty name s =
    rw
      (check_scan-eq n (i + 1) needfill
        (if is_unused (s.vars i) then note_empty needfill i empty else empty) name s)
      (one_round (is_unused (s.vars i)) (is_same ((s.vars i).name) name && is_allow s i) needfill i
        empty (find (is_named name s) n (i + 1))
        (find (λ j. needfill && is_unused (s.vars j)) n (i + 1)))

-- The one pass of `checkVar` finds what two passes find: the first variable that the caller sees
-- under the name, else, if one may be filled, the first unused one.
pub check_var-two_passes :
    (name : Bytes) (needfill : Bool) (s : Shell)
    → check_var name needfill s
      ≡ or_else (find (is_named name s) max_var_num 0) (find_unused needfill max_var_num 0 s)
unfolding check_var
check_var-two_passes name needfill s = check_scan-eq max_var_num 0 needfill none name s

-- What `find` finds is the first to pass the test.
pub record IsFirst (test : ℕ → Bool) (lo hi r : ℕ) : Type 0 where
  pub above : lo ≤ r
  pub below : r < hi
  pub passes : test r ≡ true
  pub first : (j : ℕ) → lo ≤ j → j < r → test j ≡ false

abbrev pub FindOk : (ℕ → Bool) → ℕ → ℕ → Option ℕ → Type 0
FindOk test lo hi none = (j : ℕ) → lo ≤ j → j < hi → test j ≡ false
FindOk test lo hi (some r) = IsFirst test lo hi r

-- Enough that the test fails at `lo`.
FindOk-later :
    (test : ℕ → Bool) (lo hi : ℕ) (o : Option ℕ)
    → test lo ≡ false
    → FindOk test (lo + 1) hi o
    → FindOk test lo hi o
FindOk-later test lo hi none e f = λ j ge lt. elim (Bool-cases (j == lo)) [
  | inl same ↦ rw ((==_iff _ _).0 same) e
  | inr ne ↦ f j (ground arith) lt
]
FindOk-later test lo hi (some r) e f = record {
  above = omega (arith, f.above);
  below = f.below;
  passes = f.passes;
  first = λ j ge lt. elim (Bool-cases (j == lo)) [
    | inl same ↦ rw ((==_iff _ _).0 same) e
    | inr ne ↦ f.first j (ground arith) lt
  ];
}

pub find-FindOk : (test : ℕ → Bool) (n i : ℕ) → FindOk test i (i + n) (find test n i)
unfolding find
find-FindOk test zero i = λ j ge lt. absurd (omega arith)
find-FindOk test (suc n) i = elim (Bool-cases (test i)) [
  | inl e ↦ rw e (record {
    above = omega arith;
    below = omega arith;
    passes = e;
    first = λ j ge lt. absurd (omega arith);
  })
  | inr e ↦ rw e (
      FindOk-later test i (i + suc n) (find test n (i + 1)) e (
        subst (λ (hi : ℕ). FindOk test (i + 1) hi (find test n (i + 1))) (omega arith)
          (find-FindOk test n (i + 1))))
]

-- A first number is what `find` finds.
pub find-first : (test : ℕ → Bool) (n i r : ℕ) → IsFirst test i (i + n) r → find test n i ≡ some r
unfolding find
find-first test zero i r f = absurd (omega (arith, f.above, f.below))
find-first test (suc n) i r f = elim (Bool-cases (i == r)) [
  | inl same ↦ rw ((==_iff _ _).0 same, f.passes) refl
  | inr ne ↦ rw (f.first i (omega arith) (ground (arith, f.above))) (
      find-first test n (i + 1) r (record {
        above = ground (arith, f.above);
        below = omega (arith, f.below);
        passes = f.passes;
        first = λ j ge lt. f.first j (omega arith) lt;
      }))
]
