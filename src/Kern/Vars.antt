-- ===== src/Kern/Vars.antt =====
-- The shell variables of kern/syscall_all.c. A C string is the list of its bytes before the 0, so
-- no byte in it is 0 and the empty list is the empty string. `strcpy` into an array that is too
-- small for the string is undefined in C, and the model stops.
pub mod Lookup
pub mod Declare
use mos_volca_shell.Base.{
  ℕ, zero, suc, ◌+◌, ◌%◌, ◌^◌, Bool, true, false, not, ◌&&◌, ◌||◌, Option, none, some, List, [],
  ◌∷◌, ◌==◌, ltb, leb, if◌then◌else◌, update, length, Run, ok, err, panic, Cmd, ◌>>=◌, ◌>>◌, pure,
  modify, unspecified, bad_env,
}

abbrev pub Bytes : Type 0
Bytes = List ℕ

pub record Var : Type 0 where
  pub name : Bytes
  pub value : Bytes
  pub shell_id : ℕ
  pub perm : ℕ

-- `vars`, `nowShellId`, and `curenv->env_shellId`.
pub record Shell : Type 0 where
  pub vars : ℕ → Var
  pub now_shell_id : ℕ
  pub cur_shell_id : ℕ

-- MAXVARNUM, VARNEMELEN and VARVALUELEN
abbrev pub max_var_num : ℕ
max_var_num = 1024

abbrev pub var_name_len : ℕ
var_name_len = 128

abbrev pub var_value_len : ℕ
var_value_len = 1024

-- `strcmp(p, q) == 0`
unfoldable pub is_same : Bytes → Bytes → Bool
is_same [] [] = true
is_same [] (y ∷ ys) = false
is_same (x ∷ xs) [] = false
is_same (x ∷ xs) (y ∷ ys) = (x == y) && is_same xs ys

-- `name[0] == 0`
abbrev pub is_unused : Var → Bool
is_unused v = elim v.name [ [] ↦ true | x ∷ xs ↦ false ]

-- `perm & VAR_RDONLY`
abbrev pub is_read_only : Var → Bool
is_read_only v = v.perm % 2 == 1

-- `isAllow`
unfoldable pub is_allow : Shell → ℕ → Bool
is_allow s i = ((s.vars i).shell_id == 0) || ((s.vars i).shell_id == s.cur_shell_id)

-- `empty`, after a look at an unused variable.
unfoldable pub note_empty : Bool → ℕ → Option ℕ → Option ℕ
note_empty needfill i none = if needfill then some i else none
note_empty needfill i (some j) = some j

-- The loop of `checkVar` from `i` on, with `n` rounds left.
unfoldable pub check_scan : ℕ → ℕ → Bool → Option ℕ → Bytes → Shell → Option ℕ
unfolding is_same is_allow note_empty
check_scan zero i needfill empty name s = empty
check_scan (suc n) i needfill empty name s =
    let rest =
      check_scan n (i + 1) needfill
        (if is_unused (s.vars i) then note_empty needfill i empty else empty) name s in
    if not (is_unused (s.vars i)) && (is_same ((s.vars i).name) name && is_allow s i)
    then some i
    else rest

-- None stands for -1.
unfoldable pub check_var : Bytes → Bool → Shell → Option ℕ
unfolding check_scan
check_var name needfill s = check_scan max_var_num 0 needfill none name s

unfoldable pub sys_alloc_shell_id : Cmd Shell (Unit {0})
sys_alloc_shell_id s =
    ok tt (record s { cur_shell_id = s.now_shell_id; now_shell_id = (s.now_shell_id + 1) % 2 ^ 32 })

-- The two `strcpy` and the assignments of `sys_declare_var`.
unfoldable pub fill_var : ℕ → Bytes → Bytes → ℕ → Bool → Cmd Shell (Unit {0})
fill_var r name value perm is_global s =
    if leb var_name_len (length name) || leb var_value_len (length value)
    then panic
    else ok tt (record s {
      vars = update s.vars r (record {
        name = name;
        value = value;
        shell_id = if is_global then 0 else s.cur_shell_id;
        perm = perm;
      });
    })

-- The codes -1 and -2 are those of E_UNSPECIFIED and E_BAD_ENV.
unfoldable pub declare_at : Option ℕ → Bytes → Bytes → ℕ → Bool → Cmd Shell (Unit {0})
unfolding fill_var
declare_at none name value perm is_global s = err unspecified s
declare_at (some r) name value perm is_global s =
    if is_read_only (s.vars r) then err bad_env s else fill_var r name value perm is_global s

unfoldable pub sys_declare_var : Bytes → Bytes → ℕ → Bool → Cmd Shell (Unit {0})
unfolding check_var declare_at
sys_declare_var name value perm is_global s =
    declare_at (check_var name true s) name value perm is_global s

unfoldable pub unset_at : Option ℕ → Cmd Shell (Unit {0})
unset_at none s = err unspecified s
unset_at (some r) s =
    if is_read_only (s.vars r)
    then err bad_env s
    else ok tt (record s { vars = update s.vars r (record (s.vars r) { name = [] }) })

unfoldable pub sys_unset_var : Bytes → Cmd Shell (Unit {0})
unfolding check_var unset_at
sys_unset_var name s = unset_at (check_var name false s) s

unfoldable pub get_at : Option ℕ → Cmd Shell Bytes
get_at none s = err unspecified s
get_at (some r) s = ok ((s.vars r).value) s

unfoldable pub sys_get_var : Bytes → Cmd Shell Bytes
unfolding check_var get_at
sys_get_var name s = get_at (check_var name false s) s

-- The loop of `sys_get_all_var`: the names and values that the caller may see.
unfoldable pub get_all_scan : ℕ → ℕ → Shell → List (Bytes × Bytes)
unfolding is_allow
get_all_scan zero i s = []
get_all_scan (suc n) i s =
    let rest = get_all_scan n (i + 1) s in
    if not (is_unused (s.vars i)) && is_allow s i
    then ((s.vars i).name, (s.vars i).value) ∷ rest
    else rest

unfoldable pub sys_get_all_var : Cmd Shell (List (Bytes × Bytes))
unfolding get_all_scan
sys_get_all_var s = ok (get_all_scan max_var_num 0 s) s
