-- ===== src/Base/Monad.antt =====
-- A run of a C function of the kernel over the state that it changes. A negative return code is
-- an `err` that keeps what was written before it; `panic` halts the machine.
use mathlib.Core.Bool.{Bool, true, false}

-- include/error.h
pub data Error : Type 0 where
  unspecified bad_env inval no_mem no_sys no_free_env ipc_not_recv : Error
  no_disk max_open not_found bad_path file_exists not_exec : Error

pub data Run (S : Type 0) (A : Type 0) : Type 0 where
  ok : A → S → Run S A
  err : Error → S → Run S A
  panic : Run S A

abbrev pub Cmd : Type 0 → Type 0 → Type 0
Cmd S A = S → Run S A

module _ {S A B : Type 0} where
  -- What follows a call under the `try` macro: an error is returned at once.
  abbrev pub and_then : Run S A → (A → Cmd S B) → Run S B
  and_then (ok a s) k = k a s
  and_then (err e s) k = err e s
  and_then panic k = panic

  infixl 5 ◌>>=◌
  abbrev pub ◌>>=◌ : Cmd S A → (A → Cmd S B) → Cmd S B
  ◌>>=◌ m k s = and_then (m s) k

  infixl 5 ◌>>◌
  abbrev pub ◌>>◌ : Cmd S A → Cmd S B → Cmd S B
  m >> k = m >>= λ _. k

module _ {S A : Type 0} where
  abbrev pub pure : A → Cmd S A
  pure a s = ok a s

  abbrev pub fail : Error → Cmd S A
  fail e s = err e s

  abbrev pub halt : Cmd S A
  halt s = panic

  -- What a run leaves behind, whichever code it returned.
  abbrev pub Leaves : (S → Type 0) → Run S A → Type 0
  Leaves P (ok a s) = P s
  Leaves P (err e s) = P s
  Leaves P panic = Unit {0}

module _ {S : Type 0} where
  abbrev pub modify : (S → S) → Cmd S (Unit {0})
  modify f s = ok tt (f s)

  abbrev pub gets : {A : Type 0} → (S → A) → Cmd S A
  gets f s = ok (f s) s

  -- The `assert` macro.
  abbrev pub assert : Bool → Cmd S (Unit {0})
  assert true s = ok tt s
  assert false s = panic
