-- ===== src/User/Pipe/Stored.antt =====
-- The bytes that stand in the buffer of a pipe, user/lib/pipe.c.
use mos_volca_shell.Base.{
  ℕ, zero, suc, ◌+◌, ◌%◌, ◌<◌, List, [], ◌∷◌, ◌++◌, update, ◌≡◌, refl, arith, ==-ne, ==_iff,
}
use mos_volca_shell.User.Pipe.{by2pipe}

-- The bytes that stand in the buffer: `n` of them from position `r` on.
unfoldable pub stored : (ℕ → ℕ) → ℕ → ℕ → List ℕ
stored buf r zero = []
stored buf r (suc n) = buf (r % by2pipe) ∷ stored buf (r + 1) n

-- A byte put in behind the last one is the last one.
pub stored-update :
    (buf : ℕ → ℕ) (x k n r : ℕ)
    → n < by2pipe
    → k ≡ (r + n) % by2pipe
    → stored (update buf k x) r (suc n) ≡ stored buf r n ++ (x ∷ [])
unfolding stored
stored-update buf x k zero r lt e = rw ((==_iff (r % by2pipe) k).1 (omega (arith, e))) refl
stored-update buf x k (suc n) r lt e =
    rw
      (
        ==-ne (r % by2pipe) k (omega (arith, e)),
        stored-update buf x k n (r + 1) (omega arith) (omega (arith, e)),
      )
      refl
