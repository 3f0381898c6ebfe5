-- ===== src/User/Pipe/Alone.antt =====
-- `pipe_read` of user/lib/pipe.c, while no other environment runs.
use mos_volca_shell.Base.{
  ℕ, zero, suc, ◌+◌, ◌*◌, ◌≤◌, ◌<◌, ◌%◌, ◌^◌, Bool, true, false, not, ◌&&◌, [], ◌∷◌, ◌++◌, leb, ◌≡◌,
  refl, sym, ap, ◌∙◌, arith, append_assoc, append-nil,
}
use mos_volca_shell.User.Pipe.{
  Pipe, Ends, by2pipe, is_empty, read_check, read_byte, read_done, check_read, take_byte, pipe_read,
  reader_alone,
}
use mos_volca_shell.User.Pipe.Stored.{stored}

module _ (closed closed' : Bool) where
  check_over : (n : ℕ) (p : Pipe) → check_read closed closed' n n p ≡ read_done n
  unfolding check_read
  check_over n p = rw (over n) refl
    where
      over : (n : ℕ) → leb n n ≡ true
      over n = ground arith

  goes_on : (a b : Bool) → b ≡ false → (a && b) ≡ false
  goes_on true b e = e
  goes_on false b e = refl

  check_more :
      (n i : ℕ) (p : Pipe)
      → i < n
      → p.rpos < p.wpos
      → check_read closed closed' n i p ≡ read_byte n i
  unfolding check_read
  check_more n i p lt more =
      let some_left : is_empty p ≡ false = ground arith in
      let inside : leb n i ≡ false = ground arith in
      rw
        (
          inside,
          goes_on (not closed) (is_empty p) some_left,
          goes_on closed' (is_empty p) some_left,
        )
        refl

  -- Two steps transfer one byte.
  two_steps :
      (n i : ℕ) (s : Ends)
      → s.reader ≡ read_check n i
      → i < n
      → s.pipe.rpos < s.pipe.wpos
      → (k : ℕ)
      → reader_alone closed closed' (suc (suc k)) s
        ≡ reader_alone closed closed' k (take_byte n i s)
  unfolding reader_alone pipe_read take_byte
  two_steps n i s e lt more k = rw (e, check_more n i s.pipe lt more) refl

  -- A `pipe_read` at its byte `i` of `n`, with the other `k` bytes in the pipe and positions
  -- below 2^32, returns `n` after 2k+1 steps of the reader alone, whatever `_pipe_is_closed`
  -- answers, and stores these `k` bytes in order.
  pub reader_alone-reads :
      (k n i : ℕ) (s : Ends)
      → s.reader ≡ read_check n i
      → i + k ≡ n
      → s.pipe.rpos + k ≤ s.pipe.wpos
      → s.pipe.wpos < 2 ^ 32
      → ((reader_alone closed closed' (2 * k + 1) s).reader ≡ read_done n)
        × ((reader_alone closed closed' (2 * k + 1) s).got
            ≡ s.got ++ stored s.pipe.buf s.pipe.rpos k)
  unfolding reader_alone pipe_read stored take_byte
  reader_alone-reads zero n i s e sum room lt =
      let same : i ≡ n = omega arith in
      (rw (e, same) (check_over n s.pipe), rw e (sym (append-nil s.got)))
  reader_alone-reads (suc k) n i s e sum room lt =
      let count : 2 * suc k + 1 ≡ suc (suc (2 * k + 1)) = omega arith in
      let next : (s.pipe.rpos + 1) % 2 ^ 32 ≡ s.pipe.rpos + 1 = omega arith in
      let (done, bytes) =
        reader_alone-reads k n (i + 1) (take_byte n i s) refl (omega arith) (omega arith) lt in
      let run : reader_alone closed closed' (2 * suc k + 1) s
          ≡ reader_alone closed closed' (2 * k + 1) (take_byte n i s) =
        rw count (two_steps n i s e (omega arith) (omega arith) (2 * k + 1)) in
      (
        ap (λ (t : Ends). t.reader) run ∙ done,
        ap (λ (t : Ends). t.got) run
            ∙ bytes
            ∙ append_assoc s.got (s.pipe.buf (s.pipe.rpos % by2pipe) ∷ []) _
            ∙ ap (λ (r : ℕ). s.got ++ (s.pipe.buf (s.pipe.rpos % by2pipe) ∷ stored s.pipe.buf r k))
                next,
      )
