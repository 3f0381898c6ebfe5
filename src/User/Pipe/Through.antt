-- ===== src/User/Pipe/Through.antt =====
-- `pipe_write` of user/lib/pipe.c, while no other environment runs, and a `pipe_read` after it.
use mos_volca_shell.Base.{
  ℕ, zero, suc, ◌+◌, ◌-◌, ◌*◌, ◌≤◌, ◌<◌, ◌%◌, ◌^◌, Bool, true, false, not, ◌&&◌, List, [], ◌∷◌,
  ◌++◌, leb, ◌≡◌, refl, sym, ap, ◌∙◌, arith, append_assoc, append-nil, subst, update,
}
use mos_volca_shell.User.Pipe.{
  Pipe, Ends, by2pipe, is_full, read_check, read_done, write_check, write_byte, write_done,
  check_write, put_byte, pipe_write, reader_alone, writer_alone,
}
use mos_volca_shell.User.Pipe.Stored.{stored, stored-update}
use mos_volca_shell.User.Pipe.Alone.{reader_alone-reads}

-- `k` bytes of `wbuf`, from `i` on.
abbrev pub bytes_of : (ℕ → ℕ) → ℕ → ℕ → List ℕ
bytes_of wbuf i zero = []
bytes_of wbuf i (suc k) = wbuf i ∷ bytes_of wbuf (i + 1) k

-- What a `pipe_write` leaves that has put in `k` more bytes, and returned `n`.
pub record Wrote (wbuf : ℕ → ℕ) (n i k : ℕ) (s t : Ends) : Type 0 where
  pub returned : t.writer ≡ write_done n
  pub same_rpos : t.pipe.rpos ≡ s.pipe.rpos
  pub wpos_after : t.pipe.wpos ≡ s.pipe.wpos + k
  pub same_reader : t.reader ≡ s.reader
  pub same_got : t.got ≡ s.got
  pub bytes :
      stored t.pipe.buf s.pipe.rpos (s.pipe.wpos + k - s.pipe.rpos)
      ≡ stored s.pipe.buf s.pipe.rpos (s.pipe.wpos - s.pipe.rpos) ++ bytes_of wbuf i k

module _ (closed : Bool) (wbuf : ℕ → ℕ) where
  check_over : (n : ℕ) (p : Pipe) → check_write closed false wbuf n n p ≡ write_done n
  unfolding check_write
  check_over n p = rw (over n) refl
    where
      over : (n : ℕ) → leb n n ≡ true
      over n = ground arith

  goes_on : (a b : Bool) → b ≡ false → (a && b) ≡ false
  goes_on true b e = e
  goes_on false b e = refl

  check_room :
      (n i : ℕ) (p : Pipe)
      → i < n
      → p.rpos ≤ p.wpos
      → p.wpos < p.rpos + by2pipe
      → p.wpos < 2 ^ 32
      → check_write closed false wbuf n i p ≡ write_byte wbuf n i
  unfolding check_write
  check_room n i p lt le room small =
      let some_room : is_full p ≡ false = ground arith in
      let inside : leb n i ≡ false = ground arith in
      rw (inside, goes_on (not closed) (is_full p) some_room) refl

  -- Two steps transfer one byte.
  two_steps :
      (n i : ℕ) (s : Ends)
      → s.writer ≡ write_check wbuf n i
      → i < n
      → s.pipe.rpos ≤ s.pipe.wpos
      → s.pipe.wpos < s.pipe.rpos + by2pipe
      → s.pipe.wpos < 2 ^ 32
      → (k : ℕ)
      → writer_alone closed false (suc (suc k)) s
        ≡ writer_alone closed false k (put_byte wbuf n i s)
  unfolding writer_alone pipe_write put_byte
  two_steps n i s e lt le room small k = rw (e, check_room n i s.pipe lt le room small) refl

  writer_alone-Wrote :
      (k n i : ℕ) (s : Ends)
      → s.writer ≡ write_check wbuf n i
      → i + k ≡ n
      → s.pipe.rpos ≤ s.pipe.wpos
      → s.pipe.wpos + k ≤ s.pipe.rpos + by2pipe
      → s.pipe.wpos + k < 2 ^ 32
      → Wrote wbuf n i k s (writer_alone closed false (2 * k + 1) s)
  unfolding writer_alone pipe_write put_byte
  writer_alone-Wrote zero n i s e sum le room small =
      let same : i ≡ n = omega arith in
      let none_more : s.pipe.wpos + 0 ≡ s.pipe.wpos = omega arith in
      rw e (record {
        returned = rw same (check_over n s.pipe);
        same_rpos = refl;
        wpos_after = sym none_more;
        same_reader = refl;
        same_got = refl;
        bytes = rw none_more (sym (append-nil _));
      })
  writer_alone-Wrote (suc k) n i s e sum le room small =
      let count : 2 * suc k + 1 ≡ suc (suc (2 * k + 1)) = omega arith in
      let next : (s.pipe.wpos + 1) % 2 ^ 32 ≡ s.pipe.wpos + 1 = omega arith in
      let run : writer_alone closed false (2 * suc k + 1) s
          ≡ writer_alone closed false (2 * k + 1) (put_byte wbuf n i s) =
        rw count (two_steps n i s e (omega arith) le (omega arith) (omega arith) (2 * k + 1)) in
      let w =
        writer_alone-Wrote k n (i + 1) (put_byte wbuf n i s) refl (omega arith) (omega arith)
          (omega arith) (omega arith) in
      let one_in : stored (update (s.pipe.buf) (s.pipe.wpos % by2pipe) (wbuf i)) s.pipe.rpos
            ((s.pipe.wpos + 1) % 2 ^ 32 - s.pipe.rpos)
          ≡ stored s.pipe.buf s.pipe.rpos (s.pipe.wpos - s.pipe.rpos) ++ (wbuf i ∷ []) =
        ap (stored (update (s.pipe.buf) (s.pipe.wpos % by2pipe) (wbuf i)) s.pipe.rpos)
          (omega (arith, next, le))
        ∙ stored-update s.pipe.buf (wbuf i) (s.pipe.wpos % by2pipe) (s.pipe.wpos - s.pipe.rpos)
            s.pipe.rpos (omega arith) (omega (arith, le)) in
      subst (Wrote wbuf n i (suc k) s) (sym run) (record {
        returned = w.returned;
        same_rpos = w.same_rpos;
        wpos_after = w.wpos_after ∙ omega (arith, next);
        same_reader = w.same_reader;
        same_got = w.same_got;
        bytes =
            ap (stored _ s.pipe.rpos) (omega (arith, next))
            ∙ w.bytes
            ∙ ap (λ l. l ++ bytes_of wbuf (i + 1) k) one_in
            ∙ append_assoc _ (wbuf i ∷ []) (bytes_of wbuf (i + 1) k);
      })

  nothing_stored : (buf : ℕ → ℕ) (r m : ℕ) → m ≡ 0 → stored buf r m ≡ []
  unfolding stored
  nothing_stored buf r m e = rw e refl

  -- While no other environment runs: a `pipe_write` of at most 32 bytes into an empty pipe that
  -- is not found closed by its second test, with positions below 2^32, returns their number `n`
  -- after 2n+1 steps, and a `pipe_read` of `n` bytes then returns `n` after 2n+1 steps and has
  -- stored these bytes in order.
  pub write_then_read :
      (a b : Bool) (n : ℕ) (s : Ends)
      → s.writer ≡ write_check wbuf n 0
      → s.reader ≡ read_check n 0
      → s.pipe.rpos ≡ s.pipe.wpos
      → n ≤ by2pipe
      → s.pipe.wpos + n < 2 ^ 32
      → ((writer_alone closed false (2 * n + 1) s).writer ≡ write_done n)
        × ((reader_alone a b (2 * n + 1) (writer_alone closed false (2 * n + 1) s)).reader
            ≡ read_done n)
        × ((reader_alone a b (2 * n + 1) (writer_alone closed false (2 * n + 1) s)).got
            ≡ s.got ++ bytes_of wbuf 0 n)
  write_then_read a b n s e f empty few small =
      let t : Ends = writer_alone closed false (2 * n + 1) s in
      let w : Wrote wbuf n 0 n s t =
        writer_alone-Wrote n n 0 s e (omega arith) (omega (arith, empty))
          (omega (arith, empty, few)) small in
      let (done, got) =
        reader_alone-reads a b n n 0 t (w.same_reader ∙ f) (omega arith)
          (omega (arith, w.same_rpos, w.wpos_after, empty)) (omega (arith, w.wpos_after, small)) in
      let in_pipe : stored t.pipe.buf t.pipe.rpos n ≡ bytes_of wbuf 0 n =
        ap (λ r. stored t.pipe.buf r n) w.same_rpos
        ∙ ap (stored t.pipe.buf s.pipe.rpos) (omega (arith, empty))
        ∙ w.bytes
        ∙ ap (λ l. l ++ bytes_of wbuf 0 n)
            (nothing_stored s.pipe.buf s.pipe.rpos (s.pipe.wpos - s.pipe.rpos)
              (omega (arith, empty))) in
      (
        w.returned,
        done,
        got
            ∙ ap (λ l. l ++ stored t.pipe.buf t.pipe.rpos n) w.same_got
            ∙ ap (λ l. s.got ++ l) in_pipe,
      )
