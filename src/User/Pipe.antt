-- ===== src/User/Pipe.antt =====
-- `pipe_read` and `pipe_write` of user/lib/pipe.c, each run by itself: while one of them takes steps
-- no other environment runs. A step is one pass of the checks at the head of a loop's body, or one
-- transfer of a byte, which C makes of a load and a store of the position and one of the byte in an
-- order that it leaves open. What `_pipe_is_closed` answers depends on the counts of pages, which the
-- kernel keeps, so each step is given the answers of its first and its second call.
pub mod Stored
pub mod Alone
pub mod Through
use mos_volca_shell.Base.{
  ℕ, zero, suc, ◌+◌, ◌-◌, ◌%◌, ◌^◌, Bool, true, false, not, ◌&&◌, List, [], ◌∷◌, ◌++◌, leb,
  if◌then◌else◌, update, ◌≡◌,
}

-- BY2PIPE
abbrev pub by2pipe : ℕ
by2pipe = 32

-- The positions are `u_int`.
pub record Pipe : Type 0 where
  pub rpos : ℕ
  pub wpos : ℕ
  pub buf : ℕ → ℕ

-- Where a call of `pipe_read` for `n` bytes is: before the checks of byte `i`, before its transfer, or
-- returned.
pub data Reader : Type 0 where
  read_check : ℕ → ℕ → Reader
  read_byte : ℕ → ℕ → Reader
  read_done : ℕ → Reader

-- The same for `pipe_write` of `n` bytes at `wbuf`.
pub data Writer : Type 0 where
  write_check : (ℕ → ℕ) → ℕ → ℕ → Writer
  write_byte : (ℕ → ℕ) → ℕ → ℕ → Writer
  write_done : ℕ → Writer

-- The pipe and its two ends, with the bytes that the reader stored and those that the writer put
-- in so far, over all calls.
pub record Ends : Type 0 where
  pub pipe : Pipe
  pub reader : Reader
  pub writer : Writer
  pub got : List ℕ
  pub sent : List ℕ

-- `p->p_rpos >= p->p_wpos`
abbrev pub is_empty : Pipe → Bool
is_empty p = leb p.wpos p.rpos

-- `p->p_wpos - p->p_rpos >= BY2PIPE`
abbrev pub is_full : Pipe → Bool
is_full p = leb by2pipe ((p.wpos + 2 ^ 32 - p.rpos) % 2 ^ 32)

-- The head of the loop, the loop that waits, and the test after it.
unfoldable pub check_read : Bool → Bool → ℕ → ℕ → Pipe → Reader
check_read closed closed' n i p =
    if leb n i
    then read_done n
    else if not closed && is_empty p
    then read_check n i
    else if closed' && is_empty p
    then read_done i
    else read_byte n i

unfoldable pub check_write : Bool → Bool → (ℕ → ℕ) → ℕ → ℕ → Pipe → Writer
check_write closed closed' wbuf n i p =
    if leb n i
    then write_done n
    else if not closed && is_full p
    then write_check wbuf n i
    else if closed'
    then write_done i
    else write_byte wbuf n i

-- `p->p_buf[(p->p_rpos++) % BY2PIPE]`
unfoldable pub take_byte : ℕ → ℕ → Ends → Ends
take_byte n i s = record s {
  pipe = record (s.pipe) { rpos = (s.pipe.rpos + 1) % 2 ^ 32 };
  got = s.got ++ (s.pipe.buf (s.pipe.rpos % by2pipe) ∷ []);
  reader = read_check n (i + 1);
}

-- `p->p_buf[(p->p_wpos++) % BY2PIPE] = *(wbuf + i)`
unfoldable pub put_byte : (ℕ → ℕ) → ℕ → ℕ → Ends → Ends
put_byte wbuf n i s = record s {
  pipe = record (s.pipe) {
    wpos = (s.pipe.wpos + 1) % 2 ^ 32;
    buf = update (s.pipe.buf) (s.pipe.wpos % by2pipe) (wbuf i);
  };
  sent = s.sent ++ (wbuf i ∷ []);
  writer = write_check wbuf n (i + 1);
}

unfoldable pub pipe_read : Bool → Bool → Reader → Ends → Ends
unfolding check_read take_byte
pipe_read closed closed' (read_check n i) s = record s {
  reader = check_read closed closed' n i s.pipe;
}
pipe_read closed closed' (read_byte n i) s = take_byte n i s
pipe_read closed closed' (read_done r) s = s

unfoldable pub pipe_write : Bool → Bool → Writer → Ends → Ends
unfolding check_write put_byte
pipe_write closed closed' (write_check wbuf n i) s = record s {
  writer = check_write closed closed' wbuf n i s.pipe;
}
pipe_write closed closed' (write_byte wbuf n i) s = put_byte wbuf n i s
pipe_write closed closed' (write_done r) s = s

-- A new pipe: its page is zero, and nobody is in a call.
abbrev pub opened : Ends
opened = record {
  pipe = record { rpos = 0; wpos = 0; buf = λ i. 0 };
  reader = read_done 0;
  writer = write_done 0;
  got = [];
  sent = [];
}

-- The reader alone, for `k` steps.
unfoldable pub reader_alone : Bool → Bool → ℕ → Ends → Ends
unfolding pipe_read
reader_alone closed closed' zero s = s
reader_alone closed closed' (suc k) s =
    reader_alone closed closed' k (pipe_read closed closed' s.reader s)

-- The writer alone, for `k` steps.
unfoldable pub writer_alone : Bool → Bool → ℕ → Ends → Ends
unfolding pipe_write
writer_alone closed closed' zero s = s
writer_alone closed closed' (suc k) s =
    writer_alone closed closed' k (pipe_write closed closed' s.writer s)
