-- ===== src/User/History.antt =====
-- The history of commands, user/lib/history.c: the file ".history" and three offsets into it. Reads,
-- writes and seeks are those of a file descriptor: a read stops at the end of the file and leaves the
-- rest of the buffer as it was, and a write that would make the file too large does nothing.
pub mod File
pub mod All
mod Tests
use mos_volca_shell.Base.{
  ℕ, zero, suc, ◌+◌, ◌-◌, ◌*◌, ◌/◌, ◌%◌, ◌^◌, Bool, true, false, not, ◌&&◌, ◌||◌, Option, none,
  some, List, [], ◌∷◌, ◌++◌, ◌==◌, ltb, leb, if◌then◌else◌, length,
}
use mos_volca_shell.Text.{Str, strlen, first_byte}

-- MAXFILESIZE
abbrev pub max_file_size : ℕ
max_file_size = 0x400000

pub record History : Type 0 where
  pub now_off : ℕ
  pub max_off : ℕ
  pub fake_max_off : ℕ
  -- the file
  pub size : ℕ
  pub bytes : ℕ → ℕ

abbrev pub byte_of : Str → ℕ → ℕ
byte_of [] k = 0
byte_of (c ∷ s) zero = c
byte_of (c ∷ s) (suc k) = byte_of s k

-- `seek` to `offset` and `write`
unfoldable pub write_at : ℕ → Str → History → History
write_at offset s h = if ltb max_file_size (offset + length s) then h else record h {
  size = if ltb h.size (offset + length s) then offset + length s else h.size;
  bytes =
      λ k. if leb offset k && ltb k (offset + length s) then byte_of s (k - offset) else h.bytes k;
}

-- The byte that `read` leaves in the buffer, which held `old`.
abbrev pub byte_at : History → ℕ → ℕ → ℕ
byte_at h k old = if ltb k h.size then h.bytes k else old

-- `n` bytes from `offset` on, into a buffer that held `old`
unfoldable pub read_at : ℕ → ℕ → (ℕ → ℕ) → History → Str
read_at zero offset old h = []
read_at (suc n) offset old h =
    byte_at h offset (old 0) ∷ read_at n (offset + 1) (λ k. old (k + 1)) h

-- The four bytes of an `int`.
unfoldable pub int_bytes : ℕ → Str
int_bytes v = v % 256 ∷ v / 256 % 256 ∷ v / 65536 % 256 ∷ v / 16777216 % 256 ∷ []

-- An `int` that is read into a variable that held `old`.
unfoldable pub read_int : ℕ → ℕ → History → ℕ
read_int offset old h =
    byte_at h offset (old % 256)
    + 256 * byte_at h (offset + 1) (old / 256 % 256)
    + 65536 * byte_at h (offset + 2) (old / 65536 % 256)
    + 16777216 * byte_at h (offset + 3) (old / 16777216 % 256)

-- `history_init`, with a file that can be opened.
unfoldable pub history_init : History → History
history_init h = record h { now_off = 0; max_off = 0; fake_max_off = 0 }

unfoldable pub write_entry : ℕ → Str → History → History
unfolding write_at int_bytes strlen
write_entry offset buf h =
    let len : ℕ = strlen buf in
    write_at (offset + 12 + len) (int_bytes 0) (
      write_at (offset + 8 + len) (int_bytes 0) (
        write_at (offset + 4 + len) (int_bytes len)
          (write_at (offset + 4) buf (write_at offset (int_bytes len) h))))

-- The variables and the buffers of the caller before a read: `len`, and `buf`.
pub record Junk : Type 0 where
  pub len : ℕ
  pub buf : ℕ → ℕ

-- The bytes of `buf` before the NUL at `buf[len]`; there are `len` of them.
unfoldable pub read_down_entry : Junk → ℕ → History → Str
unfolding read_int read_at
read_down_entry j offset h = read_at (read_int offset (j.len) h) (offset + 4) (j.buf) h

unfoldable pub read_up_entry : Junk → ℕ → History → Str
unfolding read_int read_at
read_up_entry j offset h =
    let len : ℕ = read_int (offset - 4) (j.len) h in read_at len (offset - 4 - len) (j.buf) h

-- The results of the functions below: a negative one is `none`.
unfoldable pub history_write : Bool → Str → History → Option History
unfolding write_entry strlen
history_write opens buf h =
    if (first_byte buf == 0) || not opens
    then none
    else some (record (write_entry h.max_off buf h) {
      max_off = h.max_off + strlen buf + 8;
      now_off = h.max_off + strlen buf + 8;
      fake_max_off = h.max_off + strlen buf + 8;
    })

-- MAX_CMD_LEN, the bytes of a row of `tmpBuf`
abbrev pub max_cmd_len : ℕ
max_cmd_len = 1024

-- The loop of `history_get_all` from the offset `off` on, with room for `n` commands. C writes
-- behind `tmpBuf` when there is no room left, and behind its row when a command and the NUL do not
-- fit in it: `none`.
unfoldable pub get_from : ℕ → Junk → ℕ → History → Option (List Str × ℕ)
unfolding read_down_entry
get_from zero j off h = none
get_from (suc n) j off h =
    let entry : Str = read_down_entry j off h in
    let rest = get_from n j (off + length entry + 8) h in
    if leb max_cmd_len (length entry)
    then none
    else if length entry == 0
    then some ([], off)
    else elim rest [ none ↦ none | some (entries, last) ↦ some (entry ∷ entries, last) ]

-- The commands, with `nowOff` left at the end of them.
unfoldable pub note_last : History → Option (List Str × ℕ) → Option (List Str × History)
note_last h none = none
note_last h (some (entries, last)) = some (entries, record h { now_off = last })

unfoldable pub history_get_all : Junk → History → Option (List Str × History)
unfolding get_from note_last
history_get_all j h = note_last h (get_from 1024 j 0 h)

-- The line that is being edited is kept behind the last command.
unfoldable pub keep_line : Bool → Str → History → History
unfolding write_entry strlen
keep_line up now_buf h =
    if (h.now_off == h.max_off) && up
    then record (write_entry h.max_off now_buf h) { fake_max_off = h.max_off + strlen now_buf + 8 }
    else h

-- One step down: over the entry at `nowOff`, to the next one.
unfoldable pub go_down : Junk → History → Str × History
unfolding read_down_entry
go_down j h =
    let next : History =
      if ltb h.now_off h.max_off
      then record h { now_off = h.now_off + length (read_down_entry j h.now_off h) + 8 }
      else h in
    (read_down_entry j next.now_off next, next)

unfoldable pub go_up : Junk → History → Str × History
unfolding read_up_entry
go_up j h =
    let entry : Str = read_up_entry j h.now_off h in
    (entry, record h { now_off = h.now_off - (length entry + 8) })

-- `history_next` with a file that can be opened; `up` is its direction. The results are -1, or 0 with nothing read, or what was read.
pub data Browsed : Type 0 where
  refused stays : Browsed
  moved : Str → History → Browsed

unfoldable pub history_next : Junk → Str → Bool → History → Browsed
unfolding keep_line go_down go_up
history_next j now_buf up h =
    if ((h.now_off == 0) && up) || (h.max_off == 0)
    then refused
    else if (h.now_off == h.max_off) && (not up && (h.max_off == h.fake_max_off))
    then stays
    else let r =
        if up then go_up j (keep_line up now_buf h) else go_down j (keep_line up now_buf h) in
      moved (r.0) (r.1)
