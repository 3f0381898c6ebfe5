-- ===== src/Fs/Serv.antt =====
-- The file server's requests, fs/serv.c. An entry of the table of open files is its number, and its
-- page at `o_ff` has the same number. A message is one that `ipc_send` has delivered: it is added to
-- `replies`, with the page that goes with it. How many environments have mapped a page is for the
-- kernel to say: `refs` changes where the server allocates the page, and each message comes with what
-- the counts are when the server goes on.
pub mod Ids
pub mod Answer
mod Tests
use mos_volca_shell.Base.{
  ℕ, zero, suc, ◌+◌, ◌-◌, ◌*◌, ◌/◌, ◌%◌, ◌^◌, Bool, true, false, not, ◌&&◌, ◌||◌, Option, none,
  some, List, [], ◌∷◌, ◌++◌, ◌==◌, ltb, leb, if◌then◌else◌, update, Run, ok, err, panic, Cmd, ◌>>=◌,
  ◌>>◌, pure, fail, modify, gets, halt, and_then, Error, no_mem, max_open, inval,
}
use mos_volca_shell.Bits.{test_bit}
use mos_volca_shell.Text.{Str}
use mos_volca_shell.Fs.Block.{Fs, Words}
use mos_volca_shell.Fs.File.{Ptr, by2blk, write_word, file_get_block, file_dirty}
use mos_volca_shell.Fs.Dir.{
  f_type, ftype_dir, file_open, file_openat, file_create, file_set_size, file_close, file_remove,
  fs_sync,
}

-- MAXOPEN
abbrev pub max_files : ℕ
max_files = 1024

-- The page of an open file: `struct Filefd`, with the words of the file's structure.
pub record Filefd : Type 0 where
  pub dev_id : ℕ
  pub offset : ℕ
  pub omode : ℕ
  pub fileid : ℕ
  pub file : Words

-- The value of a message: 0, an error code, or another word.
pub data Code : Type 0 where
  success : Code
  error : Error → Code
  word : ℕ → Code

-- The page that goes with a message: that of an open file, or of a block.
pub data Page : Type 0 where
  no_page : Page
  filefd block : ℕ → Page

pub record Reply : Type 0 where
  pub whom : ℕ
  pub code : Code
  pub page : Page

-- The file system, the columns of `opentab`, the pages at FILEVA and how often each is mapped, and
-- the messages sent so far.
pub record Server : Type 0 where
  pub fs : Fs
  pub o_file : ℕ → Option Ptr
  pub o_fileid : ℕ → ℕ
  pub o_mode : ℕ → ℕ
  pub ff : ℕ → Filefd
  pub refs : ℕ → ℕ
  pub replies : List Reply

-- A call into fs/fs.c.
abbrev pub put_fs : {A : Type 0} → Server → Run Fs A → Run Server A
put_fs s (ok a t) = ok a (record s { fs = t })
put_fs s (err e t) = err e (record s { fs = t })
put_fs s panic = panic

abbrev pub on_fs : {A : Type 0} → Cmd Fs A → Cmd Server A
on_fs m s = put_fs s (m s.fs)

abbrev pub ipc_send : ℕ → Code → Page → Cmd Server (Unit {0})
ipc_send whom code page s =
    ok tt
      (record s { replies = s.replies ++ (record { whom = whom; code = code; page = page } ∷ []) })

-- A handler that sends an error code and returns, or goes on.
abbrev pub or_reply :
    {A : Type 0} → ℕ → Run Server A → (A → Cmd Server (Unit {0})) → Run Server (Unit {0})
or_reply whom (ok a s) go_on = go_on a s
or_reply whom (err e s) go_on = ipc_send whom (error e) no_page s
or_reply whom panic go_on = panic

-- The loop of `serve_init` from entry `i` on.
unfoldable pub init_ids : ℕ → ℕ → (ℕ → ℕ) → ℕ → ℕ
init_ids zero i ids = ids
init_ids (suc n) i ids = init_ids n (i + 1) (update ids i i)

unfoldable pub serve_init : Server → Server
unfolding init_ids
serve_init s = record s { o_fileid = init_ids max_files 0 s.o_fileid }

abbrev pub empty_page : Filefd
empty_page = record { dev_id = 0; offset = 0; omode = 0; fileid = 0; file = λ _. 0 }

-- `syscall_mem_alloc` of the page of an entry
unfoldable pub alloc_page : ℕ → Cmd Server (Unit {0})
alloc_page i s =
    if s.fs.avail == 0
    then err no_mem s
    else ok tt
        (record s { fs = record (s.fs) { avail = s.fs.avail - 1 }; refs = update s.refs i 1 })

-- Case 1 of `open_alloc`, which case 0 falls into.
unfoldable pub take_entry : ℕ → Cmd Server ℕ
take_entry i s = ok i (record s {
  o_fileid = update s.o_fileid i ((s.o_fileid i + max_files) % 2 ^ 32);
  ff = update s.ff i empty_page;
})

-- The loop of `open_alloc`, from entry `i` on, with `n` of them left. It gives the entry; the
-- function's own result is its `o_fileid`.
unfoldable pub open_scan : ℕ → ℕ → Cmd Server ℕ
unfolding alloc_page take_entry
open_scan zero i s = err max_open s
open_scan (suc n) i s =
    let rest = open_scan n (i + 1) s in
    if s.refs i == 0
    then (do alloc_page i; take_entry i) s
    else if s.refs i == 1
    then take_entry i s
    else rest

unfoldable pub open_alloc : Cmd Server ℕ
unfolding open_scan
open_alloc s = open_scan max_files 0 s

unfoldable pub open_lookup : ℕ → Cmd Server ℕ
open_lookup fileid s =
    if (s.refs (fileid % max_files) == 1) || not (s.o_fileid (fileid % max_files) == fileid)
    then err inval s
    else ok (fileid % max_files) s

-- The file of an entry: a NULL pointer faults.
unfoldable pub file_at : ℕ → Cmd Server Ptr
file_at o s = elim (s.o_file o) [ none ↦ panic | some f ↦ ok f s ]

-- The start of `serve_open` and `serve_openat`. Without an entry an error code is sent, but they go
-- on with an `o` that has no value, which C leaves undefined: a panic.
-- A file id is returned as an `int`: one of 2^31 or more is taken for an error too, but the entry
-- is there.
unfoldable pub or_undefined : ℕ → Run Server ℕ → (ℕ → Cmd Server (Unit {0})) → Run Server (Unit {0})
or_undefined whom (ok o s) go_on =
    (if leb (2 ^ 31) (s.o_fileid o)
        then ipc_send whom (word (s.o_fileid o)) no_page >> go_on o
        else go_on o)
      s
or_undefined whom (err e s) go_on = panic
or_undefined whom panic go_on = panic

-- devfile.dev_id
abbrev pub dev_file : ℕ
dev_file = b'f'

-- The end of `serve_open` and `serve_openat`, which copies the file's structure.
unfoldable pub finish_open : ℕ → ℕ → ℕ → Option Ptr → Cmd Server (Unit {0})
finish_open whom o omode none s = panic
finish_open whom o omode (some (b, i)) s = ipc_send whom success (filefd o) (record s {
  o_file = update s.o_file o (some (b, i));
  o_mode = update s.o_mode o omode;
  ff = update s.ff o (record {
    dev_id = dev_file;
    offset = (s.ff o).offset;
    omode = omode;
    fileid = s.o_fileid o;
    file = λ k. s.fs.cache b (i + k);
  });
})

abbrev pub some_file : Ptr → Cmd Server (Option Ptr)
some_file f = pure (some f)

-- A file that cannot be opened is created with O_CREAT, and made a directory with O_MKDIR: then
-- `f` is NULL where that failed.
unfoldable pub made_dir : Run Server Ptr → Run Server (Option Ptr)
made_dir (ok f s) = ok (some f) (record s { fs = write_word (f_type f) ftype_dir (s.fs) })
made_dir (err e s) = panic
made_dir panic = panic

unfoldable pub or_create : ℕ → Str → ℕ → Run Server (Option Ptr) → Run Server (Option Ptr)
unfolding file_create made_dir
or_create links path omode (ok f s) = ok f s
or_create links path omode (err e s) =
    if test_bit omode 8
    then and_then (on_fs (file_create links path) s) some_file
    else if test_bit omode 11
    then made_dir (on_fs (file_create links path) s)
    else err e s
or_create links path omode panic = panic

unfoldable pub serve_open : ℕ → ℕ → Str → ℕ → Cmd Server (Unit {0})
unfolding open_alloc or_undefined file_open or_create finish_open
serve_open links whom path omode s = or_undefined whom (open_alloc s) (λ o t.
    or_reply whom (or_create links path omode (on_fs (file_open links path) t))
      (finish_open whom o omode))

-- `open_lookup` of a request's file id, and the file of the entry.
unfoldable pub requested_file : ℕ → Cmd Server Ptr
unfolding open_lookup file_at
requested_file fileid = do o ← open_lookup fileid; file_at o

unfoldable pub serve_openat : ℕ → ℕ → Str → ℕ → Cmd Server (Unit {0})
unfolding open_alloc or_undefined requested_file file_openat finish_open
serve_openat whom dir_fileid path omode s = or_undefined whom (open_alloc s) (λ o t.
    or_reply whom (requested_file dir_fileid t)
      (λ dir u. or_reply whom (on_fs (file_openat dir path) u) (finish_open whom o omode)))

unfoldable pub serve_map : ℕ → ℕ → ℕ → Cmd Server (Unit {0})
unfolding requested_file file_get_block
serve_map whom fileid offset s = or_reply whom (requested_file fileid s) (λ f t.
    or_reply whom (on_fs (file_get_block f (offset / by2blk)) t)
      (λ blk. ipc_send whom success (block blk)))

abbrev pub send_done : ℕ → Unit {0} → Cmd Server (Unit {0})
send_done whom u = ipc_send whom success no_page

unfoldable pub serve_set_size : ℕ → ℕ → ℕ → Cmd Server (Unit {0})
unfolding requested_file file_set_size
serve_set_size whom fileid size s =
    or_reply whom (requested_file fileid s)
      (λ f t. or_reply whom (on_fs (file_set_size f size) t) (send_done whom))

unfoldable pub serve_close : ℕ → ℕ → Cmd Server (Unit {0})
unfolding requested_file file_close
serve_close whom fileid s =
    or_reply whom (requested_file fileid s)
      (λ f t. or_reply whom (on_fs (file_close f) t) (send_done whom))

unfoldable pub serve_remove : ℕ → ℕ → Str → Cmd Server (Unit {0})
unfolding file_remove
serve_remove links whom path s = or_reply whom (on_fs (file_remove links path) s) (send_done whom)

unfoldable pub serve_dirty : ℕ → ℕ → ℕ → Cmd Server (Unit {0})
unfolding requested_file file_dirty
serve_dirty whom fileid offset s =
    or_reply whom (requested_file fileid s)
      (λ f t. or_reply whom (on_fs (file_dirty f offset) t) (send_done whom))

unfoldable pub serve_sync : ℕ → Cmd Server (Unit {0})
unfolding fs_sync
serve_sync whom s = or_reply whom (on_fs fs_sync s) (send_done whom)

-- What is in the page of a request.
pub data Request : Type 0 where
  open_req : Str → ℕ → Request
  openat_req : ℕ → Str → ℕ → Request
  map_req set_size_req dirty_req : ℕ → ℕ → Request
  close_req : ℕ → Request
  remove_req : Str → Request
  sync_req other_req : Request

unfoldable pub handle : ℕ → ℕ → Request → Cmd Server (Unit {0})
unfolding serve_open serve_openat serve_map serve_set_size serve_close serve_dirty serve_remove
    serve_sync
handle links whom (open_req path omode) = serve_open links whom path omode
handle links whom (openat_req dir_fileid path omode) = serve_openat whom dir_fileid path omode
handle links whom (map_req fileid offset) = serve_map whom fileid offset
handle links whom (set_size_req fileid size) = serve_set_size whom fileid size
handle links whom (dirty_req fileid offset) = serve_dirty whom fileid offset
handle links whom (close_req fileid) = serve_close whom fileid
handle links whom (remove_req path) = serve_remove links whom path
handle links whom sync_req = serve_sync whom
handle links whom other_req = pure tt

-- What `ipc_recv` gives: how often each page at FILEVA is mapped by then, the sender, whether a page
-- came with the message, and the request.
abbrev pub Message : Type 0
Message = (ℕ → ℕ) × ℕ × Bool × Request

-- While the server waits the clients run: they map the page that was sent to them, share it by `fork`
-- and unmap it.
unfoldable pub clients_ran : (ℕ → ℕ) → Cmd Server (Unit {0})
clients_ran refs s = ok tt (record s { refs = refs })

-- The loop of `serve`.
unfoldable pub serve : ℕ → List Message → Cmd Server (Unit {0})
unfolding clients_ran handle
serve links [] = pure tt
serve links ((refs, whom, has_page, req) ∷ messages) =
    clients_ran refs
    >> (if has_page then handle links whom req else pure tt)
    >> serve links messages
