-- ===== src/Fs/Serv/Answer.antt =====
-- The handlers of fs/serv.c that need no new entry answer each request once.
use mos_volca_shell.Base.{
  ℕ, ◌/◌, ◌%◌, false≢true, Bool, true, false, not, ◌||◌, Option, none, some, [], ◌∷◌, ◌++◌, ◌==◌,
  Run, ok, err, panic, Cmd, Leaves, ◌≡◌, ◌∙◌, refl, ap, Bool-cases, inl, inr,
}
use mos_volca_shell.Fs.Block.{Fs}
use mos_volca_shell.Fs.File.{Ptr, by2blk, file_get_block, file_dirty}
use mos_volca_shell.Fs.Dir.{file_set_size, file_close, file_remove, fs_sync}
use mos_volca_shell.Fs.Serv.{
  Server, Code, Page, max_files, open_lookup, on_fs, put_fs, or_reply, file_at, requested_file,
  serve_map, serve_set_size, serve_close, serve_remove, serve_dirty, serve_sync, Request, open_req,
  openat_req, map_req, set_size_req, dirty_req, close_req, remove_req, sync_req, other_req, handle,
  ipc_send, success, block,
}

-- Nothing was sent.
abbrev pub Quiet : Server → Server → Type 0
Quiet s t = t.replies ≡ s.replies

-- One message was sent, and to `whom`.
abbrev pub Answered : ℕ → Server → Server → Type 0
Answered whom s t =
    (code : Code) × (page : Page) × (t.replies
      ≡ s.replies ++ (record { whom = whom; code = code; page = page } ∷ []))

-- The requests on files that are open, and those that need no open file.
abbrev pub is_plain : Request → Bool
is_plain (open_req path omode) = false
is_plain (openat_req fileid path omode) = false
is_plain other_req = false
is_plain _ = true

on_fs-Quiet : {A : Type 0} (m : Cmd Fs A) (s : Server) → Leaves (Quiet s) (on_fs m s)
on_fs-Quiet {A} m s = put (m s.fs)
  where
    put : (r : Run Fs A) → Leaves (Quiet s) (put_fs s r)
    put (ok a t) = refl
    put (err e t) = refl
    put panic = tt

requested_file-Quiet : (fileid : ℕ) (s : Server) → Leaves (Quiet s) (requested_file fileid s)
unfolding requested_file open_lookup file_at
requested_file-Quiet fileid s =
    elim (Bool-cases
      ((s.refs (fileid % max_files) == 1) || not (s.o_fileid (fileid % max_files) == fileid))) [
        | inl e ↦ rw e refl
        | inr e ↦ rw e (at (s.o_file (fileid % max_files)))
      ]
  where
    at : (o : Option Ptr) → Leaves (Quiet s) (elim o [ none ↦ panic | some f ↦ ok f s ])
    at none = tt
    at (some f) = refl

send-Answered :
    (whom : ℕ) (code : Code) (page : Page) (s t : Server)
    → Quiet s t
    → Leaves (Answered whom s) (ipc_send whom code page t)
send-Answered whom code page s t q =
    (code, page, ap (λ r. r ++ (record { whom = whom; code = code; page = page } ∷ [])) q)

or_reply-Answered :
    {A : Type 0} (whom : ℕ) (r : Run Server A) (k : A → Cmd Server (Unit {0})) (s : Server)
    → Leaves (Quiet s) r
    → ((a : A) (t : Server) → Quiet s t → Leaves (Answered whom s) (k a t))
    → Leaves (Answered whom s) (or_reply whom r k)
or_reply-Answered whom (ok a t) k s q go_on = go_on a t q
or_reply-Answered whom (err e t) k s q go_on = send-Answered whom (Code.error e) Page.no_page s t q
or_reply-Answered whom panic k s q go_on = tt

-- A call of fs/fs.c whose result is sent.
fs_reply-Answered :
    {A : Type 0} (whom : ℕ) (m : Cmd Fs A) (page : A → Page) (s t : Server)
    → Quiet s t
    → Leaves (Answered whom s) (or_reply whom (on_fs m t) (λ a. ipc_send whom success (page a)))
fs_reply-Answered {A} whom m page s t q =
    or_reply-Answered whom (on_fs m t) (λ a. ipc_send whom success (page a)) s
      (after (on_fs m t) (on_fs-Quiet m t)) (λ a u p. send-Answered whom success (page a) s u p)
  where
    after : (r : Run Server A) → Leaves (Quiet t) r → Leaves (Quiet s) r
    after (ok a u) p = p ∙ q
    after (err e u) p = p ∙ q
    after panic p = tt

-- The same for a request on an open file.
file_reply-Answered :
    {A : Type 0} (whom fileid : ℕ) (m : Ptr → Cmd Fs A) (page : A → Page) (s : Server)
    → Leaves (Answered whom s) (
        or_reply whom
          (requested_file fileid s)
          (λ f t. or_reply whom (on_fs (m f) t) (λ a. ipc_send whom success (page a))))
file_reply-Answered whom fileid m page s =
    or_reply-Answered whom (requested_file fileid s)
      (λ f t. or_reply whom (on_fs (m f) t) (λ a. ipc_send whom success (page a))) s
      (requested_file-Quiet fileid s) (λ f t q. fs_reply-Answered whom (m f) page s t q)

-- A request other than FSREQ_OPEN and FSREQ_OPENAT with a code that the server knows is answered
-- by exactly one message, and to its sender, unless the server panics.
pub handle-Answered :
    (links whom : ℕ) (req : Request) (s : Server)
    → is_plain req ≡ true
    → Leaves (Answered whom s) (handle links whom req s)
unfolding handle serve_map serve_set_size serve_close serve_dirty serve_remove serve_sync
handle-Answered links whom (open_req path omode) s p = absurd (false≢true p)
handle-Answered links whom (openat_req dir path omode) s p = absurd (false≢true p)
handle-Answered links whom other_req s p = absurd (false≢true p)
handle-Answered links whom (map_req fileid offset) s p =
    file_reply-Answered whom fileid (λ f. file_get_block f (offset / by2blk)) (λ b. block b) s
handle-Answered links whom (set_size_req fileid size) s p =
    file_reply-Answered whom fileid (λ f. file_set_size f size) (λ u. Page.no_page) s
handle-Answered links whom (dirty_req fileid offset) s p =
    file_reply-Answered whom fileid (λ f. file_dirty f offset) (λ u. Page.no_page) s
handle-Answered links whom (close_req fileid) s p =
    file_reply-Answered whom fileid file_close (λ u. Page.no_page) s
handle-Answered links whom (remove_req path) s p =
    fs_reply-Answered whom (file_remove links path) (λ u. Page.no_page) s s refl
handle-Answered links whom sync_req s p =
    fs_reply-Answered whom fs_sync (λ u. Page.no_page) s s refl
