-- ===== src/Fs/Serv/Ids.antt =====
-- The file ids of fs/serv.c: entry `i` of the table has an id that is `i` modulo MAXOPEN, and each
-- `open_alloc` of the entry gives it another one.
use mos_volca_shell.Base.{
  ℕ, zero, suc, ◌+◌, ◌-◌, ◌%◌, ◌^◌, ◌<◌, ◌≤◌, true, false, not, ◌||◌, ◌&&◌, Option, none, some,
  List, [], ◌∷◌, ◌==◌, ltb, leb, if◌then◌else◌, update, Run, ok, err, panic, Cmd, and_then, Leaves,
  no_mem, max_open, inval, ◌≡◌, ◌≢◌, ◌∙◌, refl, sym, ap, arith, Bool-cases, inl, inr, ==-refl,
  ==-ne, ==_iff, ◌/◌,
}
use mos_volca_shell.Bits.{test_bit}
use mos_volca_shell.Text.{Str}
use mos_volca_shell.Fs.Block.{Fs}
use mos_volca_shell.Fs.Dir.{
  file_open, file_openat, file_create, file_set_size, file_close, file_remove, fs_sync,
}
use mos_volca_shell.Fs.File.{Ptr, file_get_block, file_dirty, by2blk}
use mos_volca_shell.Fs.Serv.{
  Server, max_files, init_ids, serve_init, alloc_page, take_entry, open_scan, open_alloc,
  open_lookup, on_fs, put_fs, or_reply, or_undefined, file_at, finish_open, made_dir, or_create,
  requested_file, serve_open, serve_openat, serve_map, serve_set_size, serve_close, serve_remove,
  serve_dirty, serve_sync, Request, open_req, openat_req, map_req, set_size_req, dirty_req,
  close_req, remove_req, sync_req, other_req, handle, Message, serve, send_done, some_file,
}

abbrev pub IdsOk : Server → Type 0
IdsOk s = (i : ℕ) → i < max_files → s.o_fileid i % max_files ≡ i

init_ids-at :
    (n i : ℕ) (ids : ℕ → ℕ) (k : ℕ)
    → init_ids n i ids k ≡ (if leb i k && ltb k (i + n) then k else ids k)
unfolding init_ids
init_ids-at zero i ids k = ground arith
init_ids-at (suc n) i ids k = ground (arith, init_ids-at n (i + 1) (update ids i i) k)

serve_init-IdsOk : (s : Server) → IdsOk (serve_init s)
unfolding serve_init
serve_init-IdsOk s i lt =
    let inside : (leb 0 i && ltb i (0 + max_files)) ≡ true = ground (arith, lt) in
    let same_id : init_ids max_files 0 (s.o_fileid) i ≡ i =
      init_ids-at max_files 0 (s.o_fileid) i ∙ rw inside refl in
    omega (arith, lt, same_id)

-- The next id of an entry.
next_id : (i id : ℕ) → id % max_files ≡ i → (id + max_files) % 2 ^ 32 % max_files ≡ i
next_id i id h = omega (arith, h)

take_entry-IdsOk : (i : ℕ) (s : Server) → IdsOk s → Leaves IdsOk (take_entry i s)
unfolding take_entry
take_entry-IdsOk i s h j lt = elim (Bool-cases (j == i)) [
  | inl e ↦
      let same_entry : j ≡ i = (==_iff j i).0 e in
      rw e (next_id i (s.o_fileid i) (h i (omega (arith, lt, same_entry))) ∙ sym same_entry)
  | inr e ↦ rw e (h j lt)
]

-- The page of the entry was allocated.
abbrev allocated : ℕ → Server → Server
allocated i s = record s { fs = record (s.fs) { avail = s.fs.avail - 1 }; refs = update s.refs i 1 }

open_scan-IdsOk : (n i : ℕ) (s : Server) → IdsOk s → Leaves IdsOk (open_scan n i s)
unfolding open_scan alloc_page
open_scan-IdsOk zero i s h = h
open_scan-IdsOk (suc n) i s h = elim (Bool-cases (s.refs i == 0)) [
  | inl e ↦ elim (Bool-cases (s.fs.avail == 0)) [
    | inl full ↦ rw (e, full) h
    | inr room ↦ rw (e, room) (take_entry-IdsOk i (allocated i s) h)
  ]
  | inr e ↦ elim (Bool-cases (s.refs i == 1)) [
    | inl one ↦ rw (e, one) (take_entry-IdsOk i s h)
    | inr more ↦ rw (e, more) (open_scan-IdsOk n (i + 1) s h)
  ]
]

on_fs-IdsOk : {A : Type 0} (m : Cmd Fs A) (s : Server) → IdsOk s → Leaves IdsOk (on_fs m s)
on_fs-IdsOk {A} m s h = put (m s.fs)
  where
    put : (r : Run Fs A) → Leaves IdsOk (put_fs s r)
    put (ok a t) = h
    put (err e t) = h
    put panic = tt

or_reply-IdsOk :
    {A : Type 0} (whom : ℕ) (r : Run Server A) (k : A → Cmd Server (Unit {0}))
    → Leaves IdsOk r
    → ((a : A) (t : Server) → IdsOk t → Leaves IdsOk (k a t))
    → Leaves IdsOk (or_reply whom r k)
or_reply-IdsOk whom (ok a s) k h go_on = go_on a s h
or_reply-IdsOk whom (err e s) k h go_on = h
or_reply-IdsOk whom panic k h go_on = tt

or_undefined-IdsOk :
    (whom : ℕ) (r : Run Server ℕ) (k : ℕ → Cmd Server (Unit {0}))
    → Leaves IdsOk r
    → ((o : ℕ) (t : Server) → IdsOk t → Leaves IdsOk (k o t))
    → Leaves IdsOk (or_undefined whom r k)
unfolding or_undefined
or_undefined-IdsOk whom (ok o s) k h go_on = elim (Bool-cases (leb (2 ^ 31) (s.o_fileid o))) [
  | inl e ↦ rw e (go_on o _ h)
  | inr e ↦ rw e (go_on o s h)
]
or_undefined-IdsOk whom (err e s) k h go_on = tt
or_undefined-IdsOk whom panic k h go_on = tt

finish_open-IdsOk :
    (whom o omode : ℕ) (f : Option Ptr) (s : Server)
    → IdsOk s
    → Leaves IdsOk (finish_open whom o omode f s)
unfolding finish_open
finish_open-IdsOk whom o omode none s h = tt
finish_open-IdsOk whom o omode (some f) s h = h

made_dir-IdsOk : (r : Run Server Ptr) → Leaves IdsOk r → Leaves IdsOk (made_dir r)
unfolding made_dir
made_dir-IdsOk (ok f s) h = h
made_dir-IdsOk (err e s) h = tt
made_dir-IdsOk panic h = tt

or_create-IdsOk :
    (links : ℕ) (path : Str) (omode : ℕ) (r : Run Server (Option Ptr))
    → Leaves IdsOk r
    → Leaves IdsOk (or_create links path omode r)
unfolding or_create
or_create-IdsOk links path omode (ok f s) h = h
or_create-IdsOk links path omode panic h = tt
or_create-IdsOk links path omode (err e s) h = elim (Bool-cases (test_bit omode 8)) [
  | inl create ↦
      rw create
        (then_some (on_fs (file_create links path) s) (on_fs-IdsOk (file_create links path) s h))
  | inr other ↦ elim (Bool-cases (test_bit omode 11)) [
    | inl mkdir ↦ rw (other, mkdir) (made_dir-IdsOk _ (on_fs-IdsOk (file_create links path) s h))
    | inr plain ↦ rw (other, plain) h
  ]
]
  where
    then_some : (r : Run Server Ptr) → Leaves IdsOk r → Leaves IdsOk (and_then r some_file)
    then_some (ok f t) q = q
    then_some (err x t) q = q
    then_some panic q = q

requested_file-IdsOk : (fileid : ℕ) (s : Server) → IdsOk s → Leaves IdsOk (requested_file fileid s)
unfolding requested_file open_lookup file_at
requested_file-IdsOk fileid s h =
    elim (Bool-cases
      ((s.refs (fileid % max_files) == 1) || not (s.o_fileid (fileid % max_files) == fileid))) [
        | inl e ↦ rw e h
        | inr e ↦ rw e (at (s.o_file (fileid % max_files)))
      ]
  where
    at : (o : Option Ptr) → Leaves IdsOk (elim o [ none ↦ panic | some f ↦ ok f s ])
    at none = tt
    at (some f) = h

-- What a handler does after `open_lookup`.
on_requested-IdsOk :
    (whom fileid : ℕ) (k : Ptr → Cmd Server (Unit {0})) (s : Server)
    → IdsOk s
    → ((f : Ptr) (t : Server) → IdsOk t → Leaves IdsOk (k f t))
    → Leaves IdsOk (or_reply whom (requested_file fileid s) k)
on_requested-IdsOk whom fileid k s h go_on =
    or_reply-IdsOk whom (requested_file fileid s) k (requested_file-IdsOk fileid s h) go_on

fs_reply-IdsOk :
    {A : Type 0} (whom : ℕ) (m : Cmd Fs A) (k : A → Cmd Server (Unit {0})) (s : Server)
    → IdsOk s
    → ((a : A) (t : Server) → IdsOk t → Leaves IdsOk (k a t))
    → Leaves IdsOk (or_reply whom (on_fs m s) k)
fs_reply-IdsOk whom m k s h go_on = or_reply-IdsOk whom (on_fs m s) k (on_fs-IdsOk m s h) go_on

pub handle-IdsOk :
    (links whom : ℕ) (req : Request) (s : Server) → IdsOk s → Leaves IdsOk (handle links whom req s)
unfolding handle serve_open serve_openat serve_map serve_set_size serve_close serve_dirty
    serve_remove serve_sync open_alloc
handle-IdsOk links whom (open_req path omode) s h =
    or_undefined-IdsOk whom (open_scan max_files 0 s) _ (open_scan-IdsOk max_files 0 s h) λ o t i.
      or_reply-IdsOk whom (or_create links path omode (on_fs (file_open links path) t))
        (finish_open whom o omode)
        (or_create-IdsOk links path omode _ (on_fs-IdsOk (file_open links path) t i))
        λ f u j. finish_open-IdsOk whom o omode f u j
handle-IdsOk links whom (openat_req dir path omode) s h =
    or_undefined-IdsOk whom (open_scan max_files 0 s) _ (open_scan-IdsOk max_files 0 s h) λ o t i.
      on_requested-IdsOk whom dir _ t i λ d u j.
        fs_reply-IdsOk whom (file_openat d path) (finish_open whom o omode) u j
          λ f v l. finish_open-IdsOk whom o omode f v l
handle-IdsOk links whom (map_req fileid offset) s h =
    on_requested-IdsOk whom fileid _ s h
      λ f t i. fs_reply-IdsOk whom (file_get_block f (offset / by2blk)) _ t i λ b u j. j
handle-IdsOk links whom (set_size_req fileid size) s h =
    on_requested-IdsOk whom fileid _ s h
      λ f t i. fs_reply-IdsOk whom (file_set_size f size) (send_done whom) t i λ b u j. j
handle-IdsOk links whom (dirty_req fileid offset) s h =
    on_requested-IdsOk whom fileid _ s h
      λ f t i. fs_reply-IdsOk whom (file_dirty f offset) (send_done whom) t i λ b u j. j
handle-IdsOk links whom (close_req fileid) s h =
    on_requested-IdsOk whom fileid _ s h
      λ f t i. fs_reply-IdsOk whom (file_close f) (send_done whom) t i λ b u j. j
handle-IdsOk links whom (remove_req path) s h =
    fs_reply-IdsOk whom (file_remove links path) (send_done whom) s h λ b u j. j
handle-IdsOk links whom sync_req s h = fs_reply-IdsOk whom fs_sync (send_done whom) s h λ b u j. j
handle-IdsOk links whom other_req s h = h

serve-IdsOk_from :
    (links : ℕ) (messages : List Message) (s : Server)
    → IdsOk s
    → Leaves IdsOk (serve links messages s)
unfolding serve
serve-IdsOk_from links [] s h = h
serve-IdsOk_from links ((refs, whom, false, req) ∷ messages) s h =
    serve-IdsOk_from links messages (record s { refs = refs }) h
serve-IdsOk_from links ((refs, whom, true, req) ∷ messages) s h =
    rest (handle links whom req (record s { refs = refs }))
      (handle-IdsOk links whom req (record s { refs = refs }) h) (serve-IdsOk_from links messages)
  where
    rest :
        (r : Run Server (Unit {0}))
        → Leaves IdsOk r
        → ((t : Server) → IdsOk t → Leaves IdsOk (serve links messages t))
        → Leaves IdsOk (and_then r (λ u. serve links messages))
    rest (ok u t) q go_on = go_on t q
    rest (err e t) q go_on = q
    rest panic q go_on = tt

-- Started by `serve_init`, the file server keeps the file id of each entry equal to its number
-- modulo MAXOPEN, through any sequence of messages, with any counts of the mapped pages at each
-- of them, unless it panics.
pub serve-IdsOk :
    (links : ℕ) (messages : List Message) (s : Server)
    → Leaves IdsOk (serve links messages (serve_init s))
serve-IdsOk links messages s = serve-IdsOk_from links messages (serve_init s) (serve_init-IdsOk s)

-- An entry that `open_alloc` found: no page of an open file is mapped by a client there, and those
-- before it are all in use.
pub record TakenEntry (i : ℕ) (s t : Server) : Type 0 where
  pub below : i < max_files
  pub unused : s.refs i ≤ 1
  pub used_before : (j : ℕ) → j < i → 2 ≤ s.refs j
  pub new_id : t.o_fileid i ≡ (s.o_fileid i + max_files) % 2 ^ 32
  pub other_ids : (j : ℕ) → j ≢ i → t.o_fileid j ≡ s.o_fileid j
  pub refs_after : t.refs i ≡ 1

take_entry-TakenEntry :
    (i : ℕ) (s u : Server)
    → i < max_files
    → s.refs i ≤ 1
    → ((j : ℕ) → j < i → 2 ≤ s.refs j)
    → u.o_fileid ≡ s.o_fileid
    → u.refs i ≡ 1
    → (t : Server) × (take_entry i u ≡ ok i t) × TakenEntry i s t
unfolding take_entry
take_entry-TakenEntry i s u lt le before ids one = (
  _,
  refl,
  record {
    below = lt;
    unused = le;
    used_before = before;
    new_id = rw (==-refl i) (ap (λ (f : ℕ → ℕ). (f i + max_files) % 2 ^ 32) ids);
    other_ids = λ j ne. rw (==-ne j i ne) (ap (λ (f : ℕ → ℕ). f j) ids);
    refs_after = one;
  },
)

-- The outcomes of `open_alloc`.
pub data Opened (s : Server) : Run Server ℕ → Type 0 where
  opened : (i : ℕ) (t : Server) → TakenEntry i s t → Opened s (ok i t)
  no_page :
      (i : ℕ)
      → i < max_files
      → ((j : ℕ) → j < i → 2 ≤ s.refs j)
      → s.refs i ≡ 0
      → s.fs.avail ≡ 0
      → Opened s (err no_mem s)
  full : ((j : ℕ) → j < max_files → 2 ≤ s.refs j) → Opened s (err max_open s)

open_scan-Opened :
    (n i : ℕ) (s : Server)
    → i + n ≡ max_files
    → ((j : ℕ) → j < i → 2 ≤ s.refs j)
    → Opened s (open_scan n i s)
unfolding open_scan alloc_page
open_scan-Opened zero i s e before = full λ j lt. before j (omega (arith, lt, e))
open_scan-Opened (suc n) i s e before = elim (Bool-cases (s.refs i == 0)) [
  | inl none_left ↦ elim (Bool-cases (s.fs.avail == 0)) [
    | inl out ↦
        rw (none_left, out)
          (no_page i (omega (arith, e)) before ((==_iff (s.refs i) 0).0 none_left)
            ((==_iff (s.fs.avail) 0).0 out))
    | inr room ↦
        rw (none_left, room)
          (open_at i s (allocated i s) (omega (arith, e)) (ground arith) before refl
            (rw (==-refl i) refl))
  ]
  | inr some_left ↦ elim (Bool-cases (s.refs i == 1)) [
    | inl one ↦
        rw (some_left, one)
          (open_at i s s (omega (arith, e)) (ground arith) before refl
            ((==_iff (s.refs i) 1).0 one))
    | inr more ↦
        rw (some_left, more)
          (open_scan-Opened n (i + 1) s (omega (arith, e)) (λ j lt. elim (Bool-cases (j == i)) [
            | inl here ↦ ground (arith, (==_iff j i).0 here)
            | inr other ↦ before j (ground (arith, lt))
          ]))
  ]
]
  where
    open_at :
        (i : ℕ) (s u : Server)
        → i < max_files
        → s.refs i ≤ 1
        → ((j : ℕ) → j < i → 2 ≤ s.refs j)
        → u.o_fileid ≡ s.o_fileid
        → u.refs i ≡ 1
        → Opened s (take_entry i u)
    open_at i s u lt le before ids one =
        let (t, run, taken) = take_entry-TakenEntry i s u lt le before ids one in
        rw run (opened i t taken)

-- `open_alloc` has one of three outcomes: it takes the first entry whose page is mapped at most
-- once, adds MAXOPEN to its id modulo 2^32 and changes no other id; or that first entry has no
-- page and there is none to be had, and it answers E_NO_MEM and changes nothing; or all 1024
-- pages are mapped at least twice, and it answers E_MAX_OPEN and changes nothing.
pub open_alloc-Opened : (s : Server) → Opened s (open_alloc s)
unfolding open_alloc
open_alloc-Opened s = open_scan-Opened max_files 0 s refl λ j lt. absurd (omega (arith, lt))

-- The client has mapped the page that it was sent.
abbrev pub mapped_by_client : ℕ → Server → Server
mapped_by_client i t = record t { refs = update t.refs i 2 }

-- With the invariant of the file ids, after an entry was taken for a new open file and its page
-- mapped by a client, `open_lookup` finds the entry by its new id and refuses its old one.
pub open_lookup-TakenEntry :
    (i : ℕ) (s t : Server)
    → IdsOk s
    → TakenEntry i s t
    → (open_lookup (t.o_fileid i) (mapped_by_client i t) ≡ ok i (mapped_by_client i t))
      × (open_lookup (s.o_fileid i) (mapped_by_client i t) ≡ err inval (mapped_by_client i t))
unfolding open_lookup
open_lookup-TakenEntry i s t h taken =
    let old : s.o_fileid i % max_files ≡ i = h i (taken.below) in
    let new : t.o_fileid i % max_files ≡ i =
      omega (arith, taken.new_id, next_id i (s.o_fileid i) old) in
    let other : (t.o_fileid i == s.o_fileid i) ≡ false =
      ==-ne (t.o_fileid i) (s.o_fileid i) (omega (arith, taken.new_id)) in
    (rw (new, ==-refl i, ==-refl (t.o_fileid i)) refl, rw (old, ==-refl i, other) refl)
