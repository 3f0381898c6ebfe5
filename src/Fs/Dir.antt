-- ===== src/Fs/Dir.antt =====
-- Directories and paths of fs/fs.c. A directory holds its entries in its blocks, 16 structures of 64
-- words in each. The processor is little-endian, so byte `k` of a name is in word `k / 4`.
pub mod Lookup
pub mod Walk
pub mod Tests
use mos_volca_shell.Base.{
  ℕ, zero, suc, ◌+◌, ◌-◌, ◌*◌, ◌/◌, ◌%◌, ◌^◌, Bool, true, false, not, ◌&&◌, ◌||◌, Option, none,
  some, List, [], ◌∷◌, ◌==◌, ltb, leb, if◌then◌else◌, Run, ok, err, panic, Cmd, ◌>>=◌, ◌>>◌, pure,
  fail, modify, gets, halt, Error, not_found, bad_path, file_exists,
}
use mos_volca_shell.Text.{Str, Sign, same, strcmp, strlen, slash, max_name_len}
use mos_volca_shell.Fs.Block.{Fs, nblocks, read_block, block_is_dirty, write_block}
use mos_volca_shell.Fs.File.{
  Ptr, by2blk, read_word, write_word, f_size, f_direct, file_get_block, file_truncate, file_flush,
}

-- DISKMAP
abbrev pub diskmap : ℕ
diskmap = 0x10000000

abbrev pub address : Ptr → ℕ
address (b, i) = diskmap + b * by2blk + i * 4

abbrev pub pointer : ℕ → Ptr
pointer a = ((a - diskmap) / by2blk, (a - diskmap) % by2blk / 4)

-- `&f->f_type` and `&f->f_dir`
abbrev pub f_type : Ptr → Ptr
f_type (b, i) = (b, i + 33)

abbrev pub f_dir : Ptr → Ptr
f_dir (b, i) = (b, i + 45)

-- FTYPE_DIR and FTYPE_LNK
abbrev pub ftype_dir : ℕ
ftype_dir = 1

abbrev pub ftype_lnk : ℕ
ftype_lnk = 2

-- FILE2BLK
abbrev pub file2blk : ℕ
file2blk = 16

-- `&super->s_root`
abbrev pub root : Ptr
root = (1, 2)

-- Byte `k` of the bytes that start at the word `f`.
abbrev pub read_byte : Ptr → ℕ → Fs → ℕ
read_byte (b, i) k s = s.cache b (i + k / 4) / 256 ^ (k % 4) % 256

-- The string that starts at byte `k`, at most `n` bytes of it.
unfoldable pub read_string : ℕ → ℕ → Ptr → Fs → Str
read_string zero k f s = []
read_string (suc n) k f s =
    let rest = read_string n (k + 1) f s in
    if read_byte f k s == 0 then [] else read_byte f k s ∷ rest

unfoldable pub f_name : Ptr → Fs → Str
unfolding read_string
f_name f s = read_string max_name_len 0 f s

unfoldable pub write_byte : Ptr → ℕ → ℕ → Fs → Fs
write_byte (b, i) k c s =
    let w : ℕ = s.cache b (i + k / 4) in
    write_word (b, i + k / 4) (w - read_byte (b, i) k s * 256 ^ (k % 4) + c * 256 ^ (k % 4)) s

-- `strcpy` to the bytes from `k` on
unfoldable pub write_string : Ptr → ℕ → Str → Fs → Fs
unfolding write_byte
write_string f k [] s = write_byte f k 0 s
write_string f k (c ∷ name) s = write_string f (k + 1) name (write_byte f k c s)

abbrev pub is_equal : Sign → Bool
is_equal same = true
is_equal _ = false

-- The inner loop of `dir_lookup`, from entry `j` of the block on, with `n` entries left.
unfoldable pub find_entry : ℕ → ℕ → ℕ → Str → Fs → Option Ptr
unfolding f_name strcmp
find_entry zero j blk name s = none
find_entry (suc n) j blk name s =
    let rest = find_entry n (j + 1) blk name s in
    if is_equal (strcmp (f_name (blk, j * 64) s) name) then some (blk, j * 64) else rest

-- What follows the search in one block; `go_on` is the rest of the loop.
unfoldable pub found_entry : Ptr → Option Ptr → Cmd Fs Ptr → Cmd Fs Ptr
found_entry dir none go_on s = go_on s
found_entry dir (some f) go_on s = ok f (write_word (f_dir f) (address dir) s)

-- The loop of `dir_lookup` over the blocks, from `i` on, with `n` of them left.
unfoldable pub lookup_blocks : ℕ → ℕ → Ptr → Str → Cmd Fs Ptr
unfolding file_get_block find_entry found_entry
lookup_blocks zero i dir name s = err not_found s
lookup_blocks (suc n) i dir name s =
    (do
      blk ← file_get_block dir i
      (λ t.
          found_entry dir (find_entry file2blk 0 blk name t) (lookup_blocks n (i + 1) dir name) t))
      s

unfoldable pub dir_lookup : Ptr → Str → Cmd Fs Ptr
unfolding lookup_blocks
dir_lookup dir name s = lookup_blocks (read_word (f_size dir) s / by2blk) 0 dir name s

-- The inner loop of `dir_alloc_file`.
unfoldable pub find_free : ℕ → ℕ → ℕ → Fs → Option Ptr
find_free zero j blk s = none
find_free (suc n) j blk s =
    let rest = find_free n (j + 1) blk s in
    if read_byte (blk, j * 64) 0 s == 0 then some (blk, j * 64) else rest

unfoldable pub or_go_on : Option Ptr → Cmd Fs Ptr → Cmd Fs Ptr
or_go_on none go_on s = go_on s
or_go_on (some f) go_on s = ok f s

-- The loop of `dir_alloc_file` over the blocks, and the new block behind them.
unfoldable pub alloc_in_blocks : ℕ → ℕ → Ptr → Cmd Fs Ptr
unfolding file_get_block find_free or_go_on
alloc_in_blocks zero i dir s =
    (do
      modify (λ t. write_word (f_size dir) ((read_word (f_size dir) t + by2blk) % 2 ^ 32) t)
      blk ← file_get_block dir i
      pure (blk, 0))
      s
alloc_in_blocks (suc n) i dir s =
    (do
      blk ← file_get_block dir i
      (λ t. or_go_on (find_free file2blk 0 blk t) (alloc_in_blocks n (i + 1) dir) t))
      s

unfoldable pub dir_alloc_file : Ptr → Cmd Fs Ptr
unfolding alloc_in_blocks
dir_alloc_file dir s = alloc_in_blocks (read_word (f_size dir) s / by2blk) 0 dir s

unfoldable pub skip_slash : Str → Str
skip_slash [] = []
skip_slash (c ∷ p) = let rest = skip_slash p in if c == slash then rest else c ∷ p

-- The name up to the next slash or the end, and the rest from there on.
unfoldable pub next_name : Str → Str × Str
next_name [] = ([], [])
next_name (c ∷ p) =
    let rest = next_name p in if c == slash then ([], c ∷ p) else (c ∷ rest.0, rest.1)

-- How `walk_path` ends: with `*pdir` and `*pfile`, which are NULL where there is none; with
-- E_NOT_FOUND, `*pdir` and `lastelem`, where only the last name is missing; or with another error
-- or a missing directory, and `*pdir` is NULL.
pub data Walked : Type 0 where
  found : Option Ptr → Option Ptr → Walked
  absent : Ptr → Str → Walked
  failed : Error → Walked

abbrev pub is_not_found : Error → Bool
is_not_found not_found = true
is_not_found _ = false

abbrev pub is_end : Str → Bool
is_end [] = true
is_end (c ∷ s) = false

-- What follows `dir_lookup` of a name, which may be the last one of the path.
unfoldable pub after_lookup : Ptr → Str → Bool → Run Fs Ptr → (Ptr → Cmd Fs Walked) → Run Fs Walked
after_lookup dir name is_last (ok f s) go_on = go_on f s
after_lookup dir name is_last (err e s) go_on =
    if is_not_found e && is_last then ok (absent dir name) s else ok (failed e) s
after_lookup dir name is_last panic go_on = panic

-- One round of the loop of `walk_path`.
unfoldable pub walk_name : Ptr → Str → Bool → (Ptr → Cmd Fs Walked) → Cmd Fs Walked
unfolding dir_lookup after_lookup strlen
walk_name file name is_last go_on s =
    if leb max_name_len (strlen name)
    then ok (failed bad_path) s
    else if not (read_word (f_type file) s == ftype_dir)
    then ok (failed not_found) s
    else after_lookup file name is_last (dir_lookup file name s) go_on

-- The loop of `walk_path`, with at most `n` bytes of the path left.
unfoldable pub walk_from : ℕ → Str → Option Ptr → Ptr → Cmd Fs Walked
unfolding walk_name next_name skip_slash
walk_from zero path dir file s = ok (found dir (some file)) s
walk_from (suc n) [] dir file s = ok (found dir (some file)) s
walk_from (suc n) (c ∷ path) dir file s =
    let split = next_name (c ∷ path) in
    walk_name file (split.0) (is_end (skip_slash (split.1)))
      (λ f. walk_from n (skip_slash (split.1)) (some file) f) s

unfoldable pub walk_path_at : Ptr → Str → Cmd Fs Walked
unfolding walk_from skip_slash strlen
walk_path_at par_dir path s = walk_from (strlen path) (skip_slash path) none par_dir s

-- The file that a walk found, NULL where it failed.
unfoldable pub pfile : Walked → Option Ptr
pfile (found dir file) = file
pfile (absent dir name) = none
pfile (failed e) = none

-- The end of `walk_path`, where the file may be a link; `walk` evaluates the path in it. What the
-- walk returns is not looked at. The path ends in its block.
unfoldable pub follow_link : (Str → Cmd Fs Walked) → Walked → Cmd Fs Walked
unfolding pfile read_block read_string
follow_link walk (found dir none) s = ok (found dir none) s
follow_link walk (found dir (some file)) s =
    (if read_word (f_type file) s == ftype_lnk
        then (do
          blk ← read_block (read_word (f_direct file 0) s)
          w ← (λ t. walk (read_string by2blk 0 (blk.0, 0) t) t)
          pure (found dir (pfile w)))
        else pure (found dir (some file)))
      s
follow_link walk (absent dir name) s = ok (absent dir name) s
follow_link walk (failed e) s = ok (failed e) s

-- Links may lead to links: at most `links` of them are followed, and then the stack is full.
unfoldable pub walk_path : ℕ → Str → Cmd Fs Walked
unfolding walk_path_at follow_link
walk_path zero path = halt
walk_path (suc links) path = do w ← walk_path_at root path; follow_link (walk_path links) w

-- What the callers that pass no `pdir` see.
unfoldable pub file_of : Walked → Cmd Fs (Option Ptr)
file_of (found dir file) = pure file
file_of (absent dir name) = fail not_found
file_of (failed e) = fail e

unfoldable pub file_open : ℕ → Str → Cmd Fs (Option Ptr)
unfolding walk_path file_of
file_open links path = do w ← walk_path links path; file_of w

unfoldable pub file_openat : Ptr → Str → Cmd Fs (Option Ptr)
unfolding walk_path_at file_of
file_openat dir path = do w ← walk_path_at dir path; file_of w

-- The end of `file_create`: when there is no entry to be had, it returns what the walk returned.
unfoldable pub name_entry : Str → Run Fs Ptr → Run Fs Ptr
unfolding write_string
name_entry name (ok f s) = ok f (write_string f 0 name s)
name_entry name (err e s) = err not_found s
name_entry name panic = panic

unfoldable pub create_in : Walked → Cmd Fs Ptr
unfolding dir_alloc_file name_entry
create_in (found dir file) s = err file_exists s
create_in (absent dir name) s = name_entry name (dir_alloc_file dir s)
create_in (failed e) s = err e s

unfoldable pub file_create : ℕ → Str → Cmd Fs Ptr
unfolding walk_path create_in
file_create links path = do w ← walk_path links path; create_in w

-- `if (f->f_dir) { file_flush(f->f_dir); }`
unfoldable pub flush_dir : Ptr → Cmd Fs (Unit {0})
unfolding file_flush
flush_dir f s =
    if read_word (f_dir f) s == 0 then ok tt s else file_flush (pointer (read_word (f_dir f) s)) s

unfoldable pub file_set_size : Ptr → ℕ → Cmd Fs (Unit {0})
unfolding file_truncate flush_dir
file_set_size f newsize = do
  (λ s. if ltb newsize (read_word (f_size f) s) then file_truncate f newsize s else ok tt s)
  modify (write_word (f_size f) newsize)
  flush_dir f

-- The loop of `fs_sync` from block `i` on, with `n` of them left.
unfoldable pub sync_blocks : ℕ → ℕ → Cmd Fs (Unit {0})
unfolding block_is_dirty write_block
sync_blocks zero i s = ok tt s
sync_blocks (suc n) i s =
    (do d ← block_is_dirty i; if d then write_block i else pure tt; sync_blocks n (i + 1)) s

unfoldable pub fs_sync : Cmd Fs (Unit {0})
unfolding sync_blocks
fs_sync s = sync_blocks (nblocks s) 0 s

unfoldable pub file_close : Ptr → Cmd Fs (Unit {0})
unfolding file_flush flush_dir write_block
file_close f = do file_flush f; flush_dir f; write_block 1

-- The rest of `file_remove`, which faults on a link that leads nowhere.
unfoldable pub remove_file : Option Ptr → Cmd Fs (Unit {0})
unfolding file_truncate write_byte file_flush flush_dir
remove_file none = halt
remove_file (some f) = do file_truncate f 0; modify (write_byte f 0 0); file_flush f; flush_dir f

unfoldable pub file_remove : ℕ → Str → Cmd Fs (Unit {0})
unfolding file_open remove_file
file_remove links path = do f ← file_open links path; remove_file f
