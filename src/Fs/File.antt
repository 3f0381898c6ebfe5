-- ===== src/Fs/File.antt =====
-- The blocks of a file in fs/fs.c. A `struct File` is the block of the cache it stands in and the
-- index of its first word there, and a pointer to a word is such a pair too. The name takes the
-- first 32 words of the structure, and every other field is a word.
pub mod Clear
pub mod Make
use mos_volca_shell.Base.{
  ℕ, zero, suc, ◌+◌, ◌-◌, ◌/◌, Bool, true, false, not, Option, none, some, ◌==◌, ltb, leb,
  if◌then◌else◌, update, Run, ok, err, panic, Cmd, ◌>>=◌, ◌>>◌, pure, fail, modify, gets, inval,
  not_found,
}
use mos_volca_shell.Fs.Block.{
  Fs, Words, alloc_block, read_block, free_block, dirty_block, block_is_dirty, write_block,
}

abbrev pub Ptr : Type 0
Ptr = ℕ × ℕ

-- NDIRECT, NINDIRECT and BY2BLK
abbrev pub ndirect : ℕ
ndirect = 10

abbrev pub nindirect : ℕ
nindirect = 1024

abbrev pub by2blk : ℕ
by2blk = 4096

abbrev pub read_word : Ptr → Fs → ℕ
read_word (b, i) s = s.cache b i

abbrev pub write_word : Ptr → ℕ → Fs → Fs
write_word (b, i) v s = record s { cache = update s.cache b (update (s.cache b) i v) }

-- `&f->f_size`, `&f->f_direct[i]` and `&f->f_indirect`
abbrev pub f_size : Ptr → Ptr
f_size (b, i) = (b, i + 32)

abbrev pub f_direct : Ptr → ℕ → Ptr
f_direct (b, i) n = (b, i + 34 + n)

abbrev pub f_indirect : Ptr → Ptr
f_indirect (b, i) = (b, i + 44)

-- Step 2 of `file_block_walk`: the indirect block is made where it is missing.
unfoldable pub make_indirect : Ptr → Bool → Cmd Fs (Unit {0})
unfolding alloc_block
make_indirect f alloc s =
    if read_word (f_indirect f) s == 0
    then (if alloc
        then (do r ← alloc_block; modify (write_word (f_indirect f) r)) s
        else err not_found s)
    else ok tt s

unfoldable pub file_block_walk : Ptr → ℕ → Bool → Cmd Fs Ptr
unfolding make_indirect read_block
file_block_walk f filebno alloc s =
    if ltb filebno ndirect
    then ok (f_direct f filebno) s
    else if ltb filebno nindirect
    then (do
      make_indirect f alloc
      blk ← (λ s. read_block (read_word (f_indirect f) s) s)
      pure (blk.0, filebno))
        s
    else err inval s

-- Step 2 of `file_map_block`: the block is made where it is missing.
unfoldable pub make_block : Ptr → Bool → Cmd Fs (Unit {0})
unfolding alloc_block
make_block ptr alloc s =
    if read_word ptr s == 0
    then (if alloc then (do r ← alloc_block; modify (write_word ptr r)) s else err not_found s)
    else ok tt s

unfoldable pub file_map_block : Ptr → ℕ → Bool → Cmd Fs ℕ
unfolding file_block_walk make_block
file_map_block f filebno alloc = do
  ptr ← file_block_walk f filebno alloc
  make_block ptr alloc
  gets (read_word ptr)

unfoldable pub clear_ptr : Ptr → Cmd Fs (Unit {0})
unfolding free_block
clear_ptr ptr s =
    if read_word ptr s == 0
    then ok tt s
    else (do free_block (read_word ptr s); modify (write_word ptr 0)) s

unfoldable pub file_clear_block : Ptr → ℕ → Cmd Fs (Unit {0})
unfolding file_block_walk clear_ptr
file_clear_block f filebno = do ptr ← file_block_walk f filebno false; clear_ptr ptr

-- The number of the block whose page is returned.
unfoldable pub file_get_block : Ptr → ℕ → Cmd Fs ℕ
unfolding file_map_block read_block
file_get_block f filebno = do
  diskbno ← file_map_block f filebno true
  blk ← read_block diskbno
  pure (blk.0)

unfoldable pub file_dirty : Ptr → ℕ → Cmd Fs (Unit {0})
unfolding file_map_block dirty_block
file_dirty f offset = do diskbno ← file_map_block f (offset / by2blk) false; dirty_block diskbno

-- The callers that go on whatever `file_clear_block` or `file_map_block` returns.
unfoldable pub whatever : Run Fs (Unit {0}) → Run Fs (Unit {0})
whatever (ok u s) = ok tt s
whatever (err e s) = ok tt s
whatever panic = panic

-- The loop of `file_truncate` from `bno` on, with `n` rounds left.
unfoldable pub clear_blocks : ℕ → ℕ → Ptr → Cmd Fs (Unit {0})
unfolding file_clear_block whatever
clear_blocks zero bno f s = ok tt s
clear_blocks (suc n) bno f s =
    ((λ s. whatever (file_clear_block f bno s)) >> clear_blocks n (bno + 1) f) s

unfoldable pub drop_indirect : Ptr → Cmd Fs (Unit {0})
unfolding clear_ptr
drop_indirect f = clear_ptr (f_indirect f)

unfoldable pub file_truncate : Ptr → ℕ → Cmd Fs (Unit {0})
unfolding clear_blocks drop_indirect
file_truncate f newsize s =
    let old_nblocks : ℕ = read_word (f_size f) s / by2blk + 1 in
    let new_nblocks : ℕ = if newsize == 0 then 0 else newsize / by2blk + 1 in
    (do
      clear_blocks (old_nblocks - new_nblocks) new_nblocks f
      if leb new_nblocks ndirect then drop_indirect f else pure tt
      modify (write_word (f_size f) newsize))
      s

-- One round of `file_flush`.
unfoldable pub flush_block : Ptr → ℕ → Cmd Fs (Unit {0})
unfolding file_map_block block_is_dirty write_block
flush_block f bno = do
  diskno ← file_map_block f bno false
  d ← block_is_dirty diskno
  if d then write_block diskno else pure tt

unfoldable pub flush_blocks : ℕ → ℕ → Ptr → Cmd Fs (Unit {0})
unfolding flush_block whatever
flush_blocks zero bno f s = ok tt s
flush_blocks (suc n) bno f s =
    ((λ s. whatever (flush_block f bno s)) >> flush_blocks n (bno + 1) f) s

unfoldable pub file_flush : Ptr → Cmd Fs (Unit {0})
unfolding flush_blocks
file_flush f s = flush_blocks (read_word (f_size f) s / by2blk + 1) 0 f s
