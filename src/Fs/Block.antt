-- ===== src/Fs/Block.antt =====
-- The block cache and the block allocator of fs/fs.c, with `ide_read` and `ide_write` of fs/ide.c
-- as transfers of whole blocks. A block is its 1024 words. The super block is block 1 and the
-- bitmap starts at block 2, so both pointers are flags, and their data stand in the cache. The bits
-- of the bitmap are read only where `bitmap` is set, as it is after `read_bitmap`.
pub mod Alloc
pub mod Cache
use mos_volca_shell.Base.{
  ℕ, zero, suc, ◌+◌, ◌-◌, ◌*◌, ◌/◌, ◌%◌, ◌^◌, Bool, true, false, not, ◌&&◌, ◌||◌, Option, none,
  some, ◌==◌, ltb, leb, if◌then◌else◌, update, Run, ok, err, panic, Cmd, ◌>>=◌, ◌>>◌, pure, modify,
  gets, assert, and_then, fail, no_mem, not_found, no_disk,
}
use mos_volca_shell.Bits.{test_bit, set_bit, clear_bit}

abbrev pub Words : Type 0
Words = ℕ → ℕ

pub record Fs : Type 0 where
  -- `super` and `bitmap` are not NULL
  pub has_super : Bool
  pub has_bitmap : Bool
  -- the pages at DISKMAP, and whether they are mapped and marked PTE_DIRTY
  pub cache : ℕ → Words
  pub mapped : ℕ → Bool
  pub dirty : ℕ → Bool
  pub disk : ℕ → Words
  -- how many pages the kernel can still give
  pub avail : ℕ

-- DISKMAX / BY2BLK
abbrev pub max_blocks : ℕ
max_blocks = 0x40000

-- `super->s_nblocks`
abbrev pub nblocks : Fs → ℕ
nblocks s = s.cache 1 1

-- `diskaddr`, as the number of the block that the address belongs to.
unfoldable pub diskaddr : ℕ → Cmd Fs ℕ
diskaddr blockno s = if leb max_blocks blockno then panic else ok blockno s

unfoldable pub block_is_mapped : ℕ → Cmd Fs Bool
unfolding diskaddr
block_is_mapped blockno = do va ← diskaddr blockno; gets (λ s. s.mapped va)

unfoldable pub block_is_dirty : ℕ → Cmd Fs Bool
unfolding diskaddr
block_is_dirty blockno = do va ← diskaddr blockno; gets (λ s. s.mapped va && s.dirty va)

unfoldable pub dirty_block : ℕ → Cmd Fs (Unit {0})
unfolding diskaddr
dirty_block blockno = do
  va ← diskaddr blockno
  (λ s.
      if not (s.mapped va)
      then err not_found s
      else if s.dirty va
      then ok tt s
      else ok tt (record s { dirty = update s.dirty va true }))

-- The page stays marked dirty.
unfoldable pub write_block : ℕ → Cmd Fs (Unit {0})
unfolding block_is_mapped
write_block blockno = do
  m ← block_is_mapped blockno
  assert m
  modify (λ s. record s { disk = update s.disk blockno (s.cache blockno) })

-- `syscall_mem_alloc` of a page for an unmapped block.
unfoldable pub mem_alloc : ℕ → Cmd Fs (Unit {0})
mem_alloc va s =
    if s.avail == 0
    then err no_mem s
    else ok tt (record s {
      avail = s.avail - 1;
      mapped = update s.mapped va true;
      dirty = update s.dirty va false;
      cache = update s.cache va (λ _. 0);
    })

-- The bit of a block in the bitmap: `bitmap[blockno / 32] & (1 << (blockno % 32))`.
unfoldable pub free_bit : Fs → ℕ → Bool
free_bit s b = test_bit (s.cache (2 + b / 32 / 1024) (b / 32 % 1024)) (b % 32)

-- An assignment to `bitmap[blockno / 32]`.
abbrev pub put_word : Fs → ℕ → ℕ → Fs
put_word s b v = record s {
  cache =
      update s.cache (2 + b / 32 / 1024) (update (s.cache (2 + b / 32 / 1024)) (b / 32 % 1024) v);
}

unfoldable pub mark_free : ℕ → Fs → Fs
mark_free b s = put_word s b (set_bit (s.cache (2 + b / 32 / 1024) (b / 32 % 1024)) (b % 32))

unfoldable pub mark_used : ℕ → Fs → Fs
mark_used b s = put_word s b (clear_bit (s.cache (2 + b / 32 / 1024) (b / 32 % 1024)) (b % 32))

unfoldable pub block_is_free : ℕ → Fs → Bool
unfolding free_bit
block_is_free blockno s =
    if not s.has_super || leb (nblocks s) blockno then false else free_bit s blockno

-- A NULL `super` is read before it is tested.
unfoldable pub free_block : ℕ → Cmd Fs (Unit {0})
unfolding mark_free
free_block blockno s =
    if blockno == 0
    then ok tt s
    else if not s.has_super
    then panic
    else if leb (nblocks s) blockno && s.has_super
    then ok tt s
    else ok tt (mark_free blockno s)

-- The loop of `alloc_block_num` from `blockno` on, with `n` rounds left.
unfoldable pub alloc_scan : ℕ → ℕ → Cmd Fs ℕ
unfolding free_bit mark_used write_block
alloc_scan zero blockno s = err no_disk s
alloc_scan (suc n) blockno s =
    let rest = alloc_scan n (blockno + 1) s in
    if free_bit s blockno
    then (do modify (mark_used blockno); write_block (blockno / 0x8000 + 2); pure blockno) s
    else rest

-- The rounds are those from block 3 up to the number of blocks.
unfoldable pub alloc_block_num : Cmd Fs ℕ
unfolding alloc_scan
alloc_block_num s = alloc_scan (nblocks s - 3) 3 s

unfoldable pub map_block : ℕ → Cmd Fs (Unit {0})
unfolding block_is_mapped mem_alloc
map_block blockno = do m ← block_is_mapped blockno; if m then pure tt else mem_alloc blockno

-- A failed `map_block` gives the block back.
unfoldable pub or_give_back : ℕ → Run Fs (Unit {0}) → Run Fs ℕ
unfolding free_block
or_give_back bno (ok _ s) = ok bno s
or_give_back bno (err e s) = and_then (free_block bno s) (λ _. fail e)
or_give_back bno panic = panic

unfoldable pub alloc_block : Cmd Fs ℕ
unfolding alloc_block_num map_block or_give_back
alloc_block = do bno ← alloc_block_num; (λ s. or_give_back bno (map_block bno s))

unfoldable pub unmap_block : ℕ → Cmd Fs (Unit {0})
unfolding block_is_mapped block_is_free block_is_dirty write_block diskaddr
unmap_block blockno = do
  m ← block_is_mapped blockno
  if m then pure tt else (do
    d ← (λ s. if block_is_free blockno s then ok false s else block_is_dirty blockno s)
    if d then write_block blockno else pure tt
    va ← diskaddr blockno
    modify (λ s. record s { mapped = update s.mapped va false })
    m' ← block_is_mapped blockno
    assert (not m'))

-- `read_block` does not look at what `syscall_mem_alloc` returns: without a page the transfer that
-- follows faults, and the kernel, which has no page for it either, panics.
or_fault : Run Fs (Unit {0}) → Run Fs (Unit {0})
or_fault (ok u s) = ok u s
or_fault (err e s) = panic
or_fault panic = panic

unfoldable pub read_block : ℕ → Cmd Fs (ℕ × Bool)
unfolding block_is_free diskaddr block_is_mapped mem_alloc or_fault
read_block blockno = do
  (λ s. assert (not (s.has_super && leb (nblocks s) blockno)) s)
  (λ s. assert (not (s.has_bitmap && block_is_free blockno s)) s)
  va ← diskaddr blockno
  m ← block_is_mapped blockno
  if m then pure (va, false) else (do
    (λ s. or_fault (mem_alloc va s))
    modify (λ s. record s { cache = update s.cache va (s.disk blockno) })
    pure (va, true))
