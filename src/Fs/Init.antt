-- ===== src/Fs/Init.antt =====
-- The start of the file system in fs/fs.c: the super block and the bitmap are read and checked.
use mos_volca_shell.Base.{
  ℕ, zero, suc, ◌+◌, ◌/◌, true, not, ◌==◌, leb, ok, Cmd, ◌>>◌, modify, assert,
}
use mos_volca_shell.Fs.Block.{Fs, max_blocks, nblocks, read_block, block_is_free, diskaddr}

-- FS_MAGIC
abbrev pub fs_magic : ℕ
fs_magic = 0x68286097

unfoldable pub read_super : Cmd Fs (Unit {0})
unfolding read_block
read_super = do
  read_block 1
  modify (λ s. record s { has_super = true })
  (λ s. assert (s.cache 1 0 == fs_magic) s)
  (λ s. assert (leb (nblocks s) max_blocks) s)

-- The loop that reads the blocks of the bitmap, from block `b` on, `n` of them.
unfoldable pub read_blocks : ℕ → ℕ → Cmd Fs (Unit {0})
unfolding read_block
read_blocks zero b s = ok tt s
read_blocks (suc n) b s = (do read_block b; read_blocks n (b + 1)) s

-- The loop that makes sure that they are in use.
unfoldable pub check_used : ℕ → ℕ → Cmd Fs (Unit {0})
unfolding block_is_free
check_used zero b s = ok tt s
check_used (suc n) b s = ((λ s. assert (not (block_is_free b s)) s) >> check_used n (b + 1)) s

-- The blocks 0 and 1 are checked together with those of the bitmap, which are the next ones.
unfoldable pub read_bitmap : Cmd Fs (Unit {0})
unfolding read_blocks diskaddr check_used
read_bitmap s =
    let nbitmap : ℕ = nblocks s / 0x8000 + 1 in
    (do
      read_blocks nbitmap 2
      diskaddr 2
      modify (λ s. record s { has_bitmap = true })
      check_used 2 0
      check_used nbitmap 2)
      s
