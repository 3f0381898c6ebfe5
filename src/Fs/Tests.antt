-- ===== src/Fs/Tests.antt =====
-- A small disk for fs/fs.c: eight blocks, of which 5 and 7 are free; the super block, the bitmap
-- block and block 3 are in the cache.
use mos_volca_shell.Base.{
  ==-ne, not_found, ◌/◌, ◌<◌, ◌≢◌, ℕ, ◌+◌, ◌<◌, ◌≡◌, refl, arith, true, false, ◌&&◌, ◌||◌, ◌==◌,
  if◌then◌else◌, ok, err, leb,
}
use mos_volca_shell.Bits.{test_bit}
use mos_volca_shell.Fs.Block.{Fs, free_bit}
use mos_volca_shell.Fs.Block.Alloc.{BitmapOk}
use mos_volca_shell.Fs.File.{read_word, f_direct, file_map_block, file_clear_block}
use mos_volca_shell.Fs.File.Clear.{IsApart, file_clear_block-frees}
use mos_volca_shell.Fs.File.Make.{IsReserved, MadeBlock, file_map_block-MadeBlock}

abbrev small_disk : Fs
small_disk = record {
  has_super = true;
  has_bitmap = true;
  cache = λ b w. if b == 1 && w == 1 then 8 else if b == 2 && w == 0 then 0xa0 else 0;
  mapped = λ b. leb b 3;
  dirty = λ b. false;
  disk = λ b w. b + w;
  avail = 10;
}

small_disk-BitmapOk : BitmapOk small_disk
small_disk-BitmapOk = record { small = omega arith; cached = λ b lt. ground arith }

-- A file in block 4, once without blocks and once with block 6 as its first one.
abbrev with_block : Fs
with_block = record small_disk {
  cache = λ b w. if b == 4 && w == 34 then 6 else small_disk.cache b w;
}

empty-IsApart : IsApart (4, 0) small_disk
empty-IsApart c lt = ==-ne (2 + c / 32 / 1024) 4 (omega (arith, lt))

with_block-IsApart : IsApart (4, 0) with_block
with_block-IsApart c lt = ==-ne (2 + c / 32 / 1024) 4 (omega (arith, lt))

small_disk-IsReserved : IsReserved small_disk
unfolding free_bit test_bit
small_disk-IsReserved c lt = let two : 2 + c / 32 / 1024 ≡ 2 = omega (arith, lt) in rw two refl

in_use : free_bit small_disk 4 ≡ false
unfolding free_bit test_bit
in_use = refl

file_map_block-MadeBlock_example :
    MadeBlock (4, 0) 0 small_disk (file_map_block (4, 0) 0 true small_disk)
file_map_block-MadeBlock_example =
    file_map_block-MadeBlock 4 0 0 small_disk empty-IsApart small_disk-BitmapOk
      small_disk-IsReserved refl (omega arith) in_use (omega arith) refl

file_clear_block-frees_example :
    (n : Fs) × (file_clear_block (4, 0) 0 with_block ≡ ok tt n)
    × (file_map_block (4, 0) 0 false n ≡ err not_found n)
    × ((c : ℕ) → c < 8 → free_bit n c ≡ ((c == 6) || free_bit with_block c))
    × ((j : ℕ) → j ≢ 0 → read_word (f_direct (4, 0) j) n ≡ read_word (f_direct (4, 0) j) with_block)
file_clear_block-frees_example =
    file_clear_block-frees 4 0 with_block with_block-IsApart 0 (omega arith) (omega arith)
      (omega arith) refl
