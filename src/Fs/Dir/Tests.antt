-- ===== src/Fs/Dir/Tests.antt =====
-- A small disk for the directories of fs/fs.c: eight blocks, of which 5 and 7 are free. The root holds
-- the directory "a" in block 3, and this one the file "b" in block 4.
use mos_volca_shell.Base.{
  ◌/◌, ◌≡◌, refl, subst, arith, true, false, none, some, [], ◌∷◌, ◌++◌, ◌==◌, leb, if◌then◌else◌,
  ok, cons-ne-nil,
}
use mos_volca_shell.Bits.{test_bit}
use mos_volca_shell.Text.{Str, slash, strcmp, strlen, compare_byte}
use mos_volca_shell.Fs.Block.{Fs, block_is_free, free_bit, diskaddr, block_is_mapped, read_block}
use mos_volca_shell.Fs.File.{
  by2blk, read_word, write_word, f_size, file_block_walk, make_block, file_map_block,
  file_get_block,
}
use mos_volca_shell.Fs.Dir.{
  root, found, f_dir, address, walk_path_at, walk_from, walk_name, after_lookup, dir_lookup,
  lookup_blocks, find_entry, found_entry, f_name, read_string, next_name, skip_slash,
}
use mos_volca_shell.Fs.Dir.Walk.{names_of, walk_names, walk_path_at-names, walk_path_at-joined}
use mos_volca_shell.Fs.Dir.Lookup.{
  IsReadable, noted, first_with, has_name, dir_entries, dir_lookup-first,
}

abbrev pub dir_disk : Fs
dir_disk = record {
  has_super = true;
  has_bitmap = true;
  cache = λ b w.
      if b == 1
      then (if w == 1
          then 8
          else if w == 34
          then 4096
          else if w == 35
          then 1
          else if w == 36
          then 3
          else 0)
      else if b == 2
      then (if w == 0 then 0xa0 else 0)
      else if b == 3
      then (if w == 0
          then b'a'
          else if w == 32
          then 4096
          else if w == 33
          then 1
          else if w == 34
          then 4
          else 0)
      else if b == 4
      then (if w == 0 then b'b' else 0)
      else 0;
  mapped = λ b. leb b 4;
  dirty = λ b. false;
  disk = λ b w. 0;
  avail = 10;
}

abbrev a_name : Str
a_name = b'a' ∷ []

abbrev b_name : Str
b_name = b'b' ∷ []

root_block : file_get_block root 0 dir_disk ≡ ok 3 dir_disk
unfolding file_get_block file_map_block file_block_walk make_block read_block block_is_free free_bit
    test_bit diskaddr block_is_mapped
root_block = refl

root-IsReadable : IsReadable root dir_disk (λ k. 3) 0 (read_word (f_size root) dir_disk / by2blk)
root-IsReadable k lo hi =
    let first : 0 ≡ k = omega (arith, lo, hi) in
    subst (λ j. file_get_block root j dir_disk ≡ ok 3 dir_disk) first root_block

dir_lookup-first_example :
    dir_lookup root a_name dir_disk
    ≡ noted root dir_disk (
        first_with
          (has_name a_name dir_disk)
          (dir_entries (read_word (f_size root) dir_disk / by2blk) 0 (λ k. 3)))
dir_lookup-first_example = dir_lookup-first root a_name dir_disk (λ k. 3) root-IsReadable

walk_path_at-names_example :
    walk_path_at root (slash ∷ slash ∷ a_name ++ (slash ∷ b_name)) dir_disk
    ≡ walk_names (names_of (slash ∷ slash ∷ a_name ++ (slash ∷ b_name))) none root dir_disk
walk_path_at-names_example =
    walk_path_at-names root (slash ∷ slash ∷ a_name ++ (slash ∷ b_name)) dir_disk

abbrev looked_up : Fs
looked_up = write_word (f_dir (3, 0)) (address root) dir_disk

walk_to_a : walk_path_at root a_name dir_disk ≡ ok (found (some root) (some (3, 0))) looked_up
unfolding walk_path_at walk_from walk_name after_lookup dir_lookup lookup_blocks find_entry
    found_entry f_name read_string next_name skip_slash strcmp strlen compare_byte file_get_block
    file_map_block file_block_walk make_block read_block block_is_free free_bit test_bit diskaddr
    block_is_mapped
walk_to_a = refl

walk_path_at-joined_example :
    walk_path_at root (a_name ++ (slash ∷ b_name)) dir_disk ≡ walk_path_at (3, 0) b_name looked_up
walk_path_at-joined_example =
    walk_path_at-joined root (3, 0) a_name b_name (some root) dir_disk looked_up
      (cons-ne-nil b_name []) walk_to_a
