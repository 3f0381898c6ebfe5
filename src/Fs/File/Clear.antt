-- ===== src/Fs/File/Clear.antt =====
-- Freeing blocks of a file of fs/fs.c.
use mos_volca_shell.Base.{
  ℕ, ◌+◌, ◌/◌, ◌<◌, Bool, true, false, ◌||◌, ◌==◌, leb, ok, err, not_found, ◌≡◌, ◌≢◌, refl, ◌∙◌,
  arith, ==-ne, ==-refl, ltb-lt,
}
use mos_volca_shell.Fs.Block.{Fs, nblocks, free_bit, mark_free, free_block}
use mos_volca_shell.Fs.Block.Alloc.{free_bit-mark_free}
use mos_volca_shell.Fs.File.{
  Ptr, ndirect, read_word, write_word, f_direct, file_block_walk, file_map_block, make_block,
  file_clear_block, clear_ptr,
}

-- The file stands in no bitmap block of the disk.
abbrev pub IsApart : Ptr → Fs → Type 0
IsApart f s = (c : ℕ) → c < nblocks s → (2 + c / 32 / 1024 == f.0) ≡ false

module _ (block index : ℕ) (s : Fs) (apart : IsApart (block, index) s) where
  abbrev f : Ptr
  f = (block, index)

  walk_direct :
      (bno : ℕ) (alloc : Bool) (t : Fs)
      → bno < ndirect
      → file_block_walk f bno alloc t ≡ ok (f_direct f bno) t
  unfolding file_block_walk
  walk_direct bno alloc t lt = rw (ltb-lt bno ndirect lt) refl

  -- What `file_clear_block` leaves of a block that was there.
  abbrev cleared : ℕ → ℕ → Fs
  cleared bno v = write_word (f_direct f bno) 0 (mark_free v s)

  -- Marking a block free does not touch the file.
  kept : (v i : ℕ) → v < nblocks s → (mark_free v s).cache block i ≡ s.cache block i
  unfolding mark_free
  kept v i lt = rw (==-swap (2 + v / 32 / 1024) block (apart v lt)) refl
    where
      ==-swap : (a b : ℕ) → (a == b) ≡ false → (b == a) ≡ false
      ==-swap a b ne = ground arith

  free_bit-cleared :
      (bno v c : ℕ) → c < nblocks s → free_bit (cleared bno v) c ≡ ((c == v) || free_bit s c)
  unfolding free_bit
  free_bit-cleared bno v c lt = same ∙ free_bit-mark_free v c s
    where
      same : free_bit (cleared bno v) c ≡ free_bit (mark_free v s) c
      same = rw (apart c lt) refl

  clear_ptr-run :
      (bno : ℕ)
      → read_word (f_direct f bno) s ≢ 0
      → read_word (f_direct f bno) s < nblocks s
      → s.has_super ≡ true
      → clear_ptr (f_direct f bno) s ≡ ok tt (cleared bno (read_word (f_direct f bno) s))
  unfolding clear_ptr free_block
  clear_ptr-run bno ne in_range sup =
      let inside : leb (nblocks s) (read_word (f_direct f bno) s) ≡ false = ground arith in
      rw (==-ne (read_word (f_direct f bno) s) 0 ne, sup, inside) refl

  -- With a super block, for a file that is in no bitmap block and a direct block of it that is
  -- there, below the number of blocks: `file_clear_block` succeeds, the block is then free and no
  -- other one changes, mapping it without `alloc` answers E_NOT_FOUND, and every other direct
  -- pointer stays.
  pub file_clear_block-frees :
      (bno : ℕ)
      → bno < ndirect
      → read_word (f_direct (block, index) bno) s ≢ 0
      → read_word (f_direct (block, index) bno) s < nblocks s
      → s.has_super ≡ true
      → (n : Fs) × (file_clear_block (block, index) bno s ≡ ok tt n)
        × (file_map_block (block, index) bno false n ≡ err not_found n)
        × ((c : ℕ)
            → c < nblocks s
            → free_bit n c ≡ ((c == read_word (f_direct (block, index) bno) s) || free_bit s c))
        × ((j : ℕ)
            → j ≢ bno
            → read_word (f_direct (block, index) j) n ≡ read_word (f_direct (block, index) j) s)
  unfolding file_clear_block file_map_block make_block
  file_clear_block-frees bno lt ne in_range sup =
      let v : ℕ = s.cache block (index + 34 + bno) in
      (
        cleared bno v,
        rw (walk_direct bno false s lt) (clear_ptr-run bno ne in_range sup),
        rw (walk_direct bno false (cleared bno v) lt, ==-refl block, ==-refl (index + 34 + bno))
            refl,
        (λ c lt'. free_bit-cleared bno v c lt'),
        λ j other.
            rw (==-refl block, ==-ne (index + 34 + j) (index + 34 + bno) (omega (arith, other)))
              (kept v (index + 34 + j) in_range),
      )
