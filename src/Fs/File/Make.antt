-- ===== src/Fs/File/Make.antt =====
-- A missing block of a file of fs/fs.c is made by `file_map_block`.
use mos_volca_shell.Base.{
  ℕ, ◌+◌, ◌-◌, ◌/◌, ◌<◌, ◌≤◌, Bool, true, false, not, ◌&&◌, ◌||◌, ◌==◌, leb, update, Run, ok, err,
  no_disk, no_mem, ◌≡◌, ◌≢◌, refl, sym, ap, ◌∙◌, arith, ==-ne, ==-refl, ltb-lt, ==_iff, Bool-cases,
  inl, inr, ◌⊎◌, and_then, modify, subst,
}
use mos_volca_shell.Fs.Block.{
  Fs, max_blocks, nblocks, free_bit, mark_free, alloc_block, alloc_block_num, map_block, mem_alloc,
  block_is_mapped, diskaddr, or_give_back,
}
use mos_volca_shell.Fs.Block.Alloc.{
  BitmapOk, Taken, alloc_block_num-least, free_bit-mark_free, free_block_run,
}
use mos_volca_shell.Fs.File.{
  Ptr, ndirect, read_word, write_word, f_direct, file_block_walk, file_map_block, make_block,
}
use mos_volca_shell.Fs.File.Clear.{IsApart}

-- The blocks of the bitmap are in use.
abbrev pub IsReserved : Fs → Type 0
IsReserved s = (c : ℕ) → c < nblocks s → free_bit s (2 + c / 32 / 1024) ≡ false

module _ (i : ℕ) (s t : Fs) (a : Taken 3 (nblocks s) i s t) (h : BitmapOk s)
    (r : IsReserved s) where
  -- The block that was found is not in the bitmap.
  not_bitmap : (c : ℕ) → c < nblocks s → 2 + c / 32 / 1024 ≢ i
  not_bitmap c lt e =
      let free : free_bit s (2 + c / 32 / 1024) ≡ true = rw e a.was_free in
      let used : free_bit s (2 + c / 32 / 1024) ≡ false = r c lt in ground arith

  nblocks-taken : nblocks t ≡ nblocks s
  nblocks-taken =
      ap (λ (w : ℕ → ℕ). w 1) (a.elsewhere 1 (==-ne 1 (2 + i / 32 / 1024) (omega arith)))

  -- The page for the block.
  abbrev mapped_page : Fs
  mapped_page = record t {
    avail = t.avail - 1;
    mapped = update t.mapped i true;
    dirty = update t.dirty i false;
    cache = update t.cache i (λ _. 0);
  }

  map_block-cases :
      (map_block i t ≡ ok tt t)
      ⊎ ((map_block i t ≡ err no_mem t) ⊎ (map_block i t ≡ ok tt mapped_page))
  unfolding map_block block_is_mapped diskaddr mem_alloc
  map_block-cases =
      let below : leb max_blocks i ≡ false = ground (arith, a.below, h.small) in
      elim (Bool-cases (t.mapped i)) [
        | inl m ↦ inl (rw (below, m) refl)
        | inr m ↦ elim (Bool-cases (t.avail == 0)) [
          | inl z ↦ inr (inl (rw (below, m, z) refl))
          | inr z ↦ inr (inr (rw (below, m, z) refl))
        ]
      ]

  free_bit-mapped_page : (c : ℕ) → c < nblocks s → free_bit mapped_page c ≡ free_bit t c
  unfolding free_bit
  free_bit-mapped_page c lt = rw (==-ne (2 + c / 32 / 1024) i (not_bitmap c lt)) refl

  -- Giving the block back undoes the change of the bitmap.
  given_back : (c : ℕ) → free_bit (mark_free i t) c ≡ free_bit s c
  given_back c = free_bit-mark_free i c t ∙ ap (λ b. (c == i) || b) (a.free_after c) ∙ back
    where
      back : ((c == i) || (not (c == i) && free_bit s c)) ≡ free_bit s c
      back = elim (Bool-cases (c == i)) [
        | inl e ↦ rw e (sym (ap (free_bit s) ((==_iff _ _).0 e) ∙ a.was_free))
        | inr e ↦ rw e refl
      ]

  alloc_block-cases :
      alloc_block_num s ≡ ok i t
      → s.has_super ≡ true
      → (alloc_block s ≡ ok i t)
        ⊎ ((alloc_block s ≡ err no_mem (mark_free i t)) ⊎ (alloc_block s ≡ ok i mapped_page))
  unfolding alloc_block or_give_back
  alloc_block-cases run sup = elim map_block-cases [
    | inl e ↦ inl (rw (run, e) refl)
    | inr (inl e) ↦ inr (
        inl (
          rw
            (
              run,
              e,
              free_block_run i t (omega (arith, a.above)) (a.has_super ∙ sup)
                  (omega (arith, a.below, nblocks-taken)),
            )
            refl))
    | inr (inr e) ↦ inr (inr (rw (run, e) refl))
  ]

-- The outcomes of mapping a direct block that is not there: it is made and found from then on; or
-- there is no page for it, and the bitmap and the file are as before; or the disk is full.
pub data MadeBlock (f : Ptr) (bno : ℕ) (s : Fs) : Run Fs ℕ → Type 0 where
  made :
      (i : ℕ) (n : Fs)
      → free_bit s i ≡ true
      → i < nblocks s
      → file_map_block f bno false n ≡ ok i n
      → ((c : ℕ) → c < nblocks s → free_bit n c ≡ (not (c == i) && free_bit s c))
      → ((j : ℕ) → j ≢ bno → read_word (f_direct f j) n ≡ read_word (f_direct f j) s)
      → MadeBlock f bno s (ok i n)
  no_page :
      (n : Fs)
      → ((c : ℕ) → c < nblocks s → free_bit n c ≡ free_bit s c)
      → read_word (f_direct f bno) n ≡ 0
      → MadeBlock f bno s (err no_mem n)
  full :
      ((j : ℕ) → 3 ≤ j → j < nblocks s → free_bit s j ≡ false) → MadeBlock f bno s (err no_disk s)

module _ (block index bno : ℕ) (s : Fs) (apart : IsApart (block, index) s) (h : BitmapOk s)
    (r : IsReserved s) (sup : s.has_super ≡ true) (big : 3 ≤ nblocks s)
    (used : free_bit s block ≡ false) (lt : bno < ndirect)
    (missing : read_word (f_direct (block, index) bno) s ≡ 0) where
  abbrev ptr : Ptr
  ptr = f_direct (block, index) bno

  walk : (alloc : Bool) (t : Fs) → file_block_walk (block, index) bno alloc t ≡ ok ptr t
  unfolding file_block_walk
  walk alloc t = rw (ltb-lt bno ndirect lt) refl

  -- The rest of the call, once the block is allocated or not.
  rest : Run Fs ℕ → Run Fs ℕ
  rest q = and_then (and_then q (λ b. modify (write_word ptr b))) (λ u t. ok (read_word ptr t) t)

  map-rest : file_map_block (block, index) bno true s ≡ rest (alloc_block s)
  unfolding file_map_block make_block rest
  map-rest = rw (walk true s, (==_iff _ _).1 missing) refl

  found_again :
      (i : ℕ) (n : Fs)
      → read_word ptr n ≡ i
      → 3 ≤ i
      → file_map_block (block, index) bno false n ≡ ok i n
  unfolding file_map_block make_block
  found_again i n e ge = rw (walk false n, ==-ne (read_word ptr n) 0 (omega (arith, e)), e) refl

  ==-swap : (a b : ℕ) → (a == b) ≡ false → (b == a) ≡ false
  ==-swap a b ne = ground arith

  -- The file is in no bitmap block, so a write to it leaves the bitmap.
  free_bit-write :
      (i : ℕ) (u : Fs) (c : ℕ) → c < nblocks s → free_bit (write_word ptr i u) c ≡ free_bit u c
  unfolding free_bit
  free_bit-write i u c lt' = rw (apart c lt') refl

  made_at :
      (i : ℕ) (t u : Fs)
      → Taken 3 (nblocks s) i s t
      → ((c : ℕ) → c < nblocks s → free_bit u c ≡ free_bit t c)
      → ((w : ℕ) → u.cache block w ≡ s.cache block w)
      → MadeBlock (block, index) bno s (rest (ok i u))
  unfolding rest
  made_at i t u a same kept =
      let n : Fs = write_word ptr i u in
      let read : read_word ptr n ≡ i = rw (==-refl block, ==-refl (index + 34 + bno)) refl in
      subst (λ (v : ℕ). MadeBlock (block, index) bno s (ok v n)) (sym read)
        (made i n a.was_free a.below (found_again i n read a.above)
          (λ c lt'. free_bit-write i u c lt' ∙ same c lt' ∙ a.free_after c)
          (λ j other.
            rw (==-refl block, ==-ne (index + 34 + j) (index + 34 + bno) (omega (arith, other)))
              (kept (index + 34 + j))))

  -- The file is not in the bitmap, and not in the block that was free.
  kept_by_num :
      (i : ℕ) (t : Fs) → Taken 3 (nblocks s) i s t → (w : ℕ) → t.cache block w ≡ s.cache block w
  kept_by_num i t a w =
      ap (λ (v : ℕ → ℕ). v w)
        (a.elsewhere block (==-swap (2 + i / 32 / 1024) block (apart i a.below)))

  other_block : (i : ℕ) (t : Fs) → Taken 3 (nblocks s) i s t → (block == i) ≡ false
  other_block i t a =
      ==-ne block i (λ e. let free : free_bit s block ≡ true = rw e a.was_free in ground arith)

  no_page_at :
      (i : ℕ) (t : Fs)
      → Taken 3 (nblocks s) i s t
      → MadeBlock (block, index) bno s (err no_mem (mark_free i t))
  unfolding mark_free
  no_page_at i t a =
      let ne : (block == 2 + i / 32 / 1024) ≡ false =
        ==-swap (2 + i / 32 / 1024) block (apart i a.below) in
      no_page (mark_free i t) (λ c lt'. given_back i s t a h r c)
        (rw ne (ap (λ (w : ℕ → ℕ). w (index + 34 + bno)) (a.elsewhere block ne) ∙ missing))

  -- With a super block, the bitmap in the cache and in use, and at least three blocks, for a file
  -- that is in no bitmap block and in no free block: mapping with `alloc` a direct block that is
  -- not there has one of three outcomes. A free block of the disk is made, the call returns it,
  -- mapping without `alloc` then finds it, it and no other block stops being free, and every
  -- other direct pointer stays; or it answers E_NO_MEM, no block stopped being free and the
  -- pointer is still 0; or it answers E_NO_DISK and no block from 3 on is free.
  pub file_map_block-MadeBlock :
      MadeBlock (block, index) bno s (file_map_block (block, index) bno true s)
  unfolding rest alloc_block
  file_map_block-MadeBlock = rw map-rest (elim (alloc_block_num-least s h big) [
    | inr (run, none_free) ↦ rw run (full none_free)
    | inl (i, t, run, a) ↦ elim (alloc_block-cases i s t a h r run sup) [
      | inl e ↦ rw e (made_at i t t a (λ c lt'. refl) (kept_by_num i t a))
      | inr (inl e) ↦ rw e (no_page_at i t a)
      | inr (inr e) ↦ rw e (
          made_at i t (mapped_page i s t a h r) a (free_bit-mapped_page i s t a h r)
            (λ w. rw (other_block i t a) (kept_by_num i t a w)))
    ]
  ])
