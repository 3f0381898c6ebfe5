-- ===== src/Fs/Block/Alloc.antt =====
-- The free-block bitmap of fs/fs.c: `free_block`, `block_is_free` and `alloc_block_num`.
use mos_volca_shell.Base.{
  ℕ, zero, suc, ◌+◌, ◌-◌, ◌≤◌, ◌<◌, ◌/◌, ◌%◌, ◌≡◌, ◌≢◌, ◌⊎◌, refl, arith, true, false, not, ◌&&◌,
  ◌||◌, ◌==◌, leb, update, ok, err, no_disk, Bool-cases, inl, inr, ==_iff, ==-ne, ==-refl, subst,
}
use mos_volca_shell.Bits.{test_bit-set_bit, test_bit-clear_bit}
use mos_volca_shell.Fs.Block.{
  Fs, max_blocks, nblocks, free_bit, mark_free, mark_used, block_is_free, free_block, alloc_scan,
  alloc_block_num, write_block, block_is_mapped, diskaddr,
}

-- The bit of a block, by bitmap block, word and bit.
same_block :
    (b c : ℕ)
    → (2 + c / 32 / 1024 == 2 + b / 32 / 1024) ≡ true
    → (c / 32 % 1024 == b / 32 % 1024) ≡ true
    → (c % 32 == b % 32) ≡ (c == b)
same_block b c d w = ground arith

other_word : (b c : ℕ) → (c / 32 % 1024 == b / 32 % 1024) ≡ false → (c == b) ≡ false
other_word b c w = ground arith

other_page : (b c : ℕ) → (2 + c / 32 / 1024 == 2 + b / 32 / 1024) ≡ false → (c == b) ≡ false
other_page b c w = ground arith

-- Clearing the bit of a block changes no other bit.
free_bit-mark_used :
    (b c : ℕ) (s : Fs) → free_bit (mark_used b s) c ≡ (not (c == b) && free_bit s c)
unfolding free_bit mark_used
free_bit-mark_used b c s = elim (Bool-cases (2 + c / 32 / 1024 == 2 + b / 32 / 1024)) [
  | inr page ↦ rw (page, other_page b c page) refl
  | inl page ↦ elim (Bool-cases (c / 32 % 1024 == b / 32 % 1024)) [
    | inr w ↦ rw (page, w, other_word b c w, (==_iff _ _).0 page) refl
    | inl w ↦
        rw
          (
            ← same_block b c page w,
            page,
            w,
            test_bit-clear_bit,
            (==_iff _ _).0 page,
            (==_iff _ _).0 w,
          )
          refl
  ]
]

-- Setting the bit of a block changes no other bit.
pub free_bit-mark_free :
    (b c : ℕ) (s : Fs) → free_bit (mark_free b s) c ≡ ((c == b) || free_bit s c)
unfolding free_bit mark_free
free_bit-mark_free b c s = elim (Bool-cases (2 + c / 32 / 1024 == 2 + b / 32 / 1024)) [
  | inr page ↦ rw (page, other_page b c page) refl
  | inl page ↦ elim (Bool-cases (c / 32 % 1024 == b / 32 % 1024)) [
    | inr w ↦ rw (page, w, other_word b c w, (==_iff _ _).0 page) refl
    | inl w ↦
        rw
          (
            ← same_block b c page w,
            page,
            w,
            test_bit-set_bit,
            (==_iff _ _).0 page,
            (==_iff _ _).0 w,
          )
          refl
  ]
]

-- The super block is no block of the bitmap.
nblocks-mark_used : (b : ℕ) (s : Fs) → nblocks (mark_used b s) ≡ nblocks s
unfolding mark_used
nblocks-mark_used b s = rw (==-ne 1 (2 + b / 32 / 1024) (omega arith)) refl

nblocks-mark_free : (b : ℕ) (s : Fs) → nblocks (mark_free b s) ≡ nblocks s
unfolding mark_free
nblocks-mark_free b s = rw (==-ne 1 (2 + b / 32 / 1024) (omega arith)) refl

has_super-mark_free : (b : ℕ) (s : Fs) → (mark_free b s).has_super ≡ s.has_super
unfolding mark_free
has_super-mark_free b s = refl

pub free_block_run :
    (b : ℕ) (s : Fs)
    → b ≢ 0
    → s.has_super ≡ true
    → b < nblocks s
    → free_block b s ≡ ok tt (mark_free b s)
unfolding free_block
free_block_run b s ne sup lt = rw (==-ne b 0 ne, sup, in_range) refl
  where
    in_range : leb (nblocks s) b ≡ false
    in_range = ground arith

-- With a super block, `free_block` of a block other than 0 below the number of blocks succeeds
-- and makes it free for `block_is_free`, and changes no other block's answer.
pub block_is_free-free_block :
    (b c : ℕ) (s : Fs)
    → b ≢ 0
    → s.has_super ≡ true
    → b < nblocks s
    → (n : Fs) × (free_block b s ≡ ok tt n) × (block_is_free c n ≡ ((c == b) || block_is_free c s))
unfolding block_is_free
block_is_free-free_block b c s ne sup lt = (
  mark_free b s,
  free_block_run b s ne sup lt,
  rw (has_super-mark_free b s) (ground (arith, nblocks-mark_free b s, free_bit-mark_free b c s)),
)

-- The bitmap blocks are in the cache, and the disk is small enough for it.
pub record BitmapOk (s : Fs) : Type 0 where
  pub small : nblocks s ≤ max_blocks
  pub cached : (b : ℕ) → b < nblocks s → s.mapped (b / 0x8000 + 2) ≡ true

-- The block that was found: the least free one, and now it is the only change, on disk too.
pub record Taken (lo hi i : ℕ) (s n : Fs) : Type 0 where
  pub above : lo ≤ i
  pub below : i < hi
  pub was_free : free_bit s i ≡ true
  pub least : (j : ℕ) → lo ≤ j → j < i → free_bit s j ≡ false
  pub free_after : (j : ℕ) → free_bit n j ≡ (not (j == i) && free_bit s j)
  pub on_disk : n.disk (i / 0x8000 + 2) ≡ n.cache (i / 0x8000 + 2)
  pub elsewhere : (b : ℕ) → (b == 2 + i / 32 / 1024) ≡ false → n.cache b ≡ s.cache b
  pub has_super : n.has_super ≡ s.has_super
  pub avail : n.avail ≡ s.avail

module _ (s : Fs) (h : BitmapOk s) where
  marked : ℕ → Fs
  marked b =
      let n = mark_used b s in
      record n { disk = update (n.disk) (b / 0x8000 + 2) (n.cache (b / 0x8000 + 2)) }

  write_run :
      (b : ℕ) → b < nblocks s → write_block (b / 0x8000 + 2) (mark_used b s) ≡ ok tt (marked b)
  unfolding write_block block_is_mapped diskaddr marked mark_used
  write_run b lt = rw (below, h.cached b lt) refl
    where
      below : leb max_blocks (b / 0x8000 + 2) ≡ false
      below = ground (arith, h.small)

  free_bit-marked : (b j : ℕ) → free_bit (marked b) j ≡ (not (j == b) && free_bit s j)
  unfolding marked free_bit
  free_bit-marked b j = free_bit-mark_used b j s

  marked-elsewhere : (i b : ℕ) → (b == 2 + i / 32 / 1024) ≡ false → (marked i).cache b ≡ s.cache b
  unfolding marked mark_used
  marked-elsewhere i b ne = rw ne refl

  marked-has_super : (i : ℕ) → (marked i).has_super ≡ s.has_super
  unfolding marked mark_used
  marked-has_super i = refl

  marked-avail : (i : ℕ) → (marked i).avail ≡ s.avail
  unfolding marked mark_used
  marked-avail i = refl

  marked-disk : (b : ℕ) → (marked b).disk (b / 0x8000 + 2) ≡ (marked b).cache (b / 0x8000 + 2)
  unfolding marked
  marked-disk b = rw (==-refl (b / 0x8000 + 2)) refl

  abbrev Found : (n from lo hi : ℕ) → Type 0
  Found n from lo hi =
      ((i : ℕ) × (t : Fs) × (alloc_scan n from s ≡ ok i t) × Taken lo hi i s t)
      ⊎ ((alloc_scan n from s ≡ err no_disk s) × ((j : ℕ) → lo ≤ j → j < hi → free_bit s j ≡ false))

  none_before :
      (lo hi : ℕ)
      → free_bit s lo ≡ false
      → ((j : ℕ) → lo + 1 ≤ j → j < hi → free_bit s j ≡ false)
      → (j : ℕ) → lo ≤ j
      → j < hi
      → free_bit s j ≡ false
  none_before lo hi used rest j ge lt = elim (Bool-cases (j == lo)) [
    | inl same ↦ rw ((==_iff _ _).0 same) used
    | inr ne ↦ rest j (ground arith) lt
  ]

  later :
      (n lo : ℕ)
      → free_bit s lo ≡ false
      → Found n (lo + 1) (lo + 1) (lo + 1 + n)
      → Found n (lo + 1) lo (lo + suc n)
  later n lo used (inl (i, t, run, a)) = inl (
    i,
    t,
    run,
    record {
      above = omega (arith, a.above);
      below = omega (arith, a.below);
      was_free = a.was_free;
      least = none_before lo i used a.least;
      free_after = a.free_after;
      on_disk = a.on_disk;
      elsewhere = a.elsewhere;
      has_super = a.has_super;
      avail = a.avail;
    },
  )
  later n lo used (inr (run, full)) =
      inr (run, λ j ge lt. none_before lo (lo + 1 + n) used full j ge (omega arith))

  alloc_scan-Found : (n lo : ℕ) → lo + n ≤ nblocks s → Found n lo lo (lo + n)
  unfolding alloc_scan
  alloc_scan-Found zero lo fits = inr (refl, λ j ge lt. absurd (omega arith))
  alloc_scan-Found (suc n) lo fits = elim (Bool-cases (free_bit s lo)) [
    | inl here ↦ inl (
      lo,
      marked lo,
      rw (here, write_run lo (omega arith)) refl,
      record {
        above = omega arith;
        below = omega arith;
        was_free = here;
        least = λ j ge lt. absurd (omega arith);
        free_after = λ j. free_bit-marked lo j;
        on_disk = marked-disk lo;
        elsewhere = λ b ne. marked-elsewhere lo b ne;
        has_super = marked-has_super lo;
        avail = marked-avail lo;
      },
    )
    | inr taken ↦ rw taken (later n lo taken (alloc_scan-Found n (lo + 1) (omega arith)))
  ]

  -- With the bitmap in the cache and at least three blocks, `alloc_block_num` takes the least
  -- free block from 3 on, marks it and no other as used, in the cache and in the bitmap block
  -- that it writes to the disk, and fails exactly when no such block is free, then changing
  -- nothing.
  pub alloc_block_num-least :
      3 ≤ nblocks s
      → ((i : ℕ) × (t : Fs) × (alloc_block_num s ≡ ok i t) × Taken 3 (nblocks s) i s t)
        ⊎ ((alloc_block_num s ≡ err no_disk s)
            × ((j : ℕ) → 3 ≤ j → j < nblocks s → free_bit s j ≡ false))
  unfolding alloc_block_num
  alloc_block_num-least big = elim (alloc_scan-Found (nblocks s - 3) 3 (omega arith)) [
    | inl (i, t, run, a) ↦ inl (i, t, run, subst (λ (hi : ℕ). Taken 3 hi i s t) (omega arith) a)
    | inr (run, full) ↦ inr (run, λ j ge lt. full j ge (omega arith))
  ]
