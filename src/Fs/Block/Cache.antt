-- ===== src/Fs/Block/Cache.antt =====
-- The block cache of fs/fs.c: `read_block`, `write_block`, `map_block` and `unmap_block`.
use mos_volca_shell.Base.{
  ℕ, ◌-◌, ◌<◌, ◌≡◌, refl, arith, true, false, ◌&&◌, ◌==◌, leb, update, ok, ==-ne, ==-refl,
}
use mos_volca_shell.Fs.Block.{
  Fs, max_blocks, nblocks, block_is_free, write_block, block_is_mapped, diskaddr, mem_alloc,
  unmap_block, read_block, or_fault,
}

below : (b : ℕ) → b < max_blocks → leb max_blocks b ≡ false
below b lt = ground arith

module _ (b : ℕ) (s : Fs) (lt : b < max_blocks) where
  address : diskaddr b s ≡ ok b s
  unfolding diskaddr
  address = rw (below b lt) refl

  is_mapped : block_is_mapped b s ≡ ok (s.mapped b) s
  unfolding block_is_mapped
  is_mapped = rw address refl

  -- `unmap_block` of a block that is in the cache does nothing at all.
  pub unmap_block-mapped : s.mapped b ≡ true → unmap_block b s ≡ ok tt s
  unfolding unmap_block
  unmap_block-mapped m = rw (is_mapped, m) refl

  -- `write_block` of a cached block succeeds; the disk then agrees with the cache at that block
  -- and has not changed at any other.
  pub write_block-disk :
      s.mapped b ≡ true
      → (n : Fs) × (write_block b s ≡ ok tt n)
        × (n.disk b ≡ s.cache b)
        × ((c : ℕ) → (c == b) ≡ false → n.disk c ≡ s.disk c)
  unfolding write_block
  write_block-disk m = (
    record s { disk = update s.disk b (s.cache b) },
    rw (is_mapped, m) refl,
    rw (==-refl b) refl,
    λ c ne. rw ne refl,
  )

  module _ (on : (s.has_super && leb (nblocks s) b) ≡ false)
      (used : (s.has_bitmap && block_is_free b s) ≡ false) where
    -- A block that is in the cache is not read again.
    pub read_block-cached : s.mapped b ≡ true → read_block b s ≡ ok (b, false) s
    unfolding read_block
    read_block-cached m = rw (on, used, address, is_mapped, m) refl

    -- For a block of the disk that is not free and not yet in the cache, with a page to be had,
    -- `read_block` succeeds and says that the block is new: its page is mapped, clean and holds
    -- what the disk holds, and neither the disk nor any other page changes.
    pub read_block-reads :
        s.mapped b ≡ false
        → 0 < s.avail
        → (n : Fs) × (read_block b s ≡ ok (b, true) n)
          × (n.cache b ≡ s.disk b)
          × (n.mapped b ≡ true)
          × (n.dirty b ≡ false)
          × (n.disk ≡ s.disk)
          × ((c : ℕ) → (c == b) ≡ false → n.cache c ≡ s.cache c)
    unfolding read_block mem_alloc or_fault
    read_block-reads m room = (
      record s {
        avail = s.avail - 1;
        mapped = update s.mapped b true;
        dirty = update s.dirty b false;
        cache = update (update s.cache b (λ _. 0)) b (s.disk b);
      },
      rw (on, used, address, is_mapped, m, ==-ne s.avail 0 (omega arith)) refl,
      rw (==-refl b) refl,
      rw (==-refl b) refl,
      rw (==-refl b) refl,
      refl,
      λ c ne. rw ne refl,
    )
