-- ===== src/Kern/Pmap/Fill.antt =====
-- What `page_insert` of kern/pmap.c leaves, and the write of the new entry.
use mos_volca_shell.Base.{
  ℕ, ◌+◌, ◌-◌, ◌<◌, Bool, true, false, ◌==◌, ◌≡◌, ◌≢◌, refl, ap, ◌∙◌, sym, mem, Option, none, some,
  if◌then◌else◌, update, ==-ne, ==-refl,
}
use mos_volca_shell.Kern.Pmap.{
  Mem, Slot, valid, ppn, pdx, ptx, store, tlb_invalidate, entry_hi, incref, make_pte, u16,
}
use mos_volca_shell.Kern.Pmap.Entry.{valid-make_pte}
use mos_volca_shell.Kern.Pmap.Walk.{pde, pte_of, NotTableOf}
use mos_volca_shell.Kern.Pmap.Table.{
  TableOk, TableOk-same, OtherPage, pte_of-word, pte_of-store_self, pte_of-store_other,
  store-TableOk,
}
use mos_volca_shell.Kern.Pmap.Remove.{mem-remove_key}

-- The reference counts after mapping the page `pp` over an old mapping: the old page loses one
-- and `pp` gains one, unless they are the same page.
unfoldable pub count_after : Option (Slot × ℕ) → ℕ → (ℕ → ℕ) → ℕ → ℕ
count_after none pp ref = update ref pp (u16 (ref pp + 1))
count_after (some (slot, w)) pp ref =
    if ppn w == pp then ref else update (update ref (ppn w) (ref (ppn w) - 1)) pp (u16 (ref pp + 1))

pub record Inserted (lim : ℕ) (m : Mem) (pgdir asid pp va perm : ℕ) (n : Mem) : Type 0 where
  pub shape : TableOk lim n pgdir
  pub mapped : pte_of n pgdir va ≡ some ((ppn (pde n pgdir va), ptx va), make_pte pp perm)
  pub others :
      (va' : ℕ) → pdx va' < lim → OtherPage va va' → pte_of n pgdir va' ≡ pte_of m pgdir va'
  pub npage : n.npage ≡ m.npage
  pub refs : (q : ℕ) → mem q m.free ≡ false → n.ref q ≡ count_after (pte_of m pgdir va) pp m.ref q
  pub flushed : mem (entry_hi asid va) n.tlb ≡ false
  -- a page that is in use, and neither the directory nor the table of the address
  pub contents :
      (q : ℕ)
      → mem q m.free ≡ false
      → q ≢ pgdir
      → NotTableOf m pgdir va q
      → (i : ℕ) → n.word q i ≡ m.word q i

module _ (lim pgdir asid pp va perm : ℕ) (lt : pdx va < lim) where
  -- The memory after the entry is written.
  abbrev pub filled : Mem → Mem
  filled n = incref pp (store (ppn (pde n pgdir va), ptx va) (make_pte pp perm) n)

  pub filled-contents :
      (n : Mem) (q i : ℕ) → ppn (pde n pgdir va) ≢ q → (filled n).word q i ≡ n.word q i
  unfolding incref store
  filled-contents n q i ne = rw (==-ne q (ppn (pde n pgdir va)) (λ s. ne (sym s))) refl

  module _ (n : Mem) (h : TableOk lim n pgdir) (e : valid (pde n pgdir va) ≡ true) where
    pub after_store : Mem
    after_store = store (ppn (pde n pgdir va), ptx va) (make_pte pp perm) n

    pub stored-TableOk : TableOk lim after_store pgdir
    unfolding after_store
    stored-TableOk = store-TableOk lim n pgdir va (make_pte pp perm) h lt e

    stored-pde : pde after_store pgdir va ≡ pde n pgdir va
    unfolding after_store store
    stored-pde =
        rw (==-ne pgdir (ppn (pde n pgdir va)) (λ s. h.table_ne (pdx va) lt e (sym s))) refl

    pub stored-mapped :
        pte_of after_store pgdir va
        ≡ some ((ppn (pde after_store pgdir va), ptx va), make_pte pp perm)
    unfolding after_store
    stored-mapped = rw stored-pde (
        pte_of-store_self lim n pgdir va (make_pte pp perm) h lt e
        ∙ ap
            (λ (b : Bool).
              if b then some ((ppn (pde n pgdir va), ptx va), make_pte pp perm) else none)
            (valid-make_pte pp perm))

    pub stored-others :
        (va' : ℕ)
        → pdx va' < lim
        → OtherPage va va'
        → pte_of after_store pgdir va' ≡ pte_of n pgdir va'
    unfolding after_store
    stored-others va' lt' other =
        pte_of-store_other lim n pgdir va (make_pte pp perm) h lt e va' lt' other

    pub filled-TableOk : TableOk lim (filled n) pgdir
    unfolding incref after_store
    filled-TableOk =
        TableOk-same lim after_store (filled n) pgdir stored-TableOk refl (λ i. refl)
          (stored-TableOk.dir_used) (stored-TableOk.table_used)

    pub filled-mapped :
        pte_of (filled n) pgdir va
        ≡ some ((ppn (pde (filled n) pgdir va), ptx va), make_pte pp perm)
    unfolding incref after_store
    filled-mapped = pte_of-word after_store (filled n) pgdir va refl ∙ stored-mapped

    pub filled-others :
        (va' : ℕ)
        → pdx va' < lim
        → OtherPage va va'
        → pte_of (filled n) pgdir va' ≡ pte_of n pgdir va'
    unfolding incref after_store
    filled-others va' lt' other =
        pte_of-word after_store (filled n) pgdir va' refl ∙ stored-others va' lt' other

  -- The same page with other permissions: step 1 of `page_insert`.
  module _ (m : Mem) (h : TableOk lim m pgdir) (e : valid (pde m pgdir va) ≡ true) where
    flushed_tlb : Mem
    flushed_tlb = tlb_invalidate asid va m

    flushed-TableOk : TableOk lim flushed_tlb pgdir
    unfolding flushed_tlb tlb_invalidate
    flushed-TableOk =
        TableOk-same lim m flushed_tlb pgdir h refl (λ i. refl) h.dir_used h.table_used

    unfoldable pub remapped : Mem
    remapped = store (ppn (pde m pgdir va), ptx va) (make_pte pp perm) (tlb_invalidate asid va m)

    pub remapped-Inserted :
        (w : ℕ) (slot : Slot)
        → pte_of m pgdir va ≡ some (slot, w)
        → ppn w ≡ pp
        → Inserted lim m pgdir asid pp va perm remapped
    unfolding remapped flushed_tlb after_store tlb_invalidate store count_after
    remapped-Inserted w slot old same = record {
      shape = stored-TableOk flushed_tlb flushed-TableOk e;
      mapped = stored-mapped flushed_tlb flushed-TableOk e;
      others = λ va' lt' other.
          stored-others flushed_tlb flushed-TableOk e va' lt' other
          ∙ pte_of-word m flushed_tlb pgdir va' refl;
      npage = refl;
      refs = λ q out. rw (old, same, ==-refl pp) refl;
      flushed = mem-remove_key (entry_hi asid va) m.tlb;
      contents =
          λ q out ne other i. rw (==-ne q (ppn (pde m pgdir va)) (λ s. other e (sym s))) refl;
    }
