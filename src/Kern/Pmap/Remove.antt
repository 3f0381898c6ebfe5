-- ===== src/Kern/Pmap/Remove.antt =====
-- `page_lookup`, `page_decref` and `page_remove` of kern/pmap.c on a well-formed address space.
use mos_volca_shell.Base.{
  ℕ, ◌-◌, ◌<◌, true, false, ◌==◌, ◌≡◌, ◌≢◌, refl, arith, ◌∙◌, sym, mem, List, [], ◌∷◌, none, some,
  if◌then◌else◌, update, Bool-cases, inl, inr, ==-ne, ==-refl, ok, ltb-lt,
}
use mos_volca_shell.Kern.Pmap.{
  Mem, Slot, valid, ppn, pdx, ptx, store, read_valid, pgdir_walk, page_decref, page_lookup,
  remove_found, page_remove, tlb_invalidate, remove_key, entry_hi,
}
use mos_volca_shell.Kern.Pmap.Walk.{pde, slot_of, pte_of, table_slot-ok}
use mos_volca_shell.Kern.Pmap.Table.{
  TableOk, TableOk-same, NotTable, OtherPage, pte_of-word, pte_of-store_self, pte_of-store_other,
  store-TableOk,
}

-- A reference less; a page without references goes to the head of the free list.
abbrev pub dropped : ℕ → Mem → Mem
dropped pp m = record m {
  ref = update m.ref pp (m.ref pp - 1);
  free = if m.ref pp - 1 == 0 then pp ∷ m.free else m.free;
}

pub page_decref-ok : (pp : ℕ) (m : Mem) → 0 < m.ref pp → page_decref pp m ≡ ok tt (dropped pp m)
unfolding page_decref
page_decref-ok pp m pos = elim (Bool-cases (m.ref pp - 1 == 0)) [
  | inl z ↦ rw (ltb-lt 0 (m.ref pp) pos, z, ==-refl pp, z) refl
  | inr z ↦ rw (ltb-lt 0 (m.ref pp) pos, z) refl
]

pub pte_of-some :
    (m : Mem) (pgdir va w : ℕ) (slot : Slot)
    → pte_of m pgdir va ≡ some (slot, w)
    → (valid (pde m pgdir va) ≡ true) × (slot ≡ (ppn (pde m pgdir va), ptx va))
unfolding pte_of slot_of read_valid
pte_of-some m pgdir va w slot h = ground arith

module _ (lim pgdir va : ℕ) (m : Mem) (lt : pdx va < lim) (h : TableOk lim m pgdir) where
  pub walk-ok : pgdir_walk pgdir va false m ≡ ok (slot_of m pgdir va) m
  unfolding pgdir_walk slot_of
  walk-ok = elim (Bool-cases (valid (pde m pgdir va))) [
    | inl e ↦ rw e (table_slot-ok pgdir va m (h.table_in (pdx va) lt e))
    | inr e ↦ rw e refl
  ]

  -- `page_lookup` finds the page of the valid entry for the address.
  pub lookup-some :
      (w : ℕ) (slot : Slot)
      → pte_of m pgdir va ≡ some (slot, w)
      → ppn w < m.npage
      → page_lookup pgdir va m ≡ ok (some (ppn w, slot)) m
  unfolding page_lookup pte_of
  lookup-some w slot e in_range = rw (walk-ok, e, ltb-lt (ppn w) m.npage in_range) refl

  pub lookup-none : pte_of m pgdir va ≡ none → page_lookup pgdir va m ≡ ok none m
  unfolding page_lookup pte_of
  lookup-none e = rw (walk-ok, e) refl

pub mem-remove_key : (k : ℕ) (l : List ℕ) → mem k (remove_key k l) ≡ false
unfolding remove_key
mem-remove_key k [] = refl
mem-remove_key k (x ∷ xs) = ground (arith, mem-remove_key k xs)

-- What removing the mapping of `va` to the page `pp` leaves.
pub record Removed (lim : ℕ) (m : Mem) (pgdir asid va pp : ℕ) (n : Mem) : Type 0 where
  pub shape : TableOk lim n pgdir
  pub table : pde n pgdir va ≡ pde m pgdir va
  pub gone : pte_of n pgdir va ≡ none
  pub others :
      (va' : ℕ) → pdx va' < lim → OtherPage va va' → pte_of n pgdir va' ≡ pte_of m pgdir va'
  pub npage : n.npage ≡ m.npage
  pub refs : n.ref ≡ update m.ref pp (m.ref pp - 1)
  pub free : n.free ≡ (if m.ref pp - 1 == 0 then pp ∷ m.free else m.free)
  pub flushed : mem (entry_hi asid va) n.tlb ≡ false
  pub contents : (q : ℕ) → ppn (pde m pgdir va) ≢ q → (i : ℕ) → n.word q i ≡ m.word q i

-- The mapping of an address, if there is one, is to a page in use that is no table.
pub record OldOk (lim : ℕ) (m : Mem) (pgdir w : ℕ) : Type 0 where
  pub in_range : ppn w < m.npage
  pub used : 0 < m.ref (ppn w)
  pub not_table : NotTable lim m pgdir (ppn w)

module _ (lim pgdir asid va w : ℕ) (slot : Slot) (m : Mem) (lt : pdx va < lim)
    (h : TableOk lim m pgdir) (e : pte_of m pgdir va ≡ some (slot, w))
    (o : OldOk lim m pgdir w) where
  pub after_remove : Mem
  after_remove = tlb_invalidate asid va (store slot 0 (dropped (ppn w) m))

  not-mem-dropped :
      (q : ℕ) → q ≢ ppn w → mem q m.free ≡ false → mem q ((dropped (ppn w) m).free) ≡ false
  not-mem-dropped q ne out = elim (Bool-cases (m.ref (ppn w) - 1 == 0)) [
    | inl z ↦ rw (z, ==-ne q (ppn w) ne) out
    | inr z ↦ rw z out
  ]

  dropped-TableOk : TableOk lim (dropped (ppn w) m) pgdir
  dropped-TableOk =
      TableOk-same lim m (dropped (ppn w) m) pgdir h refl (λ i. refl)
        (not-mem-dropped pgdir (λ s. o.not_table.ne_dir (sym s)) h.dir_used)
        (λ i li v. not-mem-dropped _ (o.not_table.ne_table i li v) (h.table_used i li v))

  found : (valid (pde m pgdir va) ≡ true) × (slot ≡ (ppn (pde m pgdir va), ptx va))
  found = pte_of-some m pgdir va w slot e

  after_store : Mem
  after_store = store (ppn (pde m pgdir va), ptx va) 0 (dropped (ppn w) m)

  pub page_remove-run : page_remove pgdir asid va m ≡ ok tt after_remove
  unfolding page_remove remove_found after_remove
  page_remove-run =
      rw (lookup-some lim pgdir va m lt h w slot e o.in_range, page_decref-ok (ppn w) m o.used) refl

  shape_after : TableOk lim after_store pgdir
  unfolding after_store
  shape_after = store-TableOk lim (dropped (ppn w) m) pgdir va 0 dropped-TableOk lt found.0

  -- The valid bit of 0 is clear.
  gone_after : pte_of (tlb_invalidate asid va after_store) pgdir va ≡ none
  unfolding after_store tlb_invalidate
  gone_after =
      pte_of-word after_store (tlb_invalidate asid va after_store) pgdir va refl
      ∙ pte_of-store_self lim (dropped (ppn w) m) pgdir va 0 dropped-TableOk lt found.0

  others_after :
      (va' : ℕ)
      → pdx va' < lim
      → OtherPage va va'
      → pte_of (tlb_invalidate asid va after_store) pgdir va' ≡ pte_of m pgdir va'
  unfolding after_store tlb_invalidate
  others_after va' lt' other =
      pte_of-word after_store (tlb_invalidate asid va after_store) pgdir va' refl
      ∙ pte_of-store_other lim (dropped (ppn w) m) pgdir va 0 dropped-TableOk lt found.0 va' lt'
          other
      ∙ pte_of-word m (dropped (ppn w) m) pgdir va' refl

  table_after : pde after_store pgdir va ≡ pde m pgdir va
  unfolding after_store store
  table_after =
      rw (==-ne pgdir (ppn (pde m pgdir va)) (λ s. h.table_ne (pdx va) lt found.0 (sym s))) refl

  Removed-after : Removed lim m pgdir asid va (ppn w) (tlb_invalidate asid va after_store)
  unfolding after_store store tlb_invalidate
  Removed-after = record {
    shape =
        TableOk-same lim after_store (tlb_invalidate asid va after_store) pgdir shape_after refl
          (λ i. refl) (shape_after.dir_used) (shape_after.table_used);
    table = table_after;
    gone = gone_after;
    others = others_after;
    npage = refl;
    refs = refl;
    free = refl;
    contents = λ q ne i. rw (==-ne q (ppn (pde m pgdir va)) (λ s. ne (sym s))) refl;
    flushed = mem-remove_key (entry_hi asid va) m.tlb;
  }

  pub page_remove-Removed : Removed lim m pgdir asid va (ppn w) after_remove
  unfolding after_remove after_store
  page_remove-Removed = rw found.1 Removed-after
