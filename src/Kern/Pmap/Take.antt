-- ===== src/Kern/Pmap/Take.antt =====
-- What `page_alloc` of kern/pmap.c leaves of an address space: the page it takes is in none.
use mos_volca_shell.Base.{
  ℕ, ◌<◌, false, Option, none, some, List, ◌∷◌, ◌≡◌, ◌≢◌, refl, sym, ap, ◌∙◌, arith, mem, ==-ne,
  ==-refl,
}
use mos_volca_shell.Kern.Pmap.{Mem, Slot, pdx, ptx, ppn, take_page}
use mos_volca_shell.Kern.Pmap.Free.{FreeOk, take_page-FreeOk}
use mos_volca_shell.Kern.Pmap.Walk.{pde, pte_of, NotTableOf}
use mos_volca_shell.Kern.Pmap.Table.{
  TableOk, TableOk-same, entry_at, entry_at-agree, pte_of-eq-entry_at,
}
use mos_volca_shell.Kern.Pmap.Link.{taken}
use mos_volca_shell.Kern.Pmap.Mapping.{OldEntryOk}

module _ (lim pgdir pp : ℕ) (rest : List ℕ) (m : Mem) (f : FreeOk m) (h : TableOk lim m pgdir)
    (e : m.free ≡ pp ∷ rest) where
  pub taken-FreeOk : FreeOk (taken pp rest m)
  unfolding take_page
  taken-FreeOk = take_page-FreeOk (pp ∷ rest) m e f

  not_head : (q : ℕ) → mem q m.free ≡ false → q ≢ pp
  not_head q out = let out' : mem q (pp ∷ rest) ≡ false = rw e at out in ground arith

  not_rest : (q : ℕ) → mem q m.free ≡ false → mem q rest ≡ false
  not_rest q out = let out' : mem q (pp ∷ rest) ≡ false = rw e at out in ground arith

  pub taken-TableOk : TableOk lim (taken pp rest m) pgdir
  taken-TableOk =
      TableOk-same lim m (taken pp rest m) pgdir h refl
        (λ i. rw (==-ne pgdir pp (not_head pgdir h.dir_used)) refl) (not_rest pgdir h.dir_used)
        (λ i lt v. not_rest (ppn (m.word pgdir i)) (h.table_used i lt v))

  pub pte_of-taken : (va : ℕ) → pdx va < lim → pte_of (taken pp rest m) pgdir va ≡ pte_of m pgdir va
  pte_of-taken va lt =
      pte_of-eq-entry_at (taken pp rest m) pgdir va
      ∙ ap (λ (d : ℕ). entry_at ((taken pp rest m).word) d (ptx va)) (row (pdx va))
      ∙ entry_at-agree m.word ((taken pp rest m).word) (pde m pgdir va) (ptx va)
          (λ v. rw (==-ne (ppn (pde m pgdir va)) pp (not_head _ (h.table_used (pdx va) lt v))) refl)
      ∙ sym (pte_of-eq-entry_at m pgdir va)
    where
      row : (i : ℕ) → (taken pp rest m).word pgdir i ≡ m.word pgdir i
      row i = rw (==-ne pgdir pp (not_head pgdir h.dir_used)) refl

  pub pde-taken : (va : ℕ) → pde (taken pp rest m) pgdir va ≡ pde m pgdir va
  pde-taken va = rw (==-ne pgdir pp (not_head pgdir h.dir_used)) refl

  -- The new page is not the directory, nor the table of an address below `lim`.
  pub head-not_dir : pp ≢ pgdir
  head-not_dir s = not_head pgdir h.dir_used (sym s)

  pub taken-NotTableOf : (va : ℕ) → pdx va < lim → NotTableOf (taken pp rest m) pgdir va pp
  taken-NotTableOf va lt =
      rw (pde-taken va) (λ v. not_head (ppn (pde m pgdir va)) (h.table_used (pdx va) lt v))

  pub taken-zero : (i : ℕ) → (taken pp rest m).word pp i ≡ 0
  taken-zero i = rw (==-refl pp) refl

  -- The mapping at an address stays one to a page in use that is no table.
  pub taken-OldEntryOk :
      (o : Option (Slot × ℕ)) → OldEntryOk lim m pgdir o → OldEntryOk lim (taken pp rest m) pgdir o
  taken-OldEntryOk none old = tt
  taken-OldEntryOk (some (slot, w)) old = record {
    in_range = old.in_range;
    used = old.used;
    not_table = record {
      ne_dir = old.not_table.ne_dir;
      ne_table =
          λ i lt. rw (==-ne pgdir pp (not_head pgdir h.dir_used)) (old.not_table.ne_table i lt);
    };
  }
