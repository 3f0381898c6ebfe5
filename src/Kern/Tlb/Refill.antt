-- ===== src/Kern/Tlb/Refill.antt =====
-- `_do_tlb_refill` of kern/tlbex.c on a well-formed address space.
use mos_volca_shell.Base.{
  ℕ, suc, ◌+◌, ◌≤◌, ◌<◌, true, false, ◌&&◌, Option, none, some, List, [], ◌∷◌, ltb, leb, ◌≡◌, ◌≢◌,
  ◌⊎◌, refl, sym, ap, ◌∙◌, arith, mem, inl, inr, ==-refl, ok,
}
use mos_volca_shell.Bits.{bit_or-zero}
use mos_volca_shell.Kern.Pmap.{
  Mem, Slot, pdx, ptx, ppn, valid, pte_addr, pte_d, make_pte, page_alloc, page_insert, take_page,
}
use mos_volca_shell.Kern.Pmap.Free.{FreeOk}
use mos_volca_shell.Kern.Pmap.Walk.{pde, pte_of}
use mos_volca_shell.Kern.Pmap.Entry.{ppn-make_pte}
use mos_volca_shell.Kern.Pmap.Table.{TableOk, entry_at, pte_of-eq-entry_at}
use mos_volca_shell.Kern.Pmap.Link.{taken}
use mos_volca_shell.Kern.Pmap.Take.{taken-FreeOk, taken-TableOk, pte_of-taken, pde-taken}
use mos_volca_shell.Kern.Pmap.Remove.{lookup-some, lookup-none}
use mos_volca_shell.Kern.Pmap.Fill.{Inserted}
use mos_volca_shell.Kern.Pmap.Mapping.{page_insert-maps, OldEntryOk}
use mos_volca_shell.Kern.Syscall.{utemp}
use mos_volca_shell.Kern.Tlb.{
  ustacktop, uenvs, upages, uvpt, ulim, panic_on, passive_alloc, refill_found, do_tlb_refill,
}

-- The addresses that `passive_alloc` gives a page to.
pub record IsBacked (va : ℕ) : Type 0 where
  pub above : utemp ≤ va
  pub no_stack_guard : (va < ustacktop) ⊎ (ustacktop + 4096 ≤ va)
  pub user : (va < uenvs) ⊎ ((uvpt ≤ va) × (va < ulim))

same_pdx : (va : ℕ) → pdx (pte_addr va) ≡ pdx va
same_pdx va = omega arith

same_ptx : (va : ℕ) → ptx (pte_addr va) ≡ ptx va
same_ptx va = omega arith

-- The address of a page has the entry of each address in it.
pte_of-pte_addr : (m : Mem) (pgdir va : ℕ) → pte_of m pgdir (pte_addr va) ≡ pte_of m pgdir va
pte_of-pte_addr m pgdir va =
    pte_of-eq-entry_at m pgdir (pte_addr va)
    ∙ ap (λ (i : ℕ). entry_at m.word (m.word pgdir i) (ptx (pte_addr va))) (same_pdx va)
    ∙ ap (λ (i : ℕ). entry_at m.word (m.word pgdir (pdx va)) i) (same_ptx va)
    ∙ sym (pte_of-eq-entry_at m pgdir va)

-- A valid entry is the word in its slot.
entry_at-word :
    (word : ℕ → ℕ → ℕ) (d q t i w : ℕ) → entry_at word d q ≡ some ((t, i), w) → word t i ≡ w
entry_at-word word d q t i w e = ground arith

-- On a well-formed address space, at an address that is mapped to a page of the machine,
-- `_do_tlb_refill` returns its entry after one lookup and changes nothing.
pub do_tlb_refill-mapped :
    (lim pgdir asid va k w : ℕ) (slot : Slot) (m : Mem)
    → TableOk lim m pgdir
    → pdx va < lim
    → pte_of m pgdir va ≡ some (slot, w)
    → ppn w < m.npage
    → do_tlb_refill (suc k) va pgdir asid m ≡ ok (some w) m
unfolding do_tlb_refill refill_found
do_tlb_refill-mapped lim pgdir asid va k w (t, i) m h lt e in_range =
    rw (lookup-some lim pgdir va m lt h w (t, i) e in_range) (
      ap (λ (v : ℕ). ok (some v) m)
        (entry_at-word m.word (pde m pgdir va) (ptx va) t i w
          (sym (pte_of-eq-entry_at m pgdir va) ∙ e)))

-- The guards of `passive_alloc` let the address pass.
passive_alloc-run :
    (va pgdir asid pp : ℕ) (rest : List ℕ) (m : Mem)
    → IsBacked va
    → m.free ≡ pp ∷ rest
    → passive_alloc va pgdir asid m
      ≡ panic_on (page_insert pgdir asid pp (pte_addr va) pte_d (taken pp rest m))
unfolding passive_alloc page_alloc take_page
passive_alloc-run va pgdir asid pp rest m b e =
    let low : ltb va utemp ≡ false = ground (arith, b.above) in
    let guard : (leb ustacktop va && ltb va (ustacktop + 4096)) ≡ false =
      ground (arith, b.no_stack_guard) in
    let envs : (leb uenvs va && ltb va upages) ≡ false = ground (arith, b.user) in
    let pages : (leb upages va && ltb va uvpt) ≡ false = ground (arith, b.user) in
    let kernel : leb ulim va ≡ false = ground (arith, b.user) in
    rw (low, guard, envs, pages, kernel, e) refl

module _ (lim pgdir asid va pp : ℕ) (rest : List ℕ) (m : Mem) (f : FreeOk m)
    (h : TableOk lim m pgdir) (lt : pdx va < lim) (b : IsBacked va) (e : m.free ≡ pp ∷ rest) where
  head_out : mem pp rest ≡ false
  head_out = (rw e at f.distinct).0

  pp_in : pp < m.npage
  pp_in = f.in_range pp (rw (e, ==-refl pp) refl)

  new_page : ppn (make_pte pp pte_d) ≡ pp
  new_page = ppn-make_pte pp pte_d (omega (arith, h.small, pp_in)) ∙ bit_or-zero pp

  old_none : (o : Option (Slot × ℕ)) → o ≡ none → OldEntryOk lim (taken pp rest m) pgdir o
  old_none none eq = tt
  old_none (some s) eq = cc

  room_left :
      (valid (pde m pgdir va) ≡ true) ⊎ (rest ≢ [])
      → (valid (pde (taken pp rest m) pgdir (pte_addr va)) ≡ true) ⊎ (rest ≢ [])
  room_left (inl v) = inl (
      ap (λ (i : ℕ). valid ((taken pp rest m).word pgdir i)) (same_pdx va)
      ∙ ap valid (pde-taken lim pgdir pp rest m f h e va)
      ∙ v)
  room_left (inr ne) = inr ne

  -- On an address space that is well formed below the directory index `lim` and a well-formed
  -- free list, at an unmapped address below `lim` that `passive_alloc` does not refuse, with a
  -- free page and a table for the address or a second free page, two rounds of the loop of
  -- `_do_tlb_refill` are enough: it returns the entry of the first free page, which is now mapped
  -- writable at the page of the address.
  pub do_tlb_refill-allocates :
      (k : ℕ)
      → pte_of m pgdir va ≡ none
      → (valid (pde m pgdir va) ≡ true) ⊎ (rest ≢ [])
      → (n : Mem) × (do_tlb_refill (suc (suc k)) va pgdir asid m ≡ ok (some (make_pte pp pte_d)) n)
        × Inserted lim (taken pp rest m) pgdir asid pp (pte_addr va) pte_d n
  unfolding do_tlb_refill refill_found
  do_tlb_refill-allocates k unmapped room =
      let m1 : Mem = taken pp rest m in
      let lt' : pdx (pte_addr va) < lim = rw (same_pdx va) lt in
      let unmapped' : pte_of m1 pgdir (pte_addr va) ≡ none =
        pte_of-pte_addr m1 pgdir va ∙ pte_of-taken lim pgdir pp rest m f h e va lt ∙ unmapped in
      let (n, run, ins) =
        page_insert-maps lim pgdir asid (pte_addr va) m1 lt'
          (taken-TableOk lim pgdir pp rest m f h e) pp pte_d
          (taken-FreeOk lim pgdir pp rest m f h e) head_out
          (old_none (pte_of m1 pgdir (pte_addr va)) unmapped') (room_left room) in
      (
        n,
        rw
            (
              lookup-none lim pgdir va m lt h unmapped,
              passive_alloc-run va pgdir asid pp rest m b e,
              run,
            )
            (do_tlb_refill-mapped lim pgdir asid va k (make_pte pp pte_d)
              (ppn (pde n pgdir (pte_addr va)), ptx (pte_addr va)) n ins.shape lt
              (sym (pte_of-pte_addr n pgdir va) ∙ ins.mapped) (rw (new_page, ins.npage) pp_in)),
        ins,
      )
