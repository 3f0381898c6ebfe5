-- ===== src/Kern/Pmap/Mapping.antt =====
-- The mapping operations of kern/pmap.c as a client sees them: `page_insert`, `page_remove` and
-- `page_lookup` on a well-formed address space.
use mos_volca_shell.Base.{
  ℕ, ◌+◌, ◌-◌, ◌<◌, ◌/◌, ◌^◌, true, false, ◌==◌, ◌≡◌, ◌≢◌, ◌⊎◌, refl, arith, ◌∙◌, mem, [], Option,
  none, some, update, Bool-cases, inl, inr, ==_iff, ==-refl, ok, err, no_mem, ltb-lt, bit_or,
}
use mos_volca_shell.Kern.Pmap.{
  Mem, Slot, valid, ppn, pdx, ptx, read_valid, page_remove, page_lookup, tlb_invalidate, pa2page,
  make_pte, insert_new, insert_over, page_insert, u16, remove_found,
}
use mos_volca_shell.Kern.Pmap.Free.{FreeOk}
use mos_volca_shell.Kern.Pmap.Walk.{pde, slot_of, pte_of}
use mos_volca_shell.Kern.Pmap.Entry.{ppn-make_pte}
use mos_volca_shell.Kern.Pmap.Table.{TableOk}
use mos_volca_shell.Kern.Pmap.Create.{walk_create_no_mem}
use mos_volca_shell.Kern.Pmap.Remove.{
  OldOk, Removed, after_remove, page_remove-run, page_remove-Removed, walk-ok, pte_of-some,
  lookup-some, lookup-none,
}
use mos_volca_shell.Kern.Pmap.Fill.{Inserted, count_after, remapped, remapped-Inserted}
use mos_volca_shell.Kern.Pmap.Insert.{New-old, New-made}

-- The entry that an address has already, if any, is to a page in use that is no table.
abbrev pub OldEntryOk : ℕ → Mem → ℕ → Option (Slot × ℕ) → Type 0
OldEntryOk lim m pgdir none = Unit {0}
OldEntryOk lim m pgdir (some (slot, w)) = OldOk lim m pgdir w

module _ (lim pgdir asid va : ℕ) (m : Mem) (lt : pdx va < lim) (h : TableOk lim m pgdir) where
  -- Where nothing is mapped `page_remove` does nothing.
  pub page_remove-unmapped : pte_of m pgdir va ≡ none → page_remove pgdir asid va m ≡ ok tt m
  unfolding page_remove remove_found
  page_remove-unmapped e = rw (lookup-none lim pgdir va m lt h e) refl

  -- At an address below the directory index `lim`, on an address space that is well formed below
  -- it, where `va` is mapped to a page in use that is no table, `page_remove` succeeds: `va` is
  -- unmapped, every other page keeps its mapping, the address space stays well formed, the page
  -- loses one reference and goes to the head of the free list exactly when that was the last one,
  -- every page but the table of `va` keeps its content, and the TLB has no entry for `va`.
  pub page_remove-unmaps :
      (w : ℕ) (slot : Slot)
      → pte_of m pgdir va ≡ some (slot, w)
      → OldOk lim m pgdir w
      → (n : Mem) × (page_remove pgdir asid va m ≡ ok tt n) × Removed lim m pgdir asid va (ppn w) n
  page_remove-unmaps w slot e o = (
    after_remove lim pgdir asid va w slot m lt h e o,
    page_remove-run lim pgdir asid va w slot m lt h e o,
    page_remove-Removed lim pgdir asid va w slot m lt h e o,
  )

  module _ (pp perm : ℕ) (f : FreeOk m) (out : mem pp m.free ≡ false) where
    ==-swap : (a b : ℕ) → (a == b) ≡ false → (b == a) ≡ false
    ==-swap a b ne = ground arith

    -- The counts after a removal of another page, and an insertion of `pp`.
    counts :
        (r : Mem) (q : ℕ)
        → r.ref ≡ update m.ref q (m.ref q - 1)
        → (pp == q) ≡ false
        → (p : ℕ)
        → update r.ref pp (u16 (r.ref pp + 1)) p
          ≡ update (update m.ref q (m.ref q - 1)) pp (u16 (m.ref pp + 1)) p
    counts r q e ne p = rw (e, ne) refl

    abbrev Result : Type 0
    Result =
        (n : Mem) × (page_insert pgdir asid pp va perm m ≡ ok tt n)
        × Inserted lim m pgdir asid pp va perm n

    insert_unmapped :
        pte_of m pgdir va ≡ none → (valid (pde m pgdir va) ≡ true) ⊎ (m.free ≢ []) → Result
    unfolding page_insert insert_over pte_of count_after
    insert_unmapped e room =
        let (n, run, w) = New-made lim pgdir asid pp va perm lt m f h out room in
        (
          n,
          rw (walk-ok lim pgdir va m lt h, e) run,
          record {
            shape = w.shape;
            mapped = w.mapped;
            others = w.others;
            npage = w.npage;
            refs = λ q o. rw e (w.refs q o);
            flushed = w.flushed;
            contents = w.contents;
          },
        )

    insert_same :
        (w : ℕ) (slot : Slot)
        → pte_of m pgdir va ≡ some (slot, w)
        → OldOk lim m pgdir w
        → ppn w ≡ pp
        → Result
    unfolding page_insert insert_over pte_of remapped
    insert_same w slot e o same =
        let (v, place) = pte_of-some m pgdir va w slot e in
        (
          remapped lim pgdir asid pp va perm lt m h v,
          rw
              (
                walk-ok lim pgdir va m lt h,
                e,
                ltb-lt (ppn w) m.npage o.in_range,
                same,
                ==-refl pp,
                place,
              )
              refl,
          remapped-Inserted lim pgdir asid pp va perm lt m h v w slot e same,
        )

    insert_replace :
        (w : ℕ) (slot : Slot)
        → pte_of m pgdir va ≡ some (slot, w)
        → OldOk lim m pgdir w
        → (ppn w == pp) ≡ false
        → Result
    unfolding page_insert insert_over pte_of count_after pa2page
    insert_replace w slot e o ne =
        let v : valid (pde m pgdir va) ≡ true = (pte_of-some m pgdir va w slot e).0 in
        let (r, run, d) = page_remove-unmaps w slot e o in
        let (n, run', w') =
          New-old lim pgdir asid pp va perm lt r d.shape
            (rw d.table (pte_of-some m pgdir va w slot e).0) in
        (
          n,
          rw (walk-ok lim pgdir va m lt h, e, ltb-lt (ppn w) m.npage o.in_range, ne, run) run',
          record {
            shape = w'.shape;
            mapped = w'.mapped;
            others = λ va' lt' other. w'.others va' lt' other ∙ d.others va' lt' other;
            npage = w'.npage ∙ d.npage;
            refs = λ q out'.
                rw (e, ne) (w'.refs q tt ∙ counts r (ppn w) d.refs (==-swap (ppn w) pp ne) q);
            flushed = w'.flushed;
            contents = λ q out' ne other i.
                w'.contents q tt ne (rw d.table other) i ∙ d.contents q (other v) i;
          },
        )

    inserted :
        (o : Option (Slot × ℕ))
        → pte_of m pgdir va ≡ o
        → OldEntryOk lim m pgdir o
        → (valid (pde m pgdir va) ≡ true) ⊎ (m.free ≢ [])
        → Result
    inserted none e fits room = insert_unmapped e room
    inserted (some (slot, w)) e fits room = elim (Bool-cases (ppn w == pp)) [
      | inl same ↦ insert_same w slot e fits ((==_iff _ _).0 same)
      | inr ne ↦ insert_replace w slot e fits ne
    ]

    -- At an address below the directory index `lim`, on an address space that is well formed
    -- below it and a well-formed free list, with a page `pp` that is not free, an old mapping at
    -- `va` (if there is one) that is to a page in use and no table, and either a table for `va`
    -- or a free page to make one of, `page_insert` succeeds: `va` is then mapped to `pp` by the
    -- entry built from `perm`, every other page keeps its mapping, the address space stays well
    -- formed, the counts of the pages that were not free change as an insertion after the removal
    -- of the old mapping changes them (not at all when `pp` was mapped there), every page that
    -- was not free keeps its content but the directory and the table of `va`, and the TLB has no
    -- entry for `va`.
    pub page_insert-maps :
        OldEntryOk lim m pgdir (pte_of m pgdir va)
        → (valid (pde m pgdir va) ≡ true) ⊎ (m.free ≢ [])
        → (n : Mem) × (page_insert pgdir asid pp va perm m ≡ ok tt n)
          × Inserted lim m pgdir asid pp va perm n
    page_insert-maps o room = inserted (pte_of m pgdir va) refl o room

  -- On an address space that is well formed below the directory index `lim`, at an address below
  -- it, without a table for `va` and without a free page, `page_insert` answers E_NO_MEM and has
  -- done no more than flush the TLB entry of `va`.
  pub page_insert-no_mem :
      (pp perm : ℕ)
      → valid (pde m pgdir va) ≡ false
      → m.free ≡ []
      → page_insert pgdir asid pp va perm m ≡ err no_mem (tlb_invalidate asid va m)
  unfolding page_insert insert_over insert_new pte_of slot_of read_valid tlb_invalidate
  page_insert-no_mem pp perm e empty =
      rw
        (
          walk-ok lim pgdir va m lt h,
          e,
          walk_create_no_mem lim pgdir va lt (tlb_invalidate asid va m) e empty,
        )
        refl

-- What `page_lookup` finds at an address below the directory index `lim` after the insertion of a
-- page `pp` of the machine there: the page whose number is that of `pp` disjoined with the bits
-- of `perm` above the low twelve, if there is such a page.
lookup-Inserted :
    (lim pgdir asid pp va perm : ℕ) (m n : Mem)
    → pdx va < lim
    → pp < m.npage
    → bit_or pp (perm / 2 ^ 12) < m.npage
    → Inserted lim m pgdir asid pp va perm n
    → page_lookup pgdir va n
      ≡ ok (some (bit_or pp (perm / 2 ^ 12), (ppn (pde n pgdir va), ptx va))) n
lookup-Inserted lim pgdir asid pp va perm m n lt in_m in_range i =
    let number : ppn (make_pte pp perm) ≡ bit_or pp (perm / 2 ^ 12) =
      ppn-make_pte pp perm (omega (arith, i.shape.small, i.npage)) in
    rw (← number) (
      lookup-some lim pgdir va n lt i.shape (make_pte pp perm) (ppn (pde n pgdir va), ptx va)
        i.mapped (rw (number, i.npage) in_range))
