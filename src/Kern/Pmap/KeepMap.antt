-- ===== src/Kern/Pmap/KeepMap.antt =====
-- `page_remove` and `page_insert` of kern/pmap.c keep the list of free pages well formed.
use mos_volca_shell.Base.{
  ℕ, ◌-◌, ◌<◌, Bool, true, false, Option, none, some, ◌==◌, ltb, if◌then◌else◌, update, ok, ◌>>◌,
  modify, Leaves, ◌≡◌, refl, arith, mem, Bool-cases, ==_iff, inl, inr, ◌≢◌, ==-ne,
}
use mos_volca_shell.Kern.Pmap.{
  Mem, Slot, store, page_free, page_decref, ppn, tlb_invalidate, pgdir_walk, remove_found,
  page_remove, fill_slot, insert_new, insert_over, page_insert, make_pte,
}
use mos_volca_shell.Kern.Pmap.Free.{
  FreeOk, Leaves-weaken, Leaves-and_then, FreeOk-cons, FreeOk-not-mem, page_decref-FreeOk,
}
use mos_volca_shell.Kern.Pmap.Walk.{pte_of, found_of, PageIn, walk-cases, lookup-cases}
use mos_volca_shell.Kern.Pmap.Keep.{OutOk, OutOk-ref, OutOk-word, walk-OutOk}

-- Dropping a reference to another page leaves `q` off the list.
page_free-OutOk :
    (q pp : ℕ) (m : Mem)
    → pp < m.npage
    → mem pp m.free ≡ false
    → q ≢ pp
    → OutOk q m
    → Leaves (OutOk q) (page_free pp m)
unfolding page_free
page_free-OutOk q pp m lt out ne h = elim (Bool-cases (m.ref pp == 0)) [
  | inl e ↦ rw e (record {
    free_ok = FreeOk-cons pp m lt out ((==_iff _ _).0 e) h.free_ok;
    out = ground (arith, ==-ne q pp ne, h.out);
  })
  | inr e ↦ rw e tt
]

page_decref-OutOk :
    (q pp : ℕ) (m : Mem) → pp < m.npage → q ≢ pp → OutOk q m → Leaves (OutOk q) (page_decref pp m)
unfolding page_decref
page_decref-OutOk q pp m lt ne h = elim (Bool-cases (ltb 0 (m.ref pp))) [
  | inl e ↦ rw e (dropped (FreeOk-not-mem pp (h.free_ok) (ground arith)))
  | inr e ↦ rw e tt
]
  where
    m' : Mem
    m' = record m { ref = update m.ref pp (m.ref pp - 1) }

    dropped :
        mem pp m.free ≡ false
        → Leaves (OutOk q) (if m.ref pp - 1 == 0 then page_free pp m' else ok tt m')
    dropped out = elim (Bool-cases (m.ref pp - 1 == 0)) [
      | inl z ↦ rw z (page_free-OutOk q pp m' lt out ne (OutOk-ref q pp (m.ref pp - 1) m out h))
      | inr z ↦ rw z (OutOk-ref q pp (m.ref pp - 1) m out h)
    ]

-- The first page of a mapping is another one than `q`.
abbrev pub OtherThan : ℕ → Option (ℕ × Slot) → Type 0
OtherThan q none = Unit {0}
OtherThan q (some (pp, slot)) = q ≢ pp

remove_found-OutOk :
    (q asid va : ℕ) (o : Option (ℕ × Slot)) (m : Mem)
    → PageIn m.npage o
    → OtherThan q o
    → OutOk q m
    → Leaves (OutOk q) (remove_found asid va o m)
unfolding remove_found
remove_found-OutOk q asid va none m lt ne h = h
remove_found-OutOk q asid va (some (pp, slot)) m lt ne h =
    Leaves-and_then (OutOk q) (page_decref pp m) _ (page_decref-OutOk q pp m lt ne h)
      (λ _ s k. after s k)
  where
    after : (s : Mem) → OutOk q s → OutOk q (tlb_invalidate asid va (store slot 0 s))
    after s k = record {
      free_ok = record {
        distinct = k.free_ok.distinct;
        unused = k.free_ok.unused;
        in_range = k.free_ok.in_range;
      };
      out = k.out;
    }

remove_found-FreeOk :
    (asid va : ℕ) (o : Option (ℕ × Slot)) (m : Mem)
    → PageIn m.npage o
    → FreeOk m
    → Leaves FreeOk (remove_found asid va o m)
unfolding remove_found
remove_found-FreeOk asid va none m lt h = h
remove_found-FreeOk asid va (some (pp, slot)) m lt h =
    Leaves-and_then FreeOk (page_decref pp m) _ (page_decref-FreeOk pp m lt h) (λ _ s k. after s k)
  where
    after : (s : Mem) → FreeOk s → FreeOk (tlb_invalidate asid va (store slot 0 s))
    after s k = record { distinct = k.distinct; unused = k.unused; in_range = k.in_range }

-- `page_remove` keeps the free list well formed, whatever the page tables hold.
pub page_remove-FreeOk :
    (pgdir asid va : ℕ) (m : Mem) → FreeOk m → Leaves FreeOk (page_remove pgdir asid va m)
unfolding page_remove
page_remove-FreeOk pgdir asid va m h = elim (lookup-cases pgdir va m) [
  | inl e ↦ rw e tt
  | inr e ↦ rw e.0 (remove_found-FreeOk asid va (found_of (pte_of m pgdir va)) m e.1 h)
]

page_remove-OutOk :
    (q pgdir asid va : ℕ) (m : Mem)
    → OtherThan q (found_of (pte_of m pgdir va))
    → OutOk q m
    → Leaves (OutOk q) (page_remove pgdir asid va m)
unfolding page_remove
page_remove-OutOk q pgdir asid va m ne h = elim (lookup-cases pgdir va m) [
  | inl e ↦ rw e tt
  | inr e ↦ rw e.0 (remove_found-OutOk q asid va (found_of (pte_of m pgdir va)) m e.1 ne h)
]

fill_slot-FreeOk :
    (pp perm : ℕ) (slot : Option Slot) (m : Mem)
    → OutOk pp m
    → Leaves FreeOk (fill_slot pp perm slot m)
unfolding fill_slot
fill_slot-FreeOk pp perm none m h = tt
fill_slot-FreeOk pp perm (some slot) m h =
    (OutOk-ref pp pp _ _ (h.out) (OutOk-word pp _ m h)).free_ok

OutOk-tlb : (q asid va : ℕ) (m : Mem) → OutOk q m → OutOk q (tlb_invalidate asid va m)
unfolding tlb_invalidate
OutOk-tlb q asid va m h = record {
  free_ok = record {
    distinct = h.free_ok.distinct;
    unused = h.free_ok.unused;
    in_range = h.free_ok.in_range;
  };
  out = h.out;
}

insert_new-FreeOk :
    (pgdir asid pp va perm : ℕ) (m : Mem)
    → OutOk pp m
    → Leaves FreeOk (insert_new pgdir asid pp va perm m)
unfolding insert_new
insert_new-FreeOk pgdir asid pp va perm m h =
    Leaves-weaken (OutOk pp) FreeOk (λ s k. k.free_ok)
      (pgdir_walk pgdir va true (tlb_invalidate asid va m)) (fill_slot pp perm)
      (walk-OutOk pp pgdir va true (tlb_invalidate asid va m) (OutOk-tlb pp asid va m h))
      (λ slot s k. fill_slot-FreeOk pp perm slot s k)

insert_over-FreeOk :
    (pgdir asid pp va perm : ℕ) (o : Option (Slot × ℕ)) (m : Mem)
    → pte_of m pgdir va ≡ o
    → OutOk pp m
    → Leaves FreeOk (insert_over pgdir asid pp va perm o m)
unfolding insert_over found_of
insert_over-FreeOk pgdir asid pp va perm none m e h = insert_new-FreeOk pgdir asid pp va perm m h
insert_over-FreeOk pgdir asid pp va perm (some (slot, w)) m e h =
    elim (Bool-cases (ltb (ppn w) m.npage)) [
      | inl lt ↦ rw lt (replace (ppn w == pp) refl)
      | inr ge ↦ rw ge tt
    ]
  where
    kept : FreeOk (store slot (make_pte pp perm) (tlb_invalidate asid va m))
    kept = record {
      distinct = h.free_ok.distinct;
      unused = h.free_ok.unused;
      in_range = h.free_ok.in_range;
    }

    replace :
        (b : Bool)
        → (ppn w == pp) ≡ b
        → Leaves FreeOk (
            (if b
                then (modify (tlb_invalidate asid va) >> modify (store slot (make_pte pp perm)))
                else (page_remove pgdir asid va >> insert_new pgdir asid pp va perm))
              m)
    replace true eq = kept
    replace false eq =
        Leaves-weaken (OutOk pp) FreeOk (λ s k. k.free_ok) (page_remove pgdir asid va m) _
          (page_remove-OutOk pp pgdir asid va m (rw (e, found_of) (λ f. ground arith)) h)
          (λ _ s k. insert_new-FreeOk pgdir asid pp va perm s k)

-- Whether it succeeds or runs out of memory, `page_insert` of a page that is not free keeps the
-- free list well formed: each free page once, in range, and with no reference.
pub page_insert-FreeOk :
    (pgdir asid pp va perm : ℕ) (m : Mem)
    → FreeOk m
    → mem pp m.free ≡ false
    → Leaves FreeOk (page_insert pgdir asid pp va perm m)
unfolding page_insert pte_of
page_insert-FreeOk pgdir asid pp va perm m h out = elim (walk-cases pgdir va m) [
  | inl e ↦ rw e tt
  | inr e ↦ rw e (
      insert_over-FreeOk pgdir asid pp va perm (pte_of m pgdir va) m refl
        (record { free_ok = h; out = out }))
]
