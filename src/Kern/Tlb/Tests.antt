-- ===== src/Kern/Tlb/Tests.antt =====
-- A TLB miss of kern/tlbex.c on the machine of the tests of kern/pmap.c: at the mapped page, and at
-- the page behind it.
use mos_volca_shell.Base.{◌≡◌, refl, arith, inl, some, [], ◌∷◌, ok}
use mos_volca_shell.Kern.Pmap.{Mem, pte_addr, pte_d, make_pte, read_valid}
use mos_volca_shell.Kern.Pmap.Walk.{slot_of, pte_of}
use mos_volca_shell.Kern.Pmap.Link.{taken}
use mos_volca_shell.Kern.Pmap.Fill.{Inserted}
use mos_volca_shell.Kern.Pmap.Tests.{machine, machine-FreeOk, machine-TableOk}
use mos_volca_shell.Kern.Tlb.{do_tlb_refill}
use mos_volca_shell.Kern.Tlb.Refill.{do_tlb_refill-allocates}

do_tlb_refill-allocates_example :
    (n : Mem) × (do_tlb_refill 2 0x401004 1 3 machine ≡ ok (some (make_pte 3 pte_d)) n)
    × Inserted 509 (taken 3 (4 ∷ []) machine) 1 3 3 (pte_addr 0x401004) pte_d n
unfolding pte_of slot_of read_valid
do_tlb_refill-allocates_example =
    do_tlb_refill-allocates 509 1 3 0x401004 3 (4 ∷ []) machine machine-FreeOk machine-TableOk
      (omega arith)
      (record { above = omega arith; no_stack_guard = inl (omega arith); user = inl (omega arith) })
      refl 0 refl (inl refl)
