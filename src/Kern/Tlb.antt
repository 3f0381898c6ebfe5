-- ===== src/Kern/Tlb.antt =====
-- kern/tlbex.c: the page that a TLB miss finds or makes. The address space is the directory
-- `pgdir`, which is `cur_pgdir` in the kernel.
pub mod Refill
mod Tests
use mos_volca_shell.Base.{
  ℕ, zero, suc, ◌+◌, ◌-◌, Bool, true, false, ◌&&◌, ◌||◌, ◌==◌, update, Option, none, some, ltb, leb,
  if◌then◌else◌, Run, ok, err, panic, Cmd, ◌>>=◌, ◌>>◌, pure,
}
use mos_volca_shell.Kern.Pmap.{Mem, Slot, pte_addr, pte_d, page_alloc, page_insert, page_lookup}
use mos_volca_shell.Kern.State.{Trapframe}
use mos_volca_shell.Kern.Syscall.{utemp}

-- USTACKTOP, UENVS, UPAGES, UVPT and ULIM
abbrev pub ustacktop : ℕ
ustacktop = 0x7f3fe000

abbrev pub uenvs : ℕ
uenvs = 0x7f400000

abbrev pub upages : ℕ
upages = 0x7f800000

abbrev pub uvpt : ℕ
uvpt = 0x7fc00000

abbrev pub ulim : ℕ
ulim = 0x80000000

-- The `panic_on` macro.
abbrev pub panic_on : {A : Type 0} → Run Mem A → Run Mem A
panic_on (ok a m) = ok a m
panic_on (err e m) = panic
panic_on panic = panic

unfoldable pub passive_alloc : ℕ → ℕ → ℕ → Cmd Mem (Unit {0})
unfolding page_alloc page_insert
passive_alloc va pgdir asid m =
    if ltb va utemp
    then panic
    else if leb ustacktop va && ltb va (ustacktop + 4096)
    then panic
    else if leb uenvs va && ltb va upages
    then panic
    else if leb upages va && ltb va uvpt
    then panic
    else if leb ulim va
    then panic
    else (do
      p ← (λ m. panic_on (page_alloc m))
      (λ m. panic_on (page_insert pgdir asid p (pte_addr va) pte_d m)))
        m

-- `*pte`
abbrev pub read_entry : ℕ × Slot → Mem → ℕ
read_entry (pp, (t, i)) m = m.word t i

-- One more round of the loop, after the lookup.
refill_found : Option (ℕ × Slot) → Cmd Mem (Option ℕ) → Cmd Mem (Option ℕ)
refill_found (some found) again m = ok (some (read_entry found m)) m
refill_found none again m = again m

-- `_do_tlb_refill`, on fuel for the rounds of its loop; none when the fuel is used up.
unfoldable pub do_tlb_refill : ℕ → ℕ → ℕ → ℕ → Cmd Mem (Option ℕ)
unfolding page_lookup refill_found passive_alloc
do_tlb_refill zero va pgdir asid m = ok none m
do_tlb_refill (suc fuel) va pgdir asid m =
    (do
      found ← page_lookup pgdir va
      refill_found found (passive_alloc va pgdir asid >> do_tlb_refill fuel va pgdir asid))
      m

-- `do_tlb_mod` of kern/tlbex.c, for the registered entry `entry` of the current environment: the
-- frame to continue with, the address that the old frame is saved at, and the old frame. It panics,
-- which is none, where no entry is registered.
-- A frame takes 152 bytes, and the exception stack ends at UTOP.
unfoldable pub do_tlb_mod : ℕ → Trapframe → Option (Trapframe × (ℕ × Trapframe))
do_tlb_mod entry tf =
    let top : ℕ =
      if ltb (tf.regs 29) ustacktop || leb uenvs (tf.regs 29) then uenvs else tf.regs 29 in
    let sp : ℕ = top - 152 in
    if entry == 0
    then none
    else some
        (record tf { regs = update (update tf.regs 4 sp) 29 (sp - 4); cp0_epc = entry }, (sp, tf))
