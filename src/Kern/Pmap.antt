-- ===== src/Kern/Pmap.antt =====
-- kern/pmap.c, with the address macros of include/mmu.h and include/pmap.h: the list of free
-- physical pages, reference counts, and two-level page tables held in physical pages.
-- A `struct Page *` is its page number, a page directory or a page table is the number of the
-- physical page that holds it, and a `Pte *` is the page and index of the entry, or none for NULL.
pub mod Free
pub mod Keep
pub mod Entry
pub mod Table
pub mod Link
pub mod Create
pub mod Init
pub mod Remove
pub mod Fill
pub mod Insert
pub mod Mapping
pub mod KeepMap
pub mod Take
pub mod Walk
pub mod Tests
use mos_volca_shell.Base.{
  ℕ, zero, suc, ◌+◌, ◌-◌, ◌*◌, ◌/◌, ◌%◌, ◌^◌, Bool, true, false, not, Option, none, some, List, [],
  ◌∷◌, ◌==◌, ltb, if◌then◌else◌, update, bit_or, no_mem, Run, ok, err, panic, Cmd, ◌>>=◌, ◌>>◌,
  pure, modify, assert,
}

pub record Mem : Type 0 where
  -- number of physical pages
  pub npage : ℕ
  -- `pages[i].pp_ref`, a `u_short`
  pub ref : ℕ → ℕ
  -- `page_free_list`, first element first
  pub free : List ℕ
  -- word `i` of physical page `p`
  pub word : ℕ → ℕ → ℕ
  -- the `EntryHi` keys that the TLB holds
  pub tlb : List ℕ

abbrev pub Slot : Type 0
Slot = ℕ × ℕ

-- PDX, PTX, PPN and PTE_ADDR of include/mmu.h, and the test of PTE_V.
abbrev pub pdx : ℕ → ℕ
pdx va = va / 2 ^ 22 % 1024

abbrev pub ptx : ℕ → ℕ
ptx va = va / 2 ^ 12 % 1024

abbrev pub ppn : ℕ → ℕ
ppn pa = pa / 2 ^ 12

abbrev pub pte_addr : ℕ → ℕ
pte_addr w = w - w % 2 ^ 12

abbrev pub valid : ℕ → Bool
valid w = w / 2 ^ 9 % 2 == 1

abbrev pub pte_v : ℕ
pte_v = 0x200

abbrev pub pte_d : ℕ
pte_d = 0x400

abbrev pub page2pa : ℕ → ℕ
page2pa pp = pp * 2 ^ 12 % 2 ^ 32

-- `page2pa(pp) | perm | PTE_V`
unfoldable pub make_pte : ℕ → ℕ → ℕ
make_pte pp perm = bit_or (bit_or (page2pa pp) perm) pte_v

-- `(page2pa(pp) & 0xfffff000) | PTE_V | PTE_D`
unfoldable pub make_pde : ℕ → ℕ
make_pde pp = bit_or (bit_or (pte_addr (page2pa pp)) pte_v) pte_d

-- One word of memory changed.
abbrev pub write : (ℕ → ℕ → ℕ) → ℕ → ℕ → ℕ → ℕ → ℕ → ℕ
write word p i v = update word p (update (word p) i v)

-- `u_short` arithmetic of `pp_ref`.
abbrev pub u16 : ℕ → ℕ
u16 n = n % 2 ^ 16

unfoldable pub pa2page : ℕ → Cmd Mem ℕ
pa2page pa m = if ltb (ppn pa) m.npage then ok (ppn pa) m else panic

-- KADDR, as the page that the kernel address falls in.
unfoldable pub kaddr : ℕ → Cmd Mem ℕ
kaddr pa m = if ltb (ppn pa) m.npage then ok (ppn pa) m else panic

unfoldable pub incref : ℕ → Mem → Mem
incref pp m = record m { ref = update m.ref pp (u16 (m.ref pp + 1)) }

unfoldable pub store : Slot → ℕ → Mem → Mem
store (p, i) v m = record m { word = write m.word p i v }

-- The loop of `page_init` over the pages from `i` on: `LIST_INSERT_HEAD` of each.
unfoldable pub free_from : ℕ → ℕ → List ℕ → List ℕ
free_from zero i free = free
free_from (suc n) i free = free_from n (i + 1) (i ∷ free)

-- `size` is `PADDR(freemem) / BY2PG`, the number of pages that the kernel took before.
unfoldable pub page_init : ℕ → Mem → Mem
unfolding free_from
page_init size m = record m {
  ref = λ p. if ltb p size then 1 else if ltb p m.npage then 0 else m.ref p;
  free = free_from (m.npage - size) size [];
}

unfoldable pub take_page : List ℕ → Cmd Mem ℕ
take_page [] m = err no_mem m
take_page (pp ∷ rest) m = ok pp (record m { free = rest; word = update m.word pp (λ _. 0) })

unfoldable pub page_alloc : Cmd Mem ℕ
unfolding take_page
page_alloc m = take_page m.free m

unfoldable pub page_free : ℕ → Cmd Mem (Unit {0})
page_free pp m = if m.ref pp == 0 then ok tt (record m { free = pp ∷ m.free }) else panic

unfoldable pub page_decref : ℕ → Cmd Mem (Unit {0})
unfolding page_free
page_decref pp m =
    if ltb 0 (m.ref pp)
    then (let m' : Mem = record m { ref = update m.ref pp (m.ref pp - 1) } in
        if m.ref pp - 1 == 0 then page_free pp m' else ok tt m')
    else panic

-- `tlbp` and `tlbwi`: the entry with this key, if there is one, is overwritten.
unfoldable pub remove_key : ℕ → List ℕ → List ℕ
remove_key k [] = []
remove_key k (x ∷ xs) = if k == x then remove_key k xs else x ∷ remove_key k xs

abbrev pub entry_hi : ℕ → ℕ → ℕ
entry_hi asid va = bit_or (pte_addr va) (asid * 64 % 2 ^ 32)

unfoldable pub tlb_invalidate : ℕ → ℕ → Mem → Mem
unfolding remove_key
tlb_invalidate asid va m = record m { tlb = remove_key (entry_hi asid va) m.tlb }

-- Step 3 of `pgdir_walk`: the slot in the table that the directory entry names.
unfoldable pub table_slot : ℕ → ℕ → Cmd Mem (Option Slot)
unfolding kaddr
table_slot pgdir va m = (do t ← kaddr (pte_addr (m.word pgdir (pdx va))); pure (some (t, ptx va))) m

unfoldable pub link_table : ℕ → ℕ → ℕ → Mem → Mem
unfolding incref store make_pde
link_table pgdir va pp m = incref pp (store (pgdir, pdx va) (make_pde pp) m)

unfoldable pub pgdir_walk : ℕ → ℕ → Bool → Cmd Mem (Option Slot)
unfolding table_slot page_alloc link_table
pgdir_walk pgdir va create m =
    if valid (m.word pgdir (pdx va))
    then table_slot pgdir va m
    else if create
    then (do pp ← page_alloc; modify (link_table pgdir va pp); table_slot pgdir va) m
    else ok none m

-- `pte != NULL && (*pte & PTE_V)`, with the entry read.
unfoldable pub read_valid : Option Slot → Mem → Option (Slot × ℕ)
read_valid none m = none
read_valid (some (p, i)) m = if valid (m.word p i) then some ((p, i), m.word p i) else none

pub lookup_in : Option (Slot × ℕ) → Cmd Mem (Option (ℕ × Slot))
unfolding pa2page
lookup_in none = pure none
lookup_in (some (slot, w)) = do pp ← pa2page w; pure (some (pp, slot))

unfoldable pub page_lookup : ℕ → ℕ → Cmd Mem (Option (ℕ × Slot))
unfolding pgdir_walk read_valid lookup_in
page_lookup pgdir va = do slot ← pgdir_walk pgdir va false; (λ m. lookup_in (read_valid slot m) m)

pub remove_found : ℕ → ℕ → Option (ℕ × Slot) → Cmd Mem (Unit {0})
unfolding page_decref store tlb_invalidate
remove_found asid va none = pure tt
remove_found asid va (some (pp, slot)) = do
  page_decref pp
  modify (store slot 0)
  modify (tlb_invalidate asid va)

unfoldable pub page_remove : ℕ → ℕ → ℕ → Cmd Mem (Unit {0})
unfolding page_lookup remove_found
page_remove pgdir asid va = do found ← page_lookup pgdir va; remove_found asid va found

-- `*pte = …; pp->pp_ref++` through the pointer that the second `pgdir_walk` gave.
pub fill_slot : ℕ → ℕ → Option Slot → Cmd Mem (Unit {0})
unfolding store incref make_pte
fill_slot pp perm none m = panic
fill_slot pp perm (some slot) m = ok tt (incref pp (store slot (make_pte pp perm) m))

-- Steps 2 to 4 of `page_insert`.
unfoldable pub insert_new : ℕ → ℕ → ℕ → ℕ → ℕ → Cmd Mem (Unit {0})
unfolding tlb_invalidate pgdir_walk fill_slot
insert_new pgdir asid pp va perm = do
  modify (tlb_invalidate asid va)
  slot ← pgdir_walk pgdir va true
  fill_slot pp perm slot

pub insert_over : ℕ → ℕ → ℕ → ℕ → ℕ → Option (Slot × ℕ) → Cmd Mem (Unit {0})
unfolding pa2page tlb_invalidate store make_pte page_remove insert_new
insert_over pgdir asid pp va perm none = insert_new pgdir asid pp va perm
insert_over pgdir asid pp va perm (some (slot, w)) = do
  cur ← pa2page w
  if cur == pp
      then (do modify (tlb_invalidate asid va); modify (store slot (make_pte pp perm)))
      else (do page_remove pgdir asid va; insert_new pgdir asid pp va perm)

unfoldable pub page_insert : ℕ → ℕ → ℕ → ℕ → ℕ → Cmd Mem (Unit {0})
unfolding pgdir_walk read_valid insert_over
page_insert pgdir asid pp va perm = do
  slot ← pgdir_walk pgdir va false
  (λ m. insert_over pgdir asid pp va perm (read_valid slot m) m)

-- `va2pa` of include/pmap.h.
unfoldable pub va2pa : ℕ → ℕ → Cmd Mem ℕ
unfolding kaddr
va2pa pgdir va m =
    if valid (m.word pgdir (pdx va))
    then (do
      t ← kaddr (pte_addr (m.word pgdir (pdx va)))
      pure (if valid (m.word t (ptx va)) then pte_addr (m.word t (ptx va)) else 2 ^ 32 - 1))
        m
    else ok (2 ^ 32 - 1) m
