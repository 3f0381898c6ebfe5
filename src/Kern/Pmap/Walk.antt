-- ===== src/Kern/Pmap/Walk.antt =====
-- What a walk of the two-level table of kern/pmap.c finds, as functions of the memory, and that
-- the walks without `create` compute them.
use mos_volca_shell.Base.{
  ℕ, ◌<◌, false, Option, none, some, ltb, if◌then◌else◌, ok, panic, ◌≡◌, refl, arith, Bool-cases,
  inl, inr, ◌⊎◌, true, ◌≢◌,
}
use mos_volca_shell.Kern.Pmap.{
  Mem, Slot, valid, pdx, ppn, ptx, pte_addr, table_slot, pgdir_walk, read_valid, page_lookup,
  lookup_in,
}

-- The directory entry for an address.
abbrev pub pde : Mem → ℕ → ℕ → ℕ
pde m pgdir va = m.word pgdir (pdx va)

-- The slot of the page table entry for an address, if there is a table.
unfoldable pub slot_of : Mem → ℕ → ℕ → Option Slot
slot_of m pgdir va = if valid (pde m pgdir va) then some (ppn (pde m pgdir va), ptx va) else none

-- The valid page table entry for an address, with its slot.
unfoldable pub pte_of : Mem → ℕ → ℕ → Option (Slot × ℕ)
unfolding slot_of
pte_of m pgdir va = read_valid (slot_of m pgdir va) m

-- Page `q` is not the table of the address.
abbrev pub NotTableOf : Mem → ℕ → ℕ → ℕ → Type 0
NotTableOf m pgdir va q = valid (pde m pgdir va) ≡ true → ppn (pde m pgdir va) ≢ q

-- The page that an address is mapped to.
unfoldable pub found_of : Option (Slot × ℕ) → Option (ℕ × Slot)
found_of none = none
found_of (some (slot, w)) = some (ppn w, slot)

-- The page of a mapping exists.
abbrev pub PageIn : ℕ → Option (ℕ × Slot) → Type 0
PageIn n none = Unit {0}
PageIn n (some (pp, slot)) = pp < n

pub ppn-pte_addr : (w : ℕ) → ppn (pte_addr w) ≡ ppn w
ppn-pte_addr w = omega arith

pub table_slot-cases :
    (pgdir va : ℕ) (m : Mem)
    → (table_slot pgdir va m ≡ panic)
      ⊎ (table_slot pgdir va m ≡ ok (some (ppn (pde m pgdir va), ptx va)) m)
unfolding table_slot
table_slot-cases pgdir va m = ground (arith, ppn-pte_addr (pde m pgdir va))

pub table_slot-ok :
    (pgdir va : ℕ) (m : Mem)
    → ppn (pde m pgdir va) < m.npage
    → table_slot pgdir va m ≡ ok (some (ppn (pde m pgdir va), ptx va)) m
unfolding table_slot
table_slot-ok pgdir va m h = ground (arith, ppn-pte_addr (pde m pgdir va))

pub walk-cases :
    (pgdir va : ℕ) (m : Mem)
    → (pgdir_walk pgdir va false m ≡ panic)
      ⊎ (pgdir_walk pgdir va false m ≡ ok (slot_of m pgdir va) m)
unfolding pgdir_walk slot_of
walk-cases pgdir va m = elim (Bool-cases (valid (pde m pgdir va))) [
  | inl e ↦ rw e (table_slot-cases pgdir va m)
  | inr e ↦ rw e (inr refl)
]

lookup_in-cases :
    (o : Option (Slot × ℕ)) (m : Mem)
    → (lookup_in o m ≡ panic) ⊎ ((lookup_in o m ≡ ok (found_of o) m) × PageIn m.npage (found_of o))
unfolding lookup_in found_of
lookup_in-cases none m = inr (refl, tt)
lookup_in-cases (some (slot, w)) m = elim (Bool-cases (ltb (ppn w) m.npage)) [
  | inl e ↦ inr (rw e refl, ground arith)
  | inr e ↦ inl (rw e refl)
]

pub lookup-cases :
    (pgdir va : ℕ) (m : Mem)
    → (page_lookup pgdir va m ≡ panic)
      ⊎ ((page_lookup pgdir va m ≡ ok (found_of (pte_of m pgdir va)) m)
          × PageIn m.npage (found_of (pte_of m pgdir va)))
unfolding page_lookup pte_of
lookup-cases pgdir va m = elim (walk-cases pgdir va m) [
  | inl e ↦ inl (rw e refl)
  | inr e ↦ rw e (lookup_in-cases (pte_of m pgdir va) m)
]
