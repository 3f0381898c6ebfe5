-- ===== src/Kern/Pmap/Tests.antt =====
-- A small machine for kern/pmap.c: eight pages, a directory in page 1, a table in page 2, and one
-- mapping of page 5 at 0x400000.
use mos_volca_shell.Base.{
  ℕ, ◌≡◌, inl, refl, arith, ◌&&◌, ◌==◌, [], ◌∷◌, some, leb, if◌then◌else◌, ok, Leaves,
}
use mos_volca_shell.Kern.Pmap.{Mem, page_remove, page_insert, read_valid}
use mos_volca_shell.Kern.Pmap.Free.{FreeOk}
use mos_volca_shell.Kern.Pmap.KeepMap.{page_insert-FreeOk}
use mos_volca_shell.Kern.Pmap.Walk.{slot_of, pte_of}
use mos_volca_shell.Kern.Pmap.Table.{TableOk}
use mos_volca_shell.Kern.Pmap.Remove.{OldOk, Removed}
use mos_volca_shell.Kern.Pmap.Fill.{Inserted}
use mos_volca_shell.Kern.Pmap.Mapping.{page_insert-maps, page_remove-unmaps}

abbrev pub machine : Mem
machine = record {
  npage = 8;
  ref = λ p. if leb p 2 then 1 else if p == 5 then 1 else 0;
  free = 3 ∷ 4 ∷ [];
  word = λ p i. if p == 1 && i == 1 then 0x2600 else if p == 2 && i == 0 then 0x5600 else 0;
  tlb = 0x400000 ∷ [];
}

-- The same machine without a free page.
abbrev full : Mem
full = record machine { free = [] }

abbrev pub va : ℕ
va = 0x400000

pub machine-FreeOk : FreeOk machine
machine-FreeOk = record {
  distinct = (refl, (refl, tt));
  unused = λ p i. ground arith;
  in_range = λ p i. ground arith;
}

pub machine-TableOk : TableOk 509 machine 1
machine-TableOk = record {
  small = omega arith;
  dir_in = omega arith;
  dir_used = refl;
  table_in = λ i lt v. ground arith;
  table_used = λ i lt v. ground arith;
  table_ne = λ i lt v. ground arith;
  apart = λ i j lt lt' v w e. ground arith;
}

full-TableOk : TableOk 509 full 1
full-TableOk = record {
  small = omega arith;
  dir_in = omega arith;
  dir_used = refl;
  table_in = λ i lt v. ground arith;
  table_used = λ i lt v. ground arith;
  table_ne = λ i lt v. ground arith;
  apart = λ i j lt lt' v w e. ground arith;
}

pub mapped : pte_of machine 1 va ≡ some ((2, 0), 0x5600)
unfolding pte_of read_valid slot_of
mapped = refl

pub old-OldOk : OldOk 509 machine 1 0x5600
old-OldOk = record {
  in_range = omega arith;
  used = omega arith;
  not_table = record { ne_dir = omega arith; ne_table = λ i lt v. ground arith };
}

page_insert-maps_example :
    (n : Mem) × (page_insert 1 3 6 va 0x400 machine ≡ ok tt n)
    × Inserted 509 machine 1 3 6 va 0x400 n
unfolding pte_of read_valid slot_of
page_insert-maps_example =
    page_insert-maps 509 1 3 va machine (omega arith) machine-TableOk 6 0x400 machine-FreeOk refl
      old-OldOk (inl refl)

page_remove-unmaps_example :
    (n : Mem) × (page_remove 1 3 va machine ≡ ok tt n) × Removed 509 machine 1 3 va 5 n
page_remove-unmaps_example =
    page_remove-unmaps 509 1 3 va machine (omega arith) machine-TableOk 0x5600 (2, 0) mapped
      old-OldOk

page_insert-FreeOk_example : Leaves FreeOk (page_insert 1 3 6 va 0x400 machine)
page_insert-FreeOk_example = page_insert-FreeOk 1 3 6 va 0x400 machine machine-FreeOk refl
