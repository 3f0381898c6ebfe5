-- ===== src/Kern/Pmap/Keep.antt =====
-- Walking, mapping and unmapping keep the list of free pages of kern/pmap.c well formed.
use mos_volca_shell.Base.{
  ℕ, Bool, true, false, none, List, [], ◌∷◌, if◌then◌else◌, update, ok, ◌>>=◌, ◌>>◌, modify, Leaves,
  ◌≡◌, refl, arith, mem, Bool-cases, inl, inr,
}
use mos_volca_shell.Kern.Pmap.{
  Mem, page_alloc, valid, table_slot, link_table, pgdir_walk, take_page,
}
use mos_volca_shell.Kern.Pmap.Free.{FreeOk, FreeOk-ref, take_page-FreeOk}
use mos_volca_shell.Kern.Pmap.Walk.{pde, table_slot-cases}

-- The list is well formed and page `q` is not on it.
pub record OutOk (q : ℕ) (m : Mem) : Type 0 where
  pub free_ok : FreeOk m
  pub out : mem q m.free ≡ false

table_slot-Leaves :
    (P : Mem → Type 0) (pgdir va : ℕ) (m : Mem) → P m → Leaves P (table_slot pgdir va m)
table_slot-Leaves P pgdir va m h = elim (table_slot-cases pgdir va m) [
  | inl e ↦ rw e tt
  | inr e ↦ rw e h
]

take_page-out : (q : ℕ) (pp : ℕ) (rest : List ℕ) → mem q (pp ∷ rest) ≡ false → mem q rest ≡ false
take_page-out q pp rest h = ground arith

-- Changing the count of a page that is off the list.
pub OutOk-ref :
    (q pp v : ℕ) (m : Mem)
    → mem pp m.free ≡ false
    → OutOk q m
    → OutOk q (record m { ref = update m.ref pp v })
OutOk-ref q pp v m out h = record { free_ok = FreeOk-ref pp v m out h.free_ok; out = h.out }

pub OutOk-word : (q : ℕ) (w : ℕ → ℕ → ℕ) (m : Mem) → OutOk q m → OutOk q (record m { word = w })
OutOk-word q w m h = record {
  free_ok = record {
    distinct = h.free_ok.distinct;
    unused = h.free_ok.unused;
    in_range = h.free_ok.in_range;
  };
  out = h.out;
}

link_table-OutOk :
    (q pgdir va pp : ℕ) (m : Mem)
    → mem pp m.free ≡ false
    → OutOk q m
    → OutOk q (link_table pgdir va pp m)
unfolding link_table
link_table-OutOk q pgdir va pp m out h = OutOk-ref q pp _ _ out (OutOk-word q _ m h)

take_page-OutOk :
    (q pp : ℕ) (rest : List ℕ) (m : Mem)
    → m.free ≡ pp ∷ rest
    → OutOk q m
    → OutOk q (record m { free = rest; word = update m.word pp (λ _. 0) })
take_page-OutOk q pp rest m e h = record {
  free_ok = unfold take_page in take_page-FreeOk (pp ∷ rest) m e h.free_ok;
  out = take_page-out q pp rest (rw e at (h.out));
}

create-OutOk :
    (q pgdir va : ℕ) (l : List ℕ) (m : Mem)
    → m.free ≡ l
    → OutOk q m
    → Leaves
        (OutOk q)
        ((take_page l >>= λ pp. modify (link_table pgdir va pp) >> table_slot pgdir va) m)
unfolding take_page
create-OutOk q pgdir va [] m e h = h
create-OutOk q pgdir va (pp ∷ rest) m e h = table_slot-Leaves (OutOk q) pgdir va _ (
    link_table-OutOk q pgdir va pp _ (rw e at (h.free_ok.distinct)).0
      (take_page-OutOk q pp rest m e h))

pub walk-OutOk :
    (q pgdir va : ℕ) (create : Bool) (m : Mem)
    → OutOk q m
    → Leaves (OutOk q) (pgdir_walk pgdir va create m)
unfolding pgdir_walk
walk-OutOk q pgdir va create m h = elim (Bool-cases (valid (pde m pgdir va))) [
  | inl e ↦ rw e (table_slot-Leaves (OutOk q) pgdir va m h)
  | inr e ↦ rw e (made create)
]
  where
    made :
        (c : Bool)
        → Leaves (OutOk q) (
            if c
            then (page_alloc >>= λ pp. modify (link_table pgdir va pp) >> table_slot pgdir va) m
            else ok none m)
    made false = h
    made true = create-OutOk q pgdir va m.free m refl h
