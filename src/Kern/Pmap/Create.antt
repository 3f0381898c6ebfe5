-- ===== src/Kern/Pmap/Create.antt =====
-- `pgdir_walk` of kern/pmap.c with `create` set.
use mos_volca_shell.Base.{
  ℕ, ◌<◌, true, false, ◌≡◌, ◌≢◌, ◌⊎◌, refl, arith, mem, List, [], ◌∷◌, Option, some, Bool-cases,
  inl, inr, ok, err, no_mem, ◌>>=◌, ◌>>◌, modify,
}
use mos_volca_shell.Kern.Pmap.{
  Mem, Slot, valid, ppn, pdx, ptx, link_table, take_page, pgdir_walk, table_slot,
}
use mos_volca_shell.Kern.Pmap.Free.{FreeOk}
use mos_volca_shell.Kern.Pmap.Walk.{pde, pte_of, table_slot-ok, NotTableOf}
use mos_volca_shell.Kern.Pmap.Table.{TableOk}
use mos_volca_shell.Kern.Pmap.Link.{
  taken, link_table-contents, link_table-other_table, pte_of-link_table, link_table-TableOk,
  link_table-valid,
}

-- What a walk that found or made the table of `va` leaves.
pub record Walked (lim : ℕ) (m : Mem) (pgdir va : ℕ) (n : Mem) : Type 0 where
  pub shape : TableOk lim n pgdir
  pub table : valid (pde n pgdir va) ≡ true
  pub npage : n.npage ≡ m.npage
  pub same : (va' : ℕ) → pdx va' < lim → pte_of n pgdir va' ≡ pte_of m pgdir va'
  pub used : (q : ℕ) → mem q m.free ≡ false → mem q n.free ≡ false
  pub refs : (q : ℕ) → mem q m.free ≡ false → n.ref q ≡ m.ref q
  pub tlb : n.tlb ≡ m.tlb
  pub other_table :
      (q : ℕ) → mem q m.free ≡ false → NotTableOf m pgdir va q → ppn (pde n pgdir va) ≢ q
  pub contents : (q : ℕ) → mem q m.free ≡ false → q ≢ pgdir → (i : ℕ) → n.word q i ≡ m.word q i

abbrev pub walk_slot : Mem → ℕ → ℕ → Option Slot
walk_slot n pgdir va = some (ppn (pde n pgdir va), ptx va)

module _ (lim : ℕ) (pgdir va : ℕ) (lt : pdx va < lim) where
  pub walk-old :
      (m : Mem)
      → TableOk lim m pgdir
      → valid (pde m pgdir va) ≡ true
      → pgdir_walk pgdir va true m ≡ ok (walk_slot m pgdir va) m
  unfolding pgdir_walk
  walk-old m h e = rw e (table_slot-ok pgdir va m (h.table_in (pdx va) lt e))

  create-ok :
      (pp : ℕ) (rest : List ℕ) (m : Mem)
      → FreeOk m
      → TableOk lim m pgdir
      → m.free ≡ pp ∷ rest
      → valid (pde m pgdir va) ≡ false
      → (take_page (pp ∷ rest) >>= λ q. modify (link_table pgdir va q) >> table_slot pgdir va) m
        ≡ ok
            (walk_slot (link_table pgdir va pp (taken pp rest m)) pgdir va)
            (link_table pgdir va pp (taken pp rest m))
  unfolding take_page
  create-ok pp rest m f h e u = table_slot-ok pgdir va (link_table pgdir va pp (taken pp rest m)) (
      (link_table-TableOk lim m pgdir va pp rest f h e lt u).table_in (pdx va) lt
        (link_table-valid lim m pgdir va pp rest f h e lt u))

  create-Walked :
      (pp : ℕ) (rest : List ℕ) (m : Mem)
      → FreeOk m
      → TableOk lim m pgdir
      → m.free ≡ pp ∷ rest
      → valid (pde m pgdir va) ≡ false
      → Walked lim m pgdir va (link_table pgdir va pp (taken pp rest m))
  unfolding link_table
  create-Walked pp rest m f h e u = record {
    shape = link_table-TableOk lim m pgdir va pp rest f h e lt u;
    table = link_table-valid lim m pgdir va pp rest f h e lt u;
    npage = refl;
    same = pte_of-link_table lim m pgdir va pp rest f h e lt u;
    used = λ q out. let out' : mem q (pp ∷ rest) ≡ false = rw e at out in ground arith;
    refs = λ q out. let out' : mem q (pp ∷ rest) ≡ false = rw e at out in ground arith;
    tlb = refl;
    other_table = λ q out ne. link_table-other_table lim m pgdir va pp rest f h e lt u q out;
    contents = λ q out ne i. link_table-contents lim m pgdir va pp rest f h e lt u q i ne out;
  }

  created :
      (l : List ℕ) (m : Mem)
      → FreeOk m
      → TableOk lim m pgdir
      → m.free ≡ l
      → valid (pde m pgdir va) ≡ false
      → l ≢ []
      → (n : Mem) × ((take_page l >>= λ q. modify (link_table pgdir va q) >> table_slot pgdir va) m
          ≡ ok (walk_slot n pgdir va) n)
        × Walked lim m pgdir va n
  created [] m f h e u ne = absurd (ne refl)
  created (pp ∷ rest) m f h e u ne = (
    link_table pgdir va pp (taken pp rest m),
    create-ok pp rest m f h e u,
    create-Walked pp rest m f h e u,
  )

  -- The walk succeeds if there is a table or a free page, and changes no mapping.
  pub walk_create :
      (m : Mem)
      → FreeOk m
      → TableOk lim m pgdir
      → (valid (pde m pgdir va) ≡ true) ⊎ (m.free ≢ [])
      → (n : Mem) × (pgdir_walk pgdir va true m ≡ ok (walk_slot n pgdir va) n)
        × Walked lim m pgdir va n
  unfolding pgdir_walk
  walk_create m f h room = elim (Bool-cases (valid (pde m pgdir va))) [
    | inl e ↦ (
      m,
      walk-old m h e,
      record {
        shape = h;
        table = e;
        npage = refl;
        same = λ va' l. refl;
        used = λ q o. o;
        refs = λ q o. refl;
        tlb = refl;
        other_table = λ q out ne. ne e;
        contents = λ q out ne i. refl;
      },
    )
    | inr e ↦ rw e (created m.free m f h refl e (nonempty e room))
  ]
    where
      nonempty :
          valid (pde m pgdir va) ≡ false
          → (valid (pde m pgdir va) ≡ true) ⊎ (m.free ≢ [])
          → m.free ≢ []
      nonempty e (inl v) = cc
      nonempty e (inr ne) = ne

  -- With neither it fails with E_NO_MEM and leaves everything as it was.
  pub walk_create_no_mem :
      (m : Mem)
      → valid (pde m pgdir va) ≡ false
      → m.free ≡ []
      → pgdir_walk pgdir va true m ≡ err no_mem m
  unfolding pgdir_walk take_page
  walk_create_no_mem m e empty = rw (e, empty) refl
