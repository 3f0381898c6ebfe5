-- ===== src/Kern/Pmap/Insert.antt =====
-- `page_insert` of kern/pmap.c on a well-formed address space, on every path.
use mos_volca_shell.Base.{
  ℕ, ◌+◌, ◌<◌, true, false, ◌≡◌, ◌≢◌, ◌⊎◌, refl, ◌∙◌, mem, [], some, update, ok,
}
use mos_volca_shell.Kern.Pmap.{
  Mem, valid, ppn, pdx, ptx, pgdir_walk, tlb_invalidate, entry_hi, make_pte, fill_slot, insert_new,
  u16,
}
use mos_volca_shell.Kern.Pmap.Free.{FreeOk, FreeOk-same}
use mos_volca_shell.Kern.Pmap.Walk.{pde, pte_of, NotTableOf}
use mos_volca_shell.Kern.Pmap.Table.{TableOk, TableOk-same, OtherPage, pte_of-word}
use mos_volca_shell.Kern.Pmap.Create.{Walked, walk_slot, walk_create, walk-old}
use mos_volca_shell.Kern.Pmap.Remove.{mem-remove_key}
use mos_volca_shell.Kern.Pmap.Fill.{
  filled, filled-TableOk, filled-mapped, filled-others, filled-contents,
}

module _ (lim pgdir asid pp va perm : ℕ) (lt : pdx va < lim) where
  -- What `insert_new` leaves, with the counts stated for the pages of `P`.
  pub record New (P : ℕ → Type 0) (m n : Mem) : Type 0 where
    pub shape : TableOk lim n pgdir
    pub mapped : pte_of n pgdir va ≡ some ((ppn (pde n pgdir va), ptx va), make_pte pp perm)
    pub others :
        (va' : ℕ) → pdx va' < lim → OtherPage va va' → pte_of n pgdir va' ≡ pte_of m pgdir va'
    pub npage : n.npage ≡ m.npage
    pub refs : (q : ℕ) → P q → n.ref q ≡ update m.ref pp (u16 (m.ref pp + 1)) q
    pub flushed : mem (entry_hi asid va) n.tlb ≡ false
    pub contents :
        (q : ℕ) → P q → q ≢ pgdir → NotTableOf m pgdir va q → (i : ℕ) → n.word q i ≡ m.word q i

  New-of_Walked :
      (P : ℕ → Type 0) (m n : Mem)
      → P pp
      → ((q : ℕ) → P q → n.ref q ≡ m.ref q)
      → pgdir_walk pgdir va true (tlb_invalidate asid va m) ≡ ok (walk_slot n pgdir va) n
      → Walked lim (tlb_invalidate asid va m) pgdir va n
      → ((q : ℕ)
          → P q
          → q ≢ pgdir
          → NotTableOf m pgdir va q
          → (ppn (pde n pgdir va) ≢ q) × ((i : ℕ) → n.word q i ≡ m.word q i))
      → (insert_new pgdir asid pp va perm m ≡ ok tt (filled lim pgdir asid pp va perm lt n))
        × New P m (filled lim pgdir asid pp va perm lt n)
  unfolding insert_new fill_slot tlb_invalidate
  New-of_Walked P m n mine same run w kept = (
    rw run refl,
    record {
      shape = filled-TableOk lim pgdir asid pp va perm lt n w.shape w.table;
      mapped = filled-mapped lim pgdir asid pp va perm lt n w.shape w.table;
      others = λ va' lt' other.
          filled-others lim pgdir asid pp va perm lt n w.shape w.table va' lt' other
          ∙ w.same va' lt'
          ∙ pte_of-word m (tlb_invalidate asid va m) pgdir va' refl;
      npage = w.npage;
      refs = λ q p. rw (same pp mine, same q p) refl;
      flushed = rw w.tlb (mem-remove_key (entry_hi asid va) m.tlb);
      contents = λ q p ne other i.
          let k = kept q p ne other in
          filled-contents lim pgdir asid pp va perm lt n q i k.0 ∙ k.1 i;
    },
  )

  tlb-TableOk : (m : Mem) → TableOk lim m pgdir → TableOk lim (tlb_invalidate asid va m) pgdir
  unfolding tlb_invalidate
  tlb-TableOk m h =
      TableOk-same lim m (tlb_invalidate asid va m) pgdir h refl (λ i. refl) h.dir_used h.table_used

  tlb-FreeOk : (m : Mem) → FreeOk m → FreeOk (tlb_invalidate asid va m)
  unfolding tlb_invalidate
  tlb-FreeOk m f = FreeOk-same {m = m} refl refl refl f

  -- With a table there is nothing to allocate, and every count is known.
  pub New-old :
      (m : Mem)
      → TableOk lim m pgdir
      → valid (pde m pgdir va) ≡ true
      → (n : Mem) × (insert_new pgdir asid pp va perm m ≡ ok tt n) × New (λ _. Unit {0}) m n
  unfolding tlb_invalidate
  New-old m h e =
      let m1 : Mem = tlb_invalidate asid va m in
      let r : (insert_new pgdir asid pp va perm m ≡ ok tt (filled lim pgdir asid pp va perm lt m1))
          × New (λ _. Unit {0}) m (filled lim pgdir asid pp va perm lt m1) =
        New-of_Walked (λ _. Unit {0}) m m1 tt (λ q p. refl)
          (walk-old lim pgdir va lt m1 (tlb-TableOk m h) e)
          (record {
            shape = tlb-TableOk m h;
            table = e;
            npage = refl;
            same = λ va' l. refl;
            used = λ q out. out;
            refs = λ q out. refl;
            tlb = refl;
            other_table = λ q out ne. ne e;
            contents = λ q out ne i. refl;
          })
          (λ q p ne other. (other e, λ i. refl)) in
      (filled lim pgdir asid pp va perm lt m1, r.0, r.1)

  abbrev pub NotFree : Mem → ℕ → Type 0
  NotFree m q = mem q m.free ≡ false

  pub New-made :
      (m : Mem)
      → FreeOk m
      → TableOk lim m pgdir
      → mem pp m.free ≡ false
      → (valid (pde m pgdir va) ≡ true) ⊎ (m.free ≢ [])
      → (n : Mem) × (insert_new pgdir asid pp va perm m ≡ ok tt n) × New (NotFree m) m n
  unfolding tlb_invalidate
  New-made m f h out room =
      let m1 : Mem = tlb_invalidate asid va m in
      let (n, run, w) = walk_create lim pgdir va lt m1 (tlb-FreeOk m f) (tlb-TableOk m h) room in
      let r : (insert_new pgdir asid pp va perm m ≡ ok tt (filled lim pgdir asid pp va perm lt n))
          × New (NotFree m) m (filled lim pgdir asid pp va perm lt n) =
        New-of_Walked (NotFree m) m n out (λ q p. w.refs q p) run w
          (λ q p ne other. (w.other_table q p other, λ i. w.contents q p ne i)) in
      (filled lim pgdir asid pp va perm lt n, r.0, r.1)
