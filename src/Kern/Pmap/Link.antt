-- ===== src/Kern/Pmap/Link.antt =====
-- A new page table, taken from the list of free pages of kern/pmap.c and linked into a directory,
-- maps nothing and changes no mapping.
use mos_volca_shell.Base.{
  ℕ, ◌<◌, ◌^◌, true, false, ◌==◌, ◌≡◌, ◌≢◌, ◌⊎◌, refl, arith, ap, ◌∙◌, sym, mem, List, ◌∷◌, update,
  Bool-cases, inl, inr, ==_iff, ==-ne, ==-refl,
}
use mos_volca_shell.Kern.Pmap.{Mem, valid, ppn, pdx, ptx, make_pde, link_table}
use mos_volca_shell.Kern.Pmap.Free.{FreeOk}
use mos_volca_shell.Kern.Pmap.Walk.{pde, pte_of}
use mos_volca_shell.Kern.Pmap.Entry.{valid-make_pde, ppn-make_pde}
use mos_volca_shell.Kern.Pmap.Table.{
  TableOk, pte_of-eq-entry_at, entry_at-zero, entry_at-agree, entry_at-invalid,
}

-- The memory after `page_alloc` returned `pp`, the first page of the list.
abbrev pub taken : ℕ → List ℕ → Mem → Mem
taken pp rest m = record m { free = rest; word = update m.word pp (λ _. 0) }

module _ (lim : ℕ) (m : Mem) (pgdir va pp : ℕ) (rest : List ℕ) (f : FreeOk m)
    (h : TableOk lim m pgdir) (e : m.free ≡ pp ∷ rest) (lt : pdx va < lim)
    (unmapped : valid (pde m pgdir va) ≡ false) where
  free_head : mem pp m.free ≡ true
  free_head = rw (e, ==-refl pp) refl

  pub head_in_range : pp < m.npage
  head_in_range = f.in_range pp free_head

  -- A page that is not free is not the new table.
  ne_head : (q : ℕ) → mem q m.free ≡ false → q ≢ pp
  ne_head q out same = ground (arith, free_head, ap (λ (t : ℕ). mem t m.free) same)

  linked : Mem
  linked = link_table pgdir va pp (taken pp rest m)

  row_new : linked.word pgdir (pdx va) ≡ make_pde pp
  unfolding linked link_table
  row_new = rw (==-refl pgdir, ==-refl (pdx va)) refl

  row_old : (i : ℕ) → i ≢ pdx va → linked.word pgdir i ≡ m.word pgdir i
  unfolding linked link_table
  row_old i ne =
      rw (==-refl pgdir, ==-ne i (pdx va) ne, ==-ne pgdir pp (ne_head pgdir h.dir_used)) refl

  table_old : (t i : ℕ) → t ≢ pgdir → mem t m.free ≡ false → linked.word t i ≡ m.word t i
  unfolding linked link_table
  table_old t i ne out = rw (==-ne t pgdir ne, ==-ne t pp (ne_head t out)) refl

  pub link_table-contents :
      (t i : ℕ)
      → t ≢ pgdir
      → mem t m.free ≡ false
      → (link_table pgdir va pp (taken pp rest m)).word t i ≡ m.word t i
  unfolding linked
  link_table-contents t i ne out = table_old t i ne out

  table_new : (i : ℕ) → linked.word pp i ≡ 0
  unfolding linked link_table
  table_new i = rw (==-ne pp pgdir (λ s. ne_head pgdir h.dir_used (sym s)), ==-refl pp) refl

  not_rest : (q : ℕ) → mem q m.free ≡ false → mem q rest ≡ false
  not_rest q out = let out' : mem q (pp ∷ rest) ≡ false = rw e at out in ground arith

  small_head : pp < 2 ^ 20
  small_head = omega (arith, head_in_range, h.small)

  row_cases :
      (i : ℕ)
      → ((i ≡ pdx va) × (linked.word pgdir i ≡ make_pde pp))
        ⊎ ((i ≢ pdx va) × (linked.word pgdir i ≡ m.word pgdir i))
  row_cases i = elim (Bool-cases (i == pdx va)) [
    | inl s ↦
        inl ((==_iff _ _).0 s, ap (λ (k : ℕ). linked.word pgdir k) ((==_iff _ _).0 s) ∙ row_new)
    | inr s ↦ inr (ground arith, row_old i (ground arith))
  ]

  table_of_new : ppn (make_pde pp) ≡ pp
  table_of_new = ppn-make_pde pp small_head

  -- The new table is none of the pages in use.
  pub link_table-other_table :
      (q : ℕ)
      → mem q m.free ≡ false
      → ppn (pde (link_table pgdir va pp (taken pp rest m)) pgdir va) ≢ q
  unfolding linked
  link_table-other_table q out same = ne_head q out (sym same ∙ ap ppn row_new ∙ table_of_new)

  -- No mapping changes.
  pub pte_of-link_table :
      (va' : ℕ)
      → pdx va' < lim
      → pte_of (link_table pgdir va pp (taken pp rest m)) pgdir va' ≡ pte_of m pgdir va'
  unfolding linked
  pte_of-link_table va' lt' =
      pte_of-eq-entry_at linked pgdir va'
      ∙ elim (row_cases (pdx va')) [
        | inl c ↦
            rw c.1 (
              entry_at-zero linked.word (make_pde pp) (ptx va')
                (ap (λ (t : ℕ). linked.word t (ptx va')) table_of_new ∙ table_new (ptx va')))
            ∙ sym (
                entry_at-invalid m.word (pde m pgdir va') (ptx va')
                  (ap (λ (k : ℕ). valid (m.word pgdir k)) c.0 ∙ unmapped))
        | inr c ↦ rw c.1 (
            entry_at-agree m.word linked.word (pde m pgdir va') (ptx va') (λ v.
              table_old (ppn (pde m pgdir va')) (ptx va') (h.table_ne (pdx va') lt' v)
                (h.table_used (pdx va') lt' v)))
      ]
      ∙ sym (pte_of-eq-entry_at m pgdir va')

  linked-npage : linked.npage ≡ m.npage
  unfolding linked link_table
  linked-npage = refl

  linked-free : linked.free ≡ rest
  unfolding linked link_table
  linked-free = refl

  table_of : ℕ → ℕ
  table_of i = ppn (linked.word pgdir i)

  -- A valid entry names the new table, or the table that it named before.
  entry_cases :
      (i : ℕ)
      → valid (linked.word pgdir i) ≡ true
      → ((i ≡ pdx va) × (table_of i ≡ pp))
        ⊎ ((valid (m.word pgdir i) ≡ true) × (table_of i ≡ ppn (m.word pgdir i)))
  unfolding table_of
  entry_cases i v = elim (row_cases i) [
    | inl c ↦ inl (c.0, ap ppn c.1 ∙ table_of_new)
    | inr c ↦ inr (sym (ap valid c.1) ∙ v, ap ppn c.1)
  ]

  old_ne_new : (i : ℕ) → i < lim → valid (m.word pgdir i) ≡ true → ppn (m.word pgdir i) ≢ pp
  old_ne_new i li v = ne_head (ppn (m.word pgdir i)) (h.table_used i li v)

  rest_head : mem pp rest ≡ false
  rest_head = (rw e at (f.distinct)).0

  linked-apart :
      (i j : ℕ)
      → i < lim
      → j < lim
      → valid (linked.word pgdir i) ≡ true
      → valid (linked.word pgdir j) ≡ true
      → table_of i ≡ table_of j
      → i ≡ j
  linked-apart i j li lj vi vj same = elim (entry_cases i vi) [
    | inl a ↦ elim (entry_cases j vj) [
      | inl b ↦ a.0 ∙ sym b.0
      | inr b ↦ absurd (old_ne_new j lj b.0 (sym b.1 ∙ sym same ∙ a.1))
    ]
    | inr a ↦ elim (entry_cases j vj) [
      | inl b ↦ absurd (old_ne_new i li a.0 (sym a.1 ∙ same ∙ b.1))
      | inr b ↦ h.apart i j li lj a.0 b.0 (sym a.1 ∙ same ∙ b.1)
    ]
  ]

  -- The directory with the new table has the shape again.
  pub link_table-TableOk : TableOk lim (link_table pgdir va pp (taken pp rest m)) pgdir
  unfolding linked table_of
  link_table-TableOk = record {
    small = rw linked-npage (h.small);
    dir_in = rw linked-npage (h.dir_in);
    dir_used = rw linked-free (not_rest pgdir h.dir_used);
    table_in = λ i li v. elim (entry_cases i v) [
      | inl c ↦ rw (c.1, linked-npage) head_in_range
      | inr c ↦ rw (c.1, linked-npage) (h.table_in i li c.0)
    ];
    table_used = λ i li v. elim (entry_cases i v) [
      | inl c ↦ rw (c.1, linked-free) rest_head
      | inr c ↦ rw (c.1, linked-free) (not_rest _ (h.table_used i li c.0))
    ];
    table_ne = λ i li v. elim (entry_cases i v) [
      | inl c ↦ rw c.1 (λ s. ne_head pgdir h.dir_used (sym s))
      | inr c ↦ rw c.1 (h.table_ne i li c.0)
    ];
    apart = linked-apart;
  }

  -- The directory now names a table for `va`.
  pub link_table-valid : valid (pde (link_table pgdir va pp (taken pp rest m)) pgdir va) ≡ true
  unfolding linked
  link_table-valid = ap valid row_new ∙ valid-make_pde pp
