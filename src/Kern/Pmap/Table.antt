-- ===== src/Kern/Pmap/Table.antt =====
-- The shape of an address space of kern/pmap.c, and what a write to one word of it changes.
use mos_volca_shell.Base.{
  ℕ, ◌≤◌, ◌<◌, ◌^◌, true, false, ◌==◌, ◌≡◌, ◌≢◌, ◌⊎◌, refl, ap, ◌∙◌, sym, mem, Option, none, some,
  if◌then◌else◌, Bool-cases, inl, inr, ==_iff, ==-ne, ==-refl,
}
use mos_volca_shell.Kern.Pmap.{Mem, Slot, write, valid, ppn, pdx, ptx, store, read_valid}
use mos_volca_shell.Kern.Pmap.Walk.{pde, slot_of, pte_of}

-- Below the directory index `lim`, each valid entry names a table of its own: a page of the
-- machine that is not free and is not the directory. For an environment `lim` is `PDX(UTOP)`.
pub record TableOk (lim : ℕ) (m : Mem) (pgdir : ℕ) : Type 0 where
  pub small : m.npage ≤ 2 ^ 20
  pub dir_in : pgdir < m.npage
  pub dir_used : mem pgdir m.free ≡ false
  pub table_in : (i : ℕ) → i < lim → valid (m.word pgdir i) ≡ true → ppn (m.word pgdir i) < m.npage
  pub table_used :
      (i : ℕ) → i < lim → valid (m.word pgdir i) ≡ true → mem (ppn (m.word pgdir i)) m.free ≡ false
  pub table_ne : (i : ℕ) → i < lim → valid (m.word pgdir i) ≡ true → ppn (m.word pgdir i) ≢ pgdir
  pub apart :
      (i j : ℕ)
      → i < lim
      → j < lim
      → valid (m.word pgdir i) ≡ true
      → valid (m.word pgdir j) ≡ true
      → ppn (m.word pgdir i) ≡ ppn (m.word pgdir j)
      → i ≡ j

-- The page is neither the directory nor one of its tables.
pub record NotTable (lim : ℕ) (m : Mem) (pgdir q : ℕ) : Type 0 where
  pub ne_dir : q ≢ pgdir
  pub ne_table : (i : ℕ) → i < lim → valid (m.word pgdir i) ≡ true → ppn (m.word pgdir i) ≢ q

-- The addresses fall in different pages: another entry of the directory, or of the table.
abbrev pub OtherPage : ℕ → ℕ → Type 0
OtherPage va va' = (pdx va' ≢ pdx va) ⊎ (ptx va' ≢ ptx va)

-- `pte_of` by the directory entry and the index in the table.
abbrev pub entry_at : (ℕ → ℕ → ℕ) → ℕ → ℕ → Option (Slot × ℕ)
entry_at word d q =
    if valid d
    then (if valid (word (ppn d) q) then some ((ppn d, q), word (ppn d) q) else none)
    else none

pub pte_of-eq-entry_at :
    (m : Mem) (pgdir va : ℕ) → pte_of m pgdir va ≡ entry_at m.word (pde m pgdir va) (ptx va)
unfolding pte_of slot_of read_valid
pte_of-eq-entry_at m pgdir va = elim (Bool-cases (valid (pde m pgdir va))) [
  | inl e ↦ rw e refl
  | inr e ↦ rw e refl
]

entry_at-same :
    (word : ℕ → ℕ → ℕ) (d q v : ℕ)
    → valid d ≡ true
    → entry_at (write word (ppn d) q v) d q ≡ (if valid v then some ((ppn d, q), v) else none)
entry_at-same word d q v e = rw (e, ==-refl (ppn d), ==-refl q) refl

entry_at-other_table :
    (word : ℕ → ℕ → ℕ) (t d q q' v : ℕ)
    → (valid d ≡ true → ppn d ≢ t)
    → entry_at (write word t q v) d q' ≡ entry_at word d q'
entry_at-other_table word t d q q' v ne = elim (Bool-cases (valid d)) [
  | inl e ↦ rw (e, ==-ne (ppn d) t (ne e)) refl
  | inr e ↦ rw e refl
]

entry_at-other_index :
    (word : ℕ → ℕ → ℕ) (t d q q' v : ℕ)
    → q' ≢ q
    → entry_at (write word t q v) d q' ≡ entry_at word d q'
entry_at-other_index word t d q q' v ne = elim (Bool-cases (ppn d == t)) [
  | inl e ↦ rw (e, ==-ne q' q ne, (==_iff _ _).0 e) refl
  | inr e ↦ rw e refl
]

-- What is mapped depends on the words of memory.
pub pte_of-word :
    (m n : Mem) (pgdir va : ℕ) → n.word ≡ m.word → pte_of n pgdir va ≡ pte_of m pgdir va
pte_of-word m n pgdir va e =
    pte_of-eq-entry_at n pgdir va
    ∙ ap (λ (w : ℕ → ℕ → ℕ). entry_at w (w pgdir (pdx va)) (ptx va)) e
    ∙ sym (pte_of-eq-entry_at m pgdir va)

pub entry_at-agree :
    (word word' : ℕ → ℕ → ℕ) (d q : ℕ)
    → (valid d ≡ true → word' (ppn d) q ≡ word (ppn d) q)
    → entry_at word' d q ≡ entry_at word d q
entry_at-agree word word' d q same = elim (Bool-cases (valid d)) [
  | inl e ↦ rw (e, same e) refl
  | inr e ↦ rw e refl
]

pub entry_at-zero : (word : ℕ → ℕ → ℕ) (d q : ℕ) → word (ppn d) q ≡ 0 → entry_at word d q ≡ none
entry_at-zero word d q z = elim (Bool-cases (valid d)) [
  | inl e ↦ rw (e, z) refl
  | inr e ↦ rw e refl
]

pub entry_at-invalid : (word : ℕ → ℕ → ℕ) (d q : ℕ) → valid d ≡ false → entry_at word d q ≡ none
entry_at-invalid word d q e = rw e refl

-- The directory's own words stay under a write to another page.
row_ne : (m : Mem) (pgdir t q v i : ℕ) → t ≢ pgdir → write m.word t q v pgdir i ≡ m.word pgdir i
row_ne m pgdir t q v i ne = rw (==-ne pgdir t (λ e. ne (sym e))) refl

-- The shape depends on the directory's words and on which of its pages are free.
pub TableOk-same :
    (lim : ℕ) (m n : Mem) (pgdir : ℕ)
    → TableOk lim m pgdir
    → n.npage ≡ m.npage
    → ((i : ℕ) → n.word pgdir i ≡ m.word pgdir i)
    → mem pgdir n.free ≡ false
    → ((i : ℕ)
        → i < lim
        → valid (m.word pgdir i) ≡ true
        → mem (ppn (m.word pgdir i)) n.free ≡ false)
    → TableOk lim n pgdir
TableOk-same lim m n pgdir h en ew od ot = record {
  small = rw en (h.small);
  dir_in = rw en (h.dir_in);
  dir_used = od;
  table_in = λ i lt. rw (en, ew i) (h.table_in i lt);
  table_used = λ i lt. rw (ew i) (ot i lt);
  table_ne = λ i lt. rw (ew i) (h.table_ne i lt);
  apart = λ i j li lj. rw (ew i, ew j) (h.apart i j li lj);
}

module _ (lim : ℕ) (m : Mem) (pgdir va v : ℕ) (h : TableOk lim m pgdir) (lt : pdx va < lim)
    (e : valid (pde m pgdir va) ≡ true) where
  -- A write through the slot of `va` is what is read at `va`.
  pub pte_of-store_self :
      pte_of (store (ppn (pde m pgdir va), ptx va) v m) pgdir va
      ≡ (if valid v then some ((ppn (pde m pgdir va), ptx va), v) else none)
  unfolding store
  pte_of-store_self =
      pte_of-eq-entry_at (store (ppn (pde m pgdir va), ptx va) v m) pgdir va
      ∙ ap (λ (d : ℕ). entry_at (write m.word (ppn (pde m pgdir va)) (ptx va) v) d (ptx va))
          (row_ne m pgdir (ppn (pde m pgdir va)) (ptx va) v (pdx va) (h.table_ne (pdx va) lt e))
      ∙ entry_at-same m.word (pde m pgdir va) (ptx va) v e

  -- Nothing else changes.
  pub pte_of-store_other :
      (va' : ℕ)
      → pdx va' < lim
      → OtherPage va va'
      → pte_of (store (ppn (pde m pgdir va), ptx va) v m) pgdir va' ≡ pte_of m pgdir va'
  unfolding store
  pte_of-store_other va' lt' other =
      pte_of-eq-entry_at (store (ppn (pde m pgdir va), ptx va) v m) pgdir va'
      ∙ ap (λ (d : ℕ). entry_at (write m.word (ppn (pde m pgdir va)) (ptx va) v) d (ptx va'))
          (row_ne m pgdir (ppn (pde m pgdir va)) (ptx va) v (pdx va') (h.table_ne (pdx va) lt e))
      ∙ step other
      ∙ sym (pte_of-eq-entry_at m pgdir va')
    where
      step :
          OtherPage va va'
          → entry_at (write m.word (ppn (pde m pgdir va)) (ptx va) v) (pde m pgdir va') (ptx va')
            ≡ entry_at m.word (pde m pgdir va') (ptx va')
      step (inl ne) =
          entry_at-other_table m.word (ppn (pde m pgdir va)) (pde m pgdir va') (ptx va) (ptx va') v
            (λ e' same. ne (h.apart (pdx va') (pdx va) lt' lt e' e same))
      step (inr ne) =
          entry_at-other_index m.word (ppn (pde m pgdir va)) (pde m pgdir va') (ptx va) (ptx va') v
            ne

  -- The directory keeps its shape.
  pub store-TableOk : TableOk lim (store (ppn (pde m pgdir va), ptx va) v m) pgdir
  unfolding store
  store-TableOk =
      TableOk-same lim m (store (ppn (pde m pgdir va), ptx va) v m) pgdir h refl
        (λ i. row_ne m pgdir (ppn (pde m pgdir va)) (ptx va) v i (h.table_ne (pdx va) lt e))
        h.dir_used h.table_used
