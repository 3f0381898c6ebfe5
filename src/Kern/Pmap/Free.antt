-- ===== src/Kern/Pmap/Free.antt =====
-- The list of free pages of kern/pmap.c: its invariant, and that every operation keeps it.
use mos_volca_shell.Base.{
  ℕ, ◌-◌, ◌<◌, true, false, List, [], ◌∷◌, ◌==◌, ltb, if◌then◌else◌, update, Run, ok, err, panic,
  Cmd, Leaves, ◌≡◌, refl, arith, mem, Distinct, Bool-cases, ==_iff, inl, inr, and_then,
}
use mos_volca_shell.Kern.Pmap.{Mem, page_alloc, page_free, page_decref, take_page}

-- The free list holds each page at most once, only pages of the machine, and only pages that
-- nothing refers to.
pub record FreeOk (m : Mem) : Type 0 where
  pub distinct : Distinct m.free
  pub unused : (p : ℕ) → mem p m.free ≡ true → m.ref p ≡ 0
  pub in_range : (p : ℕ) → mem p m.free ≡ true → p < m.npage

-- A rule for sequencing: what the first part leaves, the second starts from.
pub Leaves-and_then :
    {S A B : Type 0} (P : S → Type 0) (r : Run S A) (k : A → Cmd S B)
    → Leaves P r
    → ((a : A) (s : S) → P s → Leaves P (k a s))
    → Leaves P (and_then r k)
Leaves-and_then P (ok a s) k h f = f a s h
Leaves-and_then P (err e s) k h f = h
Leaves-and_then P panic k h f = tt

-- The rule with another predicate in between.
pub Leaves-weaken :
    {S A B : Type 0} (Q P : S → Type 0)
    → ((s : S) → Q s → P s)
    → (r : Run S A) (k : A → Cmd S B) → Leaves Q r
    → ((a : A) (s : S) → Q s → Leaves P (k a s))
    → Leaves P (and_then r k)
Leaves-weaken Q P weak (ok a s) k h f = f a s h
Leaves-weaken Q P weak (err e s) k h f = weak s h
Leaves-weaken Q P weak panic k h f = tt

-- States with the same list and the same counts have the same invariant.
pub FreeOk-same :
    {m n : Mem} → n.free ≡ m.free → n.ref ≡ m.ref → n.npage ≡ m.npage → FreeOk m → FreeOk n
FreeOk-same e f g h = record {
  distinct = rw e h.distinct;
  unused = λ p i. rw f (h.unused p (rw e at i));
  in_range = λ p i. rw g (h.in_range p (rw e at i));
}

pub take_page-FreeOk :
    (l : List ℕ) (m : Mem) → m.free ≡ l → FreeOk m → Leaves FreeOk (take_page l m)
unfolding take_page
take_page-FreeOk [] m e h = h
take_page-FreeOk (pp ∷ rest) m e h = record {
  distinct = (rw e at h.distinct).1;
  unused = λ p i. h.unused p (rw e (ground arith));
  in_range = λ p i. h.in_range p (rw e (ground arith));
}

-- `page_alloc` keeps the free list well formed, also when it fails.
pub page_alloc-FreeOk : (m : Mem) → FreeOk m → Leaves FreeOk (page_alloc m)
unfolding page_alloc
page_alloc-FreeOk m h = take_page-FreeOk m.free m refl h

-- A page that is not on the list may change its count.
pub FreeOk-ref :
    (pp v : ℕ) (m : Mem)
    → mem pp m.free ≡ false
    → FreeOk m
    → FreeOk (record m { ref = update m.ref pp v })
FreeOk-ref pp v m out h = record {
  distinct = h.distinct;
  unused = λ p i. ground (arith, h.unused p, ==_iff p pp);
  in_range = h.in_range;
}

pub FreeOk-cons :
    (pp : ℕ) (m : Mem)
    → pp < m.npage
    → mem pp m.free ≡ false
    → m.ref pp ≡ 0
    → FreeOk m
    → FreeOk (record m { free = pp ∷ m.free })
FreeOk-cons pp m lt out unref h = record {
  distinct = (out, h.distinct);
  unused = λ p i. ground (arith, h.unused p, ==_iff p pp);
  in_range = λ p i. ground (arith, h.in_range p, ==_iff p pp);
}

-- `page_free` keeps it for a page of the machine that is not free yet.
pub page_free-FreeOk :
    (pp : ℕ) (m : Mem)
    → pp < m.npage
    → mem pp m.free ≡ false
    → FreeOk m
    → Leaves FreeOk (page_free pp m)
unfolding page_free
page_free-FreeOk pp m lt out h = elim (Bool-cases (m.ref pp == 0)) [
  | inl e ↦ rw e (FreeOk-cons pp m lt out ((==_iff _ _).0 e) h)
  | inr e ↦ rw e tt
]

-- A page with references is not on the list.
pub FreeOk-not-mem : (pp : ℕ) {m : Mem} → FreeOk m → 0 < m.ref pp → mem pp m.free ≡ false
FreeOk-not-mem pp {m} h pos = ground (arith, h.unused pp)

-- `page_decref` of a page of the machine keeps the free list well formed.
pub page_decref-FreeOk :
    (pp : ℕ) (m : Mem) → pp < m.npage → FreeOk m → Leaves FreeOk (page_decref pp m)
unfolding page_decref
page_decref-FreeOk pp m lt h = elim (Bool-cases (ltb 0 (m.ref pp))) [
  | inl e ↦ rw e (dropped (FreeOk-not-mem pp h (ground arith)))
  | inr e ↦ rw e tt
]
  where
    m' : Mem
    m' = record m { ref = update m.ref pp (m.ref pp - 1) }

    dropped :
        mem pp m.free ≡ false
        → Leaves FreeOk (if m.ref pp - 1 == 0 then page_free pp m' else ok tt m')
    dropped out = elim (Bool-cases (m.ref pp - 1 == 0)) [
      | inl z ↦ rw z (page_free-FreeOk pp m' lt out (FreeOk-ref pp (m.ref pp - 1) m out h))
      | inr z ↦ rw z (FreeOk-ref pp (m.ref pp - 1) m out h)
    ]
