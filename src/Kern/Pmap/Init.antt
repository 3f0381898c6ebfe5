-- ===== src/Kern/Pmap/Init.antt =====
-- `page_init` of kern/pmap.c: which pages are free at the start.
use mos_volca_shell.Base.{
  ℕ, zero, suc, ◌+◌, ◌-◌, ◌≤◌, false, ◌||◌, ◌&&◌, ◌≡◌, refl, arith, List, [], ◌∷◌, mem, Distinct,
  ltb, leb, ==_iff,
}
use mos_volca_shell.Kern.Pmap.{Mem, page_init, free_from}
use mos_volca_shell.Kern.Pmap.Free.{FreeOk}

-- The loop frees the pages from `i` on and keeps what was free.
mem-free_from :
    (n i p : ℕ) (l : List ℕ) → mem p (free_from n i l) ≡ ((leb i p && ltb p (i + n)) || mem p l)
unfolding free_from
mem-free_from zero i p l = ground arith
mem-free_from (suc n) i p l = ground (arith, mem-free_from n (i + 1) p (i ∷ l), ==_iff p i)

free_from-Distinct :
    (n i : ℕ) (l : List ℕ)
    → Distinct l
    → ((p : ℕ) → i ≤ p → mem p l ≡ false)
    → Distinct (free_from n i l)
unfolding free_from
free_from-Distinct zero i l d out = d
free_from-Distinct (suc n) i l d out =
    free_from-Distinct n (i + 1) (i ∷ l) (out i (omega arith), d)
      (λ p lt. ground (arith, out p, ==_iff p i))

module _ (size : ℕ) (m : Mem) (fits : size ≤ m.npage) where
  -- When the kernel took `size` pages of the machine, `page_init` makes exactly the pages from
  -- `size` on free.
  pub mem-page_init : (p : ℕ) → mem p ((page_init size m).free) ≡ (leb size p && ltb p m.npage)
  unfolding page_init
  mem-page_init p = ground (arith, mem-free_from (m.npage - size) size p [])

  -- When the kernel took `size` pages of the machine, `page_init` sets up a well-formed free
  -- list.
  pub page_init-FreeOk : FreeOk (page_init size m)
  unfolding page_init
  page_init-FreeOk = record {
    distinct = free_from-Distinct (m.npage - size) size [] tt (λ p lt. refl);
    unused = λ p i. ground (arith, mem-free_from (m.npage - size) size p []);
    in_range = λ p i. ground (arith, mem-free_from (m.npage - size) size p []);
  }
