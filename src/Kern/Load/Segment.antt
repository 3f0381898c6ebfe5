-- ===== src/Kern/Load/Segment.antt =====
-- `elf_load_seg` of lib/elfloader.c maps a segment page by page.
use mos_volca_shell.Base.{
  ℕ, zero, suc, ◌+◌, ◌-◌, ◌*◌, ◌/◌, ◌%◌, ◌^◌, ◌<◌, ◌≤◌, false, none, some, ◌==◌, ltb, if◌then◌else◌,
  Run, ok, err, panic, Cmd, and_then, ◌>>◌, pure, ◌≡◌, ◌∙◌, refl, ap, arith, Bool-cases, inl, inr,
  ==_iff, ==-ne, ltb-lt, ltb-le,
}
use mos_volca_shell.Kern.Load.{
  Mapper, Phdr, by2pg, min, chunk, map_blank, map_content, map_first, seg_perm, elf_load_seg,
}

module _ {S : Type 0} (map_page : Mapper S) (ph : Phdr) (bin : ℕ) where
  -- The call for page `k` of a segment that starts at a page: with the content of the file, or blank.
  abbrev pub page_call : ℕ → Cmd S (Unit {0})
  page_call k =
      map_page ((ph.p_vaddr + by2pg * k) % 2 ^ 32) 0 (seg_perm ph.p_flags)
        (if ltb (by2pg * k) ph.p_filesz then some (bin + by2pg * k) else none)
        (chunk ph.p_filesz (by2pg * k))

  -- The calls for `n` pages from page `k` on, up to the first error.
  abbrev pub each_page : ℕ → ℕ → Cmd S (Unit {0})
  each_page zero k = pure tt
  each_page (suc n) k = page_call k >> each_page n (k + 1)

  then_same : (a f g : Cmd S (Unit {0})) (s : S) → ((t : S) → f t ≡ g t) → (a >> f) s ≡ (a >> g) s
  then_same a f g s same = after (a s)
    where
      after : (r : Run S (Unit {0})) → and_then r (λ u. f) ≡ and_then r (λ u. g)
      after (ok u t) = same t
      after (err e t) = refl
      after panic = refl

  abbrev blank : ℕ → ℕ → Cmd S (Unit {0})
  blank m i = map_blank map_page ph.p_vaddr ph.p_filesz ph.p_memsz (seg_perm ph.p_flags) bin m i

  abbrev content : ℕ → ℕ → ℕ → Cmd S (Unit {0})
  content n m i =
      map_content map_page ph.p_vaddr ph.p_filesz ph.p_memsz (seg_perm ph.p_flags) bin n m i

  blank-each_page :
      (n k m : ℕ) (s : S)
      → n + k ≡ (ph.p_memsz + 4095) / by2pg
      → n < m
      → ph.p_memsz ≤ 2 ^ 32 - by2pg
      → ph.p_filesz ≤ by2pg * k
      → blank m (by2pg * k) s ≡ each_page n k s
  unfolding map_blank
  blank-each_page n k zero s e lt few le = absurd (omega (arith, lt))
  blank-each_page zero k (suc m) s e lt few le =
      rw (ltb-le (by2pg * k) ph.p_memsz (omega (arith, e))) refl
  blank-each_page (suc n) k (suc m) s e lt few le =
      let next : (by2pg * k + by2pg) % 2 ^ 32 ≡ by2pg * (k + 1) = omega (arith, e, few) in
      rw (ltb-lt (by2pg * k) ph.p_memsz (omega (arith, e)), ltb-le (by2pg * k) ph.p_filesz le)
        (then_same
          (map_page ((ph.p_vaddr + by2pg * k) % 2 ^ 32) 0 (seg_perm ph.p_flags) none
            (chunk ph.p_filesz (by2pg * k)))
          (blank m ((by2pg * k + by2pg) % 2 ^ 32)) (each_page n (k + 1)) s
          (λ t.
            ap (λ i. blank m i t) next
            ∙ blank-each_page n (k + 1) m t (omega (arith, e)) (omega (arith, lt)) few
                (omega (arith, le))))

  -- `a` rounds of step 1 are enough for the content, and `m` of step 2 for all pages.
  content-each_page :
      (a n k m : ℕ) (s : S)
      → n + k ≡ (ph.p_memsz + 4095) / by2pg
      → n < m
      → ph.p_memsz ≤ 2 ^ 32 - by2pg
      → ph.p_filesz < by2pg * (k + a)
      → ph.p_filesz ≤ ph.p_memsz
      → content (suc a) m (by2pg * k) s ≡ each_page n k s
  unfolding map_content
  content-each_page zero n k m s e lt size few le =
      rw (ltb-le (by2pg * k) ph.p_filesz (omega (arith, few)))
        (blank-each_page n k m s e lt size (omega (arith, few)))
  content-each_page (suc a) zero k m s e lt size few le =
      rw (ltb-le (by2pg * k) ph.p_filesz (omega (arith, e, le)))
        (blank-each_page zero k m s e lt size (omega (arith, e, le)))
  content-each_page (suc a) (suc n) k m s e lt size few le =
      elim (Bool-cases (ltb (by2pg * k) ph.p_filesz)) [
        | inr past ↦
            rw past (blank-each_page (suc n) k m s e lt size (ground (arith, past)) ∙ rw past refl)
        | inl more ↦ rw more (
            then_same
              (map_page ((ph.p_vaddr + by2pg * k) % 2 ^ 32) 0 (seg_perm ph.p_flags)
                (some (bin + by2pg * k)) (chunk ph.p_filesz (by2pg * k)))
              (content (suc a) m ((by2pg * k + by2pg) % 2 ^ 32)) (each_page n (k + 1)) s
              (λ t.
                ap (λ i. content (suc a) m i t) next
                ∙ content-each_page a n (k + 1) m t (omega (arith, e)) (omega (arith, lt)) size
                    (omega (arith, few)) le))
      ]
    where
      next : (by2pg * k + by2pg) % 2 ^ 32 ≡ by2pg * (k + 1)
      next = omega (arith, e, size)

  -- For a segment that starts at a page and is in memory at least as large as in the file, and at
  -- most 2^32 - 4096 bytes, `elf_load_seg` calls the mapper once for each page of its memory in
  -- order, up to the first error: with the content of the file where there is some left, and else
  -- blank.
  pub elf_load_seg-pages :
      (s : S)
      → ph.p_vaddr % by2pg ≡ 0
      → ph.p_filesz ≤ ph.p_memsz
      → ph.p_memsz ≤ 2 ^ 32 - by2pg
      → elf_load_seg map_page ph bin s ≡ each_page ((ph.p_memsz + 4095) / by2pg) 0 s
  unfolding elf_load_seg map_first
  elf_load_seg-pages s aligned le size =
      let rounds : ph.p_filesz / by2pg + 2 ≡ suc (ph.p_filesz / by2pg + 1) = omega arith in
      let start : 0 ≡ by2pg * 0 = omega arith in
      rw ((==_iff (ph.p_vaddr % by2pg) 0).1 aligned) (
        ap (λ a. content a (ph.p_memsz / by2pg + 2) 0 s) rounds
        ∙ ap (λ i. content (suc (ph.p_filesz / by2pg + 1)) (ph.p_memsz / by2pg + 2) i s) start
        ∙ content-each_page (ph.p_filesz / by2pg + 1) ((ph.p_memsz + 4095) / by2pg) 0
            (ph.p_memsz / by2pg + 2) s (omega arith) (omega arith) size (omega arith) le)

  -- After the content has ended inside a page, the next call is for the address behind it.
  blank_behind :
      (a m : ℕ) (s : S)
      → ph.p_vaddr + ph.p_filesz < 2 ^ 32
      → ph.p_filesz < ph.p_memsz
      → ph.p_memsz ≤ ph.p_filesz + by2pg
      → ph.p_filesz < by2pg
      → content (suc a) (suc (suc m)) ph.p_filesz s
        ≡ (map_page (ph.p_vaddr + ph.p_filesz) 0 (seg_perm ph.p_flags) none 0 >> pure tt) s
  unfolding map_content map_blank
  blank_behind a m s small less fits short =
      let here : (ph.p_vaddr + ph.p_filesz) % 2 ^ 32 ≡ ph.p_vaddr + ph.p_filesz =
        omega (arith, small) in
      let wrapped : (ph.p_filesz + by2pg) % 2 ^ 32 ≡ ph.p_filesz + by2pg = omega (arith, short) in
      let nothing : chunk ph.p_filesz ph.p_filesz ≡ 0 = ground arith in
      rw
        (
          ltb-le ph.p_filesz ph.p_filesz (omega arith),
          ltb-lt ph.p_filesz ph.p_memsz less,
          wrapped,
          ltb-le (ph.p_filesz + by2pg) ph.p_memsz fits,
        )
        (ap (λ (c : ℕ × ℕ). (map_page (c.0) 0 (seg_perm ph.p_flags) none (c.1) >> pure tt) s)
          (λ i. (here i, nothing i)))

  -- For a segment that does not start at a page, whose memory ends in its first page and is
  -- larger than its content, `elf_load_seg` calls the mapper with the content and then, unless
  -- that failed, without content for an address in the same page.
  pub elf_load_seg-twice :
      (s : S)
      → 0 < ph.p_vaddr % by2pg
      → ph.p_vaddr < 2 ^ 32
      → ph.p_filesz < ph.p_memsz
      → ph.p_vaddr % by2pg + ph.p_memsz ≤ by2pg
      → (elf_load_seg map_page ph bin s
          ≡ (map_page ph.p_vaddr (ph.p_vaddr % by2pg) (seg_perm ph.p_flags) (some bin) ph.p_filesz
                >> (map_page (ph.p_vaddr + ph.p_filesz) 0 (seg_perm ph.p_flags) none 0 >> pure tt))
              s)
        × ((ph.p_vaddr + ph.p_filesz) / by2pg ≡ ph.p_vaddr / by2pg)
  unfolding elf_load_seg map_first
  elf_load_seg-twice s off wide less fits =
      let unaligned : (ph.p_vaddr % by2pg == 0) ≡ false =
        ==-ne (ph.p_vaddr % by2pg) 0 (omega (arith, off)) in
      let short : min ph.p_filesz (by2pg - ph.p_vaddr % by2pg) ≡ ph.p_filesz =
        ground (arith, less, fits) in
      let content_rounds : ph.p_filesz / by2pg + 2 ≡ suc (ph.p_filesz / by2pg + 1) = omega arith in
      let blank_rounds : ph.p_memsz / by2pg + 2 ≡ suc (suc (ph.p_memsz / by2pg)) = omega arith in
      (
        rw (unaligned, short)
            (then_same
              (map_page ph.p_vaddr (ph.p_vaddr % by2pg) (seg_perm ph.p_flags) (some bin)
                ph.p_filesz)
              (content (ph.p_filesz / by2pg + 2) (ph.p_memsz / by2pg + 2) ph.p_filesz)
              (map_page (ph.p_vaddr + ph.p_filesz) 0 (seg_perm ph.p_flags) none 0 >> pure tt) s
              (λ t.
                ap (λ a. content a (ph.p_memsz / by2pg + 2) ph.p_filesz t) content_rounds
                ∙ ap (λ m. content (suc (ph.p_filesz / by2pg + 1)) m ph.p_filesz t) blank_rounds
                ∙ blank_behind (ph.p_filesz / by2pg + 1) (ph.p_memsz / by2pg) t
                    (omega (arith, off, wide, less, fits)) less (omega (arith, off, fits))
                    (omega (arith, off, less, fits)))),
        omega (arith, off, less, fits),
      )
