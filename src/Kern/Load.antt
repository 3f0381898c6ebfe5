-- ===== src/Kern/Load.antt =====
-- The ELF loader, lib/elfloader.c, and what kern/env.c builds on it: `load_icode` and `env_create`,
-- with `map_segment`. A binary is its bytes, and a pointer into it an offset.
pub mod Segment
mod Tests
use mos_volca_shell.Base.{
  ℕ, zero, suc, ◌+◌, ◌-◌, ◌*◌, ◌/◌, ◌%◌, ◌^◌, Bool, true, false, not, ◌&&◌, ◌||◌, Option, none,
  some, List, [], ◌∷◌, ◌==◌, ltb, leb, bit_or, if◌then◌else◌, update, Run, ok, err, panic, Cmd,
  ◌>>=◌, ◌>>◌, pure, modify, gets, halt, assert, and_then,
}
use mos_volca_shell.Bits.{test_bit}
use mos_volca_shell.Kern.Pmap.{Mem, page_alloc, page_insert, pa2page, pte_v, pte_d}
use mos_volca_shell.Kern.State.{Kernel, Env, env_runnable, on_memory, set_env, sched_insert_head}
use mos_volca_shell.Kern.Env.{env_alloc}

abbrev pub Binary : Type 0
Binary = ℕ → ℕ

-- BY2PG
abbrev pub by2pg : ℕ
by2pg = 4096

abbrev pub min : ℕ → ℕ → ℕ
min a b = if ltb a b then a else b

-- `elf_mapper_t` with its `data`: the address, the offset in the page, the permission, the source and
-- the length. A result other than 0 is an error.
abbrev pub Mapper : Type 0 → Type 0
Mapper S = ℕ → ℕ → ℕ → Option ℕ → ℕ → Cmd S (Unit {0})

-- The fields of `Elf32_Phdr` that are read.
pub record Phdr : Type 0 where
  pub p_type : ℕ
  pub p_offset : ℕ
  pub p_vaddr : ℕ
  pub p_filesz : ℕ
  pub p_memsz : ℕ
  pub p_flags : ℕ

-- `MIN(bin_size - i, BY2PG)`, where the difference may wrap.
abbrev pub chunk : ℕ → ℕ → ℕ
chunk bin_size i = min ((bin_size + 2 ^ 32 - i) % 2 ^ 32) by2pg

module _ {S : Type 0} (map_page : Mapper S) (va bin_size sgsize perm bin : ℕ) where
  -- Step 2 from `i` on, with at most `n` rounds. `i` wraps at 2^32, as `size_t` does; a loop that is
  -- not over after `n` rounds, since `i` has wrapped, never ends.
  unfoldable pub map_blank : ℕ → ℕ → Cmd S (Unit {0})
  map_blank zero i = halt
  map_blank (suc n) i =
      if ltb i sgsize
      then map_page ((va + i) % 2 ^ 32) 0 perm none (chunk bin_size i)
        >> map_blank n ((i + by2pg) % 2 ^ 32)
      else pure tt

  -- Step 1 from `i` on, and then step 2, with at most `n` and `m` rounds.
  unfoldable pub map_content : ℕ → ℕ → ℕ → Cmd S (Unit {0})
  unfolding map_blank
  map_content zero m i = halt
  map_content (suc n) m i =
      if ltb i bin_size
      then map_page ((va + i) % 2 ^ 32) 0 perm (some (bin + i)) (chunk bin_size i)
        >> map_content n m ((i + by2pg) % 2 ^ 32)
      else map_blank m i

  -- The part of the first page, when the segment does not start at a page.
  unfoldable pub map_first : ℕ → Cmd S (Unit {0})
  map_first offset =
      if offset == 0
      then pure tt
      else map_page va offset perm (some bin) (min bin_size (by2pg - offset))

unfoldable pub seg_perm : ℕ → ℕ
seg_perm flags = if test_bit flags 1 then bit_or pte_v pte_d else pte_v

-- The loops make no more rounds than there are pages in the sizes, and one to stop.
unfoldable pub elf_load_seg : {S : Type 0} → Mapper S → Phdr → ℕ → Cmd S (Unit {0})
unfolding map_first map_content seg_perm
elf_load_seg map_page ph bin =
    let va : ℕ = ph.p_vaddr in
    let offset : ℕ = va % by2pg in
    let perm : ℕ = seg_perm ph.p_flags in
    let first : ℕ = if offset == 0 then 0 else min ph.p_filesz (by2pg - offset) in
    map_first map_page va (ph.p_filesz) (ph.p_memsz) perm bin offset
    >> map_content map_page va (ph.p_filesz) (ph.p_memsz) perm bin (ph.p_filesz / by2pg + 2)
        (ph.p_memsz / by2pg + 2) first

-- `len` bytes of the binary, from `src` on, in the page behind `offset`.
abbrev pub new_byte : Binary → ℕ → ℕ → ℕ → (ℕ → ℕ) → ℕ → ℕ
new_byte binary src offset len page k =
    if leb offset k && ltb k (offset + len)
    then binary (src + (k - offset))
    else page (k / 4) / 256 ^ (k % 4) % 256

unfoldable pub copy_to_page : Binary → ℕ → ℕ → ℕ → (ℕ → ℕ) → ℕ → ℕ
copy_to_page binary src offset len page i =
    let byte : ℕ → ℕ = new_byte binary src offset len page in
    byte (4 * i) + 256 * byte (4 * i + 1) + 65536 * byte (4 * i + 2) + 16777216 * byte (4 * i + 3)

abbrev pub copy_source : Binary → Option ℕ → ℕ → ℕ → ℕ → Mem → Mem
copy_source binary none offset len p m = m
copy_source binary (some src) offset len p m = record m {
  word = update m.word p (copy_to_page binary src offset len (m.word p));
}

-- A page that is not to be had ends in a panic.
unfoldable pub load_icode_mapper : Binary → ℕ → Mapper Kernel
unfolding page_alloc copy_to_page page_insert
load_icode_mapper binary e va offset perm src len k = elim (on_memory page_alloc k) [
  | ok p n ↦
      (do
        modify (λ k. record k { memory = copy_source binary src offset len p (k.memory) })
        (λ k. on_memory (page_insert ((k.envs e).pgdir) ((k.envs e).asid) p va perm) k))
        n
  | err x n ↦ panic
  | panic ↦ panic
]

abbrev pub half_at : Binary → ℕ → ℕ
half_at b o = b o + 256 * b (o + 1)

abbrev pub word_at : Binary → ℕ → ℕ
word_at b o = half_at b o + 65536 * half_at b (o + 2)

-- `elf_from`: whether the header is one; `sizeof(Elf32_Ehdr)` is 52.
unfoldable pub elf_from : Binary → ℕ → Bool
elf_from binary size =
    leb 52 size
    && ((binary 0 == 0x7f)
        && ((binary 1 == b'E')
            && ((binary 2 == b'L') && ((binary 3 == b'F') && (half_at binary 16 == 2)))))

unfoldable pub phdr_at : Binary → ℕ → Phdr
phdr_at b o = record {
  p_type = word_at b o;
  p_offset = word_at b (o + 4);
  p_vaddr = word_at b (o + 8);
  p_filesz = word_at b (o + 16);
  p_memsz = word_at b (o + 20);
  p_flags = word_at b (o + 24);
}

-- PT_LOAD
abbrev pub pt_load : ℕ
pt_load = 1

-- `panic_on`
unfoldable pub panic_on : Run Kernel (Unit {0}) → Run Kernel (Unit {0})
panic_on (ok u k) = ok u k
panic_on (err e k) = panic
panic_on panic = panic

-- The loop of `load_icode`, with `n` program headers left, the next one at `ph_off`.
unfoldable pub load_segments : Binary → ℕ → ℕ → ℕ → Cmd Kernel (Unit {0})
unfolding phdr_at elf_load_seg load_icode_mapper panic_on
load_segments binary e zero ph_off = pure tt
load_segments binary e (suc n) ph_off =
    let ph : Phdr = phdr_at binary ph_off in
    (if ph.p_type == pt_load
      then (λ k. panic_on (elf_load_seg (load_icode_mapper binary e) ph (ph.p_offset) k))
      else pure tt)
    >> load_segments binary e n (ph_off + half_at binary 42)

unfoldable pub load_icode : Binary → ℕ → ℕ → Cmd Kernel (Unit {0})
unfolding elf_from load_segments
load_icode binary size e = do
  assert (elf_from binary size)
  load_segments binary e (half_at binary 44) (word_at binary 28)
  modify (set_env e (λ v. record v { tf = record (v.tf) { cp0_epc = word_at binary 24 } }))

-- The environment that `env_alloc` gives; without one `e` has no value.
unfoldable pub first_env : Run Kernel ℕ → Run Kernel ℕ
first_env (ok e k) = ok e k
first_env (err x k) = panic
first_env panic = panic

unfoldable pub env_create : Binary → ℕ → ℕ → Cmd Kernel ℕ
unfolding env_alloc first_env load_icode sched_insert_head
env_create binary size priority = do
  e ← (λ k. first_env (env_alloc 0 k))
  modify (set_env e (λ v. record v { pri = priority; status = env_runnable }))
  load_icode binary size e
  sched_insert_head e
  pure e

-- The results of `page_insert` are not looked at.
unfoldable pub whatever_insert : Run Mem (Unit {0}) → Run Mem (Unit {0})
whatever_insert (ok u m) = ok tt m
whatever_insert (err e m) = ok tt m
whatever_insert panic = panic

-- The loop of `map_segment` from `i` on, over `n` pages.
unfoldable pub map_pages : ℕ → ℕ → ℕ → ℕ → ℕ → ℕ → ℕ → Cmd Mem (Unit {0})
unfolding pa2page page_insert whatever_insert
map_pages zero i pgdir asid pa va perm m = ok tt m
map_pages (suc n) i pgdir asid pa va perm m =
    (do
      pp ← pa2page ((pa + i) % 2 ^ 32)
      (λ m. whatever_insert (page_insert pgdir asid pp ((va + i) % 2 ^ 32) perm m))
      map_pages n (i + by2pg) pgdir asid pa va perm)
      m

unfoldable pub map_segment : ℕ → ℕ → ℕ → ℕ → ℕ → ℕ → Cmd Mem (Unit {0})
unfolding map_pages
map_segment pgdir asid pa va size perm = do
  assert (pa % by2pg == 0)
  assert (va % by2pg == 0)
  assert (size % by2pg == 0)
  map_pages (size / by2pg) 0 pgdir asid pa va perm
