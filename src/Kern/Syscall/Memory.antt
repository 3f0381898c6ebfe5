-- ===== src/Kern/Syscall/Memory.antt =====
-- `sys_mem_alloc` and `sys_mem_map` of kern/syscall_all.c on well-formed address spaces.
use mos_volca_shell.Base.{
  ℕ, ◌∙◌, ◌<◌, true, false, List, [], ◌∷◌, ◌≡◌, ◌≢◌, ◌⊎◌, refl, arith, ok, some, mem,
}
use mos_volca_shell.Kern.Pmap.{Mem, pdx, valid, page_alloc, page_insert, take_page, ppn, Slot}
use mos_volca_shell.Kern.Pmap.Free.{FreeOk}
use mos_volca_shell.Kern.Pmap.Walk.{pde, pte_of}
use mos_volca_shell.Kern.Pmap.Table.{TableOk}
use mos_volca_shell.Kern.Pmap.Link.{taken}
use mos_volca_shell.Kern.Pmap.Take.{
  taken-FreeOk, taken-TableOk, taken-OldEntryOk, pte_of-taken, pde-taken, head-not_dir,
  taken-NotTableOf, taken-zero,
}
use mos_volca_shell.Kern.Pmap.Remove.{lookup-some}
use mos_volca_shell.Kern.Pmap.Fill.{Inserted}
use mos_volca_shell.Kern.Pmap.Mapping.{page_insert-maps, OldEntryOk}
use mos_volca_shell.Kern.State.{Kernel, with_memory}
use mos_volca_shell.Kern.Env.{envid2env, pdx_utop}
use mos_volca_shell.Kern.Syscall.{require, is_illegal_va, sys_mem_alloc, sys_mem_map, map_found}

legal_pdx : (va : ℕ) → is_illegal_va va ≡ false → pdx va < pdx_utop
unfolding is_illegal_va
legal_pdx va e = ground arith

module _ (envid va perm e pp : ℕ) (rest : List ℕ) (k : Kernel) (legal : is_illegal_va va ≡ false)
    (found : envid2env envid true k ≡ ok e k) (f : FreeOk k.memory)
    (h : TableOk pdx_utop k.memory ((k.envs e).pgdir)) (free : k.memory.free ≡ pp ∷ rest) where
  abbrev pgdir : ℕ
  pgdir = (k.envs e).pgdir

  -- The call comes down to the insertion of the first free page.
  alloc-run :
      sys_mem_alloc envid va perm k
      ≡ with_memory
          (record k { memory = taken pp rest k.memory })
          (page_insert pgdir ((k.envs e).asid) pp va perm (taken pp rest k.memory))
  unfolding sys_mem_alloc require page_alloc take_page
  alloc-run = rw (legal, found, free) refl

  -- At a legal address, for an identifier that `envid2env` accepts, on an address space that is
  -- well formed below UTOP and a well-formed free list, with a free page, an old mapping at the
  -- address (if there is one) that is to a page in use and no table, and a table for the address
  -- or a second free page, `sys_mem_alloc` succeeds and changes the memory of the kernel only:
  -- the address is then mapped with `perm` to the first free page, as `page_insert` maps it, and
  -- every word of that page is 0.
  pub sys_mem_alloc-maps :
      OldEntryOk pdx_utop k.memory ((k.envs e).pgdir) (pte_of k.memory ((k.envs e).pgdir) va)
      → (valid (pde k.memory ((k.envs e).pgdir) va) ≡ true) ⊎ (rest ≢ [])
      → (n : Mem) × (sys_mem_alloc envid va perm k ≡ ok tt (record k { memory = n }))
        × Inserted pdx_utop
            (taken pp rest k.memory)
            ((k.envs e).pgdir)
            ((k.envs e).asid)
            pp
            va
            perm
            n
        × ((i : ℕ) → n.word pp i ≡ 0)
  sys_mem_alloc-maps old room =
      let lt : pdx va < pdx_utop = legal_pdx va legal in
      let m1 : Mem = taken pp rest k.memory in
      let (n, run, ins) =
        page_insert-maps pdx_utop pgdir ((k.envs e).asid) va m1 lt
          (taken-TableOk pdx_utop pgdir pp rest k.memory f h free) pp perm
          (taken-FreeOk pdx_utop pgdir pp rest k.memory f h free) ((rw free at f.distinct).0)
          (rw (pte_of-taken pdx_utop pgdir pp rest k.memory f h free va lt) (
            taken-OldEntryOk pdx_utop pgdir pp rest k.memory f h free (pte_of k.memory pgdir va)
              old))
          (rw (pde-taken pdx_utop pgdir pp rest k.memory f h free va) room) in
      (
        n,
        rw (alloc-run, run) refl,
        ins,
        λ i.
            ins.contents pp ((rw free at f.distinct).0)
              (head-not_dir pdx_utop pgdir pp rest k.memory f h free)
              (taken-NotTableOf pdx_utop pgdir pp rest k.memory f h free va lt) i
            ∙ taken-zero pdx_utop pgdir pp rest k.memory f h free i,
      )

-- What `sys_mem_map` is called on: the address spaces of both environments are well formed below
-- UTOP, and the page `ppn w` that the source address is mapped to by the entry `w` is not free.
pub record CanMap (k : Kernel) (src dst srcva dstva w : ℕ) (slot : Slot) : Type 0 where
  pub src_ok : TableOk pdx_utop k.memory ((k.envs src).pgdir)
  pub dst_ok : TableOk pdx_utop k.memory ((k.envs dst).pgdir)
  pub free_ok : FreeOk k.memory
  pub found : pte_of k.memory ((k.envs src).pgdir) srcva ≡ some (slot, w)
  pub in_range : ppn w < k.memory.npage
  pub in_use : mem (ppn w) k.memory.free ≡ false
  pub old :
      OldEntryOk pdx_utop k.memory ((k.envs dst).pgdir) (pte_of k.memory ((k.envs dst).pgdir) dstva)
  pub room : (valid (pde k.memory ((k.envs dst).pgdir) dstva) ≡ true) ⊎ (k.memory.free ≢ [])

-- At legal addresses, for identifiers that `envid2env` accepts, with the address spaces of both
-- environments well formed below UTOP and a well-formed free list, where the source address is
-- mapped to a page of the machine that is not free, the destination's old mapping (if there is
-- one) is to a page in use that is no table, and there is a table for the destination or a free
-- page: `sys_mem_map` succeeds and changes the memory of the kernel only, and the destination
-- address is then mapped with `perm` to the page of the source address, as `page_insert` maps it.
pub sys_mem_map-shares :
    (srcid srcva dstid dstva perm src dst w : ℕ) (slot : Slot) (k : Kernel)
    → is_illegal_va srcva ≡ false
    → is_illegal_va dstva ≡ false
    → envid2env srcid true k ≡ ok src k
    → envid2env dstid true k ≡ ok dst k
    → CanMap k src dst srcva dstva w slot
    → (n : Mem) × (sys_mem_map srcid srcva dstid dstva perm k ≡ ok tt (record k { memory = n }))
      × Inserted pdx_utop k.memory ((k.envs dst).pgdir) ((k.envs dst).asid) (ppn w) dstva perm n
unfolding sys_mem_map require map_found
sys_mem_map-shares srcid srcva dstid dstva perm src dst w slot k legal legal' is_src is_dst c =
    let (n, run, ins) =
      page_insert-maps pdx_utop ((k.envs dst).pgdir) ((k.envs dst).asid) dstva k.memory
        (legal_pdx dstva legal') c.dst_ok (ppn w) perm c.free_ok c.in_use c.old c.room in
    let seen =
      lookup-some pdx_utop ((k.envs src).pgdir) srcva k.memory (legal_pdx srcva legal) c.src_ok w
        slot c.found c.in_range in
    (n, rw (legal, legal', is_src, is_dst, seen, run) refl, ins)
