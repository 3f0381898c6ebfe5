-- ===== src/Kern/Load/Tests.antt =====
-- Examples for lib/elfloader.c: a mapper that notes the addresses and lengths of its calls.
use mos_volca_shell.Base.{
  ℕ, ◌+◌, ◌/◌, none, some, List, [], ◌∷◌, ◌++◌, ok, ◌>>◌, pure, ◌≡◌, refl, arith,
}
use mos_volca_shell.Kern.Load.{Mapper, Phdr, by2pg, seg_perm, elf_load_seg}
use mos_volca_shell.Kern.Load.Segment.{each_page, elf_load_seg-pages, elf_load_seg-twice}

abbrev Calls : Type 0
Calls = List (ℕ × ℕ)

abbrev note_call : Mapper Calls
note_call va offset perm src len calls = ok tt (calls ++ ((va, len) ∷ []))

abbrev program : Phdr
program = record {
  p_type = 1;
  p_offset = 4096;
  p_vaddr = 0x400000;
  p_filesz = 5000;
  p_memsz = 9000;
  p_flags = 7;
}

abbrev small_data : Phdr
small_data = record {
  p_type = 1;
  p_offset = 8192;
  p_vaddr = 0x410010;
  p_filesz = 32;
  p_memsz = 64;
  p_flags = 6;
}

elf_load_seg-pages_example :
    elf_load_seg note_call program 4096 []
    ≡ each_page note_call program 4096 ((9000 + 4095) / by2pg) 0 []
elf_load_seg-pages_example =
    elf_load_seg-pages note_call program 4096 [] refl (omega arith) (omega arith)

elf_load_seg-twice_example :
    (elf_load_seg note_call small_data 8192 []
      ≡ (note_call 0x410010 16 (seg_perm 6) (some 8192) 32
            >> (note_call 0x410030 0 (seg_perm 6) none 0 >> pure tt))
          [])
    × (0x410030 / by2pg ≡ 0x410010 / by2pg)
elf_load_seg-twice_example =
    elf_load_seg-twice note_call small_data 8192 [] (omega arith) (omega arith) (omega arith)
      (omega arith)
