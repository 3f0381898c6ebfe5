-- ===== src/User/Fd/Tests.antt =====
-- A descriptor on a file of five bytes, for user/lib/fd.c and file_read of user/lib/file.c.
use mos_volca_shell.Base.{
  ℕ, ◌+◌, ◌-◌, ◌<◌, ◌≤◌, inl, ◌==◌, true, false, [], ◌∷◌, ◌≡◌, refl, arith, leb, if◌then◌else◌, ◌⊎◌,
  ok, err, max_open, pure,
}
use mos_volca_shell.User.Fd.{
  Table, Dev, dev_lookup, readn, max_fd, fd_alloc, fd2data, index2data, fd2num, num2fd,
}
use mos_volca_shell.User.Fd.Device.{Program, byte, data_of, file_read, HoldsFile, file_read-FileDev}
use mos_volca_shell.User.Fd.Alloc.{AllUsed, fd_alloc-least}
use mos_volca_shell.User.Fd.Read.{Readable, ReadTo, readn-reads}

abbrev letters : ℕ → ℕ
letters i = 97 + i

-- The file is mapped at the data address of descriptor 2.
abbrev program : Program
program = record {
  memory = λ x. if leb 0x60800000 x then letters (x - 0x60800000) else 0;
  size_of = λ fd. if fd == 2 then 5 else 0;
}

abbrev file : Dev Program
file = record {
  dev_id = 102;
  dev_read = file_read;
  dev_write = λ fd buf n off. pure 0;
  dev_close = λ fd. pure tt;
}

abbrev opened_file : Table Program
opened_file = record {
  used = λ i. if leb i 2 then true else false;
  fd = λ i. record { fd_dev_id = 102; fd_offset = 1; fd_omode = 0 };
  rest = program;
}

file_content : (x : ℕ) → program.memory (0x60800000 + x) ≡ letters x
file_content x = grind arith

program-HoldsFile : HoldsFile letters 5 2 program
unfolding fd2data index2data fd2num num2fd
program-HoldsFile = record { same_size = refl; mapped = λ x lt. file_content x }

below_data : (4096 ≤ data_of 2) ⊎ (data_of 2 + 5 ≤ 0)
unfolding fd2data index2data fd2num num2fd
below_data = inl (omega arith)

opened_file-Readable : Readable (file ∷ []) file 2 opened_file
unfolding dev_lookup
opened_file-Readable = record { in_range = refl; in_use = refl; device = λ t. refl; mode = refl }

readn-reads_example :
    (t : Table Program) × (readn (file ∷ []) 2 100 10 opened_file ≡ ok 4 t)
    × ReadTo byte letters 2 100 4 opened_file t
readn-reads_example =
    readn-reads byte letters 5 0 4096 (HoldsFile letters 5 2) (file ∷ []) file 2
      (file_read-FileDev letters 5 0 4096 2 below_data file refl) 100 10 opened_file
      opened_file-Readable (record { above = omega arith; below = omega arith; int = omega arith })
      program-HoldsFile (omega arith)

fd_alloc-least_example :
    ((fd : ℕ) × (fd_alloc opened_file ≡ ok fd opened_file)
      × (fd < max_fd - 1)
      × (opened_file.used fd ≡ false)
      × AllUsed 0 fd opened_file)
    ⊎ ((fd_alloc opened_file ≡ err max_open opened_file) × AllUsed 0 (max_fd - 1) opened_file)
fd_alloc-least_example = fd_alloc-least opened_file
