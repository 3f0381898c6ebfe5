-- ===== src/User/Tests.antt =====
-- Pipes for user/lib/pipe.c that hold bytes behind the end of their buffer.
use mos_volca_shell.Base.{ℕ, ◌+◌, true, false, [], ◌++◌, ◌≡◌, refl, arith}
use mos_volca_shell.User.Pipe.{
  Ends, read_check, read_done, write_check, write_done, opened, reader_alone, writer_alone,
}
use mos_volca_shell.User.Pipe.Stored.{stored}
use mos_volca_shell.User.Pipe.Alone.{reader_alone-reads}
use mos_volca_shell.User.Pipe.Through.{bytes_of, write_then_read}

abbrev two_bytes : ℕ → ℕ
two_bytes i = 65 + i

-- The positions are such that the bytes go round the end of the buffer.
abbrev called : Ends
called = record opened {
  pipe = record { rpos = 31; wpos = 31; buf = λ i. 0 };
  writer = write_check two_bytes 2 0;
  reader = read_check 2 0;
}

write_then_read_example :
    ((writer_alone true false 5 called).writer ≡ write_done 2)
    × ((reader_alone false false 5 (writer_alone true false 5 called)).reader ≡ read_done 2)
    × ((reader_alone false false 5 (writer_alone true false 5 called)).got
        ≡ [] ++ bytes_of two_bytes 0 2)
write_then_read_example =
    write_then_read true two_bytes false false 2 called refl refl refl (omega arith) (omega arith)

abbrev filled : Ends
filled = record opened {
  pipe = record { rpos = 30; wpos = 33; buf = λ i. i };
  reader = read_check 3 0;
}

reader_alone-reads_example :
    ((reader_alone false false 7 filled).reader ≡ read_done 3)
    × ((reader_alone false false 7 filled).got ≡ [] ++ stored (λ i. i) 30 3)
reader_alone-reads_example =
    reader_alone-reads false false 3 3 0 filled refl refl (omega arith) (omega arith)
