-- ===== src/Pipe/Tests.antt =====
-- Runs of a pipe whose bytes go round the end of the page.
use linux_0_11_learning.Base.{ℕ, ◌≡◌, refl, none, some, List, [], ◌∷◌, arith}
use linux_0_11_learning.Pipe.{Pipe, Read, sleeps, Write, wrote, read_pipe, write_pipe, copy_in}
use linux_0_11_learning.Pipe.Fifo.{IsPipe}
use linux_0_11_learning.Pipe.Reading.{ReadOut, read_pipe-ReadOut}
use linux_0_11_learning.Pipe.Open.{Entry, Table}
use linux_0_11_learning.Pipe.Writing.{WriteIn, write_pipe-WriteIn}

abbrev empty_pipe : Pipe
empty_pipe = record { head = 4094; tail = 4094; i_count = 2; page = λ i. 0 }

abbrev hello : List ℕ
hello = 104 ∷ 101 ∷ 108 ∷ 108 ∷ 111 ∷ []

abbrev filled : Pipe
filled = record empty_pipe {
  head = 3;
  page = copy_in (copy_in (λ i. 0) 4094 (104 ∷ 101 ∷ [])) 0 (108 ∷ 108 ∷ 111 ∷ []);
}

write_pipe-run : write_pipe hello empty_pipe ≡ some (wrote 5 filled)
unfolding write_pipe
write_pipe-run = refl

-- The reader asks for more, and sleeps while the writer is there.
read_pipe-run : read_pipe 7 filled ≡ some (sleeps hello 2 (record filled { tail = 3 }))
unfolding read_pipe copy_in
read_pipe-run = refl

filled-IsPipe : IsPipe filled
filled-IsPipe = omega arith

read_pipe-ReadOut_example : (r : Read) × (read_pipe 3 filled ≡ some r) × ReadOut 3 filled r
read_pipe-ReadOut_example = read_pipe-ReadOut 3 filled filled-IsPipe

write_pipe-WriteIn_example :
    (w : Write) × (write_pipe hello filled ≡ some w) × WriteIn hello filled w
write_pipe-WriteIn_example = write_pipe-WriteIn hello filled filled-IsPipe

abbrev unused : Entry
unused = record { f_mode = 0; f_count = 0; f_inode = none; f_pos = 0 }

abbrev table : Table
table = record {
  filp = some 0 ∷ none ∷ some 0 ∷ none ∷ [];
  file_table = record unused { f_count = 2 } ∷ unused ∷ unused ∷ [];
}
