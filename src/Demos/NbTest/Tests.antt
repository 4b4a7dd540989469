-- ===== src/Demos/NbTest/Tests.antt =====
-- nbtest.c between two pipes, and with a write that takes one byte.
use ldd.Common.{ℕ, ◌≡◌, refl, false, List, [], ◌∷◌, ◌++◌, none, some, pos, arith, take, append-nil}
use ldd.Common.User.{mapped}
use ldd.Pipe.{Pipe}
use ldd.Demos.NbTest.{nbtest, Calls, done, some_bytes, some_put}
use ldd.Demos.NbTest.Copies.{Copied, lost, nbtest-Copied}
use ldd.Demos.NbTest.Pipes.{Ends, pipes}

-- Bytes 8 and 9 in a pipe, round the end of its buffer, and a pipe with room for one byte.
abbrev full : Pipe
full = record {
  buffer = some (9 ∷ 7 ∷ 7 ∷ 8 ∷ []);
  end = 4;
  buffersize = 4;
  rp = 3;
  wp = 1;
  nreaders = pos 1;
  nwriters = pos 1;
  async_queue = [];
  locked = false;
  inq_wakes = 0;
  outq_wakes = 0;
  sigios = 0;
}

abbrev narrow : Pipe
narrow = record full { buffer = some (7 ∷ 7 ∷ []); end = 2; buffersize = 2; rp = 0; wp = 0 }

abbrev between : Ends
between = record {
  input = full;
  output = narrow;
  input_idle = record { valid = omega arith; free = refl };
  output_idle = record { valid = omega arith; free = refl };
}

nbtest-Copied_example :
    Copied
      (pipes mapped)
      between
      (nbtest (pipes mapped) 2 between).1
      (lost (pipes mapped) 2 between)
nbtest-Copied_example = nbtest-Copied (pipes mapped) 2 between

-- A file that gives all it has, and one that takes a byte at a time.
abbrev one_by_one : Calls (List ℕ × List ℕ)
one_by_one = record {
  read = λ s. (done s.0, ([], s.1));
  write = λ bytes s. (done 1, (s.0, s.1 ++ take 1 bytes));
  source = λ s. s.0;
  sink = λ s. s.1;
  reads = λ s. some_bytes s.0 (append-nil s.0) refl;
  writes = λ bytes s. some_put 1 refl refl;
}

-- The second byte is lost.
nbtest_at :
    (nbtest one_by_one 2 (8 ∷ 9 ∷ [], []) ≡ (none, ([], 8 ∷ [])))
    × (lost one_by_one 2 (8 ∷ 9 ∷ [], []) ≡ 1)
unfolding nbtest lost
nbtest_at = (refl, refl)
