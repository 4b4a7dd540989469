-- ===== src/Pipe/Tests.antt =====
-- Runs of the pipe's functions on small devices, and the theorems at concrete inputs.
use ldd.Common.{
  Bool, not, ◌==◌, ℕ, ◌+◌, ◌<◌, ◌≡◌, true, false, List, [], ◌∷◌, ◌++◌, none, some, length, arith,
  refl, ◌↔◌, ok, err, pos, eagain,
}
use ldd.Common.User.{mapped}
use ldd.Common.Registry.{Registry}
use ldd.Pipe.Module.{Inits, scull_p_init, scull_p_init-Inits}
use ldd.Pipe.{
  Pipe, Filp, Pause, returns, scull_p_poll, scull_p_open, scull_p_read, scull_p_write, write_data,
  read_count, write_count,
}
use ldd.Pipe.Contents.{contents}
use ldd.Pipe.Blocking.{IsIdle}
use ldd.Pipe.Blocking.Reads.{scull_p_read-IsIdle}
use ldd.Pipe.Blocking.Writes.{scull_p_write-WriteOutcome}
use ldd.Pipe.Fifo.{Call, reads, writes, run, run-fifo}
use ldd.Pipe.Lifetime.{World, Step}
use ldd.Pipe.Lifetime
use ldd.Pipe.Poll.{scull_p_poll-nonblock, scull_p_poll_lem}

abbrev file : Filp
file = record { fmode_read = true; fmode_write = true; nonblock = true }

abbrev sleeper : Filp
sleeper = record file { nonblock = false }

-- Bytes 8 and 9, round the end of a buffer of four.
abbrev wrapped : Pipe
wrapped = record {
  buffer = some (9 ∷ 7 ∷ 7 ∷ 8 ∷ []);
  end = 4;
  buffersize = 4;
  rp = 3;
  wp = 1;
  nreaders = pos 1;
  nwriters = pos 1;
  async_queue = [];
  locked = false;
  inq_wakes = 0;
  outq_wakes = 0;
  sigios = 0;
}

-- A module just loaded.
abbrev unopened : Pipe
unopened = record wrapped {
  buffer = none;
  end = 0;
  buffersize = 0;
  rp = 0;
  wp = 0;
  nreaders = pos 0;
  nwriters = pos 0;
}

wrapped-IsIdle : IsIdle wrapped
wrapped-IsIdle = record { valid = omega arith; free = refl }

-- While a reader of the empty pipe sleeps, a writer stores one byte.
abbrev emptied : Pipe
emptied = record wrapped { rp = 1 }

abbrev writer : Pipe → Pipe
writer p = (scull_p_write mapped p file (5 ∷ []) 1 false []).1

abbrev one_pause : Pause
one_pause = record {
  before = λ p. p;
  asleep = writer;
  after = λ p. p;
  signal = false;
  interrupted = false;
}

read_in_two_parts :
    run mapped wrapped (reads file 9 false ∷ reads file 9 false ∷ reads file 9 false ∷ [])
    ≡ ([], 8 ∷ 9 ∷ [], record emptied { outq_wakes = 2 })
unfolding run scull_p_read read_count
read_in_two_parts = refl

write_stops_when_full :
    (scull_p_write mapped wrapped file (1 ∷ 2 ∷ 3 ∷ []) 3 false []).0 ≡ returns (ok 1)
unfolding scull_p_write write_data write_count
write_stops_when_full = refl

woken_reader : (scull_p_read mapped emptied sleeper 9 false (one_pause ∷ [])).1 ≡ 5 ∷ []
unfolding scull_p_read scull_p_write write_data write_count read_count
woken_reader = refl

writer-Keeps : (p : Pipe) → IsIdle p → IsIdle (writer p)
writer-Keeps p i = (scull_p_write-WriteOutcome mapped file (5 ∷ []) 1 [] false tt i).1

scull_p_read-IsIdle_example :
    IsIdle (scull_p_read mapped emptied sleeper 9 false (one_pause ∷ [])).2
scull_p_read-IsIdle_example =
    scull_p_read-IsIdle mapped sleeper 9 (one_pause ∷ []) (λ p i. i, writer-Keeps, λ p i. i, tt)
      false (record { valid = omega arith; free = refl })

abbrev calls : List Call
calls = writes file (1 ∷ 2 ∷ []) 2 false ∷ reads file 5 false ∷ reads file 1 false ∷ []

run-fifo_example :
    let (ins, outs, q) = run mapped wrapped calls in
    (outs ++ contents q ≡ contents wrapped ++ ins) × IsIdle q × (length (contents q) < q.buffersize)
run-fifo_example = run-fifo mapped calls wrapped-IsIdle

scull_p_poll_lem_example :
    let (mask, q) = scull_p_poll wrapped in
    ((mask.readable ≡ true) ↔ (0 < 2))
    × ((mask.writable ≡ true) ↔ (2 + 1 < 4))
    × (contents q ≡ 8 ∷ 9 ∷ [])
    × IsIdle q
scull_p_poll_lem_example = scull_p_poll_lem wrapped-IsIdle

scull_p_poll-nonblock_example :
    (((scull_p_poll emptied).0.readable ≡ false)
      ↔ ((scull_p_read mapped emptied file 4 false []).0 ≡ returns (err eagain)))
    × (((scull_p_poll emptied).0.writable ≡ false)
        ↔ ((scull_p_write mapped emptied file [] 4 false []).0 ≡ returns (err eagain)))
scull_p_poll-nonblock_example = scull_p_poll-nonblock mapped emptied file refl 4 []

abbrev block : List ℕ
block = 0 ∷ 0 ∷ 0 ∷ 0 ∷ []

abbrev fresh_world : World
fresh_world = record { files = []; pipe = unopened }

abbrev opened_world : World
opened_world =
    Lifetime.after_open fresh_world file (scull_p_open unopened file false (some block) 4)

abbrev busy_kernel : Registry
busy_kernel = record { regions = 3; cdevs = 5; blocks = 8 }

-- The second of three devices is refused.
abbrev but_second : ℕ → Bool
but_second i = not (i == 1)

scull_p_init-Inits_example :
    Inits 3 busy_kernel (scull_p_init true true but_second 3 none busy_kernel)
scull_p_init-Inits_example = scull_p_init-Inits true true but_second 3 busy_kernel
