-- ===== src/Short/Tests.antt =====
-- Runs of the short model, with a page of 48 bytes.
use ldd.Common.{
  suc, ◌≢◌, ◌+◌, ◌<◌, ◌≡◌, refl, true, false, none, some, List, ◌++◌, [], ◌∷◌, arith, replicate,
}
use ldd.Common.User.{mapped}
use ldd.Short.Halves.{Halves, goes_on, short_do_tasklet, headline}
use ldd.Short.Halves.Loop.{print_all, stamps}
use ldd.Short.Halves.Prints.{IsIdle, caught_up, interrupts, short_do_tasklet-prints}
use ldd.Short.Halves.Ends.{entries, behind, short_do_tasklet_ends}
use ldd.Short.{
  Ring, short_sh_interrupt, take_bytes, short_incr_bp, short_interrupt, short_i_read, stamp, woken,
}
use ldd.Short.Queue.{IsFilling}
use ldd.Short.Session.{Event, interrupt, shared, reads, stamp_count, stamped, run, run-Serves}
use ldd.Short.Serves.{ServesUntilFull}
use ldd.Short.Stamps.{IsAligned, Stamped, short_interrupt_lem}
use ldd.Short.Reading.{Reads, short_i_read-Reads}

abbrev filling : Ring
filling = record { page = replicate 48 0; head = 16; tail = 0 }

filling-IsAligned : IsAligned 48 filling
filling-IsAligned = record {
  page_sixteen = refl;
  head_sixteen = refl;
  head_in = omega arith;
  whole = refl;
}

short_interrupt_lem_example :
    ((16 + 16 < 48)
      → Stamped 48 1234567890 123456789 filling (short_interrupt 48 filling 1234567890 123456789))
    × ((16 + 16 ≡ 48) → short_interrupt 48 filling 1234567890 123456789 ≡ none)
short_interrupt_lem_example =
    short_interrupt_lem 48 filling 1234567890 123456789 (omega arith) filling-IsAligned

-- "34567890.123456\n".
stamp_at :
    stamp 1234567890 123456789
    ≡ 51 ∷ 52 ∷ 53 ∷ 54 ∷ 55 ∷ 56 ∷ 57 ∷ 48 ∷ 46 ∷ 49 ∷ 50 ∷ 51 ∷ 52 ∷ 53 ∷ 54 ∷ 10 ∷ []
unfolding stamp
stamp_at = refl

abbrev drained : Ring
drained = record filling { tail = 16 }

short_i_read-Reads_example :
    Reads 48 mapped 10 drained
      (woken filling ∷ [])
      (short_i_read 48 mapped drained 10 (woken filling ∷ []))
short_i_read-Reads_example =
    short_i_read-Reads 48 mapped 10 drained (woken filling ∷ []) (omega arith) (omega arith, tt)

-- A ring of 4 times, at its last place.
abbrev idle : Halves
idle = record {
  ring = record { page = replicate 96 0; head = 0; tail = 0 };
  tv_data = replicate 4 (0, 0);
  tv_head = 3;
  tv_tail = 3;
  short_wq_count = 0;
  scheduled = false;
}

idle-IsIdle : IsIdle 4 idle
idle-IsIdle = record { caught_up = refl; in_ring = omega arith; whole = refl; no_interrupt = refl }

short_do_tasklet-prints_example :
    short_do_tasklet 96 4 (interrupts 4 ((true, (7, 8000)) ∷ (false, (9, 10000)) ∷ []) idle)
    ≡ caught_up
        (interrupts 4 ((true, (7, 8000)) ∷ (false, (9, 10000)) ∷ []) idle)
        (print_all 96 idle.ring (headline 2 ∷ stamps ((7, 8000) ∷ (9, 10000) ∷ [])))
short_do_tasklet-prints_example =
    short_do_tasklet-prints 96 4 true (7, 8000) ((false, (9, 10000)) ∷ []) idle idle-IsIdle
      (omega arith)

short_do_tasklet_ends_example :
    (short_do_tasklet 96 4 idle ≢ goes_on)
    × (short_do_tasklet 96 4 idle
        ≡ caught_up idle (
            print_all 96 idle.ring
              (headline 0 ∷ stamps (entries 4 idle.tv_data 3 (suc (behind 4 3 3))))))
short_do_tasklet_ends_example = short_do_tasklet_ends 96 4 idle (omega arith) (omega arith)

abbrev fresh : Ring
fresh = record { page = replicate 48 0; head = 0; tail = 0 }

fresh-IsFilling : IsFilling 48 fresh
fresh-IsFilling = record {
  aligned = record {
    page_sixteen = refl;
    head_sixteen = refl;
    head_in = omega arith;
    whole = refl;
  };
  ordered = omega arith;
}

-- A stamp, a read of 20 bytes that finds 16, an interrupt of another device, and a stamp.
abbrev events : List Event
events =
    interrupt 1234567890 123456789
    ∷ reads 20
    ∷ shared 5 7 8000
    ∷ shared 133 1234567890 123456789
    ∷ []

run-Serves_example :
    ServesUntilFull 48 fresh (stamp_count events) (stamped events) (run 48 mapped fresh events)
run-Serves_example =
    run-Serves 48 mapped events fresh fresh-IsFilling
      (omega arith, (omega arith, (omega arith, tt)))

-- The read has delivered the first stamp, and the second waits behind it.
run_at :
    run 48 mapped fresh events
    ≡ some (
      stamp 1234567890 123456789,
      record {
        page = stamp 1234567890 123456789 ++ (stamp 1234567890 123456789 ++ replicate 16 0);
        head = 32;
        tail = 16;
      },
    )
unfolding run short_interrupt short_sh_interrupt short_i_read take_bytes short_incr_bp stamp
run_at = refl
