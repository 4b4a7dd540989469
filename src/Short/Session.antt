-- ===== src/Short/Session.antt =====
-- short/short.c, the interrupt handlers and the reads of the time stamps, one after the other: the page
-- as a queue of bytes, until it is full.
use ldd.Common.{ℕ, ◌+◌, ◌/◌, ◌%◌, ◌<◌, Option, none, some, List, [], ◌∷◌, ◌++◌, ◌==◌, if◌then◌else◌}
use ldd.Common.User.{UserCopy}
use ldd.Short.{Ring, short_interrupt, short_sh_interrupt, short_i_read, stamp}
use ldd.Short.Queue.{delivered, IsFilling}
use ldd.Short.Serves.{ServesUntilFull, nothing-Serves, stamp-Serves, shared-Serves, read-Serves}

-- An interrupt with its time, one on a shared line with what the port reads as, and a read that does
-- not wait.
pub data Event : Type 0 where
  interrupt : ℕ → ℕ → Event
  shared : ℕ → ℕ → ℕ → Event
  reads : ℕ → Event

-- The number of time stamps that the handlers write, and their text.
abbrev pub stamp_count : List Event → ℕ
stamp_count [] = 0
stamp_count (interrupt tv_sec tv_nsec ∷ es) = 1 + stamp_count es
stamp_count (shared value tv_sec tv_nsec ∷ es) =
    if (value / 128 % 2) == 0 then stamp_count es else 1 + stamp_count es
stamp_count (reads count ∷ es) = stamp_count es

abbrev pub stamped : List Event → List ℕ
stamped [] = []
stamped (interrupt tv_sec tv_nsec ∷ es) = stamp tv_sec tv_nsec ++ stamped es
stamped (shared value tv_sec tv_nsec ∷ es) =
    if (value / 128 % 2) == 0 then stamped es else stamp tv_sec tv_nsec ++ stamped es
stamped (reads count ∷ es) = stamped es

-- The clock's nanoseconds are less than a second.
abbrev pub IsTimed : List Event → Type 0
IsTimed [] = Unit {0}
IsTimed (interrupt tv_sec tv_nsec ∷ es) = (tv_nsec < 1000000000) × IsTimed es
IsTimed (shared value tv_sec tv_nsec ∷ es) = (tv_nsec < 1000000000) × IsTimed es
IsTimed (reads count ∷ es) = IsTimed es

module _ (page_size : ℕ) (u : UserCopy) where
  -- The bytes delivered, and the page; `none` where a call leaves the page.
  unfoldable pub run : Ring → List Event → Option (List ℕ × Ring)
  run r [] = some ([], r)
  run r (interrupt tv_sec tv_nsec ∷ es) = elim (short_interrupt page_size r tv_sec tv_nsec) [
    | none ↦ none
    | some s ↦ run s es
  ]
  run r (shared value tv_sec tv_nsec ∷ es) =
      elim (short_sh_interrupt page_size r value tv_sec tv_nsec) [
        | none ↦ none
        | some (handled, outputs, s) ↦ run s es
      ]
  run r (reads count ∷ es) = elim (short_i_read page_size u r count []) [
    | none ↦ none
    | some (reply, bytes, s) ↦ elim (run s es) [
      | none ↦ none
      | some (outs, end) ↦ some (delivered reply bytes ++ outs, end)
    ]
  ]

  -- From a page of a multiple of 16 bytes whose head is at a multiple of 16 and has not come round,
  -- with clock times whose nanoseconds are less than a second, interrupts and reads that do not wait
  -- in any order: while the stamps leave a place of the page free, every call ends inside the page,
  -- and the bytes that the reads deliver, followed by those that still wait, are the ones that waited
  -- and then the stamps, in the order of the interrupts, none lost and none twice. Where they do not,
  -- a call leaves the page.
  pub run-Serves :
      (es : List Event) (r : Ring)
      → IsFilling page_size r
      → IsTimed es
      → ServesUntilFull page_size r (stamp_count es) (stamped es) (run r es)
  unfolding run
  run-Serves [] r f t = nothing-Serves page_size r f
  run-Serves (interrupt tv_sec tv_nsec ∷ es) r f (h, t) =
      stamp-Serves page_size r tv_sec tv_nsec (stamp_count es) (stamped es) (λ s. run s es) f h
        (λ s g. run-Serves es s g t)
  run-Serves (shared value tv_sec tv_nsec ∷ es) r f (h, t) =
      shared-Serves page_size r value tv_sec tv_nsec (stamp_count es) (stamped es) (λ s. run s es) f
        h (λ s g. run-Serves es s g t)
  run-Serves (reads count ∷ es) r f t =
      read-Serves page_size u r count (stamp_count es) (stamped es) (λ s. run s es) f
        (λ s g. run-Serves es s g t)
