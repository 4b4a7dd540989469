-- ===== src/Pipe/Blocking.antt =====
-- scull/pipe.c: what a process that waits may assume of the others while the mutex is free.
pub mod Reads
pub mod Writes
use ldd.Common.{
  ℕ, zero, suc, ◌+◌, ◌-◌, ◌%◌, ◌≤◌, ◌<◌, ◌≡◌, ◌≢◌, Bool, true, false, List, [], ◌∷◌, ◌++◌, Option,
  none, some, length, arith, ltb, leb, ◌==◌, if◌then◌else◌, slice, store, length-append,
  length-slice, sym, ap, ◌∙◌, ◌⊎◌, inl, inr, min, slice-append, append_assoc, append-nil,
  Bool-cases, Ret, ok, err, efault, eagain, erestartsys, leb→le, leb→lt, ==_iff, refl, take,
  slice-zero, ◌&&◌,
}
use ldd.Common.User.{UserCopy}
use ldd.Pipe.{
  Pipe, Filp, Pause, Reply, returns, sleeps, mem, lock, unlock, is_empty, read_data, read_loop,
  scull_p_read, scull_getwritespace, write_if_room, scull_p_write, write_data, spacefree,
}
use ldd.Pipe.Bounds.{IsValid, used}
use ldd.Pipe.Contents.{window, contents}
use ldd.Pipe.Read.{TakesOldest, read_data-TakesOldest, read_data-IsValid, read_data-unlocked}
use ldd.Pipe.Write.{Appends, write_data-Appends, write_data-IsValid, write_data-unlocked}

-- A valid pipe whose mutex nobody holds.
pub record IsIdle (p : Pipe) : Type 0 where
  pub valid : IsValid p
  pub free : p.locked ≡ false

abbrev pub Keeps : (Pipe → Pipe) → Type 0
Keeps f = (p : Pipe) → IsIdle p → IsIdle (f p)

-- What other processes do in a history of pauses leaves the pipe valid and the mutex free.
abbrev pub AllKeep : List Pause → Type 0
AllKeep [] = Unit {0}
AllKeep (w ∷ ws) = Keeps w.before × Keeps w.asleep × Keeps w.after × AllKeep ws

abbrev pub woken_by : Pause → Bool → Pipe → Pipe
woken_by w must_sleep p = if must_sleep then w.asleep p else p

pub woken_by-Keeps : (w : Pause) (b : Bool) → Keeps w.asleep → Keeps (woken_by w b)
woken_by-Keeps w true k p i = k p i
woken_by-Keeps w false k p i = i

pub unlock-IsIdle : {p : Pipe} → IsValid p → IsIdle (unlock p)
unlock-IsIdle v = record { valid = ground arith; free = refl }

pub lock-IsValid : {p : Pipe} → IsIdle p → IsValid (lock p)
lock-IsValid i = let v = i.valid in ground arith

pub ne_of_test : (p : Pipe) → is_empty p ≡ false → p.rp ≢ p.wp
ne_of_test p h = ground arith

pub contents_empty : (p : Pipe) → is_empty p ≡ true → contents p ≡ []
contents_empty p h = ground (arith, slice-zero (mem p) p.rp, gap)
  where
    gap : p.rp ≡ p.wp → p.wp - p.rp ≡ 0
    gap e = omega arith

-- The device when the process that waits has taken the mutex again.
abbrev pub held : Pause → (Pipe → Bool) → Pipe → Pipe
held w must_sleep p =
    let tested = w.before (unlock p) in w.after (woken_by w (must_sleep tested) tested)

pub held-IsIdle :
    (w : Pause) (must_sleep : Pipe → Bool) {p : Pipe}
    → Keeps w.before
    → Keeps w.asleep
    → Keeps w.after
    → IsValid p
    → IsIdle (held w must_sleep p)
held-IsIdle w must_sleep {p} b a f v =
    f _ (woken_by-Keeps w (must_sleep (w.before (unlock p))) a _ (b _ (unlock-IsIdle v)))

pub woken-IsIdle :
    (w : Pause) (must_sleep : Pipe → Bool) {p : Pipe}
    → Keeps w.before
    → Keeps w.asleep
    → IsValid p
    → IsIdle (woken_by w (must_sleep (w.before (unlock p))) (w.before (unlock p)))
woken-IsIdle w must_sleep {p} b a v =
    woken_by-Keeps w (must_sleep (w.before (unlock p))) a _ (b _ (unlock-IsIdle v))
