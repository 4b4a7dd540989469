-- ===== src/Pipe/Blocking/Reads.antt =====
-- scull/pipe.c: reads that may wait, whatever other processes do while the mutex is free.
use ldd.Common.{
  ℕ, ◌≡◌, ◌≢◌, Bool, true, false, List, [], ◌∷◌, arith, if◌then◌else◌, inl, inr, Bool-cases, err,
  eagain, erestartsys, ◌&&◌,
}
use ldd.Common.User.{UserCopy}
use ldd.Pipe.{
  Pipe, Filp, Pause, Reply, returns, sleeps, unlock, is_empty, read_data, read_loop, scull_p_read,
}
use ldd.Pipe.Bounds.{IsValid}
use ldd.Pipe.Contents.{contents}
use ldd.Pipe.Read.{TakesOldest, read_data-IsValid, read_data-unlocked}
use ldd.Pipe.Blocking.{
  IsIdle, AllKeep, held-IsIdle, woken-IsIdle, unlock-IsIdle, lock-IsValid, ne_of_test,
}

-- How a read that may wait ends, with its reply, the bytes delivered and the device.
pub data ReadOutcome (filp : Filp) (count : ℕ) (r : Reply × List ℕ × Pipe) : Type 0 where
  -- It held the mutex on a pipe `s` that was not empty.
  copied :
      (s : Pipe)
      → IsValid s
      → s.rp ≢ s.wp
      → TakesOldest s count r.0 r.1 r.2
      → ReadOutcome filp count r
  would_block :
      filp.nonblock ≡ true
      → r.0 ≡ returns (err eagain)
      → r.1 ≡ []
      → contents r.2 ≡ []
      → ReadOutcome filp count r
  restarts : r.0 ≡ returns (err erestartsys) → r.1 ≡ [] → ReadOutcome filp count r
  waits :
      filp.nonblock ≡ false → r.0 ≡ sleeps → r.1 ≡ [] → contents r.2 ≡ [] → ReadOutcome filp count r

-- A choice between two ends that leave the pipe idle, over the triples that a read returns.
if-IsIdle :
    (b : Bool) (r s : Reply × List ℕ × Pipe)
    → IsIdle r.2
    → IsIdle s.2
    → IsIdle (if b then r else s).2
if-IsIdle true r s i j = i
if-IsIdle false r s i j = j

module _ (u : UserCopy) (filp : Filp) (count : ℕ) where
  read_data-IsIdle : {p : Pipe} → IsValid p → p.rp ≢ p.wp → IsIdle (read_data u count p).2
  read_data-IsIdle {p} v ne = record {
    valid = read_data-IsValid u count v ne;
    free = read_data-unlocked u p count;
  }

  read_loop-IsIdle :
      (ws : List Pause) {p : Pipe} → AllKeep ws → IsValid p → IsIdle (read_loop u filp count ws p).2
  unfolding read_loop
  read_loop-IsIdle [] {p} k v = elim (Bool-cases (is_empty p)) [
    | inl e ↦ simp e (ground (arith, unlock-IsIdle v))
    | inr e ↦ simp e (read_data-IsIdle v (ne_of_test p e))
  ]
  read_loop-IsIdle (w ∷ ws) {p} k v = elim (Bool-cases (is_empty p)) [
    | inl e ↦
        let rest = read_loop-IsIdle ws k.3 (lock-IsValid (held-IsIdle w is_empty k.0 k.1 k.2 v)) in
        let woken = woken-IsIdle w is_empty k.0 k.1 v in
        let taken = held-IsIdle w is_empty k.0 k.1 k.2 v in
        simp e (
          if-IsIdle filp.nonblock _ _ (unlock-IsIdle v) (
            if-IsIdle (is_empty (w.before (unlock p)) && w.signal) _ _ woken
              (if-IsIdle w.interrupted _ _ taken rest)))
    | inr e ↦ simp e (read_data-IsIdle v (ne_of_test p e))
  ]

module _ (u : UserCopy) (filp : Filp) (count : ℕ) (ws : List Pause) {p : Pipe}
    (k : AllKeep ws) where
  -- It leaves the pipe valid, with the mutex free, on every way out.
  pub scull_p_read-IsIdle :
      (interrupted : Bool) → IsIdle p → IsIdle (scull_p_read u p filp count interrupted ws).2
  unfolding scull_p_read
  scull_p_read-IsIdle true i = i
  scull_p_read-IsIdle false i = read_loop-IsIdle u filp count ws k (lock-IsValid i)
