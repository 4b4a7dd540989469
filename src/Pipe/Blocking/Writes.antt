-- ===== src/Pipe/Blocking/Writes.antt =====
-- scull/pipe.c: writes that may wait, whatever other processes do while the mutex is free.
use ldd.Common.{
  ℕ, zero, ◌<◌, ◌≡◌, Bool, true, false, List, [], ◌∷◌, arith, ◌==◌, inl, inr, Bool-cases, ok, err,
  eagain, erestartsys, refl,
}
use ldd.Common.User.{UserCopy}
use ldd.Pipe.{
  Pipe, Filp, Pause, Reply, returns, sleeps, lock, scull_getwritespace, write_if_room,
  scull_p_write, spacefree,
}
use ldd.Pipe.Bounds.{IsValid}
use ldd.Pipe.Write.{Appends, write_data-Appends, write_data-IsValid, write_data-unlocked}
use ldd.Pipe.Blocking.{IsIdle, AllKeep, held-IsIdle, woken-IsIdle, unlock-IsIdle, lock-IsValid}

has_room : (p : Pipe) → (spacefree p == 0) ≡ false → 0 < spacefree p
has_room p h = ground arith

is_full : (p : Pipe) → (spacefree p == 0) ≡ true → spacefree p ≡ 0
is_full p h = ground arith

abbrev no_room : Pipe → Bool
no_room p = spacefree p == 0

-- How the wait for room ends: with the mutex held and room to write, or with an error and the mutex
-- free.
data Room (filp : Filp) (r : Reply × Pipe) : Type 0 where
  room : r.0 ≡ returns (ok 0) → IsValid r.1 → 0 < spacefree r.1 → Room filp r
  would_block :
      filp.nonblock ≡ true
      → r.0 ≡ returns (err eagain)
      → IsIdle r.1
      → spacefree r.1 ≡ 0
      → Room filp r
  restarts : r.0 ≡ returns (err erestartsys) → IsIdle r.1 → Room filp r
  waits : filp.nonblock ≡ false → r.0 ≡ sleeps → IsIdle r.1 → spacefree r.1 ≡ 0 → Room filp r

scull_getwritespace-Room :
    (filp : Filp) (ws : List Pause) {p : Pipe}
    → AllKeep ws
    → IsValid p
    → Room filp (scull_getwritespace filp ws p)
unfolding scull_getwritespace
scull_getwritespace-Room filp [] {p} k v = elim (Bool-cases (no_room p)) [
  | inl e ↦ elim (Bool-cases filp.nonblock) [
    | inl n ↦ simp (e, n) (would_block n refl (unlock-IsIdle v) (is_full p e))
    | inr n ↦ simp (e, n) (waits n refl (unlock-IsIdle v) (is_full p e))
  ]
  | inr e ↦ simp e (room refl v (has_room p e))
]
scull_getwritespace-Room filp (w ∷ ws) {p} k v = elim (Bool-cases (no_room p)) [
  | inl e ↦ elim (Bool-cases filp.nonblock) [
    | inl n ↦ simp (e, n) (would_block n refl (unlock-IsIdle v) (is_full p e))
    | inr n ↦
        let taken = held-IsIdle w no_room k.0 k.1 k.2 v in
        let rest = scull_getwritespace-Room filp ws k.3 (lock-IsValid taken) in
        elim (Bool-cases w.signal) [
          | inl s ↦ simp (e, n, s) (restarts refl (woken-IsIdle w no_room k.0 k.1 v))
          | inr s ↦ elim (Bool-cases w.interrupted) [
            | inl t ↦ simp (e, n, s, t) (restarts refl taken)
            | inr t ↦ simp (e, n, s, t) rest
          ]
        ]
  ]
  | inr e ↦ simp e (room refl v (has_room p e))
]

-- How a write that may wait ends, with its reply and the device.
pub data WriteOutcome (filp : Filp) (buf : List ℕ) (count : ℕ) (r : Reply × Pipe) : Type 0 where
  -- It held the mutex on a pipe `s` with room.
  stored :
      (s : Pipe)
      → IsValid s
      → 0 < spacefree s
      → Appends s buf count r.0 r.1
      → WriteOutcome filp buf count r
  would_block :
      filp.nonblock ≡ true
      → r.0 ≡ returns (err eagain)
      → spacefree r.1 ≡ 0
      → WriteOutcome filp buf count r
  restarts : r.0 ≡ returns (err erestartsys) → WriteOutcome filp buf count r
  waits : filp.nonblock ≡ false → r.0 ≡ sleeps → spacefree r.1 ≡ 0 → WriteOutcome filp buf count r

module _ (u : UserCopy) (filp : Filp) (buf : List ℕ) (count : ℕ) where
  -- `scull_p_write` passes an error of the wait on, and writes otherwise.
  write_if_room-ends :
      (reply : Reply) (s : Pipe)
      → Room filp (reply, s)
      → let r = write_if_room u buf count (reply, s) in WriteOutcome filp buf count r × IsIdle r.1
  unfolding write_if_room
  write_if_room-ends (returns (ok zero)) s (room e v h) = (
    stored s v h (write_data-Appends u buf count v),
    record { valid = write_data-IsValid u buf count v; free = write_data-unlocked u s buf count },
  )
  write_if_room-ends _ s (room e v h) = cc
  write_if_room-ends (returns (err eagain)) s (would_block n e i f) = (would_block n refl f, i)
  write_if_room-ends _ s (would_block n e i f) = cc
  write_if_room-ends (returns (err erestartsys)) s (restarts e i) = (restarts refl, i)
  write_if_room-ends _ s (restarts e i) = cc
  write_if_room-ends sleeps s (waits n e i f) = (waits n refl f, i)
  write_if_room-ends _ s (waits n e i f) = cc

  pub scull_p_write-WriteOutcome :
      (ws : List Pause) {p : Pipe} (interrupted : Bool)
      → AllKeep ws
      → IsIdle p
      → let r = scull_p_write u p filp buf count interrupted ws in
        WriteOutcome filp buf count r × IsIdle r.1
  unfolding scull_p_write
  scull_p_write-WriteOutcome ws true k i = (restarts refl, i)
  scull_p_write-WriteOutcome ws {p} false k i =
      let (reply, s) = scull_getwritespace filp ws (lock p) in
      write_if_room-ends reply s (scull_getwritespace-Room filp ws k (lock-IsValid i))
