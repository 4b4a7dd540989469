-- ===== src/Pipe.antt =====
-- scull/pipe.c: the pipe device, a circular buffer behind a mutex, with readers and writers that
-- may sleep. Pointers into `dev->buffer` are offsets from it. `locked` is set and cleared by the
-- mutex calls; each wake-up call and each SIGIO is counted.
pub mod Bounds
pub mod Contents
pub mod Read
pub mod Write
pub mod Blocking
pub mod Fifo
pub mod Openings
pub mod Lifetime
pub mod Poll
pub mod Module
mod Tests
use ldd.Common.{
  ℕ, zero, ◌+◌, ◌-◌, ◌%◌, min, Bool, true, false, ◌&&◌, Option, none, some, List, [], ◌∷◌, ltb, leb,
  ◌==◌, if◌then◌else◌, slice, store, ℤ, pos, negsuc, ◌+ℤ◌, ◌-ℤ◌, eqb_ℤ, Ret, ok, err, eagain,
  efault, enomem, erestartsys,
}
use ldd.Common.User.{UserCopy}

-- `struct scull_pipe`. `buffer` is `none` for NULL.
pub record Pipe : Type 0 where
  pub buffer : Option (List ℕ)
  pub end : ℕ
  pub buffersize : ℕ
  pub rp : ℕ
  pub wp : ℕ
  pub nreaders : ℤ
  pub nwriters : ℤ
  pub async_queue : List ℕ
  pub locked : Bool
  pub inq_wakes : ℕ
  pub outq_wakes : ℕ
  pub sigios : ℕ

-- What the code reads of `struct file`: the FMODE_READ and FMODE_WRITE bits of `f_mode`, and the
-- O_NONBLOCK bit of `f_flags`.
pub record Filp : Type 0 where
  pub fmode_read : Bool
  pub fmode_write : Bool
  pub nonblock : Bool

-- A call returns, or still sleeps when the given history of pauses ends.
pub data Reply : Type 0 where
  returns : Ret → Reply
  sleeps : Reply

-- One round of a wait: what other processes do to the device up to the test of the condition, while
-- this process sleeps, and until the mutex is taken again; and whether a signal ended the sleep or
-- the wait for the mutex.
pub record Pause : Type 0 where
  pub before : Pipe → Pipe
  pub asleep : Pipe → Pipe
  pub after : Pipe → Pipe
  pub signal : Bool
  pub interrupted : Bool

abbrev pub lock : Pipe → Pipe
lock p = record p { locked = true }

abbrev pub unlock : Pipe → Pipe
unlock p = record p { locked = false }

-- The bytes at `dev->buffer`.
abbrev pub mem : Pipe → List ℕ
mem p = elim p.buffer [ none ↦ [] | some b ↦ b ]

abbrev pub is_empty : Pipe → Bool
is_empty p = p.rp == p.wp

-- `kmalloc` runs only for a buffer that is not there; its answer is `fresh`.
abbrev pub allocate : Option (List ℕ) → Option (List ℕ) → Option (List ℕ)
allocate (some b) fresh = some b
allocate none fresh = fresh

abbrev pub bump : Bool → ℤ → ℤ
bump mode n = if mode then n +ℤ pos 1 else n

abbrev pub drop_one : Bool → ℤ → ℤ
drop_one mode n = if mode then n -ℤ pos 1 else n

-- `interrupted`: the answer of `mutex_lock_interruptible`; `size`: `scull_p_buffer`. The result of
-- `nonseekable_open` is 0.
pub scull_p_open : Pipe → Filp → Bool → Option (List ℕ) → ℕ → Ret × Pipe
scull_p_open p filp interrupted fresh size =
    if interrupted then (err erestartsys, p) else elim (allocate p.buffer fresh) [
      | none ↦ (err enomem, unlock p)
      | some b ↦ (
        ok 0,
        record p {
          buffer = some b;
          buffersize = size;
          end = size;
          rp = 0;
          wp = 0;
          nreaders = bump filp.fmode_read p.nreaders;
          nwriters = bump filp.fmode_write p.nwriters;
          locked = false;
        },
      )
    ]

-- `fasync_helper` is the kernel's: an argument, of `fd`, the mode and the queue.
pub scull_p_fasync : (ℤ → ℕ → List ℕ → Ret × List ℕ) → ℤ → ℕ → Pipe → Ret × Pipe
scull_p_fasync helper fd mode p =
    let (r, queue) = helper fd mode p.async_queue in (r, record p { async_queue = queue })

-- `kfree` of the buffer when neither readers nor writers are left.
free_unused : Pipe → Pipe
free_unused p = if eqb_ℤ (p.nreaders +ℤ p.nwriters) (pos 0) then record p { buffer = none } else p

close_modes : Pipe → Filp → Pipe
close_modes p filp = record p {
  nreaders = drop_one filp.fmode_read p.nreaders;
  nwriters = drop_one filp.fmode_write p.nwriters;
}

pub scull_p_release : (ℤ → ℕ → List ℕ → Ret × List ℕ) → Pipe → Filp → Ret × Pipe
unfolding scull_p_fasync free_unused close_modes
scull_p_release helper p filp =
    (ok 0, unlock (free_unused (close_modes (scull_p_fasync helper (negsuc 0) 0 p).1 filp)))

-- `int` arithmetic; `Bounds` shows that the last subtraction does not go below zero.
pub spacefree : Pipe → ℕ
spacefree p =
    if p.rp == p.wp then p.buffersize - 1 else (p.rp + p.buffersize - p.wp) % p.buffersize - 1

pub read_count : Pipe → ℕ → ℕ
read_count p count = if ltb p.rp p.wp then min count (p.wp - p.rp) else min count (p.end - p.rp)

pub write_count : Pipe → ℕ → ℕ
unfolding spacefree
write_count p count =
    if leb p.rp p.wp
    then min (min count (spacefree p)) (p.end - p.wp)
    else min (min count (spacefree p)) (p.rp - p.wp - 1)

-- `ptr += count`, back to the start of the buffer at its end.
abbrev pub advance : ℕ → ℕ → ℕ → ℕ
advance end ptr count = if (ptr + count) == end then 0 else ptr + count

module _ (u : UserCopy) where
  -- The rest of `scull_p_read` after its loop: the reply, the bytes that reach the caller, and the
  -- device.
  pub read_data : ℕ → Pipe → Reply × List ℕ × Pipe
  read_data count p =
      let n = read_count p count in
      let (left, bytes) = u.to_user (slice (mem p) p.rp n) in
      if left == 0
      then (
        returns (ok n),
        bytes,
        record p { rp = advance p.end p.rp n; locked = false; outq_wakes = p.outq_wakes + 1 },
      )
      else (returns (err efault), bytes, unlock p)

  read_loop : Filp → ℕ → List Pause → Pipe → Reply × List ℕ × Pipe
  unfolding read_data
  read_loop filp count [] p =
      if is_empty p
      then (if filp.nonblock then (returns (err eagain), [], unlock p) else (sleeps, [], unlock p))
      else read_data count p
  read_loop filp count (w ∷ ws) p =
      let tested = w.before (unlock p) in
      let woken = if is_empty tested then w.asleep tested else tested in
      let held = w.after woken in
      let rest = read_loop filp count ws (lock held) in
      if is_empty p
      then (if filp.nonblock
          then (returns (err eagain), [], unlock p)
          else (if is_empty tested && w.signal
              then (returns (err erestartsys), [], woken)
              else (if w.interrupted then (returns (err erestartsys), [], held) else rest)))
      else read_data count p

  pub scull_p_read : Pipe → Filp → ℕ → Bool → List Pause → Reply × List ℕ × Pipe
  unfolding read_loop
  scull_p_read p filp count interrupted ws =
      if interrupted then (returns (err erestartsys), [], p) else read_loop filp count ws (lock p)

  -- The rest of `scull_p_write` after `scull_getwritespace`.
  pub write_data : List ℕ → ℕ → Pipe → Reply × Pipe
  write_data buf count p =
      let n = write_count p count in
      let (left, landed) = u.from_user buf n in
      let stored : Option (List ℕ) = elim p.buffer [
        | none ↦ none
        | some b ↦ some (store b p.wp landed)
      ] in
      if left == 0
      then (
        returns (ok n),
        record p {
          buffer = stored;
          wp = advance p.end p.wp n;
          locked = false;
          inq_wakes = p.inq_wakes + 1;
          sigios = elim p.async_queue [ [] ↦ p.sigios | _ ∷ _ ↦ p.sigios + 1 ];
        },
      )
      else (returns (err efault), record p { buffer = stored; locked = false })

-- `scull_getwritespace`: with `returns (ok 0)` the mutex is held and there is room.
pub scull_getwritespace : Filp → List Pause → Pipe → Reply × Pipe
unfolding spacefree
scull_getwritespace filp [] p =
    if spacefree p == 0
    then (if filp.nonblock then (returns (err eagain), unlock p) else (sleeps, unlock p))
    else (returns (ok 0), p)
scull_getwritespace filp (w ∷ ws) p =
    let tested = w.before (unlock p) in
    let woken = if spacefree tested == 0 then w.asleep tested else tested in
    let held = w.after woken in
    let rest = scull_getwritespace filp ws (lock held) in
    if spacefree p == 0
    then (if filp.nonblock
        then (returns (err eagain), unlock p)
        else (if w.signal
            then (returns (err erestartsys), woken)
            else (if w.interrupted then (returns (err erestartsys), held) else rest)))
    else (returns (ok 0), p)

module _ (u : UserCopy) where
  -- `if(result) return result;`
  pub write_if_room : List ℕ → ℕ → Reply × Pipe → Reply × Pipe
  write_if_room buf count (returns (ok zero), p) = write_data u buf count p
  write_if_room buf count (reply, p) = (reply, p)

  pub scull_p_write : Pipe → Filp → List ℕ → ℕ → Bool → List Pause → Reply × Pipe
  unfolding write_if_room scull_getwritespace
  scull_p_write p filp buf count interrupted ws =
      if interrupted
      then (returns (err erestartsys), p)
      else write_if_room buf count (scull_getwritespace filp ws (lock p))

-- The mask's two pairs of bits: POLLIN | POLLRDNORM and POLLOUT | POLLWRNORM.
pub record PollMask : Type 0 where
  pub readable : Bool
  pub writable : Bool

pub scull_p_poll : Pipe → PollMask × Pipe
scull_p_poll p = (
  record {
    readable = if is_empty p then false else true;
    writable = if spacefree p == 0 then false else true;
  },
  unlock p,
)
