-- ===== src/Access.antt =====
-- scull/access.c: the devices that differ from the bare one in who may open them: one file at a time
-- (scullsingle), one user at a time (sculluid, scullwuid), a device for each terminal (scullpriv).
-- scull_trim is declared in scull/scull.h and defined outside of that directory: a parameter.
pub mod OneFile
pub mod OneUser
pub mod Waiting
pub mod Clones
pub mod Module
mod Tests
use ldd.Common.{
  ℕ, zero, suc, ◌+◌, ◌%◌, Bool, true, false, not, ◌&&◌, ◌||◌, Option, none, some, List, [], ◌∷◌,
  ◌==◌, if◌then◌else◌, ℤ, pos, ◌+ℤ◌, ◌-ℤ◌, eqb_ℤ, Ret, ok, err, ebusy, eagain, einval, enomem,
  erestartsys,
}

-- `(filp->f_flags & O_ACCMODE) == O_WRONLY`.
abbrev pub write_only : ℕ → Bool
write_only f_flags = (f_flags % 4) == 1

-- Of the calling process: current_uid().val, current_euid().val and capable(CAP_DAC_OVERRIDE).
pub record Cred : Type 0 where
  pub uid : ℕ
  pub euid : ℕ
  pub capable : Bool

-- `scull_s_available` and `scull_s_device`.
pub record Single (D : Type 0) : Type 0 where
  pub available : ℤ
  pub dev : D

-- `scull_u_count`, `scull_u_owner` and `scull_u_device`, and the same of `scull_w_`.
pub record Owned (D : Type 0) : Type 0 where
  pub count : ℤ
  pub owner : ℕ
  pub dev : D

-- How an open that may sleep ends, or that it still sleeps.
pub data Opened : Type 0 where
  returns : Ret → Opened
  asleep : Opened

-- What a sleeper finds when it tests again: a signal, or the count, the owner and the device that
-- the others have left.
pub data Wake (D : Type 0) : Type 0 where
  signal : Wake D
  woken : Owned D → Wake D

pub record Clone (D : Type 0) : Type 0 where
  pub key : ℕ
  pub dev : D

module _ {D : Type 0} where
  -- `atomic_dec_and_test` and `atomic_inc`: each is one step of the processor.
  pub dec_and_test : Single D → Bool × Single D
  dec_and_test s =
      (eqb_ℤ (s.available -ℤ pos 1) (pos 0), record s { available = s.available -ℤ pos 1 })

  pub inc : Single D → Single D
  inc s = record s { available = s.available +ℤ pos 1 }

  pub scull_s_release : Single D → Ret × Single D
  unfolding inc
  scull_s_release s = (ok 0, inc s)

  -- The test of `scull_u_open`.
  abbrev pub refused : Owned D → Cred → Bool
  refused s c =
      not (eqb_ℤ s.count (pos 0))
      && not (s.owner == c.uid)
      && not (s.owner == c.euid)
      && not c.capable

  pub scull_u_release : Owned D → Ret × Owned D
  scull_u_release s = (ok 0, record s { count = s.count -ℤ pos 1 })

  pub scull_w_available : Owned D → Cred → Bool
  scull_w_available s c =
      eqb_ℤ s.count (pos 0) || (s.owner == c.uid) || (s.owner == c.euid) || c.capable

  -- Whether the sleepers are woken, besides the return value.
  pub scull_w_release : Owned D → Ret × Bool × Owned D
  scull_w_release s =
      let temp = s.count -ℤ pos 1 in (ok 0, eqb_ℤ temp (pos 0), record s { count = temp })

  pub lookup : List (Clone D) → ℕ → Option D
  lookup [] key = none
  lookup (x ∷ items) key = if x.key == key then some x.dev else lookup items key

  -- The first item with the key gets a new device: an assignment through the pointer to it.
  pub assign : List (Clone D) → ℕ → D → List (Clone D)
  assign [] key dev = []
  assign (x ∷ items) key dev =
      let rest = assign items key dev in
      if x.key == key then record x { dev = dev } ∷ items else x ∷ rest

module _ {D : Type 0} (scull_trim : D → D) where
  -- The part of the bare device's open that all share.
  abbrev pub trim_if_written : ℕ → D → D
  trim_if_written f_flags dev = if write_only f_flags then scull_trim dev else dev

  pub scull_s_open : Single D → ℕ → Ret × Single D
  unfolding dec_and_test inc
  scull_s_open s f_flags =
      let (won, t) = dec_and_test s in
      if won then (ok 0, record t { dev = trim_if_written f_flags t.dev }) else (err ebusy, inc t)

  pub scull_u_open : Owned D → Cred → ℕ → Ret × Owned D
  scull_u_open s c f_flags = if refused s c then (err ebusy, s) else (
    ok 0,
    record {
      count = s.count +ℤ pos 1;
      owner = if eqb_ℤ s.count (pos 0) then c.uid else s.owner;
      dev = trim_if_written f_flags s.dev;
    },
  )

  -- With the lock held; `wait_event_interruptible` goes on sleeping until the device is available.
  pub scull_w_open : Owned D → Cred → ℕ → Bool → List (Wake D) → Opened × Owned D
  unfolding scull_w_available
  scull_w_open s c f_flags nonblock [] =
      if scull_w_available s c
      then (returns (ok 0), record s { dev = trim_if_written f_flags s.dev })
      else (if nonblock then (returns (err eagain), s) else (asleep, s))
  scull_w_open s c f_flags nonblock (signal ∷ wakes) =
      if scull_w_available s c
      then (returns (ok 0), record s { dev = trim_if_written f_flags s.dev })
      else (if nonblock then (returns (err eagain), s) else (returns (err erestartsys), s))
  scull_w_open s c f_flags nonblock (woken t ∷ wakes) =
      let later = scull_w_open t c f_flags nonblock wakes in
      if scull_w_available s c
      then (returns (ok 0), record s { dev = trim_if_written f_flags s.dev })
      else (if nonblock then (returns (err eagain), s) else later)

  -- `blank` is the zeroed memory of a new item; `mem_ok` is the outcome of its `kmalloc`. The device
  -- that is returned is that of `key` in the list.
  pub scull_c_lookfor_device : D → List (Clone D) → ℕ → Bool → Option D × List (Clone D)
  unfolding lookup
  scull_c_lookfor_device blank items key mem_ok = elim (lookup items key) [
    | some dev ↦ (some dev, items)
    | none ↦
        if mem_ok
        then (some (scull_trim blank), record { key = key; dev = scull_trim blank } ∷ items)
        else (none, items)
  ]

  -- The rest of `scull_c_open`, with what was found.
  abbrev pub use_clone : Option D × List (Clone D) → ℕ → ℕ → Ret × List (Clone D)
  use_clone (none, items) key f_flags = (err enomem, items)
  use_clone (some dev, items) key f_flags =
      (ok 0, if write_only f_flags then assign items key (scull_trim dev) else items)

  pub scull_c_open : D → List (Clone D) → Option ℕ → ℕ → Bool → Ret × List (Clone D)
  unfolding scull_c_lookfor_device assign
  scull_c_open blank items none f_flags mem_ok = (err einval, items)
  scull_c_open blank items (some key) f_flags mem_ok =
      use_clone (scull_c_lookfor_device blank items key mem_ok) key f_flags
