-- ===== src/Scull.antt =====
-- scull_char_device/main.c: the bare scull device, a list of quantum sets. scull_follow is declared
-- there and defined nowhere in the repository: a parameter, with what the comments say of it.
-- `none` as the result of a call is an access outside of an array or a block, or a division by 0.
-- Positions and counts are not wrapped at the machine's width.
pub mod Place
pub mod Bytes
pub mod Changes
pub mod Effects
pub mod Store
pub mod Write
pub mod Give
pub mod Read
pub mod RoundTrip
pub mod Log
pub mod Session
pub mod Module
mod Tests
use ldd.Common.{
  ℕ, zero, suc, ◌+◌, ◌-◌, ◌*◌, ◌/◌, ◌%◌, ◌<◌, ◌≡◌, min, Bool, true, false, Option, none, some, List,
  [], ◌∷◌, ltb, leb, ◌==◌, if◌then◌else◌, slice, store, length, replicate, set, get_or, get_elem?,
  Ret, ok, err, efault, enomem, erestartsys,
}
use ldd.Common.User.{UserCopy}

-- A quantum: the bytes of its block, or `none` for NULL.
abbrev pub Quantum : Type 0
Quantum = Option (List ℕ)

-- `struct scull_qset`: its array of quanta, or `none` for NULL.
abbrev pub QSet : Type 0
QSet = Option (List Quantum)

-- `struct scull_dev`; `sets` is the list that `data` points to.
pub record Dev : Type 0 where
  pub sets : List QSet
  pub quantum : ℕ
  pub qset : ℕ
  pub size : ℕ
  pub access_key : ℕ
  pub locked : Bool

abbrev pub unlock : Dev → Dev
unlock d = record d { locked = false }

abbrev pub set_at : Dev → ℕ → QSet
set_at d i = get_or d.sets i none

abbrev pub put_set : Dev → ℕ → QSet → Dev
put_set d i x = record d { sets = set d.sets i x }

-- `scull_follow`, which follows the list up to an item: whether it found it (else NULL), and the
-- device then. It may append items, which have no array; the others stay, and are found.
pub record Follow : Type 0 where
  pub follow : Dev → ℕ → Bool × Dev
  pub grown : (d : Dev) (n : ℕ) → (follow d n).1 ≡ record d { sets = (follow d n).1.sets }
  pub same : (d : Dev) (n i : ℕ) → set_at (follow d n).1 i ≡ set_at d i
  pub reaches : (d : Dev) (n : ℕ) → (follow d n).0 ≡ true → n < length (follow d n).1.sets
  pub finds : (d : Dev) (n : ℕ) → n < length d.sets → (follow d n).0 ≡ true

-- A call's return value, what reached the caller's buffer, the file position, and the device.
pub record Done : Type 0 where
  pub ret : Ret
  pub bytes : List ℕ
  pub f_pos : ℕ
  pub dev : Dev

abbrev pub itemsize : Dev → ℕ
itemsize d = d.quantum * d.qset

-- `item`, `s_pos` and `q_pos`.
abbrev pub item_of : Dev → ℕ → ℕ
item_of d f_pos = f_pos / itemsize d

abbrev pub s_pos_of : Dev → ℕ → ℕ
s_pos_of d f_pos = f_pos % itemsize d / d.quantum

abbrev pub q_pos_of : Dev → ℕ → ℕ
q_pos_of d f_pos = f_pos % itemsize d % d.quantum

-- `(filp->f_flags & O_ACCMODE) == O_WRONLY`.
abbrev pub write_only : ℕ → Bool
write_only f_flags = (f_flags % 4) == 1

-- `next` is never assigned: after an item the loop goes on at whatever it holds, which no run of the
-- program determines (`none`). The list must be empty for the loop to end.
pub scull_trim : Dev → ℕ → ℕ → Option Dev
scull_trim d scull_quantum scull_qset = elim d.sets [
  | x ∷ sets ↦ none
  | [] ↦ some (record d { sets = []; size = 0; quantum = scull_quantum; qset = scull_qset })
]

pub scull_open : Dev → ℕ → ℕ → ℕ → Option (Ret × Dev)
unfolding scull_trim
scull_open d f_flags scull_quantum scull_qset =
    if write_only f_flags
    then elim (scull_trim d scull_quantum scull_qset) [ none ↦ none | some e ↦ some (ok 0, e) ]
    else some (ok 0, d)

pub scull_release : Dev → Ret × Dev
scull_release d = (ok 0, d)

abbrev pub stops : Ret → ℕ → Dev → Option Done
stops r f_pos d = some (record { ret = r; bytes = []; f_pos = f_pos; dev = unlock d })

-- `*f_pos + count > dev->size`.
abbrev pub up_to_size : Dev → ℕ → ℕ → ℕ
up_to_size d f_pos count = if ltb d.size (f_pos + count) then d.size - f_pos else count

module _ (u : UserCopy) (f : Follow) where
  -- The end of `scull_read`, from the block of its quantum.
  read_block : Dev → ℕ → ℕ → List ℕ → Option Done
  read_block d f_pos count b =
      let q_pos = q_pos_of d f_pos in
      let n = min count (d.quantum - q_pos) in
      let (left, bytes) = u.to_user (slice b q_pos n) in
      if ltb (length b) (q_pos + n)
      then none
      else (if left == 0
          then some (record { ret = ok n; bytes = bytes; f_pos = f_pos + n; dev = unlock d })
          else some (record { ret = err efault; bytes = bytes; f_pos = f_pos; dev = unlock d }))

  -- `!dptr->data || !dptr->data[s_pos]`.
  pub read_set : Dev → ℕ → ℕ → QSet → Option Done
  unfolding read_block
  read_set d f_pos count none = stops (ok 0) f_pos d
  read_set d f_pos count (some qs) = elim (get_elem? qs (s_pos_of d f_pos)) [
    | none ↦ none
    | some q ↦ elim q [ none ↦ stops (ok 0) f_pos d | some b ↦ read_block d f_pos count b ]
  ]

  pub scull_read : Dev → ℕ → ℕ → Bool → Option Done
  unfolding read_set
  scull_read d f_pos count interrupted =
      let (found, e) = f.follow d (item_of d f_pos) in
      if interrupted
      then some (record { ret = err erestartsys; bytes = []; f_pos = f_pos; dev = d })
      else (if leb d.size f_pos
          then stops (ok 0) f_pos d
          else (if itemsize d == 0
              then none
              else (if found
                  then read_set e f_pos (up_to_size d f_pos count) (set_at e (item_of d f_pos))
                  else stops (ok 0) f_pos e)))

  -- The end of `scull_write`, with the block of its quantum.
  write_block : Dev → ℕ → List ℕ → ℕ → List Quantum → List ℕ → Option Done
  write_block d f_pos buf count qs b =
      let q_pos = q_pos_of d f_pos in
      let n = min count (d.quantum - q_pos) in
      let (left, landed) = u.from_user buf n in
      let e = unlock (
        put_set d (item_of d f_pos)
          (some (set qs (s_pos_of d f_pos) (some (store b q_pos landed))))) in
      if ltb (length b) (q_pos + n)
      then none
      else (if left == 0
          then some (record {
            ret = ok n;
            bytes = [];
            f_pos = f_pos + n;
            dev = record e { size = if ltb d.size (f_pos + n) then f_pos + n else d.size };
          })
          else some (record { ret = err efault; bytes = []; f_pos = f_pos; dev = e }))

  -- `fresh` is what `kmalloc(quantum)` returns: NULL, or a block with whatever it holds.
  write_quantum : Dev → ℕ → List ℕ → ℕ → Quantum → List Quantum → Option Done
  unfolding write_block
  write_quantum d f_pos buf count fresh qs = elim (get_elem? qs (s_pos_of d f_pos)) [
    | none ↦ none
    | some q ↦ elim q [
      | some b ↦ write_block d f_pos buf count qs b
      | none ↦ elim fresh [
        | none ↦ stops (err enomem) f_pos (put_set d (item_of d f_pos) (some qs))
        | some b ↦ write_block d f_pos buf count qs b
      ]
    ]
  ]

  -- The array of the item; a new one is cleared.
  pub write_set : Dev → ℕ → List ℕ → ℕ → Bool → Quantum → QSet → Option Done
  unfolding write_quantum
  write_set d f_pos buf count array_ok fresh (some qs) = write_quantum d f_pos buf count fresh qs
  write_set d f_pos buf count array_ok fresh none =
      if array_ok
      then write_quantum d f_pos buf count fresh (replicate d.qset none)
      else stops (err enomem) f_pos d

  pub scull_write : Dev → ℕ → List ℕ → ℕ → Bool → Bool → Quantum → Option Done
  unfolding write_set
  scull_write d f_pos buf count interrupted array_ok fresh =
      let (found, e) = f.follow d (item_of d f_pos) in
      if interrupted
      then some (record { ret = err erestartsys; bytes = []; f_pos = f_pos; dev = d })
      else (if itemsize d == 0
          then none
          else (if found
              then write_set e f_pos buf count array_ok fresh (set_at e (item_of d f_pos))
              else stops (err enomem) f_pos e))
