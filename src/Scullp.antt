-- ===== src/Scullp.antt =====
-- scullp/main.c: a device of variable length in memory, as a list of quantum sets. The device is the
-- first item of its own list. Positions and counts are not wrapped: the products of the page size,
-- the order and `qset` are taken to fit in an `int`, and positions in a `loff_t`.
pub mod Follow
pub mod Read
pub mod Stores
pub mod Write
pub mod WriteAt
pub mod Valid
pub mod Locate
pub mod ReadBack
pub mod RoundTrip
pub mod Trim
pub mod Calls
pub mod Mmap
pub mod Session
pub mod Overrun
pub mod Ioctl
pub mod Module
mod Tests
use ldd.Common.{
  ℕ, zero, suc, ◌+◌, ◌-◌, ◌*◌, ◌/◌, ◌%◌, ◌^◌, min, Bool, true, false, ◌&&◌, Option, none, some,
  List, [], ◌∷◌, ltb, leb, ◌==◌, if◌then◌else◌, slice, store, length, replicate, set, get_or, ℤ,
  pos, negsuc, ◌+ℤ◌, ◌-ℤ◌, eqb_ℤ, Ret, ok, err, efault, enomem, ebusy, erestartsys,
}
use ldd.Common.User.{UserCopy}

-- A quantum: the bytes of its pages, or `none` for NULL.
abbrev pub Quantum : Type 0
Quantum = Option (List ℕ)

-- An item of the list: `data`, an array of quanta or NULL, and `order`. Items behind the first are
-- zeroed memory, of whose fields only these two are read.
pub record Item : Type 0 where
  pub quanta : Option (List Quantum)
  pub order : ℕ

-- `struct scullp_dev`; `next` holds the items behind the first.
pub record Dev : Type 0 where
  pub first : Item
  pub next : List Item
  pub vmas : ℤ
  pub qset : ℕ
  pub size : ℕ
  pub locked : Bool

abbrev pub unlock : Dev → Dev
unlock d = record d { locked = false }

abbrev pub zeroed : Item
zeroed = record { quanta = none; order = 0 }

-- An item in front of a list that may be missing.
abbrev pub behind : Item → Option (List Item) → Option (List Item)
behind x none = none
behind x (some items) = some (x ∷ items)

-- `scullp_follow` over the items behind the first: `n` steps, with memory for `avail` more items.
-- `none` is the write through NULL by the `memset` of a failed `kmalloc`.
pub follow_next : List Item → ℕ → ℕ → Option (List Item)
follow_next items zero avail = some items
follow_next (x ∷ items) (suc n) avail = behind x (follow_next items n avail)
follow_next [] (suc n) zero = none
follow_next [] (suc n) (suc avail) = behind zeroed (follow_next [] n avail)

-- The device with its list long enough for item `n`.
pub scullp_follow : Dev → ℕ → ℕ → Option Dev
unfolding follow_next
scullp_follow d n avail = elim (follow_next d.next n avail) [
  | none ↦ none
  | some items ↦ some (record d { next = items })
]

abbrev pub item_at : List Item → ℕ → Item
item_at items n = get_or items n zeroed

abbrev pub put_first : Item → ℕ → Item → Item
put_first first zero x = x
put_first first (suc n) x = first

abbrev pub put_next : List Item → ℕ → Item → List Item
put_next next zero x = next
put_next next (suc n) x = set next n x

abbrev pub put_item : Dev → ℕ → Item → Dev
put_item d n x = record d { first = put_first d.first n x; next = put_next d.next n x }

abbrev pub item_of : Item → List Item → ℕ → Item
item_of first next zero = first
item_of first next (suc n) = item_at next n

abbrev pub get_item : Dev → ℕ → Item
get_item d n = item_of d.first d.next n

abbrev pub get_quantum : Option (List Quantum) → ℕ → Quantum
get_quantum none s = none
get_quantum (some qs) s = get_or qs s none

-- A call's return value, what reached the caller's buffer, the file position, and the device.
pub record Done : Type 0 where
  pub ret : Ret
  pub bytes : List ℕ
  pub f_pos : ℕ
  pub dev : Dev

module _ (page_size : ℕ) where
  -- `PAGE_SIZE << order`.
  abbrev pub pages : ℕ → ℕ
  pages order = page_size * 2 ^ order

  abbrev pub quantum : Dev → ℕ
  quantum d = pages d.first.order

  abbrev pub itemsize : Dev → ℕ
  itemsize d = quantum d * d.qset

  -- `if(count > quantum - q_pos) count = quantum - q_pos;`. A negative difference is a huge `size_t`.
  abbrev pub clip : Dev → ℕ → ℕ → ℕ
  clip d q_pos count = if leb q_pos (quantum d) then min count (quantum d - q_pos) else count

  module _ (u : UserCopy) where
    -- The end of `scullp_read`, from the quantum that the position lies in. `none` is an access
    -- outside of the quantum's memory.
    read_quantum : Dev → ℕ → ℕ → ℕ → Quantum → Option Done
    read_quantum d f_pos count q_pos none =
        some (record { ret = ok 0; bytes = []; f_pos = f_pos; dev = unlock d })
    read_quantum d f_pos count q_pos (some b) =
        let n = clip d q_pos count in
        let (left, bytes) = u.to_user (slice b q_pos n) in
        if ltb (length b) (q_pos + n)
        then none
        else (if left == 0
            then some (record { ret = ok n; bytes = bytes; f_pos = f_pos + n; dev = unlock d })
            else some (record { ret = err efault; bytes = bytes; f_pos = f_pos; dev = unlock d }))

    pub scullp_read : Dev → ℕ → ℕ → Bool → ℕ → Option Done
    unfolding read_quantum scullp_follow
    scullp_read d f_pos count interrupted avail =
        let wanted = if ltb d.size (f_pos + count) then d.size - f_pos else count in
        let item = f_pos / itemsize d in
        let rest = f_pos % itemsize d in
        let s_pos = rest / quantum d in
        let q_pos = rest % quantum d in
        if interrupted
        then some (record { ret = err erestartsys; bytes = []; f_pos = f_pos; dev = d })
        else (if ltb d.size f_pos
            then some (record { ret = ok 0; bytes = []; f_pos = f_pos; dev = unlock d })
            else elim (scullp_follow d item avail) [
              | none ↦ none
              | some e ↦
                  read_quantum e f_pos wanted q_pos (get_quantum (get_item e item).quanta s_pos)
            ])

    -- The end of `scullp_write`, once the quantum `b` is there.
    write_quantum : Dev → ℕ → List ℕ → ℕ → ℕ → ℕ → ℕ → List Quantum → List ℕ → Option Done
    write_quantum d f_pos buf count item s_pos q_pos qs b =
        let n = clip d q_pos count in
        let (left, landed) = u.from_user buf n in
        let x = record (get_item d item) {
          quanta = some (set qs s_pos (some (store b q_pos landed)));
        } in
        let e = unlock (put_item d item x) in
        if ltb (length b) (q_pos + n)
        then none
        else (if left == 0
            then some (record {
              ret = ok n;
              bytes = [];
              f_pos = f_pos + n;
              dev = record e { size = if ltb d.size (f_pos + n) then f_pos + n else d.size };
            })
            else some (record { ret = err efault; bytes = []; f_pos = f_pos; dev = e }))

    -- The two allocations of `scullp_write`; `array_ok` and `pages_ok` are their outcomes.
    allocate_quantum : Dev → ℕ → List ℕ → ℕ → ℕ → ℕ → ℕ → Bool → List Quantum → Option Done
    unfolding write_quantum
    allocate_quantum d f_pos buf count item s_pos q_pos pages_ok qs = elim (get_or qs s_pos none) [
      | some b ↦ write_quantum d f_pos buf count item s_pos q_pos qs b
      | none ↦
          if pages_ok
          then write_quantum d f_pos buf count item s_pos q_pos qs
              (replicate (pages (get_item d item).order) 0)
          else some (record {
            ret = err enomem;
            bytes = [];
            f_pos = f_pos;
            dev = unlock (put_item d item (record (get_item d item) { quanta = some qs }));
          })
    ]

    pub allocate_array : Dev → ℕ → List ℕ → ℕ → ℕ → ℕ → ℕ → Bool → Bool → Option Done
    unfolding allocate_quantum
    allocate_array d f_pos buf count item s_pos q_pos array_ok pages_ok =
        elim (get_item d item).quanta [
          | some qs ↦ allocate_quantum d f_pos buf count item s_pos q_pos pages_ok qs
          | none ↦
              if array_ok
              then allocate_quantum d f_pos buf count item s_pos q_pos pages_ok
                  (replicate d.qset none)
              else some (record { ret = err enomem; bytes = []; f_pos = f_pos; dev = unlock d })
        ]

    -- `q_pos` is `rest / quantum`, as the source has it.
    pub scullp_write : Dev → ℕ → List ℕ → ℕ → Bool → ℕ → Bool → Bool → Option Done
    unfolding allocate_array scullp_follow
    scullp_write d f_pos buf count interrupted avail array_ok pages_ok =
        let item = f_pos / itemsize d in
        let rest = f_pos % itemsize d in
        let s_pos = rest / quantum d in
        let q_pos = rest / quantum d in
        if interrupted
        then some (record { ret = err erestartsys; bytes = []; f_pos = f_pos; dev = d })
        else elim (scullp_follow d item avail) [
          | none ↦ none
          | some e ↦ allocate_array e f_pos buf count item s_pos q_pos array_ok pages_ok
        ]
