-- ===== src/Short.antt =====
-- short/short.c: the parallel port. Reads and writes of the port, and the page that the interrupt
-- handlers fill with time stamps, as a list of bytes with the offsets of `short_head` and
-- `short_tail` in it. `none` is an access outside of the page, or a BUG.
pub mod Ports
pub mod Stamps
pub mod Reading
pub mod Halves
pub mod Files
pub mod Queue
pub mod Serves
pub mod Session
mod Tests
use ldd.Common.{
  ℕ, zero, suc, ◌+◌, ◌-◌, ◌*◌, ◌/◌, ◌%◌, ◌^◌, min, Bool, true, false, not, ◌&&◌, ◌||◌, Option, none,
  some, List, [], ◌∷◌, ◌++◌, map, ltb, leb, ◌==◌, if◌then◌else◌, length, take, slice, store, Ret,
  ok, err, efault, einval, enomem, erestartsys,
}
use ldd.Common.User.{UserCopy}

-- SHORT_DEFAULT, SHORT_PAUSE, SHORT_STRING, SHORT_MEMORY; what else bits 4 to 6 of a minor say.
pub data Mode : Type 0 where
  short_default short_pause short_string short_memory other : Mode

abbrev pub mode_of : ℕ → Mode
mode_of zero = short_default
mode_of (suc zero) = short_pause
mode_of (suc (suc zero)) = short_string
mode_of (suc (suc (suc zero))) = short_memory
mode_of (suc (suc (suc (suc n)))) = other

-- `mode`, with `use_mem`; `port` and `address` are the base plus bits 0 to 3 of the minor.
abbrev pub short_mode : Bool → ℕ → Mode
short_mode use_mem minor = if use_mem then short_memory else mode_of (minor / 16 % 8)

abbrev pub port_of : ℕ → ℕ → ℕ
port_of short_base minor = short_base + minor % 16

-- A call's return value, the bytes that reach the caller, the bytes that went to a port (port first),
-- and how many blocks of memory it has taken and not given back.
pub record Done : Type 0 where
  pub ret : Ret
  pub bytes : List ℕ
  pub outputs : List (ℕ × ℕ)
  pub leaked : ℕ

abbrev pub returns : Ret → Done
returns r = record { ret = r; bytes = []; outputs = []; leaked = 0 }

abbrev pub to_port : ℕ → List ℕ → List (ℕ × ℕ)
to_port port [] = []
to_port port (b ∷ bytes) = (port, b) ∷ to_port port bytes

module _ (u : UserCopy) where
  -- `inputs` are the bytes that the port yields, one for each of the `count` reads.
  pub do_short_read : Bool → ℕ → ℕ → List ℕ → Bool → Done
  do_short_read use_mem minor count inputs mem_ok =
      let kbuf = take count inputs in
      let (left, bytes) = u.to_user kbuf in
      let copied =
        if count == 0
        then returns (ok 0)
        else record (returns (if left == 0 then ok count else err efault)) { bytes = bytes } in
      if mem_ok
      then elim (short_mode use_mem minor) [
        | short_string ↦ copied
        | short_default ↦ copied
        | short_memory ↦ copied
        | short_pause ↦ returns (err einval)
        | other ↦ returns (err einval)
      ]
      else returns (err enomem)

  -- The switch of `do_short_write`, each loop over `*(ptr++)`: every byte to the same port.
  abbrev pub sent : ℕ → ℕ → List ℕ → ℕ → Mode → Done
  sent short_base minor buf count other = returns (err einval)
  sent short_base minor buf count mode = record (returns (ok count)) {
    outputs = to_port (port_of short_base minor) (u.from_user buf count).1;
  }

  pub do_short_write : ℕ → Bool → ℕ → List ℕ → ℕ → Bool → Done
  do_short_write short_base use_mem minor buf count mem_ok =
      let (left, kbuf) = u.from_user buf count in
      if mem_ok
      then (if left == 0
          then sent short_base minor buf count (short_mode use_mem minor)
          else record (returns (err efault)) { leaked = 1 })
      else returns (err enomem)

-- The bytes of `short_i_write`: 0xff and 0 in turn, from the position's parity on.
abbrev pub alternate : ℕ → ℕ → ℕ → ℕ → List (ℕ × ℕ)
alternate port odd written zero = []
alternate port odd written (suc n) =
    (port, 255 * ((written + 1 + odd) % 2)) ∷ alternate port odd (written + 1) n

pub short_i_write : ℕ → ℕ → ℕ → ℕ × List (ℕ × ℕ) × ℕ
short_i_write short_base f_pos count =
    (count, alternate short_base (f_pos % 2) 0 count, f_pos + count)

-- The lowest `w` decimal digits, and all of a number's digits, as text.
abbrev pub fixed_digits : ℕ → ℕ → List ℕ
fixed_digits zero n = []
fixed_digits (suc w) n = fixed_digits w (n / 10) ++ ((48 + n % 10) ∷ [])

abbrev pub all_digits : ℕ → ℕ → List ℕ
all_digits zero n = []
all_digits (suc fuel) n = if n == 0 then [] else all_digits fuel (n / 10) ++ ((48 + n % 10) ∷ [])

-- `%0wu`: at least `w` digits.
abbrev pub zero_padded : ℕ → ℕ → List ℕ
zero_padded w n = all_digits (n / 10 ^ w) (n / 10 ^ w) ++ fixed_digits w n

-- "%08u.%06lu\n" of the seconds, modulo 10^8, and the microseconds.
pub stamp : ℕ → ℕ → List ℕ
stamp tv_sec tv_nsec =
    zero_padded 8 (tv_sec % 100000000) ++ (46 ∷ (zero_padded 6 (tv_nsec / 1000) ++ (10 ∷ [])))

pub record Ring : Type 0 where
  pub page : List ℕ
  pub head : ℕ
  pub tail : ℕ

-- How a read ends, or that it still sleeps, and what a sleeper is woken by.
pub data Reply : Type 0 where
  replies : Ret → Reply
  asleep : Reply

pub data Wake : Type 0 where
  signal : Ring → Wake
  woken : Ring → Wake

module _ (page_size : ℕ) where
  pub short_incr_bp : ℕ → ℕ → ℕ
  short_incr_bp index delta = if leb page_size (index + delta) then 0 else index + delta

  -- `sprintf` writes the text and a NUL behind it.
  pub short_interrupt : Ring → ℕ → ℕ → Option Ring
  unfolding short_incr_bp stamp
  short_interrupt r tv_sec tv_nsec =
      let text = stamp tv_sec tv_nsec in
      let written = length text in
      if ltb page_size (r.head + written + 1)
      then none
      else (if written == 16
          then some (record r {
            page = store r.page r.head (text ++ (0 ∷ []));
            head = short_incr_bp r.head written;
          })
          else none)

  -- `value` is what the port reads as; the byte that is written to it clears the interrupting bit.
  pub short_sh_interrupt : Ring → ℕ → ℕ → ℕ → Option (Bool × List ℕ × Ring)
  unfolding short_interrupt
  short_sh_interrupt r value tv_sec tv_nsec =
      if (value / 128 % 2) == 0
      then some (false, [], r)
      else elim (short_interrupt r tv_sec tv_nsec) [
        | none ↦ none
        | some s ↦ some (true, (value % 128) ∷ [], s)
      ]

  -- The end of `short_i_read`, with something to read. `count0` is an `int`: where it is negative, the
  -- comparison with the unsigned `count` takes it for a huge number; `count < 0` is never true.
  pub take_bytes : UserCopy → Ring → ℕ → Option (Reply × List ℕ × Ring)
  unfolding short_incr_bp
  take_bytes u r count =
      let n = if leb r.tail r.head then min count (r.head - r.tail) else count in
      let (left, bytes) = u.to_user (slice r.page r.tail n) in
      if ltb page_size (r.tail + n)
      then none
      else (if left == 0
          then some (replies (ok n), bytes, record r { tail = short_incr_bp r.tail n })
          else some (replies (err efault), bytes, r))

  pub short_i_read : UserCopy → Ring → ℕ → List Wake → Option (Reply × List ℕ × Ring)
  unfolding take_bytes
  short_i_read u r count [] =
      if r.head == r.tail then some (asleep, [], r) else take_bytes u r count
  short_i_read u r count (signal s ∷ wakes) =
      if r.head == r.tail then some (replies (err erestartsys), [], s) else take_bytes u r count
  short_i_read u r count (woken s ∷ wakes) =
      let later = short_i_read u s count wakes in
      if r.head == r.tail then later else take_bytes u r count
