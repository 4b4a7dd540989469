-- ===== src/Short/Halves.antt =====
-- short/short.c: the interrupt handlers that are split in two. The top half stores the time in the
-- ring tv_data; the bottom half prints the times of the ring to the page that readers consume.
pub mod Loop
pub mod Prints
pub mod Ends
use ldd.Common.{
  ℕ, zero, suc, ◌+◌, ◌-◌, Bool, true, false, Option, none, some, List, [], ◌∷◌, ◌++◌, ltb, ◌==◌,
  if◌then◌else◌, length, replicate, set, get_or, store,
}
use ldd.Short.{Ring, all_digits, stamp, short_incr_bp}

-- A `timespec64`: seconds and nanoseconds.
abbrev pub Time : Type 0
Time = ℕ × ℕ

-- The ring of times, the indices of `tv_head` and `tv_tail`, `short_wq_count`, and whether the bottom
-- half is scheduled (`schedule_work`, `tasklet_schedule`).
pub record Halves : Type 0 where
  pub ring : Ring
  pub tv_data : List Time
  pub tv_head : ℕ
  pub tv_tail : ℕ
  pub short_wq_count : ℕ
  pub scheduled : Bool

-- `%6i` of a number that is not negative: padded with blanks.
abbrev pub decimal : ℕ → List ℕ
decimal n = if n == 0 then b'0' ∷ [] else all_digits n n

abbrev pub blank_padded : ℕ → ℕ → List ℕ
blank_padded w n = replicate (w - length (decimal n)) 32 ++ decimal n

-- "bottom half after %6i\n".
abbrev pub bottom_half_after : List ℕ
bottom_half_after =
    b'b' ∷ b'o' ∷ b't' ∷ b't' ∷ b'o' ∷ b'm' ∷ 32 ∷ b'h' ∷ b'a' ∷ b'l' ∷ b'f' ∷ 32 ∷ b'a' ∷ b'f'
    ∷ b't' ∷ b'e' ∷ b'r' ∷ 32 ∷ []

pub headline : ℕ → List ℕ
headline savecount = bottom_half_after ++ (blank_padded 6 savecount ++ (10 ∷ []))

-- The bottom half is done, or has written outside of the page, or its loop has not ended.
pub data Outcome : Type 0 where
  done : Halves → Outcome
  faults : Outcome
  goes_on : Outcome

module _ (nr_timeval : ℕ) where
  pub short_incr_tv : ℕ → ℕ
  short_incr_tv tvp = if tvp == nr_timeval - 1 then 0 else tvp + 1

  -- The top halves store the time and schedule the bottom half, which is a work item or a tasklet.
  pub short_wq_interrupt : Halves → Time → Halves
  unfolding short_incr_tv
  short_wq_interrupt h now = record h {
    tv_data = set h.tv_data h.tv_head now;
    tv_head = short_incr_tv h.tv_head;
    scheduled = true;
    short_wq_count = h.short_wq_count + 1;
  }

  pub short_tl_interrupt : Halves → Time → Halves
  unfolding short_incr_tv
  short_tl_interrupt h now = record h {
    tv_data = set h.tv_data h.tv_head now;
    tv_head = short_incr_tv h.tv_head;
    scheduled = true;
    short_wq_count = h.short_wq_count + 1;
  }

module _ (page_size : ℕ) where
  -- `sprintf` to `short_head`, with its NUL, and the step of `short_head` behind the text.
  pub print : Ring → List ℕ → Option Ring
  unfolding short_incr_bp
  print r text =
      if ltb page_size (r.head + length text + 1)
      then none
      else some (record r {
        page = store r.page r.head (text ++ (0 ∷ []));
        head = short_incr_bp page_size r.head (length text);
      })

-- The entry that `tv_tail` points to.
abbrev pub time_at : List Time → ℕ → Time
time_at tv_data i = get_or tv_data i (0, 0)

module _ (page_size nr_timeval : ℕ) where
  -- The do-while loop, with at most `fuel` rounds.
  pub print_times : ℕ → Halves → Outcome
  print_times zero h = goes_on
  print_times (suc fuel) h =
      let t = time_at h.tv_data h.tv_tail in
      elim (print page_size h.ring (stamp t.0 t.1)) [
        | none ↦ faults
        | some r ↦
            let next = record h { ring = r; tv_tail = short_incr_tv nr_timeval h.tv_tail } in
            let rest = print_times fuel next in
            if next.tv_tail == next.tv_head then done next else rest
      ]

  -- It runs when it is scheduled. The ring's length bounds the rounds of the loop.
  pub short_do_tasklet : Halves → Outcome
  unfolding print_times
  short_do_tasklet h = elim (print page_size h.ring (headline h.short_wq_count)) [
    | none ↦ faults
    | some r ↦ print_times nr_timeval (record h { ring = r; short_wq_count = 0; scheduled = false })
  ]
