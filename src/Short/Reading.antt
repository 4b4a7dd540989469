-- ===== src/Short/Reading.antt =====
-- short/short.c, short_i_read: what a read of the time stamps returns.
use ldd.Common.{
  ℕ, ◌+◌, ◌-◌, ◌≤◌, ◌<◌, min, ◌≡◌, ◌≢◌, refl, true, false, Option, none, some, List, [], ◌∷◌, arith,
  ltb, leb, ◌==◌, ==_iff, Bool-cases, slice, leb→le, leb→lt, inl, inr, ok, err, efault, erestartsys,
}
use ldd.Common.User.{UserCopy}
use ldd.Short.{
  Ring, Reply, Wake, short_incr_bp, take_bytes, short_i_read, replies, asleep, signal, woken,
}

-- A state that the read finds: the first, or one after a wake-up.
pub data Seen : Ring → List Wake → Ring → Type 0 where
  now : (r : Ring) (wakes : List Wake) → Seen r wakes r
  later : (r s : Ring) (wakes : List Wake) (x : Ring) → Seen s wakes x → Seen r (woken s ∷ wakes) x

-- The wake-up by a signal, behind wake-ups without one, and the state it finds.
pub data Signalled : List Wake → Ring → Type 0 where
  here : (s : Ring) (wakes : List Wake) → Signalled (signal s ∷ wakes) s
  behind :
      (r : Ring) (wakes : List Wake) (s : Ring) → Signalled wakes s → Signalled (woken r ∷ wakes) s

-- The head is inside the page whenever the read looks.
abbrev pub HeadsIn : ℕ → List Wake → Type 0
HeadsIn page_size [] = Unit {0}
HeadsIn page_size (signal s ∷ wakes) = Unit {0}
HeadsIn page_size (woken s ∷ wakes) = (s.head ≤ page_size) × HeadsIn page_size wakes

module _ (page_size : ℕ) (u : UserCopy) (count : ℕ) where
  pub data Reads (r : Ring) (wakes : List Wake) (o : Option (Reply × List ℕ × Ring)) : Type 0 where
    taken :
        (s : Ring)
        → Seen r wakes s
        → s.tail < s.head
        → o
          ≡ some (
            replies (ok (min count (s.head - s.tail))),
            slice s.page s.tail (min count (s.head - s.tail)),
            record s { tail = short_incr_bp page_size s.tail (min count (s.head - s.tail)) },
          )
        → Reads r wakes o
    faulted :
        (s : Ring)
        → Seen r wakes s
        → s.tail < s.head
        → (u.to_user (slice s.page s.tail (min count (s.head - s.tail)))).0 ≢ 0
        → (bytes : List ℕ) → o ≡ some (replies (err efault), bytes, s)
        → Reads r wakes o
    -- The head has come round to the start of the page.
    wrapped :
        (s : Ring)
        → Seen r wakes s
        → s.head < s.tail
        → (page_size < s.tail + count → o ≡ none)
        → (s.tail + count ≤ page_size
            → (u.to_user (slice s.page s.tail count)).0 ≡ 0
            → o
              ≡ some (
                replies (ok count),
                slice s.page s.tail count,
                record s { tail = short_incr_bp page_size s.tail count },
              ))
        → Reads r wakes o
    restarts :
        (s : Ring)
        → Signalled wakes s
        → o ≡ some (replies (err erestartsys), [], s)
        → Reads r wakes o
    sleeps :
        (s : Ring) → Seen r wakes s → s.head ≡ s.tail → o ≡ some (asleep, [], s) → Reads r wakes o

  take_bytes-Reads :
      (r : Ring) (wakes : List Wake)
      → (r.head == r.tail) ≡ false
      → r.head ≤ page_size
      → Reads r wakes (take_bytes page_size u r count)
  unfolding take_bytes
  take_bytes-Reads r wakes ne h = elim (Bool-cases (leb r.tail r.head)) [
    | inr e ↦
        wrapped r (Seen.now r wakes) (leb→lt r.tail r.head e)
          (λ beyond.
            let over : ltb page_size (r.tail + count) ≡ true = ground arith in simp (e, over))
          (λ inside z.
            let fits : ltb page_size (r.tail + count) ≡ false = ground arith in
            let none_left : ((u.to_user (slice r.page r.tail count)).0 == 0) ≡ true =
              (==_iff (u.to_user (slice r.page r.tail count)).0 0).1 z in
            simp (e, fits, none_left, u.to_user_done (slice r.page r.tail count) z))
    | inl e ↦
        let n = min count (r.head - r.tail) in
        let le = leb→le r.tail r.head e in
        let apart : r.tail < r.head = ground arith in
        let fits : ltb page_size (r.tail + n) ≡ false = ground arith in
        elim (Bool-cases ((u.to_user (slice r.page r.tail n)).0 == 0)) [
          | inl z ↦
              let done =
                u.to_user_done (slice r.page r.tail n)
                  ((==_iff (u.to_user (slice r.page r.tail n)).0 0).0 z) in
              taken r (Seen.now r wakes) apart (simp (e, fits, z, done))
          | inr z ↦
              faulted r (Seen.now r wakes) apart
                (λ k. let one = (==_iff (u.to_user (slice r.page r.tail n)).0 0).1 k in cc)
                (u.to_user (slice r.page r.tail n)).1 (simp (e, fits, z))
        ]
  ]

  later-Reads :
      (r s : Ring) (wakes : List Wake) (o : Option (Reply × List ℕ × Ring))
      → Reads s wakes o
      → Reads r (woken s ∷ wakes) o
  later-Reads r s wakes o (taken x seen lt e) = taken x (Seen.later r s wakes x seen) lt e
  later-Reads r s wakes o (faulted x seen lt bad bytes e) =
      faulted x (Seen.later r s wakes x seen) lt bad bytes e
  later-Reads r s wakes o (wrapped x seen lt b w) = wrapped x (Seen.later r s wakes x seen) lt b w
  later-Reads r s wakes o (restarts x by e) = restarts x (Signalled.behind s wakes x by) e
  later-Reads r s wakes o (sleeps x seen eq e) = sleeps x (Seen.later r s wakes x seen) eq e

  -- A read waits while there is nothing to read, and restarts after a signal. Where the head is behind
  -- the tail, it returns the oldest bytes, as many as are there and asked for, and moves the tail
  -- behind them, or answers EFAULT and takes none. Where the head has come round, it does not stop at
  -- the end of the page: it takes as many bytes as were asked for, and where these go beyond the page
  -- it reads outside of it.
  pub short_i_read-Reads :
      (r : Ring) (wakes : List Wake)
      → r.head ≤ page_size
      → HeadsIn page_size wakes
      → Reads r wakes (short_i_read page_size u r count wakes)
  unfolding short_i_read
  short_i_read-Reads r [] h hs = elim (Bool-cases (r.head == r.tail)) [
    | inl e ↦ simp e (sleeps r (Seen.now r []) ((==_iff r.head r.tail).0 e) refl)
    | inr e ↦ simp e (take_bytes-Reads r [] e h)
  ]
  short_i_read-Reads r (signal s ∷ wakes) h hs = elim (Bool-cases (r.head == r.tail)) [
    | inl e ↦ simp e (restarts s (Signalled.here s wakes) refl)
    | inr e ↦ simp e (take_bytes-Reads r (signal s ∷ wakes) e h)
  ]
  short_i_read-Reads r (woken s ∷ wakes) h (k, hs) = elim (Bool-cases (r.head == r.tail)) [
    | inl e ↦ simp e (later-Reads r s wakes _ (short_i_read-Reads s wakes k hs))
    | inr e ↦ simp e (take_bytes-Reads r (woken s ∷ wakes) e h)
  ]
