-- ===== src/Demos/NbTest.antt =====
-- nbtest.c: a program that copies its standard input to its standard output with calls that do not
-- wait. The calls are the system's: an interface, which Pipes fills with two pipes of scull/pipe.c.
pub mod Copies
pub mod Pipes
mod Tests
use ldd.Common.{
  ℕ, zero, suc, ◌+◌, ◌-◌, ◌≤◌, ◌≡◌, refl, sym, ap, ◌∙◌, Bool, true, false, Option, none, some, List,
  [], ◌∷◌, ◌++◌, length, take, arith, if◌then◌else◌, append_assoc, append-nil, Errno, eagain,
}

-- A call's result, or `errno`.
pub data Answer {ℓ} (A : Type ℓ) : Type ℓ where
  done : A → Answer A
  fails : Errno → Answer A

-- What has come from the input, and what has gone to the output, on each way out of a call.
pub data Took (source sink left behind : List ℕ) : Answer (List ℕ) → Type 0 where
  some_bytes :
      (bytes : List ℕ)
      → bytes ++ left ≡ source
      → behind ≡ sink
      → Took source sink left behind (done bytes)
  no_bytes : (e : Errno) → left ≡ source → behind ≡ sink → Took source sink left behind (fails e)

pub data Put (bytes source sink left behind : List ℕ) : Answer ℕ → Type 0 where
  some_put :
      (m : ℕ)
      → left ≡ source
      → behind ≡ sink ++ take m bytes
      → Put bytes source sink left behind (done m)
  none_put :
      (e : Errno) → left ≡ source → behind ≡ sink → Put bytes source sink left behind (fails e)

-- `read(0, buffer, 4096)` and `write(1, buffer, n)` on a state of the system, with the bytes that are
-- still to be read and those written; either may be refused, and a write may take a part only.
pub record Calls (S : Type 0) : Type 0 where
  pub read : S → Answer (List ℕ) × S
  pub write : List ℕ → S → Answer ℕ × S
  pub source : S → List ℕ
  pub sink : S → List ℕ
  pub reads : (s : S) → Took (source s) (sink s) (source (read s).1) (sink (read s).1) (read s).0
  pub writes :
      (bytes : List ℕ) (s : S)
      → Put bytes
          (source s)
          (sink s)
          (source (write bytes s).1)
          (sink (write bytes s).1)
          (write bytes s).0

-- What `perror` names.
pub data End : Type 0 where
  stdin stdout : End

-- `errno != EAGAIN`: the loop is left.
abbrev pub breaks : Errno → End → Option End
breaks eagain end = none
breaks e end = some end

module _ {S : Type 0} (c : Calls S) where
  -- The rest of a round of `while(1)` behind its write, and behind its read: how it leaves the loop, if
  -- it does.
  abbrev pub after_write : Answer ℕ × S → Option End × S
  after_write (fails e, s) = (breaks e stdout, s)
  after_write (done m, s) = (none, s)

  abbrev pub after_read : Answer (List ℕ) × S → Option End × S
  after_read (fails e, s) = (breaks e stdin, s)
  after_read (done bytes, s) = after_write (c.write bytes s)

  abbrev pub round : S → Option End × S
  round s = after_read (c.read s)

  -- At most so many rounds.
  pub nbtest : ℕ → S → Option End × S
  nbtest zero s = (none, s)
  nbtest (suc rounds) s =
      let (end, t) = round s in
      let rest = nbtest rounds t in elim end [ none ↦ rest | some e ↦ (some e, t) ]
