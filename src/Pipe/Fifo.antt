-- ===== src/Pipe/Fifo.antt =====
-- scull/pipe.c against a FIFO of bytes: whatever calls run one after the other, and however their
-- copies fail, the bytes come out in the order in which they went in, none lost, none made up.
use ldd.Common.{
  ℕ, ◌<◌, ◌≡◌, Bool, true, false, List, [], ◌∷◌, ◌++◌, length, arith, ◌==◌, sym, ap, ◌∙◌, inl, inr,
  append_assoc, append-nil, Bool-cases, ok, refl, take,
}
use ldd.Common.User.{UserCopy}
use ldd.Pipe.{Pipe, Filp, Reply, returns, scull_p_read, scull_p_write, spacefree}
use ldd.Pipe.Bounds.{spacefree-add-used}
use ldd.Pipe.Contents.{contents, length-contents}
use ldd.Pipe.Read.{TakesOldest, read_data-TakesOldest}
use ldd.Pipe.Write.{Appends, write_data-Appends}
use ldd.Pipe.Blocking.{IsIdle, lock-IsValid, ne_of_test}
use ldd.Pipe.{lock, is_empty}
use ldd.Pipe.Blocking.Reads.{scull_p_read-IsIdle}
use ldd.Pipe.Blocking.Writes.{scull_p_write-WriteOutcome}

-- Calls on one open pipe, each with the answer of its first `mutex_lock_interruptible`.
pub data Call : Type 0 where
  reads : Filp → ℕ → Bool → Call
  writes : Filp → List ℕ → ℕ → Bool → Call

-- The bytes that a reply accepts of a write's buffer.
abbrev pub accepted : List ℕ → Reply → List ℕ
accepted buf (returns (ok n)) = take n buf
accepted buf _ = []

-- The bytes that a reply delivers: those of a failed copy do not count, since they stay in the pipe.
abbrev pub delivered : List ℕ → Reply → List ℕ
delivered bytes (returns (ok n)) = bytes
delivered bytes _ = []

deliver_first :
    (first outs before mid after ins : List ℕ)
    → first ++ mid ≡ before
    → outs ++ after ≡ mid ++ ins
    → (first ++ outs) ++ after ≡ before ++ ins
deliver_first first outs before mid after ins h k =
    append_assoc first outs after
    ∙ ap (◌++◌ first) k
    ∙ sym (append_assoc first mid ins)
    ∙ ap (λ xs. xs ++ ins) h

accept_first :
    (first outs before mid after ins : List ℕ)
    → mid ≡ before ++ first
    → outs ++ after ≡ mid ++ ins
    → outs ++ after ≡ before ++ (first ++ ins)
accept_first first outs before mid after ins h k =
    k ∙ ap (λ xs. xs ++ ins) h ∙ append_assoc before first ins

module _ (u : UserCopy) where
  -- After the calls: all bytes accepted, all bytes delivered, and the device.
  unfoldable pub run : Pipe → List Call → List ℕ × List ℕ × Pipe
  run p [] = ([], [], p)
  run p (reads filp count i ∷ cs) =
      let (reply, bytes, q) = scull_p_read u p filp count i [] in
      let (ins, outs, end) = run q cs in (ins, delivered bytes reply ++ outs, end)
  run p (writes filp buf count i ∷ cs) =
      let (reply, q) = scull_p_write u p filp buf count i [] in
      let (ins, outs, end) = run q cs in (accepted buf reply ++ ins, outs, end)

  taken-fifo :
      {p : Pipe} (count : ℕ) (reply : Reply) (bytes : List ℕ) (q : Pipe)
      → TakesOldest p count reply bytes q
      → delivered bytes reply ++ contents q ≡ contents p
  taken-fifo count reply bytes q (TakesOldest.taken e c _ _ _) = rw e c
  taken-fifo count reply bytes q (TakesOldest.failed e c _) = rw e c

  appended-fifo :
      {p : Pipe} (buf : List ℕ) (count : ℕ) (reply : Reply) (q : Pipe)
      → Appends p buf count reply q
      → contents q ≡ contents p ++ accepted buf reply
  appended-fifo buf count reply q (Appends.appended n e c _ _ _ _ _) = rw e c
  appended-fifo {p} buf count reply q (Appends.failed e c _) =
      rw e (c ∙ sym (append-nil (contents p)))

  pub read-fifo :
      (p : Pipe) (filp : Filp) (count : ℕ) (i : Bool)
      → IsIdle p
      → let (reply, bytes, q) = scull_p_read u p filp count i [] in
        delivered bytes reply ++ contents q ≡ contents p
  unfolding scull_p_read
  read-fifo p filp count true h = refl
  read-fifo p filp count false h = elim (Bool-cases (is_empty p)) [
    | inl e ↦ elim (Bool-cases filp.nonblock) [
      | inl n ↦ simp (e, n) refl
      | inr n ↦ simp (e, n) refl
    ]
    | inr e ↦ simp e (
        taken-fifo count _ _ _
          (read_data-TakesOldest u count (lock-IsValid h) (ne_of_test (lock p) e)))
  ]

  pub write-fifo :
      (p : Pipe) (filp : Filp) (buf : List ℕ) (count : ℕ) (i : Bool)
      → IsIdle p
      → let (reply, q) = scull_p_write u p filp buf count i [] in
        contents q ≡ contents p ++ accepted buf reply
  unfolding scull_p_write
  write-fifo p filp buf count true h = sym (append-nil (contents p))
  write-fifo p filp buf count false h = elim (Bool-cases (spacefree p == 0)) [
    | inl e ↦ elim (Bool-cases filp.nonblock) [
      | inl n ↦ simp (e, n) (sym (append-nil (contents p)))
      | inr n ↦ simp (e, n) (sym (append-nil (contents p)))
    ]
    | inr e ↦ simp e (appended-fifo buf count _ _ (write_data-Appends u buf count (lock-IsValid h)))
  ]

  -- The pipe is a FIFO: over any sequence of calls, in any mix and with any failures, the bytes
  -- delivered followed by those still in the pipe are the bytes that were in it followed by those
  -- accepted; and it never holds more than `buffersize - 1`.
  pub run-fifo :
      (cs : List Call) {p : Pipe}
      → IsIdle p
      → let (ins, outs, q) = run p cs in
        (outs ++ contents q ≡ contents p ++ ins) × IsIdle q × (length (contents q) < q.buffersize)
  unfolding run
  run-fifo [] {p} h = (
    sym (append-nil (contents p)),
    h,
    omega (arith, length-contents h.valid, spacefree-add-used h.valid),
  )
  run-fifo (reads filp count i ∷ cs) {p} h =
      let step = read-fifo p filp count i h in
      let (ins, outs, q) = run (scull_p_read u p filp count i []).2 cs in
      let rest = run-fifo cs (scull_p_read-IsIdle u filp count [] tt i h) in
      (deliver_first _ outs _ _ (contents q) ins step rest.0, rest.1, rest.2)
  run-fifo (writes filp buf count i ∷ cs) {p} h =
      let step = write-fifo p filp buf count i h in
      let (ins, outs, q) = run (scull_p_write u p filp buf count i []).1 cs in
      let rest = run-fifo cs (scull_p_write-WriteOutcome u filp buf count [] i tt h).1 in
      (accept_first _ outs _ _ (contents q) ins step rest.0, rest.1, rest.2)
