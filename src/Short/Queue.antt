-- ===== src/Short/Queue.antt =====
-- short/short.c, short_interrupt and short_i_read: the page as a queue of bytes, while its head has not
-- come round.
use ldd.Common.{
  ℕ, ◌+◌, ◌-◌, ◌≤◌, ◌<◌, min, ◌≡◌, refl, sym, ap, ◌∙◌, Option, some, List, [], ◌++◌, arith, leb,
  if◌then◌else◌, slice, slice-append, ok, err, efault,
}
use ldd.Common.User.{UserCopy}
use ldd.Short.{Ring, Reply, short_incr_bp, short_interrupt, short_i_read, stamp, replies, asleep}
use ldd.Short.Stamps.{IsAligned, short_interrupt_lem}
use ldd.Short.Reading.{Reads, short_i_read-Reads, taken, faulted, wrapped, restarts, sleeps, now}

-- What waits between the tail and the head.
abbrev pub waiting : Ring → List ℕ
waiting r = slice r.page r.tail (r.head - r.tail)

-- The bytes that a read delivers; those of a failed copy stay in the page.
abbrev pub delivered : Reply → List ℕ → List ℕ
delivered (replies (ok n)) bytes = bytes
delivered _ bytes = []

module _ (page_size : ℕ) where
  -- The head is aligned and has not come round.
  pub record IsFilling (r : Ring) : Type 0 where
    pub aligned : IsAligned page_size r
    pub ordered : r.tail ≤ r.head

  -- A stamp joins the bytes that wait.
  pub record Queued (r : Ring) (tv_sec tv_nsec : ℕ) (o : Option Ring) : Type 0 where
    pub result : Ring
    pub returns : o ≡ some result
    pub joined : waiting result ≡ waiting r ++ stamp tv_sec tv_nsec
    pub moved : result.head ≡ r.head + 16
    pub filling : IsFilling result

  pub short_interrupt-Queued :
      (r : Ring) (tv_sec tv_nsec : ℕ)
      → IsFilling r
      → tv_nsec < 1000000000
      → r.head + 16 < page_size
      → Queued r tv_sec tv_nsec (short_interrupt page_size r tv_sec tv_nsec)
  short_interrupt-Queued r tv_sec tv_nsec f h room =
      let st = (short_interrupt_lem page_size r tv_sec tv_nsec h f.aligned).0 room in
      let ordered = f.ordered in
      let moved = st.moved in
      let reader = st.reader in
      let s = st.result in
      let n = r.head - r.tail in
      let total : s.head - s.tail ≡ n + 16 = omega arith in
      let at : r.tail + n ≡ r.head = omega arith in
      let cut = slice-append s.page r.tail n 16 in
      let old = st.before r.tail n (omega arith) in
      record {
        result = s;
        returns = st.returns;
        joined =
            ap (λ t. slice s.page t (s.head - s.tail)) reader
            ∙ ap (slice s.page r.tail) total
            ∙ sym cut
            ∙ ap (λ xs. xs ++ slice s.page (r.tail + n) 16) old
            ∙ ap (λ i. waiting r ++ slice s.page i 16) at
            ∙ ap (◌++◌ (waiting r)) st.text;
        moved = moved;
        filling = record { aligned = st.aligned; ordered = omega arith };
      }

  -- A read ends, and what it does not deliver still waits.
  pub record Took (r : Ring) (o : Option (Reply × List ℕ × Ring)) : Type 0 where
    pub reply : Reply
    pub bytes : List ℕ
    pub result : Ring
    pub returns : o ≡ some (reply, bytes, result)
    pub parted : delivered reply bytes ++ waiting result ≡ waiting r
    pub same : result.head ≡ r.head
    pub filling : IsFilling result

  at_head : {r : Ring} {t : ℕ} → IsAligned page_size r → IsAligned page_size (record r { tail = t })
  at_head a = record {
    page_sixteen = a.page_sixteen;
    head_sixteen = a.head_sixteen;
    head_in = a.head_in;
    whole = a.whole;
  }

  taken-Took :
      (r : Ring) (count : ℕ) (o : Option (Reply × List ℕ × Ring))
      → IsFilling r
      → let n = min count (r.head - r.tail) in
        o
          ≡ some (
            replies (ok n),
            slice r.page r.tail n,
            record r { tail = short_incr_bp page_size r.tail n },
          )
        → Took r o
  unfolding short_incr_bp
  taken-Took r count o f e =
      let n = min count (r.head - r.tail) in
      let head_in = f.aligned.head_in in
      let ordered = f.ordered in
      let moved : (if leb page_size (r.tail + n) then 0 else r.tail + n) ≡ r.tail + n =
        ground arith in
      let rest : n + (r.head - (r.tail + n)) ≡ r.head - r.tail = omega arith in
      record {
        reply = replies (ok n);
        bytes = slice r.page r.tail n;
        result = record r { tail = r.tail + n };
        returns =
            rw e
              (ap (λ t. some (replies (ok n), slice r.page r.tail n, record r { tail = t })) moved);
        parted =
            slice-append r.page r.tail n (r.head - (r.tail + n)) ∙ ap (slice r.page r.tail) rest;
        same = refl;
        filling = record { aligned = at_head f.aligned; ordered = omega arith };
      }

module _ (page_size : ℕ) (u : UserCopy) where
  reads-Took :
      (r : Ring) (count : ℕ) (o : Option (Reply × List ℕ × Ring))
      → IsFilling page_size r
      → Reads page_size u count r [] o
      → Took page_size r o
  reads-Took r count o f (taken _ (now _ _) lt e) = taken-Took page_size r count o f e
  reads-Took r count o f (faulted _ (now _ _) lt bad bytes e) = record {
    reply = replies (err efault);
    bytes = bytes;
    result = r;
    returns = e;
    parted = refl;
    same = refl;
    filling = f;
  }
  reads-Took r count o f (wrapped _ (now _ _) lt beyond inside) =
      let ordered = f.ordered in absurd (omega arith)
  reads-Took r count o f (restarts s by e) = elim by [ ]
  reads-Took r count o f (sleeps _ (now _ _) eq e) = record {
    reply = asleep;
    bytes = [];
    result = r;
    returns = e;
    parted = refl;
    same = refl;
    filling = f;
  }

  pub short_i_read-Took :
      (r : Ring) (count : ℕ)
      → IsFilling page_size r
      → Took page_size r (short_i_read page_size u r count [])
  short_i_read-Took r count f =
      let head_in = f.aligned.head_in in
      reads-Took r count _ f (short_i_read-Reads page_size u count r [] (omega arith) tt)
