-- ===== src/Scull/Session.antt =====
-- scull_char_device/main.c: any sequence of reads and writes on a device, against the log of what was
-- written: the bytes of the last write that covers a position stand there.
use ldd.Common.{
  ℕ, ◌+◌, ◌<◌, ◌≡◌, refl, sym, ◌∙◌, subst, Bool, Option, none, some, List, [], ◌∷◌, length,
  get_elem?, arith, ok,
}
use ldd.Common.User.{UserCopy}
use ldd.Scull.{Dev, Done, Follow, Quantum, item_of, scull_read, scull_write}
use ldd.Scull.Bytes.{byte_at-same, IsValid}
use ldd.Scull.Write.{scull_write-Good}
use ldd.Scull.Give.{Reads, readable, gave, nothing}
use ldd.Scull.Read.{scull_read-ReadGood}
use ldd.Scull.RoundTrip.{ok_inj}
use ldd.Scull.Log.{Entry, latest, entry, Agrees, writes-Agrees}

-- A call, by any process; the file position is the caller's.
pub data Call : Type 0 where
  reads : UserCopy → ℕ → ℕ → Bool → Call
  writes : UserCopy → ℕ → List ℕ → ℕ → Bool → Bool → Quantum → Call

module _ (f : Follow) where
  pub step : Call → Dev → Option Done
  step (reads u pos count interrupted) d = scull_read u f d pos count interrupted
  step (writes u pos buf count interrupted array_ok fresh) d =
      scull_write u f d pos buf count interrupted array_ok fresh

  abbrev pub log_of : Call → Dev → Done → List Entry → List Entry
  log_of (reads u pos count interrupted) d r log = log
  log_of (writes u pos buf count interrupted array_ok fresh) d r log =
      entry d pos buf count r.ret ∷ log

  -- The device and the log after the calls; `none` if one faults.
  pub run : List Call → Dev → List Entry → Option (Dev × List Entry)
  unfolding step
  run [] d log = some (d, log)
  run (c ∷ calls) d log = elim (step c d) [
    | none ↦ none
    | some r ↦ run calls r.dev (log_of c d r log)
  ]

  -- New blocks have the length that was asked for.
  abbrev pub FreshFit : ℕ → Call → Type 0
  FreshFit quantum (reads u pos count interrupted) = Unit {0}
  FreshFit quantum (writes u pos buf count interrupted array_ok fresh) =
      (b : List ℕ) → fresh ≡ some b → length b ≡ quantum

  abbrev pub AllFit : ℕ → List Call → Type 0
  AllFit quantum [] = Unit {0}
  AllFit quantum (c ∷ calls) = FreshFit quantum c × AllFit quantum calls

-- After a call: it has returned, the device is valid and of the same quantum, and the log is right.
pub record Stepped (quantum : ℕ) (log : List Entry) (o : Option Done) (after : Done → List Entry)
    : Type 0 where
  pub result : Done
  pub returns : o ≡ some result
  pub valid : IsValid result.dev
  pub same : result.dev.quantum ≡ quantum
  pub agrees : Agrees (after result) result.dev

step-Stepped :
    (f : Follow) (c : Call) (d : Dev) (log : List Entry)
    → IsValid d
    → FreshFit f d.quantum c
    → Agrees log d
    → Stepped d.quantum log (step f c d) (λ r. log_of f c d r log)
unfolding step
step-Stepped f (reads u pos count interrupted) d log v fit agrees =
    let g = scull_read-ReadGood u f pos count d interrupted v in
    record {
      result = g.result;
      returns = g.returns;
      valid = g.valid;
      same = g.same.quantum;
      agrees = λ p x known. byte_at-same d g.result.dev g.same p ∙ agrees p x known;
    }
step-Stepped f (writes u pos buf count interrupted array_ok fresh) d log v fit agrees =
    let g = scull_write-Good u f pos buf count fresh d interrupted array_ok v fit in
    record {
      result = g.result;
      returns = g.returns;
      valid = g.valid;
      same = g.quantum;
      agrees = writes-Agrees d pos buf count fresh g.result log agrees g.effect;
    }

-- The calls have all returned, and the log is right.
pub record Ran (o : Option (Dev × List Entry)) : Type 0 where
  pub dev : Dev
  pub log : List Entry
  pub returns : o ≡ some (dev, log)
  pub valid : IsValid dev
  pub agrees : Agrees log dev
  -- What a read gives then, where the log knows the bytes.
  pub gives :
      (u : UserCopy) (f : Follow) (pos count : ℕ) (interrupted : Bool)
      → (r : Done) × (scull_read u f dev pos count interrupted ≡ some r)
        × ((n k v : ℕ)
            → r.ret ≡ ok n
            → k < n
            → latest log (pos + k) ≡ some v
            → get_elem? r.bytes k ≡ some v)

read_known :
    (found : Bool) (d : Dev) (pos count : ℕ) (r : Done) (log : List Entry)
    → Agrees log d
    → Reads found d pos count r
    → (n k v : ℕ) → r.ret ≡ ok n
    → k < n
    → latest log (pos + k) ≡ some v
    → get_elem? r.bytes k ≡ some v
read_known found d pos count r log agrees (gave before ret moved len bytes) n k v ok_n h known =
    let all : readable d pos count ≡ n = ok_inj (sym ret ∙ ok_n) in
    bytes k (omega arith) ∙ agrees (pos + k) v known
read_known found d pos count r log agrees (nothing why ret stays empty) n k v ok_n h known =
    let zero_n : 0 ≡ n = ok_inj (sym ret ∙ ok_n) in absurd (omega arith)
read_known found d pos count r log agrees (Reads.failed e ret which stays) n k v ok_n h known =
    let never = sym ret ∙ ok_n in cc

ran : (d : Dev) (log : List Entry) → IsValid d → Agrees log d → Ran (some (d, log))
ran d log v agrees = record {
  dev = d;
  log = log;
  returns = refl;
  valid = v;
  agrees = agrees;
  gives = λ u f pos count interrupted.
      let g = scull_read-ReadGood u f pos count d interrupted v in
      (
        g.result,
        g.returns,
        read_known (f.follow d (item_of d pos)).0 d pos count g.result log agrees g.effect,
      );
}

-- Over any sequence of reads and writes of a valid device, with whatever copies, allocations and waits
-- fail, no call faults, and the device stays valid. A read at the end gives, at each position that
-- the log knows, the byte of the last write there: a write is known by the bytes that it says that
-- it took, and a write that fails makes its span unknown.
pub run-Ran :
    (f : Follow) (calls : List Call) (d : Dev) (log : List Entry)
    → IsValid d
    → AllFit f d.quantum calls
    → Agrees log d
    → Ran (run f calls d log)
unfolding run
run-Ran f [] d log v fit agrees = ran d log v agrees
run-Ran f (c ∷ calls) d log v (fit, fits) agrees =
    let s = step-Stepped f c d log v fit agrees in
    let rest =
      run-Ran f calls s.result.dev (log_of f c d s.result log) s.valid
        (subst (λ (q : ℕ). AllFit f q calls) (sym s.same) fits) s.agrees in
    let e = s.returns in rw (e, run) rest
