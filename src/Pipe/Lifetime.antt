-- ===== src/Pipe/Lifetime.antt =====
-- scull/pipe.c: every history of opens, reads, writes and closes on one pipe, as steps of a relation.
use ldd.Common.{
  ℕ, ◌<◌, ◌≡◌, Bool, true, false, List, [], ◌∷◌, ◌++◌, Option, some, length, arith, refl, ◌∙◌, inl,
  inr, Ret, ok, err, ℤ,
}
use ldd.Common.User.{UserCopy}
use ldd.Pipe.{Pipe, Filp, scull_p_open, scull_p_release, scull_p_read, scull_p_write, write_data}
use ldd.Pipe.Blocking.{IsIdle}
use ldd.Pipe.Blocking.Reads.{scull_p_read-IsIdle}
use ldd.Pipe.Blocking.Writes.{scull_p_write-WriteOutcome}
use ldd.Pipe.Openings.{
  has_mode, Agrees, Buffered, Buffered-split, OpenOutcome, scull_p_open-OpenOutcome,
  scull_p_release-Agrees,
}

-- What stays as it is when a pipe is read or written: the counts and the size.
record SameFrame (p q : Pipe) : Type 0 where
  same_readers : q.nreaders ≡ p.nreaders
  same_writers : q.nwriters ≡ p.nwriters
  same_size : q.buffersize ≡ p.buffersize

module _ (u : UserCopy) (p : Pipe) (filp : Filp) (count : ℕ) where
  scull_p_read-SameFrame : (i : Bool) → SameFrame p (scull_p_read u p filp count i []).2
  unfolding scull_p_read
  scull_p_read-SameFrame true = record {
    same_readers = refl;
    same_writers = refl;
    same_size = refl;
  }
  scull_p_read-SameFrame false = ground arith

  scull_p_write-SameFrame :
      (buf : List ℕ) (i : Bool) → SameFrame p (scull_p_write u p filp buf count i []).1
  unfolding scull_p_write write_data
  scull_p_write-SameFrame buf true = record {
    same_readers = refl;
    same_writers = refl;
    same_size = refl;
  }
  scull_p_write-SameFrame buf false = ground arith

-- The device with the files that are open on it.
pub record World : Type 0 where
  pub files : List Filp
  pub pipe : Pipe

abbrev pub after_open : World → Filp → Ret × Pipe → World
after_open w filp (ok n, p) = record { files = filp ∷ w.files; pipe = p }
after_open w filp (err e, p) = record { files = w.files; pipe = p }

module _ (u : UserCopy) (size : ℕ) where
  -- One call; `fresh` is what `kmalloc(size)` answers. Only a file that is open is read, written or
  -- closed.
  pub data Step : World → World → Type 0 where
    opens :
        (w : World) (filp : Filp) (i : Bool) (fresh : Option (List ℕ))
        → has_mode filp ≡ true
        → ((b : List ℕ) → fresh ≡ some b → length b ≡ size)
        → Step w (after_open w filp (scull_p_open w.pipe filp i fresh size))
    closes :
        (xs ys : List Filp) (f : Filp) (p : Pipe) (helper : ℤ → ℕ → List ℕ → Ret × List ℕ)
        → Step
            (record { files = xs ++ f ∷ ys; pipe = p })
            (record { files = xs ++ ys; pipe = (scull_p_release helper p f).1 })
    reads :
        (xs ys : List Filp) (f : Filp) (p : Pipe) (count : ℕ) (i : Bool)
        → Step
            (record { files = xs ++ f ∷ ys; pipe = p })
            (record { files = xs ++ f ∷ ys; pipe = (scull_p_read u p f count i []).2 })
    writes :
        (xs ys : List Filp) (f : Filp) (p : Pipe) (buf : List ℕ) (count : ℕ) (i : Bool)
        → Step
            (record { files = xs ++ f ∷ ys; pipe = p })
            (record { files = xs ++ f ∷ ys; pipe = (scull_p_write u p f buf count i []).1 })

  pub data Reach (w : World) : World → Type 0 where
    here : Reach w w
    next : {x y : World} → Reach w x → Step x y → Reach w y

  abbrev pub IsSound : World → Type 0
  IsSound w = Agrees size w.files w.pipe

  framed-Agrees :
      (xs ys : List Filp) (f : Filp) (p q : Pipe)
      → SameFrame p q
      → IsIdle q
      → Agrees size (xs ++ f ∷ ys) p
      → Agrees size (xs ++ f ∷ ys) q
  framed-Agrees xs ys f p q s i a = record {
    modes = a.modes;
    nreaders_is = s.same_readers ∙ a.nreaders_is;
    nwriters_is = s.same_writers ∙ a.nwriters_is;
    buffered = Buffered-join xs (i, s.same_size ∙ (Buffered-split size xs ys f p a.buffered).1);
  }
    where
      Buffered-join :
          (zs : List Filp) → IsIdle q × (q.buffersize ≡ size) → Buffered size (zs ++ f ∷ ys) q
      Buffered-join [] h = h
      Buffered-join (z ∷ zs) h = h

  after_open-IsSound :
      (w : World) (filp : Filp) (r : Ret × Pipe)
      → OpenOutcome size w.files filp w.pipe r
      → IsSound (after_open w filp r)
  after_open-IsSound w filp (ok n, p) (OpenOutcome.opened e a c) = a
  after_open-IsSound w filp (err x, p) (OpenOutcome.opened e a c) = cc
  after_open-IsSound w filp (ok n, p) (OpenOutcome.refused (inl e) c a) = cc
  after_open-IsSound w filp (ok n, p) (OpenOutcome.refused (inr e) c a) = cc
  after_open-IsSound w filp (err x, p) (OpenOutcome.refused e c a) = a

  -- Each call keeps the device in agreement with the files that are open on it.
  pub Step-IsSound : {w x : World} → 0 < size → Step w x → IsSound w → IsSound x
  Step-IsSound room (opens w filp i fresh mode sized) a =
      after_open-IsSound w filp _
        (scull_p_open-OpenOutcome size filp mode room w.files w.pipe i fresh sized a)
  Step-IsSound room (closes xs ys f p helper) a = scull_p_release-Agrees size xs ys f helper p a
  Step-IsSound room (reads xs ys f p count i) a =
      framed-Agrees xs ys f p _ (scull_p_read-SameFrame u p f count i)
        (scull_p_read-IsIdle u f count [] tt i (Buffered-split size xs ys f p a.buffered).0) a
  Step-IsSound room (writes xs ys f p buf count i) a =
      framed-Agrees xs ys f p _ (scull_p_write-SameFrame u p f count buf i)
        (scull_p_write-WriteOutcome u f buf count [] i tt
          (Buffered-split size xs ys f p a.buffered).0).1
        a

  pub Reach-IsSound : {w x : World} → 0 < size → IsSound w → Reach w x → IsSound x
  Reach-IsSound room a here = a
  Reach-IsSound room a (next r s) = Step-IsSound room s (Reach-IsSound room a r)
