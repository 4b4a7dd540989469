-- ===== src/Pipe/Openings.antt =====
-- scull/pipe.c, scull_p_open and scull_p_release: the counts of readers and writers against the
-- files that are open, and the life of the buffer.
use ldd.Common.{
  ℕ, ◌+◌, ◌<◌, ◌≡◌, Bool, true, false, List, [], ◌∷◌, ◌++◌, Option, none, some, length, arith,
  if◌then◌else◌, ap, ◌∙◌, ◌⊎◌, inl, inr, Option-cases, Ret, ok, err, erestartsys, enomem, refl,
  slice-zero, ◌||◌, ℤ, pos, negsuc,
}
use ldd.Pipe.{
  Pipe, Filp, scull_p_open, scull_p_release, unlock, free_unused, close_modes, scull_p_fasync,
  allocate, bump, drop_one,
}
use ldd.Pipe.Contents.{contents}
use ldd.Pipe.Blocking.{IsIdle}

abbrev pub one_if : Bool → ℕ
one_if b = if b then 1 else 0

-- How many of the files are open for reading, and for writing.
abbrev pub readers : List Filp → ℕ
readers [] = 0
readers (f ∷ fs) = one_if f.fmode_read + readers fs

abbrev pub writers : List Filp → ℕ
writers [] = 0
writers (f ∷ fs) = one_if f.fmode_write + writers fs

abbrev pub has_mode : Filp → Bool
has_mode f = f.fmode_read || f.fmode_write

abbrev pub AllHaveMode : List Filp → Type 0
AllHaveMode [] = Unit {0}
AllHaveMode (f ∷ fs) = (has_mode f ≡ true) × AllHaveMode fs

-- The buffer that belongs to a list of open files: none without files, a valid one with some.
abbrev pub Buffered : ℕ → List Filp → Pipe → Type 0
Buffered size [] p = (p.buffer ≡ none) × (p.locked ≡ false)
Buffered size (f ∷ fs) p = IsIdle p × (p.buffersize ≡ size)

-- The device agrees with the files that are open on it; `size` is `scull_p_buffer`.
pub record Agrees (size : ℕ) (files : List Filp) (p : Pipe) : Type 0 where
  pub modes : AllHaveMode files
  pub nreaders_is : p.nreaders ≡ pos (readers files)
  pub nwriters_is : p.nwriters ≡ pos (writers files)
  pub buffered : Buffered size files p

-- A successful open adds the file, starts from an empty pipe of the module's size and leaves the
-- mutex free; one that fails changes nothing but to leave the mutex free.
pub data OpenOutcome (size : ℕ) (files : List Filp) (filp : Filp) (p : Pipe) (r : Ret × Pipe)
    : Type 0 where
  opened :
      r.0 ≡ ok 0
      → Agrees size (filp ∷ files) r.1
      → contents r.1 ≡ []
      → OpenOutcome size files filp p r
  refused :
      ((r.0 ≡ err erestartsys) ⊎ (r.0 ≡ err enomem))
      → contents r.1 ≡ contents p
      → Agrees size files r.1
      → OpenOutcome size files filp p r

bump_pos : (b : Bool) (n : ℕ) → bump b (pos n) ≡ pos (one_if b + n)
bump_pos b n = ground arith

module _ (size : ℕ) (filp : Filp) (mode : has_mode filp ≡ true) (room : 0 < size) where
  Buffered-length :
      (files : List Filp) (p : Pipe) (b : List ℕ)
      → Buffered size files p
      → p.buffer ≡ some b
      → length b ≡ size
  Buffered-length [] p b h e = cc
  Buffered-length (f ∷ fs) p b h e = let v = h.0.valid in ground arith

  Buffered-unlock :
      (files : List Filp) (p : Pipe) → Buffered size files p → Buffered size files (unlock p)
  Buffered-unlock [] p h = (h.0, refl)
  Buffered-unlock (f ∷ fs) p h = let v = h.0.valid in ground arith

  allocate-length :
      (files : List Filp) (p : Pipe) (fresh : Option (List ℕ)) (b : List ℕ)
      → ((c : List ℕ) → fresh ≡ some c → length c ≡ size)
      → Buffered size files p
      → allocate p.buffer fresh ≡ some b
      → length b ≡ size
  allocate-length files p fresh b h a e = elim (Option-cases p.buffer) [
    | inl n ↦ h b (rw n at e)
    | inr (c, k) ↦ Buffered-length files p b a (k ∙ (rw k at e))
  ]

  pub scull_p_open-OpenOutcome :
      (files : List Filp) (p : Pipe) (interrupted : Bool) (fresh : Option (List ℕ))
      → ((b : List ℕ) → fresh ≡ some b → length b ≡ size)
      → Agrees size files p
      → OpenOutcome size files filp p (scull_p_open p filp interrupted fresh size)
  unfolding scull_p_open
  scull_p_open-OpenOutcome files p true fresh h a = refused (inl refl) refl a
  scull_p_open-OpenOutcome files p false fresh h a = elim (Option-cases (allocate p.buffer fresh)) [
    | inl e ↦ rw e (
        refused (inr refl) refl (record {
          modes = a.modes;
          nreaders_is = a.nreaders_is;
          nwriters_is = a.nwriters_is;
          buffered = Buffered-unlock files p a.buffered;
        }))
    | inr (b, e) ↦
        let size_b = allocate-length files p fresh b h a.buffered e in
        rw e (
          opened refl
            (record {
              modes = (mode, a.modes);
              nreaders_is =
                  ap (bump filp.fmode_read) a.nreaders_is
                  ∙ bump_pos filp.fmode_read (readers files);
              nwriters_is =
                  ap (bump filp.fmode_write) a.nwriters_is
                  ∙ bump_pos filp.fmode_write (writers files);
              buffered = (record { valid = omega arith; free = refl }, refl);
            })
            (slice-zero b 0))
  ]

readers-split :
    (xs ys : List Filp) (f : Filp)
    → readers (xs ++ f ∷ ys) ≡ one_if f.fmode_read + readers (xs ++ ys)
readers-split [] ys f = refl
readers-split (x ∷ xs) ys f = omega (arith, readers-split xs ys f)

writers-split :
    (xs ys : List Filp) (f : Filp)
    → writers (xs ++ f ∷ ys) ≡ one_if f.fmode_write + writers (xs ++ ys)
writers-split [] ys f = refl
writers-split (x ∷ xs) ys f = omega (arith, writers-split xs ys f)

AllHaveMode-split :
    (xs ys : List Filp) (f : Filp) → AllHaveMode (xs ++ f ∷ ys) → AllHaveMode (xs ++ ys)
AllHaveMode-split [] ys f h = h.1
AllHaveMode-split (x ∷ xs) ys f h = (h.0, AllHaveMode-split xs ys f h.1)

-- Some file is open, so the pipe is valid.
pub Buffered-split :
    (size : ℕ) (xs ys : List Filp) (f : Filp) (p : Pipe)
    → Buffered size (xs ++ f ∷ ys) p
    → IsIdle p × (p.buffersize ≡ size)
Buffered-split size [] ys f p h = h
Buffered-split size (x ∷ xs) ys f p h = h

drop_one_pos : (b : Bool) (n : ℕ) → drop_one b (pos (one_if b + n)) ≡ pos n
drop_one_pos b n = ground arith

some_mode : (f : Filp) → has_mode f ≡ true → 0 < one_if f.fmode_read + one_if f.fmode_write
some_mode f h = ground arith

-- The buffer goes with the last file, and only then.
free_unused-Buffered :
    (size : ℕ) (rest : List Filp) (q : Pipe)
    → AllHaveMode rest
    → q.nreaders ≡ pos (readers rest)
    → q.nwriters ≡ pos (writers rest)
    → IsIdle q
    → q.buffersize ≡ size
    → Buffered size rest (unlock (free_unused q))
unfolding free_unused
free_unused-Buffered size [] q m r w i s = ground arith
free_unused-Buffered size (f ∷ fs) q m r w i s = let v = i.valid in ground (arith, some_mode f m.0)

free_unused_counts :
    (q : Pipe) → ((free_unused q).nreaders ≡ q.nreaders) × ((free_unused q).nwriters ≡ q.nwriters)
unfolding free_unused
free_unused_counts q = ground arith

close_modes-IsIdle : (p : Pipe) (f : Filp) → IsIdle p → IsIdle (close_modes p f)
unfolding close_modes
close_modes-IsIdle p f i = let v = i.valid in let free = i.free in ground arith

module _ (size : ℕ) (xs ys : List Filp) (f : Filp) (helper : ℤ → ℕ → List ℕ → Ret × List ℕ) where
  -- Closing one of the open files.
  pub scull_p_release-Agrees :
      (p : Pipe)
      → Agrees size (xs ++ f ∷ ys) p
      → Agrees size (xs ++ ys) (scull_p_release helper p f).1
  unfolding scull_p_release
  scull_p_release-Agrees p a =
      let left = (scull_p_fasync helper (negsuc 0) 0 p).1 in
      let q = close_modes left f in
      let open_now = Buffered-split size xs ys f p a.buffered in
      let modes = AllHaveMode-split xs ys f a.modes in
      let r : q.nreaders ≡ pos (readers (xs ++ ys)) =
        ap (drop_one f.fmode_read) (a.nreaders_is ∙ ap pos (readers-split xs ys f))
        ∙ drop_one_pos f.fmode_read (readers (xs ++ ys)) in
      let w : q.nwriters ≡ pos (writers (xs ++ ys)) =
        ap (drop_one f.fmode_write) (a.nwriters_is ∙ ap pos (writers-split xs ys f))
        ∙ drop_one_pos f.fmode_write (writers (xs ++ ys)) in
      let left_idle : IsIdle left =
        let v = open_now.0.valid in let free = open_now.0.free in ground arith in
      let idle = close_modes-IsIdle left f left_idle in
      record {
        modes = modes;
        nreaders_is = (free_unused_counts q).0 ∙ r;
        nwriters_is = (free_unused_counts q).1 ∙ w;
        buffered = free_unused-Buffered size (xs ++ ys) q modes r w idle open_now.1;
      }
