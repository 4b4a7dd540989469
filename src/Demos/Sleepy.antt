-- ===== src/Demos/Sleepy.antt =====
-- ioctl/sleepy.c: readers sleep until a writer sets the flag. A reader's two parts, the wait and the
-- assignment behind it, are steps of their own, which those of other processes may come between.
use ldd.Common.{
  ℕ, zero, suc, ◌+◌, ◌<◌, ◌≡◌, ◌≢◌, refl, sym, ap, ◌∙◌, arith, err, ◌==◌, if◌then◌else◌, Ret, ok,
}
use ldd.Common.Registry.{Registry, register_region, unregister_region}

-- `flag`, the readers in the wait, those behind it that have not cleared the flag yet, those that are
-- through, and how many writes and signals there have been.
pub record World : Type 0 where
  pub flag : ℕ
  pub waiting : ℕ
  pub awake : ℕ
  pub through : ℕ
  pub written : ℕ
  pub signals : ℕ

-- `flag = 1`, `wake_up_interruptible`, `return count`.
pub sleepy_write : World → ℕ → Ret × World
sleepy_write w count = (ok count, record w { flag = 1; written = w.written + 1 })

-- sleepy_read: it comes to the wait; it leaves it where the flag is set, or by a signal, the answer of
-- `wait_event_interruptible` being ignored; it clears the flag and ends.
pub data Step : World → World → Type 0 where
  enters : (w : World) → Step w (record w { waiting = w.waiting + 1 })
  wakes :
      (w : World) (n : ℕ)
      → w.flag ≢ 0
      → w.waiting ≡ suc n
      → Step w (record w { waiting = n; awake = w.awake + 1 })
  signalled :
      (w : World) (n : ℕ)
      → w.waiting ≡ suc n
      → Step w (record w { waiting = n; awake = w.awake + 1; signals = w.signals + 1 })
  clears :
      (w : World) (n : ℕ)
      → w.awake ≡ suc n
      → Step w (record w { flag = 0; awake = n; through = w.through + 1 })
  writes : (w : World) (count : ℕ) → Step w (sleepy_write w count).1

pub data Reach (start : World) : World → Type 0 where
  here : Reach start start
  next : {v w : World} → Reach start v → Step v w → Reach start w

abbrev pub quiet : World
quiet = record { flag = 0; waiting = 0; awake = 0; through = 0; written = 0; signals = 0 }

pub record IsSound (w : World) : Type 0 where
  pub caused : 0 < w.awake + w.through → 0 < w.written + w.signals
  pub raised : w.flag ≢ 0 → 0 < w.written

Step-IsSound : {v w : World} → Step v w → IsSound v → IsSound w
unfolding sleepy_write
Step-IsSound (enters w) s = record { caused = s.caused; raised = s.raised }
Step-IsSound (wakes w n flag one) s =
    let h = s.raised flag in record { caused = λ k. omega arith; raised = s.raised }
Step-IsSound (signalled w n one) s = record { caused = λ k. omega arith; raised = s.raised }
Step-IsSound (clears w n one) s = record {
  caused = λ k. s.caused (omega arith);
  raised = λ k. absurd (k refl);
}
Step-IsSound (writes w count) s = record { caused = λ k. omega arith; raised = λ k. omega arith }

-- No reader leaves the wait before the first write or signal, and the flag is not set before the
-- first write.
pub Reach-IsSound : {w : World} → Reach quiet w → IsSound w
Reach-IsSound here = record { caused = λ k. absurd (omega arith); raised = λ k. absurd (k refl) }
Reach-IsSound (next r s) = Step-IsSound s (Reach-IsSound r)

-- `n` readers in the wait, the flag set by one write.
all_awake :
    (n a : ℕ) {w : World}
    → Reach quiet w
    → w.flag ≡ 1
    → w.waiting ≡ n
    → w.awake ≡ a
    → (v : World) × Reach quiet v
      × (v.awake ≡ a + n)
      × (v.through ≡ w.through)
      × (v.written ≡ w.written)
      × (v.signals ≡ w.signals)
all_awake zero a {w} r f e k = (w, r, omega arith, refl, refl, refl)
all_awake (suc n) a {w} r f e k =
    let (v, s, b, t, x, y) =
      all_awake n (a + 1) (next r (wakes w n (λ z. zero_one (sym f ∙ z)) e)) f refl (omega arith) in
    (v, s, omega arith, t, x, y)
  where
    zero_one : ◌≡◌ {A = ℕ} 1 0 → ⊥
    zero_one z = omega arith

all_wait :
    (n : ℕ)
    → (v : World) × Reach quiet v
      × (v.waiting ≡ n)
      × (v.awake ≡ 0)
      × (v.through ≡ 0)
      × (v.written ≡ 0)
      × (v.signals ≡ 0)
all_wait zero = (quiet, here, refl, refl, refl, refl, refl)
all_wait (suc n) =
    let (v, r, a, b, c, d, e) = all_wait n in
    (record v { waiting = v.waiting + 1 }, next r (enters v), omega arith, b, c, d, e)

all_through :
    (n t : ℕ) {w : World}
    → Reach quiet w
    → w.awake ≡ n
    → w.through ≡ t
    → (v : World) × Reach quiet v
      × (v.through ≡ t + n)
      × (v.written ≡ w.written)
      × (v.signals ≡ w.signals)
all_through zero t {w} r a e = (w, r, omega arith, refl, refl)
all_through (suc n) t {w} r a e =
    let (v, s, b, x, y) = all_through n (t + 1) (next r (clears w n a)) refl (omega arith) in
    (v, s, omega arith, x, y)

-- One write can let any number of readers through, without a signal: those that leave the wait before
-- the first of them clears the flag.
pub one_write_wakes :
    (n : ℕ) → (w : World) × Reach quiet w × (w.through ≡ n) × (w.written ≡ 1) × (w.signals ≡ 0)
unfolding sleepy_write
one_write_wakes n =
    let (v, r, waiting, awake, through, written, signals) = all_wait n in
    let (x, s, up, t, one, none_sent) = all_awake n 0 (next r (writes v 1)) refl waiting awake in
    let (y, z, all, still_one, still_none) = all_through n 0 s (omega arith) (t ∙ through) in
    (y, z, omega arith, still_one ∙ one ∙ ap suc_of written, still_none ∙ none_sent ∙ signals)
  where
    suc_of : ℕ → ℕ
    suc_of m = m + 1

-- `result` is what `register_chrdev` answers: an error, or a number.
pub sleepy_init : ℕ → Ret → Registry → Ret × ℕ × Registry
sleepy_init sleepy_major (err e) r = (err e, sleepy_major, r)
sleepy_init sleepy_major (ok n) r =
    (ok 0, (if sleepy_major == 0 then n else sleepy_major), register_region r)

-- `unregister_chrdev` of the number that `sleepy_major` holds.
pub sleepy_cleanup : ℕ → Registry → ℕ × Registry
sleepy_cleanup sleepy_major r = (sleepy_major, unregister_region r)

-- A module that was loaded gives back the number that it got: the one asked for, or the dynamic one.
pub sleepy_cleanup-init :
    (sleepy_major n : ℕ) (r : Registry)
    → let (ret, major, s) = sleepy_init sleepy_major (ok n) r in
      (ret ≡ ok 0) × (sleepy_cleanup major s ≡ (if sleepy_major == 0 then n else sleepy_major, r))
unfolding sleepy_init sleepy_cleanup
sleepy_cleanup-init sleepy_major n r = (refl, ground arith)
