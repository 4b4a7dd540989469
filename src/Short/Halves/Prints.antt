-- ===== src/Short/Halves/Prints.antt =====
-- short/short.c: what the bottom half prints after a number of interrupts.
use ldd.Common.{
  ℕ, suc, ◌+◌, ◌-◌, ◌≤◌, ◌<◌, ◌≡◌, ◌≢◌, refl, sym, ap, ap₂, ◌∙◌, subst, Bool, true, false, Option,
  none, some, List, [], ◌∷◌, ◌++◌, if◌then◌else◌, arith, inl, inr, length, length-set,
  length-append, length-replicate, replicate, lt→ltb, set, get_or-set_self, get_or-set_ne,
  Option-cases,
}
use ldd.Short.{Ring}
use ldd.Short.Halves.{
  Time, Halves, Outcome, done, faults, short_incr_tv, short_wq_interrupt, short_tl_interrupt, print,
  time_at, print_times, short_do_tasklet, headline, bottom_half_after, blank_padded, decimal,
}
use ldd.Short.Halves.Loop.{
  advance, incr-lt, advance-ne, Holds, print_all, print_all-none, print_all-some, stamps,
  print_times_lem, drained,
}

-- The top halves of a sequence of interrupts, each by one of the two handlers.
pub interrupts : ℕ → List (Bool × Time) → Halves → Halves
unfolding short_wq_interrupt short_tl_interrupt
interrupts nr [] h = h
interrupts nr ((tasklet, now) ∷ rest) h =
    interrupts nr rest
      (if tasklet then short_tl_interrupt nr h now else short_wq_interrupt nr h now)

abbrev pub times_of : List (Bool × Time) → List Time
times_of [] = []
times_of ((tasklet, now) ∷ rest) = now ∷ times_of rest

-- Both top halves do the same to the ring.
module _ (nr : ℕ) where
  abbrev stored : Halves → Time → Halves
  stored h now = record h {
    tv_data = set h.tv_data h.tv_head now;
    tv_head = short_incr_tv nr h.tv_head;
    scheduled = true;
    short_wq_count = h.short_wq_count + 1;
  }

  interrupts-cons :
      (tasklet : Bool) (now : Time) (rest : List (Bool × Time)) (h : Halves)
      → interrupts nr ((tasklet, now) ∷ rest) h ≡ interrupts nr rest (stored h now)
  unfolding interrupts short_wq_interrupt short_tl_interrupt
  interrupts-cons true now rest h = refl
  interrupts-cons false now rest h = refl

  -- The steps of the head, and what the handlers leave alone.
  pub record Filled (rest : List (Bool × Time)) (h after : Halves) : Type 0 where
    pub head : after.tv_head ≡ advance nr h.tv_head (length rest)
    pub size : length after.tv_data ≡ length h.tv_data
    pub count : after.short_wq_count ≡ h.short_wq_count + length rest
    pub tail : after.tv_tail ≡ h.tv_tail
    pub ring : after.ring ≡ h.ring

  interrupts-Filled :
      (rest : List (Bool × Time)) (h : Halves) → Filled rest h (interrupts nr rest h)
  unfolding interrupts
  interrupts-Filled [] h = record {
    head = refl;
    size = refl;
    count = omega arith;
    tail = refl;
    ring = refl;
  }
  interrupts-Filled ((tasklet, now) ∷ rest) h =
      let ih = interrupts-Filled rest (stored h now) in
      let c = ih.count in
      subst (Filled ((tasklet, now) ∷ rest) h) (sym (interrupts-cons tasklet now rest h)) (record {
        head = ih.head;
        size = ih.size ∙ length-set h.tv_data h.tv_head now;
        count = omega arith;
        tail = ih.tail;
        ring = ih.ring;
      })

  -- Interrupts whose places are others keep an entry.
  interrupts-kept :
      (rest : List (Bool × Time)) (h : Halves) (p : ℕ)
      → ((k : ℕ) → k < length rest → advance nr h.tv_head k ≢ p)
      → time_at (interrupts nr rest h).tv_data p ≡ time_at h.tv_data p
  unfolding interrupts
  interrupts-kept [] h p away = refl
  interrupts-kept ((tasklet, now) ∷ rest) h p away =
      ap (λ (x : Halves). time_at x.tv_data p) (interrupts-cons tasklet now rest h)
      ∙ interrupts-kept rest (stored h now) p (λ k i. away (suc k) (omega arith))
      ∙ get_or-set_ne h.tv_data h.tv_head p now (0, 0) (away 0 (omega arith))

  -- No more interrupts than the ring has places leave their times from the head on.
  interrupts-Holds :
      (rest : List (Bool × Time)) (h : Halves)
      → length rest ≤ nr
      → h.tv_head < nr
      → length h.tv_data ≡ nr
      → Holds nr (interrupts nr rest h).tv_data h.tv_head (times_of rest)
  unfolding interrupts
  interrupts-Holds [] h b i len = tt
  interrupts-Holds ((tasklet, now) ∷ rest) h b i len =
      let next = short_incr_tv nr h.tv_head in
      let here : time_at (interrupts nr rest (stored h now)).tv_data h.tv_head ≡ now =
        interrupts-kept rest (stored h now) h.tv_head
          (λ k j. advance-ne nr h.tv_head (suc k) i (omega arith) (omega arith))
        ∙ get_or-set_self h.tv_data h.tv_head now (0, 0) (omega arith) in
      let ih =
        interrupts-Holds rest (stored h now) (omega arith) (incr-lt nr h.tv_head i)
          (length-set h.tv_data h.tv_head now ∙ len) in
      subst (λ (x : Halves). Holds nr x.tv_data h.tv_head (now ∷ times_of rest))
        (sym (interrupts-cons tasklet now rest h)) (here, ih)

length-times_of : (rest : List (Bool × Time)) → length (times_of rest) ≡ length rest
length-times_of [] = refl
length-times_of ((tasklet, now) ∷ rest) = ap suc (length-times_of rest)

-- Nothing is pending.
pub record IsIdle (nr : ℕ) (h : Halves) : Type 0 where
  pub caught_up : h.tv_tail ≡ h.tv_head
  pub in_ring : h.tv_head < nr
  pub whole : length h.tv_data ≡ nr
  pub no_interrupt : h.short_wq_count ≡ 0

-- What the bottom half leaves: `none` stands for a text that does not fit in the page.
abbrev pub caught_up : Halves → Option Ring → Outcome
caught_up h none = faults
caught_up h (some r) =
    done (record h { ring = r; tv_tail = h.tv_head; short_wq_count = 0; scheduled = false })

pub drained-caught_up :
    (h : Halves) (r : Ring) (o : Option Ring)
    → drained (record h { ring = r; short_wq_count = 0; scheduled = false }) o ≡ caught_up h o
drained-caught_up h r none = refl
drained-caught_up h r (some s) = refl

module _ (page_size nr : ℕ) (h : Halves) where
  pub run-none :
      print page_size h.ring (headline h.short_wq_count) ≡ none
      → short_do_tasklet page_size nr h ≡ faults
  unfolding short_do_tasklet
  run-none k = rw (k, short_do_tasklet)

  pub run-some :
      (r : Ring)
      → print page_size h.ring (headline h.short_wq_count) ≡ some r
      → short_do_tasklet page_size nr h
        ≡ print_times page_size nr nr (record h { ring = r; short_wq_count = 0; scheduled = false })
  unfolding short_do_tasklet
  run-some r k = rw (k, short_do_tasklet)

-- With 1 to NR_TIMEVAL interrupts since the bottom half last ran, it ends; it prints their number and
-- then their times, all of them, each once and in the order of the interrupts, and has caught up
-- with the top half. It faults exactly where one of these texts, with its NUL, leaves the page.
pub short_do_tasklet-prints :
    (page_size nr : ℕ) (tasklet : Bool) (now : Time) (rest : List (Bool × Time)) (h : Halves)
    → IsIdle nr h
    → length rest < nr
    → short_do_tasklet page_size nr (interrupts nr ((tasklet, now) ∷ rest) h)
      ≡ caught_up
          (interrupts nr ((tasklet, now) ∷ rest) h)
          (print_all page_size h.ring (headline (length rest + 1) ∷ stamps (now ∷ times_of rest)))
unfolding short_do_tasklet
short_do_tasklet-prints page_size nr tasklet now rest h idle b =
    let all = (tasklet, now) ∷ rest in
    let times = now ∷ times_of rest in
    let len : length (times_of rest) ≡ length rest = length-times_of rest in
    let after = interrupts nr all h in
    let fill = interrupts-Filled nr all h in
    let i = idle.in_ring in
    let held = interrupts-Holds nr all h (omega arith) i idle.whole in
    let tail : h.tv_head ≡ after.tv_tail = sym idle.caught_up ∙ sym fill.tail in
    let n : after.short_wq_count ≡ length rest + 1 =
      let c = fill.count in let z = idle.no_interrupt in omega arith in
    let first : print page_size after.ring (headline after.short_wq_count)
        ≡ print page_size h.ring (headline (length rest + 1)) =
      ap₂ (λ (r : Ring) (m : ℕ). print page_size r (headline m)) fill.ring n in
    elim (Option-cases (print page_size h.ring (headline (length rest + 1)))) [
      | inl k ↦
          run-none page_size nr after (first ∙ k)
          ∙ sym (
              ap (caught_up after)
                (print_all-none page_size h.ring (headline (length rest + 1)) (stamps times) k))
      | inr (r, k) ↦
          let begun = record after { ring = r; short_wq_count = 0; scheduled = false } in
          run-some page_size nr after r (first ∙ k)
          ∙ print_times_lem page_size nr nr now (times_of rest) begun (omega (arith, len))
              (omega (arith, len)) (omega arith)
              (subst (λ (p : ℕ). Holds nr after.tv_data p times) tail held)
              (fill.head ∙ ap₂ (advance nr) tail (ap suc (sym len)))
          ∙ drained-caught_up after r (print_all page_size r (stamps times))
          ∙ sym (
              ap (caught_up after)
                (print_all-some page_size h.ring (headline (length rest + 1)) (stamps times) r k))
    ]

over :
    (page_size : ℕ) (r : Ring) (text : List ℕ)
    → page_size < r.head + length text + 1
    → print page_size r text ≡ none
unfolding print
over page_size r text h = let e = lt→ltb page_size (r.head + length text + 1) h in rw e

length-blank_padded : (w n : ℕ) → w ≤ length (blank_padded w n)
length-blank_padded w n =
    let pad = length-replicate {A = ℕ} (w - length (decimal n)) 32 in
    let all = length-append (replicate (w - length (decimal n)) 32) (decimal n) in omega arith

-- The headline has 25 characters or more.
length-headline : (savecount : ℕ) → 25 ≤ length (headline savecount)
unfolding headline
length-headline savecount =
    let p = length-blank_padded 6 savecount in
    let all = length-append bottom_half_after (blank_padded 6 savecount ++ (10 ∷ [])) in
    let last = length-append (blank_padded 6 savecount) (10 ∷ []) in omega arith

-- With less than 26 bytes left in the page, such as the last place of a time stamp, the bottom half
-- writes behind the page.
pub short_do_tasklet_overrun :
    (page_size nr : ℕ) (h : Halves)
    → page_size < h.ring.head + 26
    → short_do_tasklet page_size nr h ≡ faults
short_do_tasklet_overrun page_size nr h b = run-none page_size nr h (
    over page_size h.ring (headline h.short_wq_count)
      (omega (arith, length-headline h.short_wq_count)))
