-- ===== src/Short/Halves/Ends.antt =====
-- short/short.c: the bottom half ends, wherever the two indices stand in the ring.
use ldd.Common.{
  ℕ, zero, suc, ◌+◌, ◌-◌, ◌≤◌, ◌<◌, ◌≡◌, ◌≢◌, refl, sym, ap, ◌∙◌, false, Option, none, some, List,
  [], ◌∷◌, ltb, if◌then◌else◌, arith, inl, inr, length, Option-cases,
}
use ldd.Short.{Ring}
use ldd.Short.Halves.{
  Time, Halves, goes_on, short_incr_tv, print, time_at, short_do_tasklet, headline,
}
use ldd.Short.Halves.Loop.{
  advance, advance-eq, Holds, print_all, print_all-none, print_all-some, stamps, print_times_lem,
}
use ldd.Short.Halves.Prints.{caught_up, drained-caught_up, run-none, run-some}

-- `k` entries of the ring from a place on.
abbrev pub entries : ℕ → List Time → ℕ → ℕ → List Time
entries nr tv_data p zero = []
entries nr tv_data p (suc k) = time_at tv_data p ∷ entries nr tv_data (short_incr_tv nr p) k

entries-Holds :
    (nr : ℕ) (tv_data : List Time) (p k : ℕ) → Holds nr tv_data p (entries nr tv_data p k)
entries-Holds nr tv_data p zero = tt
entries-Holds nr tv_data p (suc k) = (refl, entries-Holds nr tv_data (short_incr_tv nr p) k)

length-entries : (nr : ℕ) (tv_data : List Time) (p k : ℕ) → length (entries nr tv_data p k) ≡ k
length-entries nr tv_data p zero = refl
length-entries nr tv_data p (suc k) = ap suc (length-entries nr tv_data (short_incr_tv nr p) k)

-- How many entries stand between the tail and the head, less one; the whole ring where they meet.
abbrev pub behind : ℕ → ℕ → ℕ → ℕ
behind nr tail head = if ltb tail head then head - tail - 1 else head + nr - tail - 1

behind-advance :
    (nr tail head : ℕ)
    → tail < nr
    → head < nr
    → (suc (behind nr tail head) ≤ nr) × (head ≡ advance nr tail (suc (behind nr tail head)))
behind-advance nr tail head h g =
    let le : suc (behind nr tail head) ≤ nr = ground arith in
    let a = advance-eq nr tail (suc (behind nr tail head)) h le in (le, sym (a ∙ ground arith))

caught_up-ends : (h : Halves) (o : Option Ring) → caught_up h o ≢ goes_on
caught_up-ends h none e = cc
caught_up-ends h (some r) e = cc

-- With both indices inside the ring, the bottom half ends within as many rounds as the ring has
-- places: it prints the count and the entries from the tail up to the head, which are all of the
-- ring where the two are equal, or it faults where a text leaves the page.
pub short_do_tasklet_ends :
    (page_size nr : ℕ) (h : Halves)
    → h.tv_tail < nr
    → h.tv_head < nr
    → (short_do_tasklet page_size nr h ≢ goes_on)
      × (short_do_tasklet page_size nr h
          ≡ caught_up h (
              print_all page_size h.ring (
                headline h.short_wq_count
                ∷ stamps (entries nr h.tv_data h.tv_tail (suc (behind nr h.tv_tail h.tv_head))))))
short_do_tasklet_ends page_size nr h b g =
    let k = behind nr h.tv_tail h.tv_head in
    let times = entries nr h.tv_data h.tv_tail (suc k) in
    let (le, at_head) = behind-advance nr h.tv_tail h.tv_head b g in
    let len = length-entries nr h.tv_data h.tv_tail (suc k) in
    let later = entries nr h.tv_data (short_incr_tv nr h.tv_tail) k in
    let all : short_do_tasklet page_size nr h
        ≡ caught_up h (print_all page_size h.ring (headline h.short_wq_count ∷ stamps times)) =
      elim (Option-cases (print page_size h.ring (headline h.short_wq_count))) [
        | inl e ↦
            run-none page_size nr h e
            ∙ sym (
                ap (caught_up h)
                  (print_all-none page_size h.ring (headline h.short_wq_count) (stamps times) e))
        | inr (r, e) ↦
            let begun = record h { ring = r; short_wq_count = 0; scheduled = false } in
            run-some page_size nr h r e
            ∙ print_times_lem page_size nr nr (time_at h.tv_data h.tv_tail) later begun
                (omega (arith, len)) (omega (arith, len)) b
                (entries-Holds nr h.tv_data h.tv_tail (suc k))
                (at_head ∙ ap (advance nr h.tv_tail) (sym len))
            ∙ drained-caught_up h r (print_all page_size r (stamps times))
            ∙ sym (
                ap (caught_up h)
                  (print_all-some page_size h.ring (headline h.short_wq_count) (stamps times) r e))
      ] in
    (λ e. caught_up-ends h _ (sym all ∙ e), all)
