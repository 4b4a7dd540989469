-- ===== src/Short/Halves/Loop.antt =====
-- short/short.c: the ring of times, and the loop of the bottom half.
use ldd.Common.{
  ℕ, zero, suc, ◌+◌, ◌-◌, ◌≤◌, ◌<◌, ◌≡◌, ◌≢◌, sym, ap, ◌∙◌, true, false, Option, none, some, List,
  [], ◌∷◌, ltb, ◌==◌, ==_iff, if◌then◌else◌, arith, inl, inr, length, Option-cases,
}
use ldd.Short.{Ring, stamp}
use ldd.Short.Halves.{
  Time, Halves, Outcome, done, faults, short_incr_tv, print, time_at, print_times,
}

module _ (nr : ℕ) where
  -- `k` steps through the ring.
  abbrev pub advance : ℕ → ℕ → ℕ
  advance p zero = p
  advance p (suc k) = advance (short_incr_tv nr p) k

  pub incr-lt : (p : ℕ) → p < nr → short_incr_tv nr p < nr
  unfolding short_incr_tv
  incr-lt p h = ground arith

  pub advance-eq :
      (p k : ℕ) → p < nr → k ≤ nr → advance p k ≡ (if ltb (p + k) nr then p + k else p + k - nr)
  unfolding short_incr_tv
  advance-eq p zero h g = ground arith
  advance-eq p (suc k) h g =
      ground (arith, advance-eq (short_incr_tv nr p) k (incr-lt p h) (omega arith))

  -- Fewer steps than the ring is long do not come back.
  pub advance-ne : (p k : ℕ) → p < nr → 0 < k → k < nr → advance p k ≢ p
  advance-ne p k h z g e = let a = advance-eq p k h (omega arith) in ground arith

  -- The ring holds these times from a place on.
  abbrev pub Holds : List Time → ℕ → List Time → Type 0
  Holds tv_data p [] = Unit {0}
  Holds tv_data p (t ∷ times) = (time_at tv_data p ≡ t) × Holds tv_data (short_incr_tv nr p) times

-- The texts printed one behind the other; `none` where one leaves the page.
abbrev pub print_all : ℕ → Ring → List (List ℕ) → Option Ring
print_all page_size r [] = some r
print_all page_size r (x ∷ texts) = elim (print page_size r x) [
  | none ↦ none
  | some s ↦ print_all page_size s texts
]

abbrev pub stamps : List Time → List (List ℕ)
stamps [] = []
stamps (t ∷ times) = stamp t.0 t.1 ∷ stamps times

-- What the loop leaves.
abbrev pub drained : Halves → Option Ring → Outcome
drained h none = faults
drained h (some r) = done (record h { ring = r; tv_tail = h.tv_head })

not_there : (a b : ℕ) → a ≢ b → (a == b) ≡ false
not_there a b h = ground arith

-- The first of several texts.
module _ (page_size : ℕ) (r : Ring) (x : List ℕ) (texts : List (List ℕ)) where
  pub print_all-none : print page_size r x ≡ none → print_all page_size r (x ∷ texts) ≡ none
  print_all-none k = rw (k, print_all)

  pub print_all-some :
      (s : Ring)
      → print page_size r x ≡ some s
      → print_all page_size r (x ∷ texts) ≡ print_all page_size s texts
  print_all-some s k = rw (k, print_all)

module _ (page_size nr : ℕ) where
  -- The loop prints the times that stand between the tail and the head, in their order.
  pub print_times_lem :
      (fuel : ℕ) (t : Time) (times : List Time) (h : Halves)
      → length (t ∷ times) ≤ fuel
      → length (t ∷ times) ≤ nr
      → h.tv_tail < nr
      → Holds nr h.tv_data h.tv_tail (t ∷ times)
      → h.tv_head ≡ advance nr h.tv_tail (length (t ∷ times))
      → print_times page_size nr fuel h
        ≡ drained h (print_all page_size h.ring (stamps (t ∷ times)))
  unfolding print_times
  print_times_lem zero t times h f g b held e = absurd (omega arith)
  print_times_lem (suc fuel) t [] h f g b (here, held) e =
      elim (Option-cases (print page_size h.ring (stamp t.0 t.1))) [
        | inl k ↦
            let left : print_times page_size nr (suc fuel) h ≡ faults = rw (here, k, print_times) in
            left ∙ sym (ap (drained h) (print_all-none page_size h.ring (stamp t.0 t.1) [] k))
        | inr (r, k) ↦
            let last : (short_incr_tv nr h.tv_tail == h.tv_head) ≡ true = (==_iff _ _).1 (sym e) in
            let left : print_times page_size nr (suc fuel) h
                ≡ done (record h { ring = r; tv_tail = short_incr_tv nr h.tv_tail }) =
              rw (here, k, last, print_times) in
            left
            ∙ ap (λ (p : ℕ). done (record h { ring = r; tv_tail = p })) (sym e)
            ∙ sym (ap (drained h) (print_all-some page_size h.ring (stamp t.0 t.1) [] r k))
      ]
  print_times_lem (suc fuel) t (s ∷ times) h f g b (here, held) e =
      elim (Option-cases (print page_size h.ring (stamp t.0 t.1))) [
        | inl k ↦
            let left : print_times page_size nr (suc fuel) h ≡ faults = rw (here, k, print_times) in
            left
            ∙ sym (
                ap (drained h)
                  (print_all-none page_size h.ring (stamp t.0 t.1) (stamps (s ∷ times)) k))
        | inr (r, k) ↦
            let tail = short_incr_tv nr h.tv_tail in
            let on : (tail == h.tv_head) ≡ false = not_there _ _ (λ k.
              advance-ne nr tail (length (s ∷ times)) (incr-lt nr h.tv_tail b) (omega arith)
                (omega arith) (sym (k ∙ e))) in
            let next = record h { ring = r; tv_tail = tail } in
            let left : print_times page_size nr (suc fuel) h ≡ print_times page_size nr fuel next =
              rw (here, k, on, print_times) in
            left
            ∙ print_times_lem fuel s times next (omega arith) (omega arith) (incr-lt nr h.tv_tail b)
                held e
            ∙ sym (
                ap (drained h)
                  (print_all-some page_size h.ring (stamp t.0 t.1) (stamps (s ∷ times)) r k))
      ]
