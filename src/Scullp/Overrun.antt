-- ===== src/Scullp/Overrun.antt =====
-- scullp/main.c, scullp_write: blocks of more than one page, behind the first item.
use ldd.Common.{
  ℕ, zero, suc, ◌+◌, ◌≤◌, ◌<◌, ◌≡◌, ap, ◌∙◌, true, false, none, some, List, arith, length,
  replicate, get_or, length-replicate, Option-cases, inl, inr, lt→ltb,
}
use ldd.Common.User.{UserCopy}
use ldd.Scullp.{
  Dev, Quantum, get_item, get_quantum, pages, clip, write_quantum, allocate_quantum, allocate_array,
  scullp_write,
}
use ldd.Scullp.Follow.{scullp_follow-FollowedDev, scullp_follow_total}
use ldd.Scullp.Valid.{IsValid, followed-IsValid}
use ldd.Scullp.Locate.{item_of_pos, s_pos_of}

module _ (page_size : ℕ) (u : UserCopy) where
  module _ (d : Dev) (f_pos : ℕ) (buf : List ℕ) (count item s q : ℕ)
      (over : pages page_size (get_item d item).order < q + clip page_size d q count) where
    write_quantum_over :
        (qs : List Quantum) (b : List ℕ)
        → length b ≡ pages page_size (get_item d item).order
        → write_quantum page_size u d f_pos buf count item s q qs b ≡ none
    unfolding write_quantum
    write_quantum_over qs b k =
        simp (lt→ltb (length b) (q + clip page_size d q count) (omega arith))

    allocate_quantum_over :
        (qs : List Quantum)
        → ((b : List ℕ)
            → get_or qs s none ≡ some b
            → length b ≡ pages page_size (get_item d item).order)
        → allocate_quantum page_size u d f_pos buf count item s q true qs ≡ none
    unfolding allocate_quantum
    allocate_quantum_over qs h = elim (Option-cases (get_or qs s none)) [
      | inr (b, e) ↦ rw (e, allocate_quantum) (write_quantum_over qs b (h b e))
      | inl e ↦ rw (e, allocate_quantum) (write_quantum_over qs _ (length-replicate _ 0))
    ]

    no_blocks :
        (n t : ℕ) (b : List ℕ)
        → get_or {A = Quantum} (replicate n none) t none ≡ some b
        → length b ≡ pages page_size (get_item d item).order
    no_blocks zero t b e = cc
    no_blocks (suc n) zero b e = cc
    no_blocks (suc n) (suc t) b e = no_blocks n t b e

    allocate_array_over :
        IsValid page_size d → allocate_array page_size u d f_pos buf count item s q true true ≡ none
    unfolding allocate_array
    allocate_array_over v = elim (Option-cases (get_item d item).quanta) [
      | inr (qs, e) ↦
          rw (e, allocate_array)
            (allocate_quantum_over qs
              (λ b k. (v.fits item).block_fits s b (ap (λ x. get_quantum x s) e ∙ k)))
      | inl e ↦ rw (e, allocate_array) (allocate_quantum_over _ (no_blocks d.qset s))
    ]

  -- Behind the first item a block is one page long, whatever the order of the device, since its item
  -- is zeroed memory. A write there whose bytes end beyond the page, though inside the quantum,
  -- writes outside of the block whenever the mutex and the memory are to be had.
  pub scullp_write_overrun :
      (d : Dev) (f_pos : ℕ) (buf : List ℕ) (count i avail : ℕ)
      → IsValid page_size d
      → item_of_pos page_size d f_pos ≡ suc i
      → item_of_pos page_size d f_pos ≤ length d.next + avail
      → page_size < s_pos_of page_size d f_pos + clip page_size d (s_pos_of page_size d f_pos) count
      → scullp_write page_size u d f_pos buf count false avail true true ≡ none
  unfolding scullp_write
  scullp_write_overrun d f_pos buf count i avail v at memory over =
      let item = item_of_pos page_size d f_pos in
      let s = s_pos_of page_size d f_pos in
      let (e, k) = scullp_follow_total d item avail memory in
      let f = scullp_follow-FollowedDev d item avail e k in
      let v' = followed-IsValid page_size d item e f v in
      let single : (get_item e item).order ≡ 0 =
        ap (λ n. (get_item e n).order) at ∙ v'.order_behind i in
      let same : clip page_size e s count ≡ clip page_size d s count =
        ap (λ x. clip page_size x s count) f.grown in
      let beyond : pages page_size (get_item e item).order < s + clip page_size e s count =
        rw (single) (omega arith) in
      rw (k, scullp_write) (allocate_array_over e f_pos buf count item s s beyond v')
