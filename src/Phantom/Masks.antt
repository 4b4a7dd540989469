-- ===== src/Phantom/Masks.antt =====
-- phantom/phantom.c: the loops over the registers that a mask selects.
use ldd.Common.{
  some, ℕ, zero, suc, ◌+◌, min, ◌≡◌, ◌≢◌, refl, subst, ap, ◌∙◌, Bool, true, false, ◌&&◌, arith, ltb,
  leb, ◌==◌, if◌then◌else◌, get_or, Bool-cases, ℕ_discrete, inl, inr,
}
use ldd.Phantom.{
  Dev, phn_set_regs, has_irq, phantom_ioctl, phantom_isr, set_regs, Regs, Bank, iowrite32, has_bit,
  write_regs,
}

abbrev pub within : ℕ → ℕ → ℕ → Bool
within i n j = leb i j && ltb j (i + n)

-- The registers that a loop of `n` rounds from `i` on selects.
abbrev pub selected : Regs → ℕ → ℕ → ℕ → Bool
selected r i n j = within i n j && has_bit r.mask j

within-suc : (i n j : ℕ) → i ≢ j → within (suc i) n j ≡ within i (suc n) j
within-suc i n j ne = ground arith

within_past : (i n j : ℕ) → i ≡ j → within (suc i) n j ≡ false
within_past i n j e = ground arith

within_first : (i n j : ℕ) → i ≡ j → within i (suc n) j ≡ true
within_first i n j e = ground arith

not_equal : (i j : ℕ) → i ≢ j → (i == j) ≡ false
not_equal i j ne = ground arith

equal : (i j : ℕ) → i ≡ j → (i == j) ≡ true
equal i j e = ground arith

-- Exactly the registers that the mask selects below the count are written, each with its value.
pub write_regs_lem :
    (r : Regs) (i n : ℕ) (bank : Bank) (j : ℕ)
    → write_regs r i n bank j ≡ (if selected r i n j then get_or r.values j 0 else bank j)
unfolding write_regs
write_regs_lem r i zero bank j = let w : within i zero j ≡ false = ground arith in simp w
write_regs_lem r i (suc n) bank j = elim (Bool-cases (has_bit r.mask i)) [
  | inl b ↦
      let ih = write_regs_lem r (suc i) n (iowrite32 (get_or r.values i 0) i bank) j in
      elim (ℕ_discrete i j) [
        | yes e ↦
            let b' : has_bit r.mask j ≡ true = subst (λ k. has_bit r.mask k ≡ true) e b in
            simp b (
              ih
              ∙ simp (within_past i n j e, within_first i n j e, b', equal i j e)
                  (ap (λ k. get_or r.values k 0) e))
        | no ne ↦ simp b (ih ∙ simp (within-suc i n j ne, not_equal i j ne))
      ]
  | inr b ↦
      let ih = write_regs_lem r (suc i) n bank j in
      elim (ℕ_discrete i j) [
        | yes e ↦
            let b' : has_bit r.mask j ≡ false = subst (λ k. has_bit r.mask k ≡ false) e b in
            simp b (ih ∙ simp (within_past i n j e, within_first i n j e, b'))
        | no ne ↦ simp b (ih ∙ simp (within-suc i n j ne))
      ]
]

-- PHN_SET_REGS takes effect at once, or in NOT_OH mode at the next interrupt of the device: the
-- output registers that the mask selects below the count, at most 8, get their values, and the
-- others stay.
pub set_regs_lem :
    (d : Dev) (rs : Regs) (ctl j : ℕ)
    → has_irq ctl ≡ true
    → ((d.status.not_oh ≡ false)
        → (phantom_ioctl d (phn_set_regs (some rs))).1.oaddr j
          ≡ (if selected rs 0 (min rs.count 8) j then get_or rs.values j 0 else d.oaddr j))
      × ((d.status.not_oh ≡ true)
          → ((phantom_ioctl d (phn_set_regs (some rs))).1.oaddr j ≡ d.oaddr j)
            × ((phantom_isr (phantom_ioctl d (phn_set_regs (some rs))).1 ctl).1.oaddr j
                ≡ (if selected rs 0 (min rs.count 8) j then get_or rs.values j 0 else d.oaddr j)))
unfolding phantom_ioctl set_regs phantom_isr
set_regs_lem d rs ctl j irq = (
  λ off. simp off (write_regs_lem rs 0 (min rs.count 8) d.oaddr j),
  λ on. simp (on, irq) (refl, write_regs_lem rs 0 (min rs.count 8) d.oaddr j),
)
