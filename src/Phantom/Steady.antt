-- ===== src/Phantom/Steady.antt =====
-- phantom/phantom.c: how the status, the interrupt control and the control register belong together,
-- and that setting registers keeps it so.
use ldd.Common.{
  ℕ, ◌/◌, ◌%◌, ◌≤◌, ◌≡◌, refl, sym, ap, ◌∙◌, true, false, arith, ◌==◌, Bool-cases, inl, inr,
}
use ldd.Phantom.{
  Dev, Reg, Regs, has_irq, with_amp, flip_amp, phn_control, phantom_status, set_reg, set_regs,
}

pub record IsSteady (d : Dev) : Type 0 where
  pub one : d.opened ≤ 1
  -- A device that is not open neither runs nor is in NOT_OH mode.
  pub idle : d.opened ≡ 0 → (d.status.running ≡ false) × (d.status.not_oh ≡ false)
  -- While it runs its interrupts are on, in PHN_IRQCTL and in the control register, and in NOT_OH mode
  -- in the value that the next interrupt writes there; while it does not, PHN_IRQCTL has them off.
  pub on : d.status.running ≡ true → (d.irqctl ≡ 67) × (has_irq (d.iaddr phn_control) ≡ true)
  pub not_oh_on : d.status.running ≡ true → d.status.not_oh ≡ true → has_irq d.ctl_reg ≡ true
  pub off : d.status.running ≡ false → d.irqctl ≡ 0

pub has_irq-flip_amp : (v : ℕ) → has_irq (flip_amp v) ≡ has_irq v
has_irq-flip_amp v =
    let same : flip_amp v / 16 ≡ v / 16 = omega arith in ap (λ x. (x % 2) == 1) same

pub has_irq-with_amp : (v w : ℕ) → has_irq (with_amp v w) ≡ has_irq v
has_irq-with_amp v w =
    let same : with_amp v w / 16 ≡ v / 16 = omega arith in ap (λ x. (x % 2) == 1) same

pub IsSteady-running :
    (d : Dev)
    → d.opened ≡ 1
    → d.status.running ≡ true
    → d.irqctl ≡ 67
    → has_irq (d.iaddr phn_control) ≡ true
    → (d.status.not_oh ≡ true → has_irq d.ctl_reg ≡ true)
    → IsSteady d
IsSteady-running d o k q c n = record {
  one = omega arith;
  idle = λ z. absurd (omega arith);
  on = λ _. (q, c);
  not_oh_on = λ _. n;
  off = λ z. let never = sym k ∙ z in cc;
}

pub IsSteady-stopped :
    (d : Dev) → d.opened ≡ 1 → d.status.running ≡ false → d.irqctl ≡ 0 → IsSteady d
IsSteady-stopped d o k q = record {
  one = omega arith;
  idle = λ z. absurd (omega arith);
  on = λ z. let never = sym k ∙ z in cc;
  not_oh_on = λ z _. let never = sym k ∙ z in cc;
  off = λ _. q;
}

pub set_reg-IsSteady : (d : Dev) (r : Reg) → d.opened ≡ 1 → IsSteady d → IsSteady (set_reg d r).1
unfolding set_reg phantom_status
set_reg-IsSteady d r o i = elim (Bool-cases (r.reg == phn_control)) [
  | inr c ↦ simp c (record {
    one = i.one;
    idle = i.idle;
    on = λ k. ((i.on k).0, simp c ((i.on k).1));
    not_oh_on = i.not_oh_on;
    off = i.off;
  })
  | inl c ↦ elim (Bool-cases (has_irq r.value)) [
    | inl v ↦ elim (Bool-cases d.status.running) [
      | inl k ↦ elim (Bool-cases d.status.not_oh) [
        | inl n ↦
            simp (c, v, k, n, has_irq-with_amp)
              (IsSteady-running _ o refl ((i.on k).0)
                (simp c (has_irq-with_amp r.value d.ctl_reg ∙ v))
                (λ _. has_irq-with_amp r.value d.ctl_reg ∙ v))
        | inr n ↦ simp (c, v, k, n) (IsSteady-running _ o refl ((i.on k).0) (simp c v) (λ z. cc))
      ]
      | inr k ↦ elim (Bool-cases d.status.not_oh) [
        | inl n ↦
            simp (c, v, k, n, has_irq-with_amp)
              (IsSteady-running _ o refl refl (simp c (has_irq-with_amp r.value d.ctl_reg ∙ v))
                (λ _. has_irq-with_amp r.value d.ctl_reg ∙ v))
        | inr n ↦ simp (c, v, k, n) (IsSteady-running _ o refl refl (simp c v) (λ z. cc))
      ]
    ]
    | inr v ↦ elim (Bool-cases d.status.running) [
      | inl k ↦ elim (Bool-cases d.status.not_oh) [
        | inl n ↦ simp (c, v, k, n, has_irq-with_amp) (IsSteady-stopped _ o refl refl)
        | inr n ↦ simp (c, v, k, n) (IsSteady-stopped _ o refl refl)
      ]
      | inr k ↦ elim (Bool-cases d.status.not_oh) [
        | inl n ↦ simp (c, v, k, n, has_irq-with_amp) (IsSteady-stopped _ o refl (i.off k))
        | inr n ↦ simp (c, v, k, n) (IsSteady-stopped _ o refl (i.off k))
      ]
    ]
  ]
]

pub set_regs-IsSteady : (d : Dev) (rs : Regs) → IsSteady d → IsSteady (set_regs d rs)
unfolding set_regs
set_regs-IsSteady d rs i = elim (Bool-cases d.status.not_oh) [
  | inl n ↦
      simp n
        (record { one = i.one; idle = i.idle; on = i.on; not_oh_on = i.not_oh_on; off = i.off })
  | inr n ↦
      simp n
        (record { one = i.one; idle = i.idle; on = i.on; not_oh_on = i.not_oh_on; off = i.off })
]
