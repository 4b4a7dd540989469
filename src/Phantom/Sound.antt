-- ===== src/Phantom/Sound.antt =====
-- phantom/phantom.c: what the status, the interrupt control and the control register have to do with
-- each other, over the calls of a file and the interrupts.
use ldd.Common.{
  ℕ, ◌≡◌, refl, ◌∙◌, Bool, true, false, none, some, arith, ltb, ◌==◌, Bool-cases, ==_iff, inl, inr,
  Ret, ok, err, einval, erestartsys,
}
use ldd.Phantom.{
  Dev, Cmd, has_irq, phantom_status, phantom_ioctl, phantom_open, phantom_release, phantom_isr,
  phn_set_reg, phn_set_regs, phn_get_reg, phn_get_regs, phn_not_oh, other,
}
use ldd.Phantom.Steady.{
  IsSteady, IsSteady-stopped, has_irq-flip_amp, set_reg-IsSteady, set_regs-IsSteady,
}

phantom_ioctl-IsSteady :
    (d : Dev) (c : Cmd) → d.opened ≡ 1 → IsSteady d → IsSteady (phantom_ioctl d c).1
unfolding phantom_ioctl
phantom_ioctl-IsSteady d (phn_set_reg none) o i = i
phantom_ioctl-IsSteady d (phn_set_reg (some r)) o i = elim (Bool-cases (ltb 7 r.reg)) [
  | inl e ↦ simp e i
  | inr e ↦ simp e (set_reg-IsSteady d r o i)
]
phantom_ioctl-IsSteady d (phn_set_regs none) o i = i
phantom_ioctl-IsSteady d (phn_set_regs (some rs)) o i = set_regs-IsSteady d rs i
phantom_ioctl-IsSteady d (phn_get_reg none bank copied) o i = i
phantom_ioctl-IsSteady d (phn_get_reg (some r) bank copied) o i = elim (Bool-cases (ltb 7 r.reg)) [
  | inl e ↦ simp e i
  | inr e ↦ elim (Bool-cases copied) [ inl k ↦ simp (e, k) i | inr k ↦ simp (e, k) i ]
]
phantom_ioctl-IsSteady d (phn_get_regs none bank copied) o i = i
phantom_ioctl-IsSteady d (phn_get_regs (some rs) bank copied) o i = record {
  one = i.one;
  idle = i.idle;
  on = i.on;
  not_oh_on = i.not_oh_on;
  off = i.off;
}
phantom_ioctl-IsSteady d phn_not_oh o i = elim (Bool-cases d.status.running) [
  | inl k ↦ simp k i
  | inr k ↦ simp k (IsSteady-stopped _ o refl (i.off k))
]
phantom_ioctl-IsSteady d other o i = i

phantom_release-IsSteady : (d : Dev) → IsSteady d → IsSteady (phantom_release d).1
unfolding phantom_release phantom_status
phantom_release-IsSteady d i = elim (Bool-cases d.status.running) [
  | inl k ↦ simp k (closed 0 refl)
  | inr k ↦ simp k (closed d.irqctl (i.off k))
]
  where
    closed :
        (irqctl : ℕ)
        → irqctl ≡ 0
        → IsSteady (record d {
          opened = 0;
          irqctl = irqctl;
          status = record { running = false; not_oh = false };
        })
    closed irqctl q = record {
      one = omega arith;
      idle = λ _. (refl, refl);
      on = λ z. cc;
      not_oh_on = λ z _. cc;
      off = λ _. q;
    }

phantom_isr-IsSteady : (d : Dev) (ctl : ℕ) → IsSteady d → IsSteady (phantom_isr d ctl).1
unfolding phantom_isr
phantom_isr-IsSteady d ctl i = elim (Bool-cases (has_irq ctl)) [
  | inr e ↦ simp e i
  | inl e ↦ elim (Bool-cases d.status.not_oh) [
    | inr n ↦
        simp (e, n)
          (record { one = i.one; idle = i.idle; on = i.on; not_oh_on = i.not_oh_on; off = i.off })
    | inl n ↦
        simp (e, n)
          (record {
            one = i.one;
            idle = i.idle;
            on = λ k. ((i.on k).0, has_irq-flip_amp d.ctl_reg ∙ i.not_oh_on k n);
            not_oh_on = λ k n'. has_irq-flip_amp d.ctl_reg ∙ i.not_oh_on k n;
            off = i.off;
          })
  ]
]

-- The calls that reach a device: its file's, while there is one, and the interrupts.
pub data Step (d : Dev) : Dev → Type 0 where
  opens : (interrupted : Bool) (e : Dev) → e ≡ (phantom_open d interrupted).1 → Step d e
  ioctls : (c : Cmd) (e : Dev) → d.opened ≡ 1 → e ≡ (phantom_ioctl d c).1 → Step d e
  releases : (e : Dev) → d.opened ≡ 1 → e ≡ (phantom_release d).1 → Step d e
  interrupts : (ctl : ℕ) (e : Dev) → e ≡ (phantom_isr d ctl).1 → Step d e

pub data Reach (d : Dev) : Dev → Type 0 where
  here : Reach d d
  then_step : (u v : Dev) → Reach d u → Step u v → Reach d v

-- How an open ends.
pub data Opens (d : Dev) (interrupted : Bool) (r : Ret × Dev) : Type 0 where
  opened :
      interrupted ≡ false
      → d.opened ≡ 0
      → (d.status.running ≡ false) × (d.status.not_oh ≡ false)
      → r ≡ (ok 0, record d { counter = 0; opened = 1 })
      → Opens d interrupted r
  busy : interrupted ≡ false → d.opened ≡ 1 → r ≡ (err einval, d) → Opens d interrupted r
  interrupted_wait : interrupted ≡ true → r ≡ (err erestartsys, d) → Opens d interrupted r

-- An open succeeds exactly when no file is open, and then the device neither runs nor is in NOT_OH
-- mode; otherwise it answers EINVAL, or ERESTARTSYS when it is interrupted, and the device stays.
pub phantom_open-Opens :
    (d : Dev) (interrupted : Bool) → IsSteady d → Opens d interrupted (phantom_open d interrupted)
unfolding phantom_open
phantom_open-Opens d true i = interrupted_wait refl refl
phantom_open-Opens d false i = elim (Bool-cases (d.opened == 0)) [
  | inl e ↦ let z = (==_iff d.opened 0).0 e in opened refl z (i.idle z) (simp z)
  | inr e ↦ let one = i.one in busy refl (ground arith) (simp e)
]

phantom_open-IsSteady :
    (d : Dev) (interrupted : Bool) → IsSteady d → IsSteady (phantom_open d interrupted).1
phantom_open-IsSteady d interrupted i = elim (phantom_open-Opens d interrupted i) [
  | opened k z (stopped, n) r ↦ rw r (IsSteady-stopped _ refl stopped (i.off stopped))
  | busy k z r ↦ rw r i
  | interrupted_wait k r ↦ rw r i
]

-- Over any sequence of opens, ioctls, releases and interrupts: at most one file is open; a device that
-- is not open neither runs nor is in NOT_OH mode; while it runs, its interrupts are on, in PHN_IRQCTL
-- and in the control register; while it does not, PHN_IRQCTL has them off.
pub Reach-IsSteady : (d e : Dev) → Reach d e → IsSteady d → IsSteady e
Reach-IsSteady d e Reach.here i = i
Reach-IsSteady d e (Reach.then_step u v r s) i = step u v s (Reach-IsSteady d u r i)
  where
    step : (u v : Dev) → Step u v → IsSteady u → IsSteady v
    step u v (Step.opens interrupted w e) i = rw e (phantom_open-IsSteady u interrupted i)
    step u v (Step.ioctls c w o e) i = rw e (phantom_ioctl-IsSteady u c o i)
    step u v (Step.releases w o e) i = rw e (phantom_release-IsSteady u i)
    step u v (Step.interrupts ctl w e) i = rw e (phantom_isr-IsSteady u ctl i)
