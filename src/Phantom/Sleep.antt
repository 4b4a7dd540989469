-- ===== src/Phantom/Sleep.antt =====
-- phantom/phantom.c: the amplifier bit in NOT_OH mode, and what a suspend leaves behind.
use ldd.Common.{ℕ, ◌-◌, ◌%◌, ◌≡◌, refl, true, false, some, arith, Bool-cases, inl, inr}
use ldd.Phantom.Steady.{has_irq-with_amp}
use ldd.Phantom.{
  Dev, Reg, has_irq, with_amp, flip_amp, phn_control, phantom_status, set_reg, phantom_ioctl,
  phantom_isr, phantom_suspend, phantom_resume, phn_set_reg,
}

with_amp-mod : (v w : ℕ) → with_amp v w % 2 ≡ w % 2
with_amp-mod v w = omega arith

flip_amp-mod : (v : ℕ) → flip_amp v % 2 ≡ 1 - v % 2
flip_amp-mod v = omega arith

-- In NOT_OH mode a process cannot change the amplifier bit: PHN_SET_REG writes the control register
-- with the bit that it had, whatever the value asks for, and an interrupt of the device flips it.
pub amp_lem :
    (d : Dev) (r : Reg) (ctl : ℕ)
    → d.status.not_oh ≡ true
    → r.reg ≡ 6
    → has_irq ctl ≡ true
    → ((phantom_ioctl d (phn_set_reg (some r))).1.iaddr phn_control % 2 ≡ d.ctl_reg % 2)
      × ((phantom_ioctl d (phn_set_reg (some r))).1.ctl_reg % 2 ≡ d.ctl_reg % 2)
      × ((phantom_isr d ctl).1.iaddr phn_control % 2 ≡ 1 - d.ctl_reg % 2)
      × ((phantom_isr d ctl).1.ctl_reg % 2 ≡ 1 - d.ctl_reg % 2)
unfolding phantom_ioctl set_reg phantom_status phantom_isr
amp_lem d r ctl n c irq =
    let set_bit = with_amp-mod r.value d.ctl_reg in
    let flipped = flip_amp-mod d.ctl_reg in
    elim (Bool-cases (has_irq r.value)) [
      | inl v ↦ elim (Bool-cases d.status.running) [
        | inl k ↦ simp (c, v, k, n, irq, has_irq-with_amp) (set_bit, set_bit, flipped, flipped)
        | inr k ↦ simp (c, v, k, n, irq, has_irq-with_amp) (set_bit, set_bit, flipped, flipped)
      ]
      | inr v ↦ elim (Bool-cases d.status.running) [
        | inl k ↦ simp (c, v, k, n, irq, has_irq-with_amp) (set_bit, set_bit, flipped, flipped)
        | inr k ↦ simp (c, v, k, n, irq, has_irq-with_amp) (set_bit, set_bit, flipped, flipped)
      ]
    ]

-- A device that was running when it was suspended has its interrupts off after it is resumed, though
-- its status says that it runs; starting it again, by PHN_SET_REG of the control register with the
-- interrupt bit, leaves them off.
pub phantom_resume_lem :
    (d : Dev) (r : Reg)
    → d.status.running ≡ true
    → d.status.not_oh ≡ false
    → r.reg ≡ 6
    → has_irq r.value ≡ true
    → let e = (phantom_ioctl (phantom_resume (phantom_suspend d)) (phn_set_reg (some r))).1 in
      (e.irqctl ≡ 0) × (e.status.running ≡ true)
unfolding phantom_ioctl set_reg phantom_status phantom_suspend phantom_resume
phantom_resume_lem d r k n c v = simp (c, v, k, n) (refl, refl)
