-- ===== src/Phantom.antt =====
-- phantom/phantom.c: the device's registers, its status and the calls of its file. A register is what
-- was last written to it; what the hardware lets the driver read is an argument. PHB_RUNNING and
-- PHB_NOT_OH are the two bits that `status` ever has.
pub mod Masks
pub mod Steady
pub mod Sound
pub mod Sleep
pub mod Compat
pub mod Probe
pub mod Init
mod Tests
use ldd.Common.{
  ℕ, zero, suc, ◌+◌, ◌-◌, ◌*◌, ◌/◌, ◌%◌, ◌^◌, min, Bool, true, false, not, ◌&&◌, ◌||◌, Option, none,
  some, List, [], ◌∷◌, ltb, ◌==◌, if◌then◌else◌, get_or, set, Ret, ok, err, efault, einval, enodev,
  enotty, erestartsys,
}

pub record Status : Type 0 where
  pub running : Bool
  pub not_oh : Bool

-- `struct phm_reg` and `struct phm_regs`.
pub record Reg : Type 0 where
  pub reg : ℕ
  pub value : ℕ

pub record Regs : Type 0 where
  pub count : ℕ
  pub mask : ℕ
  pub values : List ℕ

-- A bank of registers.
abbrev pub Bank : Type 0
Bank = ℕ → ℕ

abbrev pub iowrite32 : ℕ → ℕ → Bank → Bank
iowrite32 value addr bank i = if addr == i then value else bank i

-- `struct phantom_device`; `irqctl` is the register PHN_IRQCTL of `caddr`.
pub record Dev : Type 0 where
  pub opened : ℕ
  pub irqctl : ℕ
  pub iaddr : Bank
  pub oaddr : Bank
  pub status : Status
  pub counter : ℕ
  pub oregs : Regs
  pub ctl_reg : ℕ

abbrev pub phn_control : ℕ
phn_control = 6

-- `v & PHN_CTL_IRQ`, bit 4.
abbrev pub has_irq : ℕ → Bool
has_irq v = ((v / 16) % 2) == 1

-- `v & BIT(i)`.
abbrev pub has_bit : ℕ → ℕ → Bool
has_bit v i = ((v / 2 ^ i) % 2) == 1

-- `v & ~PHN_CTL_AMP | w & PHN_CTL_AMP`, bit 0, and `v ^ PHN_CTL_AMP`.
abbrev pub with_amp : ℕ → ℕ → ℕ
with_amp v w = (v - v % 2) + w % 2

abbrev pub flip_amp : ℕ → ℕ
flip_amp v = (v - v % 2) + (1 - v % 2)

-- It always returns 0.
pub phantom_status : Dev → Status → Ret × Dev
phantom_status d newstat =
    if not d.status.running && newstat.running
    then (
      ok 0,
      record d {
        counter = 0;
        iaddr = iowrite32 16 phn_control d.iaddr;
        irqctl = 67;
        status = newstat;
      },
    )
    else (if d.status.running && not newstat.running
        then (ok 0, record d { irqctl = 0; status = newstat })
        else (ok 0, record d { status = newstat }))

-- The loop of PHN_SET_REGS and of the interrupt handler, `n` rounds from `i` on.
pub write_regs : Regs → ℕ → ℕ → Bank → Bank
write_regs r i zero bank = bank
write_regs r i (suc n) bank =
    write_regs r (suc i) n
      (if has_bit r.mask i then iowrite32 (get_or r.values i 0) i bank else bank)

-- The loop of PHN_GET_REGS: `bank` is what the hardware shows.
pub read_regs : Regs → ℕ → ℕ → Bank → List ℕ
read_regs r i zero bank = r.values
read_regs r i (suc n) bank =
    let values = if has_bit r.mask i then set r.values i (bank i) else r.values in
    read_regs (record r { values = values }) (suc i) n bank

-- PHN_SET_REG on a register that there is. The test of `phantom_status`'s result fails.
pub set_reg : Dev → Reg → Ret × Dev
unfolding phantom_status
set_reg d r =
    let starts = (r.reg == phn_control) && has_irq r.value in
    let (ret, started) = phantom_status d (record d.status { running = true }) in
    let e = if starts then started else d in
    let kept = (r.reg == phn_control) && e.status.not_oh in
    let value = if kept then with_amp r.value e.ctl_reg else r.value in
    let written = record e {
      ctl_reg = if kept then value else e.ctl_reg;
      iaddr = iowrite32 value r.reg e.iaddr;
    } in
    if (r.reg == phn_control) && not (has_irq value)
    then (ok 0, (phantom_status written (record written.status { running = false })).1)
    else (ok 0, written)

-- PHN_SET_REGS.
pub set_regs : Dev → Regs → Dev
unfolding write_regs
set_regs d rs =
    if d.status.not_oh
    then record d { oregs = rs }
    else record d { oaddr = write_regs rs 0 (min rs.count 8) d.oaddr }

-- The commands, with the struct that was copied from user space, if it could be; for those that
-- answer, what the hardware shows and whether the answer could be copied back.
pub data Cmd : Type 0 where
  phn_set_reg : Option Reg → Cmd
  phn_set_regs : Option Regs → Cmd
  phn_get_reg : Option Reg → Bank → Bool → Cmd
  phn_get_regs : Option Regs → Bank → Bool → Cmd
  phn_not_oh : Cmd
  other : Cmd

pub phantom_ioctl : Dev → Cmd → Ret × Dev
unfolding set_reg set_regs
phantom_ioctl d (phn_set_reg none) = (err efault, d)
phantom_ioctl d (phn_set_reg (some r)) = if ltb 7 r.reg then (err einval, d) else set_reg d r
phantom_ioctl d (phn_set_regs none) = (err efault, d)
phantom_ioctl d (phn_set_regs (some rs)) = (ok 0, set_regs d rs)
phantom_ioctl d (phn_get_reg none bank copied) = (err efault, d)
phantom_ioctl d (phn_get_reg (some r) bank copied) =
    if ltb 7 r.reg then (err einval, d) else (if copied then (ok 0, d) else (err efault, d))
phantom_ioctl d (phn_get_regs none bank copied) = (err efault, d)
phantom_ioctl d (phn_get_regs (some rs) bank copied) =
    (if copied then ok 0 else err efault, record d { counter = 0 })
phantom_ioctl d phn_not_oh =
    if d.status.running
    then (err einval, d)
    else (ok 0, record d { status = record d.status { not_oh = true } })
phantom_ioctl d other = (err enotty, d)

-- What PHN_GET_REG and PHN_GET_REGS copy back.
abbrev pub got_reg : Reg → Bank → Reg
got_reg r bank = record r { value = bank r.reg }

pub got_regs : Regs → Bank → List ℕ
unfolding read_regs
got_regs rs bank = read_regs rs 0 (min rs.count 8) bank

pub phantom_open : Dev → Bool → Ret × Dev
phantom_open d interrupted =
    if interrupted
    then (err erestartsys, d)
    else (if d.opened == 0
        then (ok 0, record d { counter = 0; opened = d.opened + 1 })
        else (err einval, d))

pub phantom_release : Dev → Ret × Dev
unfolding phantom_status
phantom_release d =
    let e = record d { opened = 0 } in
    let (ret, f) = phantom_status e (record e.status { running = false }) in
    (ok 0, record f { status = record f.status { not_oh = false } })

pub data PollMask : Type 0 where
  epollerr epollin nothing : PollMask

pub phantom_poll : Dev → PollMask
phantom_poll d =
    if not d.status.running then epollerr else (if d.counter == 0 then nothing else epollin)

-- `ctl` is what the control register reads as; whether the interrupt was the device's. The counter
-- wraps at 32 bits, as an atomic_t does.
pub phantom_isr : Dev → ℕ → Bool × Dev
unfolding write_regs
phantom_isr d ctl =
    let e = record d { iaddr = iowrite32 192 0 (iowrite32 0 0 d.iaddr) } in
    let f = record e {
      oaddr = write_regs e.oregs 0 (min e.oregs.count 8) e.oaddr;
      ctl_reg = flip_amp e.ctl_reg;
      iaddr = iowrite32 (flip_amp e.ctl_reg) phn_control e.iaddr;
    } in
    let g = if d.status.not_oh then f else e in
    if has_irq ctl then (true, record g { counter = (g.counter + 1) % 2 ^ 32 }) else (false, d)

pub phantom_suspend : Dev → Dev
phantom_suspend d = record d { irqctl = 0 }

pub phantom_resume : Dev → Dev
phantom_resume d = record d { irqctl = 0 }
