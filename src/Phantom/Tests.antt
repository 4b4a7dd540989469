-- ===== src/Phantom/Tests.antt =====
-- Runs of the phantom model.
use ldd.Common.{
  min, ◌≡◌, refl, true, false, none, some, [], ◌∷◌, arith, get_or, if◌then◌else◌, ebusy, replicate,
}
use ldd.Phantom.{
  Dev, Reg, Regs, Bank, phantom_ioctl, phantom_isr, phantom_open, phn_set_reg, phn_set_regs,
  set_reg, phantom_status,
}
use ldd.Phantom.Masks.{selected, set_regs_lem}
use ldd.Phantom.Sound
use ldd.Phantom.Steady.{IsSteady}
use ldd.Phantom.Sound.{Reach, Step, Opens, Reach-IsSteady, phantom_open-Opens}
use ldd.Phantom.Probe.{Kernel, phantom_probe}
use ldd.Phantom.Probe.Unwinding.{IsTidy, Probes, phantom_probe-Probes}
use ldd.Phantom.Probe
use ldd.Phantom.Init

abbrev blank : Bank
blank i = 0

abbrev fresh : Dev
fresh = record {
  opened = 0;
  irqctl = 0;
  iaddr = blank;
  oaddr = blank;
  status = record { running = false; not_oh = false };
  counter = 0;
  oregs = record { count = 0; mask = 0; values = [] };
  ctl_reg = 0;
}

abbrev opened : Dev
opened = record fresh { opened = 1 }

-- After PHN_SET_REG of the control register with the interrupt bit.
abbrev start : Reg
start = record { reg = 6; value = 17 }

fresh-IsSteady : IsSteady fresh
fresh-IsSteady = record {
  one = omega arith;
  idle = λ _. (refl, refl);
  on = λ z. cc;
  not_oh_on = λ z _. cc;
  off = λ _. refl;
}

abbrev started : Dev
started = (phantom_ioctl opened (phn_set_reg (some start))).1

started_runs : (started.irqctl ≡ 67) × (started.iaddr 6 ≡ 17) × (started.status.running ≡ true)
unfolding phantom_ioctl set_reg phantom_status
started_runs = (refl, refl, refl)

history : Reach fresh started
unfolding phantom_open
history =
    Sound.Reach.then_step opened started
      (Sound.Reach.then_step fresh opened Sound.Reach.here (Sound.Step.opens false opened refl))
      (Sound.Step.ioctls (phn_set_reg (some start)) started refl refl)

Reach-IsSteady_example : IsSteady started
Reach-IsSteady_example = Reach-IsSteady fresh started history fresh-IsSteady

abbrev forces : Regs
forces = record { count = 3; mask = 5; values = 10 ∷ 20 ∷ 30 ∷ 40 ∷ [] }

set_regs_lem_example :
    ((opened.status.not_oh ≡ false)
      → (phantom_ioctl opened (phn_set_regs (some forces))).1.oaddr 2
        ≡ (if selected forces 0 (min 3 8) 2 then get_or forces.values 2 0 else opened.oaddr 2))
    × ((opened.status.not_oh ≡ true)
        → ((phantom_ioctl opened (phn_set_regs (some forces))).1.oaddr 2 ≡ opened.oaddr 2)
          × ((phantom_isr (phantom_ioctl opened (phn_set_regs (some forces))).1 16).1.oaddr 2 ≡ (
              if selected forces 0 (min 3 8) 2 then get_or forces.values 2 0 else opened.oaddr 2)))
set_regs_lem_example = set_regs_lem opened forces 16 2 refl

abbrev plain : Dev
plain = record opened { status = record { running = false; not_oh = true }; ctl_reg = 1 }

abbrev running : Dev
running = record opened { status = record { running = true; not_oh = false }; irqctl = 67 }

abbrev kernel : Kernel
kernel = record {
  enabled = 0;
  minors = true ∷ replicate 7 false;
  regions = 1;
  devices = 1;
  mappings = 3;
  irqs = 1;
  cdevs = 1;
  nodes = true ∷ replicate 7 false;
}

kernel-IsTidy : IsTidy kernel
kernel-IsTidy = record { eight = refl; no_node = λ m e. e }

abbrev answers : Probe.Answers
answers = record {
  enable = none;
  request_regions = none;
  memory = true;
  caddr = true;
  iaddr = true;
  oaddr = true;
  request_irq = none;
  cdev_add = some ebusy;
  device_create = true;
}

phantom_probe-Probes_example : Probes kernel (phantom_probe answers kernel)
phantom_probe-Probes_example = phantom_probe-Probes answers kernel kernel-IsTidy

abbrev no_chrdev : Init.Answers
no_chrdev = record {
  class_create = none;
  class_create_file = none;
  alloc_chrdev_region = some ebusy;
  pci_register_driver = none;
}

abbrev unloaded : Init.Registered
unloaded = record { classes = 0; attributes = 0; regions = 0; drivers = 0 }
