-- ===== src/Phantom/Probe.antt =====
-- phantom/phantom.c: taking and giving back the kernel's resources. A resource is counted; of minors
-- and device nodes it is known which are taken.
pub mod Unwinding
use ldd.Common.{
  ℕ, zero, suc, ◌+◌, ◌-◌, ◌≤◌, ◌<◌, ◌≡◌, refl, sym, ap, Bool, true, false, Option, none, some, List,
  [], ◌∷◌, arith, length, get_or, set, ◌==◌, if◌then◌else◌, Bool-cases, Option-cases, inl, inr, Ret,
  Errno, ok, err, eio, enomem,
}
use ldd.Phantom.{Dev, Bank}

-- `minors` is the array phantom_devices.
pub record Kernel : Type 0 where
  pub enabled : ℕ
  pub minors : List Bool
  pub regions : ℕ
  pub devices : ℕ
  pub mappings : ℕ
  pub irqs : ℕ
  pub cdevs : ℕ
  pub nodes : List Bool

-- What the kernel answers to each request of phantom_probe: an error or `none`; whether there is memory
-- or a mapping.
pub record Answers : Type 0 where
  pub enable : Option Errno
  pub request_regions : Option Errno
  pub memory : Bool
  pub caddr : Bool
  pub iaddr : Bool
  pub oaddr : Bool
  pub request_irq : Option Errno
  pub cdev_add : Option Errno
  pub device_create : Bool

-- The first index that is free, or the length where none is.
pub phantom_get_free : List Bool → ℕ
phantom_get_free [] = 0
phantom_get_free (false ∷ minors) = 0
phantom_get_free (true ∷ minors) = suc (phantom_get_free minors)

-- The labels at the end of phantom_probe: each falls through to the one before it here.
abbrev pub err_dis : Kernel → Errno → Ret × Kernel
err_dis k e = (err e, record k { enabled = k.enabled - 1 })

abbrev pub err_null : ℕ → Kernel → Errno → Ret × Kernel
err_null minor k e = err_dis (record k { minors = set k.minors minor false }) e

abbrev pub err_reg : ℕ → Kernel → Errno → Ret × Kernel
err_reg minor k e = err_null minor (record k { regions = k.regions - 1 }) e

abbrev pub err_fr : ℕ → Kernel → Errno → Ret × Kernel
err_fr minor k e = err_reg minor (record k { devices = k.devices - 1 }) e

abbrev pub err_unmc : ℕ → Kernel → Errno → Ret × Kernel
err_unmc minor k e = err_fr minor (record k { mappings = k.mappings - 1 }) e

abbrev pub err_unmi : ℕ → Kernel → Errno → Ret × Kernel
err_unmi minor k e = err_unmc minor (record k { mappings = k.mappings - 1 }) e

abbrev pub err_unmo : ℕ → Kernel → Errno → Ret × Kernel
err_unmo minor k e = err_unmi minor (record k { mappings = k.mappings - 1 }) e

abbrev pub err_irq : ℕ → Kernel → Errno → Ret × Kernel
err_irq minor k e = err_unmo minor (record k { irqs = k.irqs - 1 }) e

-- phantom_probe from the request of the interrupt on.
pub probe_irq : Answers → ℕ → Kernel → Ret × Kernel
probe_irq a minor k = elim a.request_irq [
  | some e ↦ err_unmo minor k e
  | none ↦
      let l = record k { irqs = k.irqs + 1 } in
      elim a.cdev_add [
        | some e ↦ err_irq minor l e
        | none ↦ (
          ok 0,
          record l {
            cdevs = l.cdevs + 1;
            nodes = if a.device_create then set l.nodes minor true else l.nodes;
          },
        )
      ]
]

-- phantom_probe from the mapping of `caddr` on.
pub probe_map : Answers → ℕ → Kernel → Ret × Kernel
unfolding probe_irq
probe_map a minor k =
    let one = record k { mappings = k.mappings + 1 } in
    let two = record one { mappings = one.mappings + 1 } in
    let three = record two { mappings = two.mappings + 1 } in
    if a.caddr
    then (if a.iaddr
        then (if a.oaddr then probe_irq a minor three else err_unmi minor two enomem)
        else err_unmc minor one enomem)
    else err_fr minor k enomem

-- phantom_probe from the taking of a minor on.
pub probe_minor : Answers → ℕ → Kernel → Ret × Kernel
unfolding probe_map
probe_minor a minor k =
    let taken = record k { minors = set k.minors minor true } in
    let held = record taken { regions = taken.regions + 1 } in
    elim a.request_regions [
      | some e ↦ err_null minor taken e
      | none ↦
          if a.memory
          then probe_map a minor (record held { devices = held.devices + 1 })
          else err_reg minor held enomem
    ]

pub phantom_probe : Answers → Kernel → Ret × Kernel
unfolding probe_minor phantom_get_free
phantom_probe a k = elim a.enable [
  | some e ↦ (err e, k)
  | none ↦
      let l = record k { enabled = k.enabled + 1 } in
      let minor = phantom_get_free l.minors in
      if minor == 8 then err_dis l eio else probe_minor a minor l
]

-- The device that a probe sets up, with what its banks happen to hold.
pub new_device : Bank → Bank → Dev
new_device iaddr oaddr = record {
  opened = 0;
  irqctl = 0;
  iaddr = iaddr;
  oaddr = oaddr;
  status = record { running = false; not_oh = false };
  counter = 0;
  oregs = record { count = 0; mask = 0; values = [] };
  ctl_reg = 0;
}

pub phantom_remove : ℕ → Kernel → Kernel
phantom_remove minor k = record {
  enabled = k.enabled - 1;
  minors = set k.minors minor false;
  regions = k.regions - 1;
  devices = k.devices - 1;
  mappings = k.mappings - 1 - 1 - 1;
  irqs = k.irqs - 1;
  cdevs = k.cdevs - 1;
  nodes = set k.nodes minor false;
}
