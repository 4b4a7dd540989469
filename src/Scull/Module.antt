-- ===== src/Scull/Module.antt =====
-- scull_char_device/main.c, scull_setup_cdev: the registration of a device.
use ldd.Common.{Bool}
use ldd.Common.Registry.{Registry, Slot, setup_cdev}
use ldd.Scull.{Dev}

-- A failure of `cdev_add` is printed and otherwise ignored; the device itself stays.
abbrev pub scull_setup_cdev : Dev → Bool → Registry → Slot Dev × Registry
scull_setup_cdev = setup_cdev
