-- ===== src/Phantom/Compat.antt =====
-- phantom/phantom.c, phantom_compat_ioctl: the commands of a 32-bit process.
use ldd.Common.{ℕ, ◌≤◌, ◌≡◌, ap, ◌&&◌, arith, leb, ◌==◌, if◌then◌else◌, Ret}
use ldd.Phantom.{Dev, Cmd, phantom_ioctl}

-- A command's number: _IOC_DIR, _IOC_TYPE, _IOC_NR, _IOC_SIZE.
pub record CmdNumber : Type 0 where
  pub ioc_dir : ℕ
  pub ioc_type : ℕ
  pub ioc_nr : ℕ
  pub ioc_size : ℕ

-- The size of a 32-bit pointer is replaced by that of a pointer.
pub native_number : CmdNumber → CmdNumber
native_number c = if leb c.ioc_nr 3 && (c.ioc_size == 4) then record c { ioc_size = 8 } else c

-- `decode` reads a command and, at the address, what it copies from the process.
pub phantom_compat_ioctl : (CmdNumber → Cmd) → Dev → CmdNumber → Ret × Dev
unfolding native_number
phantom_compat_ioctl decode d c = phantom_ioctl d (decode (native_number c))

-- For the first four commands a 32-bit process gets what another one gets for the same command.
pub phantom_compat_ioctl-native :
    (decode : CmdNumber → Cmd) (d : Dev) (c : CmdNumber)
    → c.ioc_nr ≤ 3
    → c.ioc_size ≡ 8
    → phantom_compat_ioctl decode d (record c { ioc_size = 4 }) ≡ phantom_ioctl d (decode c)
unfolding phantom_compat_ioctl
phantom_compat_ioctl-native decode d c nr size =
    ap (λ (x : CmdNumber). phantom_ioctl d (decode x)) (widened c nr size)
  where
    widened :
        (c : CmdNumber)
        → c.ioc_nr ≤ 3
        → c.ioc_size ≡ 8
        → native_number (record c { ioc_size = 4 }) ≡ c
    widened c nr size = ground arith
