-- ===== src/Common/Codes.antt =====
-- What a driver's entry points return: a count (or 0), or one of the negative error numbers that
-- the drivers use (described in errno.c and at their uses).
use Prim.Native.Nat.{ℕ}

pub data Errno : Type 0 where
  eagain ebusy efault einval eio enodev enomem enotty erestartsys : Errno

pub data Ret : Type 0 where
  ok : ℕ → Ret
  err : Errno → Ret
