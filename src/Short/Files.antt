-- ===== src/Short/Files.antt =====
-- short/short.c: short_open, short_release and short_poll, and the calls of the two devices.
use ldd.Common.{ℕ, ◌/◌, ◌%◌, ◌≤◌, ◌<◌, ◌≡◌, Bool, true, List, arith, ◌==◌, if◌then◌else◌, Ret, ok}
use ldd.Common.User.{UserCopy}
use ldd.Short.{Done, do_short_read, do_short_write}

-- `filp->f_op`.
pub data Fops : Type 0 where
  short_fops short_i_fops : Fops

pub short_open : ℕ → Fops → Ret × Fops
short_open minor f_op = (ok 0, if (minor / 128 % 2) == 1 then short_i_fops else f_op)

pub short_release : Ret
short_release = ok 0

-- POLLIN, POLLRDNORM, POLLOUT and POLLWRNORM: readable, writable.
pub short_poll : Bool × Bool
short_poll = (true, true)

module _ (u : UserCopy) where
  pub short_read : Bool → ℕ → ℕ → List ℕ → Bool → Done
  unfolding do_short_read
  short_read use_mem minor count inputs mem_ok = do_short_read u use_mem minor count inputs mem_ok

  pub short_write : ℕ → Bool → ℕ → List ℕ → ℕ → Bool → Done
  unfolding do_short_write
  short_write short_base use_mem minor buf count mem_ok =
      do_short_write u short_base use_mem minor buf count mem_ok

-- The minors from 128 to 255 are the interrupt device, those below it the port.
pub short_open-minor :
    (minor : ℕ)
    → minor < 256
    → ((128 ≤ minor) → short_open minor short_fops ≡ (ok 0, short_i_fops))
      × ((minor < 128) → short_open minor short_fops ≡ (ok 0, short_fops))
unfolding short_open
short_open-minor minor h = (λ k. ground arith, λ k. ground arith)
