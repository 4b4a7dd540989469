-- ===== src/Pipe/Poll.antt =====
-- scull/pipe.c, scull_p_poll: its mask against what a read or a write would do.
use ldd.Common.{ℕ, ◌+◌, ◌<◌, ◌≡◌, true, false, List, [], length, arith, ◌↔◌, err, eagain}
use ldd.Common.User.{UserCopy}
use ldd.Pipe.{Pipe, Filp, returns, scull_p_poll, scull_p_read, scull_p_write, write_data}
use ldd.Pipe.Bounds.{spacefree-add-used}
use ldd.Pipe.Contents.{contents, length-contents}
use ldd.Pipe.Blocking.{IsIdle}

module _ (u : UserCopy) (p : Pipe) (filp : Filp) (n : filp.nonblock ≡ true) (count : ℕ) where
  -- The bits say exactly when a non-blocking call would not be told to try again.
  pub scull_p_poll-nonblock :
      (buf : List ℕ)
      → (((scull_p_poll p).0.readable ≡ false)
          ↔ ((scull_p_read u p filp count false []).0 ≡ returns (err eagain)))
        × (((scull_p_poll p).0.writable ≡ false)
            ↔ ((scull_p_write u p filp buf count false []).0 ≡ returns (err eagain)))
  unfolding scull_p_poll scull_p_read scull_p_write write_data
  scull_p_poll-nonblock buf = ground arith

-- The mask in terms of the bytes in the pipe; the device is left as it was, with the mutex free.
pub scull_p_poll_lem :
    {p : Pipe}
    → IsIdle p
    → let (mask, q) = scull_p_poll p in
      ((mask.readable ≡ true) ↔ (0 < length (contents p)))
      × ((mask.writable ≡ true) ↔ (length (contents p) + 1 < p.buffersize))
      × (contents q ≡ contents p)
      × IsIdle q
unfolding scull_p_poll
scull_p_poll_lem {p} i =
    let v = i.valid in let free = i.free in ground (arith, length-contents v, spacefree-add-used v)
