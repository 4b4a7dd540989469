-- ===== src/Pipe/Bounds.antt =====
-- scull/pipe.c: when the pointers of an open pipe are in order, and what `spacefree` and the two
-- counts are then.
use ldd.Common.{ℕ, ◌+◌, ◌-◌, ◌%◌, ◌≤◌, ◌<◌, ◌≡◌, ◌≢◌, length, arith, leb, if◌then◌else◌}
use ldd.Pipe.{Pipe, mem, spacefree, read_count, write_count}

-- The buffer is there, `end` is its end, and both positions lie inside it.
pub record IsValid (p : Pipe) : Type 0 where
  pub storage : length (mem p) ≡ p.buffersize
  pub end_at : p.end ≡ p.buffersize
  pub rp_in : p.rp < p.buffersize
  pub wp_in : p.wp < p.buffersize

-- The number of bytes between the read and the write position, going round at the end.
abbrev pub used : Pipe → ℕ
used p = if leb p.rp p.wp then p.wp - p.rp else p.end - p.rp + p.wp

-- The remainder that `spacefree` takes, on either side.
wrap_above : (rp wp size : ℕ) → wp < rp → rp < size → (rp + size - wp) % size ≡ rp - wp
wrap_above rp wp size h k = grind arith

wrap_below : (rp wp size : ℕ) → rp < wp → wp < size → (rp + size - wp) % size ≡ rp + size - wp
wrap_below rp wp size h k = grind arith

pub spacefree-add-used : {p : Pipe} → IsValid p → spacefree p + used p + 1 ≡ p.buffersize
unfolding spacefree
spacefree-add-used {p} v =
    ground (arith, wrap_above p.rp p.wp p.buffersize, wrap_below p.rp p.wp p.buffersize)

-- A read takes at most what is there, and stays inside the buffer.
pub read_count_bounds :
    {p : Pipe} (count : ℕ)
    → IsValid p
    → p.rp ≢ p.wp
    → (read_count p count ≤ count)
      × (read_count p count ≤ used p)
      × (p.rp + read_count p count ≤ p.end)
      × (0 < count → 0 < read_count p count)
unfolding read_count
read_count_bounds count v ne = ground arith

-- A write takes at most what fits, and stays inside the buffer.
pub write_count_bounds :
    {p : Pipe} (count : ℕ)
    → IsValid p
    → (write_count p count ≤ count)
      × (write_count p count ≤ spacefree p)
      × (p.wp + write_count p count ≤ p.end)
      × (0 < count → 0 < spacefree p → 0 < write_count p count)
unfolding write_count
write_count_bounds {p} count v = ground (arith, spacefree-add-used v)
