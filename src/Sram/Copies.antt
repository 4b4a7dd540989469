-- ===== src/Sram/Copies.antt =====
-- sram/sram.c, sram_read and sram_write: the bytes of a partition.
use ldd.Common.{
  ℕ, ◌+◌, ◌≤◌, ◌≡◌, ap, List, length, slice-store_self, slice-store_before, slice-store_after,
}
use ldd.Sram.{sram_read, sram_write}

-- A write inside a partition reads back as what was written, and every read that does not meet it
-- returns what it did before.
pub sram_read-write :
    (base buf : List ℕ) (pos : ℕ)
    → pos + length buf ≤ length base
    → (sram_read (sram_write base buf pos).1 pos (length buf) ≡ (length buf, buf))
      × ((at n : ℕ)
          → at + n ≤ pos
          → sram_read (sram_write base buf pos).1 at n ≡ sram_read base at n)
      × ((at n : ℕ)
          → pos + length buf ≤ at
          → sram_read (sram_write base buf pos).1 at n ≡ sram_read base at n)
unfolding sram_read sram_write
sram_read-write base buf pos h = (
  ap (λ (xs : List ℕ). (length buf, xs)) (slice-store_self base pos buf h),
  λ at n k. ap (λ (xs : List ℕ). (n, xs)) (slice-store_before base at n pos buf k),
  λ at n k. ap (λ (xs : List ℕ). (n, xs)) (slice-store_after base at n pos buf k),
)
