-- ===== src/Sram/Probe/Sound.antt =====
-- sram/sram.c: the clock and the files across sram_probe and sram_remove.
use ldd.Common.{ℕ, ◌≡◌, Bool, List, Ret, Errno, ok, err}
use ldd.Sram.{Sram}
use ldd.Sram.Files.{IsOwned}
use ldd.Sram.Probe.{Dev, sram_remove}

-- How a probe ends.
pub data Probes (clk : Bool) (clocks : ℕ) (r : Ret × Dev) : Type 0 where
  failed :
      (e : Errno) → r.0 ≡ err e → r.1.clocks ≡ clocks → r.1.sram.files ≡ 0 → Probes clk clocks r
  probed :
      r.0 ≡ ok 0
      → IsOwned r.1.sram
      → (sram_remove clk r.1).1.clocks ≡ clocks
      → (sram_remove clk r.1).1.sram.files ≡ 0
      → Probes clk clocks r
