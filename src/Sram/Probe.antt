-- ===== src/Sram/Probe.antt =====
-- sram/sram.c: sram_probe and sram_remove, with the device's clock. What devm_ calls allocate, the
-- kernel frees with the device.
pub mod Plain
pub mod Sound
use ldd.Common.{
  ℕ, zero, suc, ◌+◌, ◌-◌, ◌^◌, ◌≤◌, ◌<◌, ◌≡◌, ◌≢◌, refl, sym, subst, ap, ap₂, ◌∙◌, Bool, true,
  false, not, ◌&&◌, ◌||◌, Option, none, some, List, [], ◌∷◌, ◌++◌, arith, if◌then◌else◌, Bool-cases,
  ltb, Option-cases, ◌⊎◌, inl, inr, Ret, Errno, ok, err, einval, enomem,
}
use mathlib.Core.List.{Permᴰ}
use mathlib.Core.List.Permᴰ
use ldd.Sram.{
  Block, Partition, Sram, Kernel, Child, walk, is_special, labelled, any_special, block_of, reserve,
  sram_reserve_regions, sram_reserve_after, sram_free_partitions,
}
use ldd.Sram.Region.{labelled-inv, Result-cases, reserved-inj}
use ldd.Sram.Files.{IsOwned, NoBoth, walk-Files, freed}

-- The device: what is in its regions, and how often its clock is enabled.
pub record Dev : Type 0 where
  pub sram : Sram
  pub clocks : ℕ

-- The kernel's answers to sram_probe: memory, the mapping, the general pool, whether there is a clock,
-- and the result of the match's `init_func` (`none` also where there is no such function).
pub record Answers : Type 0 where
  pub memory : Bool
  pub virt_base : Option Errno
  pub pool : Option Errno
  pub clk : Bool
  pub init_func : Option Errno

abbrev pub clk_prepare_enable : Bool → Dev → Dev
clk_prepare_enable clk d = record d { clocks = if clk then d.clocks + 1 else d.clocks }

abbrev pub clk_disable_unprepare : Bool → Dev → Dev
clk_disable_unprepare clk d = record d { clocks = if clk then d.clocks - 1 else d.clocks }

-- The end of sram_probe, with the result of sram_reserve_regions.
pub finish : Answers → Ret × Sram → Dev → Ret × Dev
finish a (err e, s) d = (err e, clk_disable_unprepare a.clk (record d { sram = s }))
finish a (ok n, s) d = elim a.init_func [
  | some e ↦ (err e, clk_disable_unprepare a.clk (record d { sram = sram_free_partitions s }))
  | none ↦ (ok 0, record d { sram = s })
]

abbrev pub no_regions : Sram
no_regions = record { partitions = []; chunks = []; files = 0 }

-- `clocks` is how often the clock was enabled before.
pub sram_probe :
    ((Block → Block → Bool) → List Block → List Block)
    → Kernel
    → ℕ
    → ℕ
    → List Child
    → Bool
    → Bool
    → Answers
    → ℕ
    → Ret × Dev
unfolding sram_reserve_regions finish
sram_probe list_sort k first last children mem_ok table_ok a clocks =
    let d : Dev = record { sram = no_regions; clocks = clocks } in
    let regions = sram_reserve_regions list_sort k first last children mem_ok table_ok no_regions in
    if a.memory
    then elim a.virt_base [
      | some e ↦ (err e, d)
      | none ↦ elim a.pool [
        | some e ↦ (err e, d)
        | none ↦ finish a regions (clk_prepare_enable a.clk d)
      ]
    ]
    else (err enomem, d)

pub sram_remove : Bool → Dev → Ret × Dev
unfolding sram_free_partitions
sram_remove clk d =
    (ok 0, clk_disable_unprepare clk (record d { sram = sram_free_partitions d.sram }))
