-- ===== src/Sram/Tests.antt =====
-- Runs of the sram model on a region of 100 bytes at address 1000.
use ldd.Common.{
  ℕ, ◌+◌, ◌-◌, ◌≤◌, ◌≡◌, refl, ap, Bool, true, false, Option, none, some, List, [], ◌∷◌, arith, ◌⊎◌,
  inr, Errno, ok, err, einval, ebusy,
}
use mathlib.Core.List.{Permᴰ}
use mathlib.Core.List.Permᴰ
use ldd.Sram.{
  Block, Sram, Kernel, Child, sram_reserve_regions, reserve, block_of, walk, sram_add_partition,
  sram_add_pool, sram_add_export,
}
use ldd.Sram.Region.{Divided, sram_reserve_regions-Divided}
use ldd.Sram.Files.{IsOwned, walk-Files}
use ldd.Sram.Probe.{Answers}

abbrev willing : Kernel
willing = record {
  gen_pool_create = λ b. none;
  gen_pool_add_block = λ b. none;
  gen_pool_add_chunk = λ start size. none;
  name_ok = λ b. true;
  create_bin_file = λ b. none;
  check_protect_exec = λ b. some ebusy;
}

abbrev in_order : (Block → Block → Bool) → List Block → List Block
in_order gt xs = xs

permutes : (gt : Block → Block → Bool) (xs : List Block) → Permᴰ (in_order gt xs) xs
permutes gt xs = Permᴰ.refl xs

abbrev exported_child : Child
exported_child = record {
  address = some (1010, 1019);
  address_error = einval;
  exported = true;
  pool = false;
  protect_exec = false;
  label_error = none;
  label_ok = true;
}

abbrev plain_child : Child
plain_child = record exported_child { address = some (1020, 1049); exported = false }

abbrev children : List Child
children = exported_child ∷ plain_child ∷ []

abbrev empty : Sram
empty = record { partitions = []; chunks = []; files = 0 }

abbrev divided : Sram
divided = record {
  partitions = record { base = 10; has_file = true } ∷ [];
  chunks = (0, 10) ∷ (50, 50) ∷ [];
  files = 1;
}

reserved :
    sram_reserve_regions in_order willing 1000 1099 children true true empty ≡ (ok 0, divided)
unfolding sram_reserve_regions reserve block_of walk sram_add_partition sram_add_pool
    sram_add_export
reserved = refl

ordered_child :
    (first last : ℕ)
    → first ≤ last + 1
    → (start end : ℕ) → ◌≡◌ {A = Option (ℕ × ℕ)} (some (first, last)) (some (start, end))
    → start ≤ end + 1
ordered_child first last h start end e =
    let same : ◌≡◌ {A = ℕ × ℕ} (first, last) (start, end) = cc in
    let a = ap (λ (p : ℕ × ℕ). p.0) same in let b = ap (λ (p : ℕ × ℕ). p.1) same in omega arith

sram_reserve_regions-Divided_example :
    (blocks : List Block) × (reserve 1000 1099 children ≡ inr blocks)
    × Divided (1099 + 1 - 1000) blocks empty divided
sram_reserve_regions-Divided_example =
    sram_reserve_regions-Divided in_order permutes willing 1000 1099 children true true empty
      divided (omega arith)
      (ordered_child 1010 1019 (omega arith), (ordered_child 1020 1049 (omega arith), tt)) reserved

abbrev exported_block : Block
exported_block = record {
  start = 10;
  size = 10;
  exported = true;
  pool = false;
  protect_exec = false;
}

abbrev overlapping : List Block
overlapping = exported_block ∷ record exported_block { start = 15 } ∷ []

walk-Files_example :
    ((walk willing 0 overlapping empty).0 ≡ ok 0) × IsOwned (walk willing 0 overlapping empty).1
    ⊎ ((e : Errno) × ((walk willing 0 overlapping empty).0 ≡ err e)
        × ((walk willing 0 overlapping empty).1.files ≡ 0))
walk-Files_example = walk-Files willing 0 overlapping empty (refl, (refl, tt)) refl

abbrev both : Block
both = record exported_block { protect_exec = true }

made : sram_add_export willing both ≡ none
unfolding sram_add_export
made = refl

abbrev answers : Answers
answers = record {
  memory = true;
  virt_base = none;
  pool = none;
  clk = true;
  init_func = some ebusy;
}
