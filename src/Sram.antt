-- ===== src/Sram.antt =====
-- sram/sram.c: a region of memory, divided into the blocks that the device tree reserves and the chunks
-- in between, which go to the general pool. Addresses are offsets into the region; `u32` sums wrap.
pub mod Tiling
pub mod Region
pub mod Files
pub mod Order
pub mod Copies
pub mod Probe
mod Tests
use ldd.Common.{
  length, ◌⊎◌, inl, inr, ℕ, zero, suc, ◌+◌, ◌-◌, ◌%◌, ◌^◌, Bool, true, false, not, ◌&&◌, ◌||◌,
  Option, none, some, List, [], ◌∷◌, ◌++◌, ltb, ◌==◌, if◌then◌else◌, slice, store, Ret, Errno, ok,
  err, einval, enomem,
}

-- `struct sram_reserve`, without its label.
pub record Block : Type 0 where
  pub start : ℕ
  pub size : ℕ
  pub exported : Bool
  pub pool : Bool
  pub protect_exec : Bool

-- The part of `struct sram_partition` that its release looks at: whether `battr.size` is set.
pub record Partition : Type 0 where
  pub base : ℕ
  pub has_file : Bool

-- `partition` with as many entries as `partitions` says; the chunks that the general pool was given,
-- each with its offset and size; and how many files the device has.
pub record Sram : Type 0 where
  pub partitions : List Partition
  pub chunks : List (ℕ × ℕ)
  pub files : ℕ

-- The kernel's answers, an error or `none`, by the block or the chunk that they are about.
pub record Kernel : Type 0 where
  pub gen_pool_create : Block → Option Errno
  pub gen_pool_add_block : Block → Option Errno
  pub gen_pool_add_chunk : ℕ → ℕ → Option Errno
  pub name_ok : Block → Bool
  pub create_bin_file : Block → Option Errno
  pub check_protect_exec : Block → Option Errno

-- One after the other; the first error ends it.
abbrev pub and_then : Option Errno → Option Errno → Option Errno
and_then none next = next
and_then (some e) next = some e

abbrev pub when : Bool → Option Errno → Option Errno
when true o = o
when false o = none

-- `memcpy_fromio` and `memcpy_toio` of `count` bytes at `pos`.
pub sram_read : List ℕ → ℕ → ℕ → ℕ × List ℕ
sram_read base pos count = (count, slice base pos count)

pub sram_write : List ℕ → List ℕ → ℕ → ℕ × List ℕ
sram_write base buf pos = (length buf, store base pos buf)

-- `ra->start - rb->start` in 32 bits, as an `int`: whether it is positive.
pub sram_reserve_after : Block → Block → Bool
sram_reserve_after ra rb =
    let difference = (ra.start + 2 ^ 32 - rb.start) % 2 ^ 32 in
    not (difference == 0) && ltb difference (2 ^ 31)

abbrev pub is_special : Block → Bool
is_special b = (b.exported || b.pool || b.protect_exec) && not (b.size == 0)

-- `exports` is not 0.
abbrev pub any_special : List Block → Bool
any_special [] = false
any_special (b ∷ blocks) = is_special b || any_special blocks

-- What is left of `sram_add_partition`, when the pool and the export, then the protection, have given
-- these results. The file is there as soon as the export has succeeded.
abbrev pub with_file : Block → Sram → Sram
with_file b s = record s { files = if b.exported then s.files + 1 else s.files }

abbrev pub settle : Option Errno → Option Errno → Block → Sram → Option Errno × Sram
settle (some e) protected b s = (some e, s)
settle none (some e) b s = (some e, with_file b s)
settle none none b s = (
  none,
  record (with_file b s) {
    partitions = record { base = b.start; has_file = b.exported } ∷ s.partitions;
  },
)

module _ (k : Kernel) where
  pub sram_add_pool : Block → Option Errno
  sram_add_pool b = and_then (k.gen_pool_create b) (k.gen_pool_add_block b)

  pub sram_add_export : Block → Option Errno
  sram_add_export b = if k.name_ok b then k.create_bin_file b else some enomem

  pub sram_add_partition : Block → Sram → Option Errno × Sram
  unfolding sram_add_pool sram_add_export
  sram_add_partition b s =
      let pooled = when b.pool (sram_add_pool b) in
      let exported = and_then pooled (when b.exported (sram_add_export b)) in
      let protected = when b.protect_exec (and_then (k.check_protect_exec b) (sram_add_pool b)) in
      settle exported protected b s

-- From the last partition to the first: the list has the last one in front.
pub remove_files : List Partition → ℕ → ℕ
remove_files [] files = files
remove_files (p ∷ partitions) files =
    remove_files partitions (if p.has_file then files - 1 else files)

pub sram_free_partitions : Sram → Sram
unfolding remove_files
sram_free_partitions s = record s { partitions = []; files = remove_files s.partitions s.files }

-- A block's own part of the walk: its partition, if it asks for one.
abbrev pub step : Kernel → Block → Sram → Option Errno × Sram
step k b s = if is_special b then sram_add_partition k b s else (none, s)

-- The walk over the sorted blocks, with `cur_start`.
pub walk : Kernel → ℕ → List Block → Sram → Ret × Sram
unfolding sram_add_partition sram_free_partitions
walk k cur_start [] s = (ok 0, s)
walk k cur_start (b ∷ blocks) s =
    let (refused, t) = step k b s in
    let next = (b.start + b.size) % 2 ^ 32 in
    let cur_size = b.start - cur_start in
    let go = walk k next blocks t in
    let added =
      walk k next blocks (record t { chunks = t.chunks ++ ((cur_start, cur_size) ∷ []) }) in
    if ltb b.start cur_start then (err einval, sram_free_partitions s) else elim refused [
      | some e ↦ (err e, sram_free_partitions t)
      | none ↦ if b.start == cur_start then go else elim (k.gen_pool_add_chunk cur_start cur_size) [
        | some e ↦ (err e, sram_free_partitions t)
        | none ↦ added
      ]
    ]

-- A child in the device tree: its resource, both ends included, if it has one that can be read, its
-- properties, whether its label can be read, and whether the label can be copied.
pub record Child : Type 0 where
  pub address : Option (ℕ × ℕ)
  pub address_error : Errno
  pub exported : Bool
  pub pool : Bool
  pub protect_exec : Bool
  pub label_error : Option Errno
  pub label_ok : Bool

-- The label of a special block.
abbrev pub labelled : Option Errno → Bool → Block → Errno ⊎ Block
labelled (some e) label_ok b = inl e
labelled none true b = inr b
labelled none false b = inl enomem

-- The block of a child, of a region from `first` to `last`.
pub block_of : ℕ → ℕ → Child → Errno ⊎ Block
block_of first last c = elim c.address [
  | none ↦ inl c.address_error
  | some (start, end) ↦
      let b : Block = record {
        start = start - first;
        size = end + 1 - start;
        exported = c.exported;
        pool = c.pool;
        protect_exec = c.protect_exec;
      } in
      if ltb start first || ltb last end
      then inl einval
      else (if is_special b then labelled c.label_error c.label_ok b else inr b)
]

pub reserve : ℕ → ℕ → List Child → Errno ⊎ List Block
unfolding block_of
reserve first last [] = inr []
reserve first last (c ∷ children) = elim (block_of first last c) [
  | inl e ↦ inl e
  | inr b ↦ elim (reserve first last children) [ inl e ↦ inl e | inr blocks ↦ inr (b ∷ blocks) ]
]

-- `mem_ok` is the outcome of the allocation of the blocks, `table_ok` of that of the partitions.
-- `list_sort` is the kernel's, given the test of `sram_reserve_cmp`.
pub sram_reserve_regions :
    ((Block → Block → Bool) → List Block → List Block)
    → Kernel
    → ℕ
    → ℕ
    → List Child
    → Bool
    → Bool
    → Sram
    → Ret × Sram
unfolding reserve walk sram_reserve_after
sram_reserve_regions list_sort k first last children mem_ok table_ok s =
    let size = last + 1 - first in
    if mem_ok
    then elim (reserve first last children) [
      | inl e ↦ (err e, s)
      | inr blocks ↦
          let marker : Block = record {
            start = size;
            size = 0;
            exported = false;
            pool = false;
            protect_exec = false;
          } in
          let sorted = list_sort sram_reserve_after (blocks ++ (marker ∷ [])) in
          if any_special blocks && not table_ok then (err enomem, s) else walk k 0 sorted s
    ]
    else (err enomem, s)
