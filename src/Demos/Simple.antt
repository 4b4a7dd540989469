-- ===== src/Demos/Simple.antt =====
-- mmap/simple.c: a mapping of device memory, by remap_pfn_range at once or by faults page by page.
use ldd.Common.{
  ℕ, ◌+◌, ◌-◌, ◌*◌, ◌/◌, ◌^◌, ◌≤◌, ◌<◌, ◌≡◌, Bool, true, false, not, ◌||◌, Option, none, some, leb,
  ◌==◌, ◌≢◌, if◌then◌else◌, Ret, ok, err, eagain,
}

-- What the code reads and writes of `struct vm_area_struct`. `has_ops` tells which operations are
-- installed: none, those of the remap version, or those of the nopage version.
pub data Ops : Type 0 where
  no_ops simple_remap_vm_ops simple_nopage_vm_ops : Ops

pub record Vma : Type 0 where
  pub vm_start : ℕ
  pub vm_end : ℕ
  pub vm_pgoff : ℕ
  pub vm_io : Bool
  pub vm_reserved : Bool
  pub vm_ops : Ops

-- `remap_pfn_range` is the kernel's: whether it succeeds, and then the page frame that it installs
-- for an address.
pub record Remap : Type 0 where
  pub fails : Bool
  pub installed : ℕ → ℕ

-- The page tables belong to the kernel; `simple_vma_open` only prints.
pub simple_remap_mmap : Remap → Vma → Ret × Vma
simple_remap_mmap k v =
    if k.fails then (err eagain, v) else (ok 0, record v { vm_ops = simple_remap_vm_ops })

-- How a fault ends: with a bus error, or with a page frame. `minor`: whether `*type` was set to
-- VM_FAULT_MINOR.
pub record Fault : Type 0 where
  pub frame : Option ℕ
  pub minor : Bool
  pub counts : ℕ → ℕ

-- `get_page`: the reference counts of the page frames, with one more for a frame.
abbrev pub get_page : ℕ → (ℕ → ℕ) → ℕ → ℕ
get_page frame counts n = if n == frame then counts n + 1 else counts n

module _ (page_shift : ℕ) where
  -- `high_memory`: the physical address of its end; `o_sync`: O_SYNC in `f_flags`.
  pub simple_nopage_mmap : ℕ → Bool → Vma → Ret × Vma
  simple_nopage_mmap high_memory o_sync v =
      let offset = v.vm_pgoff * 2 ^ page_shift in
      let io = if leb high_memory offset || o_sync then true else v.vm_io in
      (ok 0, record v { vm_io = io; vm_reserved = true; vm_ops = simple_nopage_vm_ops })

  -- `has_type`: the pointer `type` is not NULL.
  pub simple_vma_nopage : (ℕ → Bool) → Vma → ℕ → Bool → (ℕ → ℕ) → Fault
  simple_vma_nopage pfn_valid v address has_type counts =
      let offset = v.vm_pgoff * 2 ^ page_shift in
      let physaddr = address - v.vm_start + offset in
      let pageframe = physaddr / 2 ^ page_shift in
      if not (pfn_valid pageframe)
      then record { frame = none; minor = false; counts = counts }
      else record { frame = some pageframe; minor = has_type; counts = get_page pageframe counts }

-- What `remap_pfn_range` documents: the pages of the area map to consecutive frames from `pfn` on.
abbrev pub Consecutive : ℕ → Vma → (ℕ → ℕ) → Type 0
Consecutive page_shift v installed =
    (address : ℕ)
    → v.vm_start ≤ address
    → address < v.vm_end
    → installed address ≡ v.vm_pgoff + (address - v.vm_start) / 2 ^ page_shift

-- How a fault ends, beside what the other version installs.
pub data Finds (k : Remap) (pfn_valid : ℕ → Bool) (address : ℕ) (has_type : Bool) (counts : ℕ → ℕ)
    (r : Fault) : Type 0 where
  found :
      pfn_valid (k.installed address) ≡ true
      → r.frame ≡ some (k.installed address)
      → r.minor ≡ has_type
      → r.counts (k.installed address) ≡ counts (k.installed address) + 1
      → ((n : ℕ) → n ≢ k.installed address → r.counts n ≡ counts n)
      → Finds k pfn_valid address has_type counts r
  bus_error :
      pfn_valid (k.installed address) ≡ false
      → r.frame ≡ none
      → ((n : ℕ) → r.counts n ≡ counts n)
      → Finds k pfn_valid address has_type counts r
