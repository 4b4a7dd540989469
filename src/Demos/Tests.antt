-- ===== src/Demos/Tests.antt =====
-- mmap/simple.c at concrete inputs.
use ldd.Common.{◌+◌, ◌-◌, ◌/◌, false}
use ldd.Demos.Simple.{Vma, Remap, no_ops}

-- Three pages from frame 70 on.
abbrev mapping : Vma
mapping = record {
  vm_start = 8192;
  vm_end = 20480;
  vm_pgoff = 70;
  vm_io = false;
  vm_reserved = false;
  vm_ops = no_ops;
}

abbrev remap : Remap
remap = record { fails = false; installed = λ address. 70 + (address - 8192) / 4096 }
