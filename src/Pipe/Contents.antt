-- ===== src/Pipe/Contents.antt =====
-- scull/pipe.c: the bytes that a pipe holds, oldest first.
use ldd.Common.{
  ℕ, ◌-◌, ◌≡◌, List, ◌++◌, length, arith, leb, if◌then◌else◌, slice, length-append, length-slice,
}
use ldd.Pipe.{Pipe, mem}
use ldd.Pipe.Bounds.{IsValid, used}

abbrev pub window : List ℕ → ℕ → ℕ → ℕ → List ℕ
window b rp wp end =
    if leb rp wp then slice b rp (wp - rp) else slice b rp (end - rp) ++ slice b 0 wp

abbrev pub contents : Pipe → List ℕ
contents p = window (mem p) p.rp p.wp p.end

pub length-contents : {p : Pipe} → IsValid p → length (contents p) ≡ used p
length-contents {p} v = ground (
  arith,
  length-slice (mem p) p.rp (p.wp - p.rp),
  length-slice (mem p) p.rp (p.end - p.rp),
  length-slice (mem p) 0 p.wp,
  length-append (slice (mem p) p.rp (p.end - p.rp)) (slice (mem p) 0 p.wp),
)
