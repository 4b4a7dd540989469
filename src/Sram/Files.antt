-- ===== src/Sram/Files.antt =====
-- sram/sram.c: the files of the exported partitions, when a walk fails.
use ldd.Common.{
  ℕ, ◌+◌, ◌-◌, ◌%◌, ◌^◌, ◌≤◌, ◌≡◌, refl, ap, ◌∙◌, true, false, ◌&&◌, Option, none, some, List, [],
  ◌∷◌, ◌++◌, arith, ltb, ◌==◌, if◌then◌else◌, Bool-cases, Option-cases, ◌⊎◌, inl, inr, Errno, ok,
  err, einval,
}
use ldd.Sram.{
  Block, Partition, Sram, Kernel, with_file, settle, step, walk, when, and_then, is_special,
  sram_add_partition, sram_add_pool, sram_add_export, sram_free_partitions, remove_files,
}

abbrev pub files_of : List Partition → ℕ
files_of [] = 0
files_of (p ∷ partitions) = (if p.has_file then 1 else 0) + files_of partitions

-- Each file belongs to a partition.
abbrev pub IsOwned : Sram → Type 0
IsOwned s = s.files ≡ files_of s.partitions

-- No block asks for both an export and protected execution.
abbrev pub NoBoth : List Block → Type 0
NoBoth [] = Unit {0}
NoBoth (b ∷ blocks) = ((b.exported && b.protect_exec) ≡ false) × NoBoth blocks

remove_files-all : (ps : List Partition) (extra : ℕ) → remove_files ps (files_of ps + extra) ≡ extra
unfolding remove_files
remove_files-all [] extra = omega arith
remove_files-all (p ∷ ps) extra = elim (Bool-cases p.has_file) [
  | inl e ↦
      let less : (1 + files_of ps + extra) - 1 ≡ files_of ps + extra = omega arith in
      simp (e, less) (remove_files-all ps extra)
  | inr e ↦
      let none : 0 + files_of ps + extra ≡ files_of ps + extra = omega arith in
      simp (e, none) (remove_files-all ps extra)
]

pub freed : (s : Sram) → IsOwned s → (sram_free_partitions s).files ≡ 0
unfolding sram_free_partitions
freed s h =
    let all : s.files ≡ files_of s.partitions + 0 = omega arith in
    ap (remove_files s.partitions) all ∙ remove_files-all s.partitions 0

settle-IsOwned :
    (e p : Option Errno) (b : Block) (s : Sram)
    → (b.exported ≡ true → p ≡ none)
    → IsOwned s
    → IsOwned (settle e p b s).1
settle-IsOwned (some x) p b s h o = o
settle-IsOwned none (some x) b s h o = elim (Bool-cases b.exported) [
  | inl e ↦ let never = h e in cc
  | inr e ↦ simp e o
]
settle-IsOwned none none b s h o = elim (Bool-cases b.exported) [
  | inl e ↦ simp e (omega arith)
  | inr e ↦ simp e (omega arith)
]

step-IsOwned :
    (k : Kernel) (b : Block) (s : Sram)
    → (b.exported && b.protect_exec) ≡ false
    → IsOwned s
    → IsOwned (step k b s).1
unfolding sram_add_partition
step-IsOwned k b s h o = elim (Bool-cases (is_special b)) [
  | inl e ↦ simp e (
      settle-IsOwned _ _ b s
        (λ x.
          let plain : b.protect_exec ≡ false = simp x at h in
          ap (λ p. when p (and_then (k.check_protect_exec b) (sram_add_pool k b))) plain)
        o)
  | inr e ↦ simp e o
]

-- Where no block asks for both an export and protected execution, a walk that fails has removed every
-- file, and one that succeeds has a file for exactly the exported partitions.
pub walk-Files :
    (k : Kernel) (cur : ℕ) (blocks : List Block) (s : Sram)
    → NoBoth blocks
    → IsOwned s
    → ((walk k cur blocks s).0 ≡ ok 0) × IsOwned (walk k cur blocks s).1
      ⊎ ((e : Errno) × ((walk k cur blocks s).0 ≡ err e) × ((walk k cur blocks s).1.files ≡ 0))
unfolding walk
walk-Files k cur [] s h o = inl (refl, o)
walk-Files k cur (b ∷ blocks) s (h, hs) o =
    let next = (b.start + b.size) % 2 ^ 32 in
    let owned = step-IsOwned k b s h o in
    elim (Bool-cases (ltb b.start cur)) [
      | inl x ↦ simp x (inr (einval, refl, freed s o))
      | inr x ↦ elim (Option-cases (step k b s).0) [
        | inr (e, p) ↦ rw (x, p, walk) (inr (e, refl, freed (step k b s).1 owned))
        | inl p ↦ elim (Bool-cases (b.start == cur)) [
          | inl q ↦ rw (x, p, q, walk) (walk-Files k next blocks (step k b s).1 hs owned)
          | inr q ↦ elim (Option-cases (k.gen_pool_add_chunk cur (b.start - cur))) [
            | inr (e, a) ↦ rw (x, p, q, a, walk) (inr (e, refl, freed (step k b s).1 owned))
            | inl a ↦
                rw (x, p, q, a, walk)
                  (walk-Files k next blocks
                    (record (step k b s).1 {
                      chunks = (step k b s).1.chunks ++ ((cur, b.start - cur) ∷ []);
                    })
                    hs owned)
          ]
        ]
      ]
    ]

step_refused :
    (k : Kernel) (b : Block) (s : Sram) (e : Errno)
    → is_special b ≡ true
    → b.pool ≡ false
    → b.exported ≡ true
    → b.protect_exec ≡ true
    → sram_add_export k b ≡ none
    → k.check_protect_exec b ≡ some e
    → step k b s ≡ (some e, with_file b s)
unfolding sram_add_partition
step_refused k b s e special pool exported protect made refused =
    rw special (simp (pool, exported, protect, made, refused))

-- An exported block whose protection is refused leaves its file behind: the walk fails with that
-- error, and one file is left that no partition has.
pub walk_leak :
    (k : Kernel) (cur : ℕ) (b : Block) (blocks : List Block) (s : Sram) (e : Errno)
    → cur ≤ b.start
    → is_special b ≡ true
    → b.pool ≡ false
    → b.exported ≡ true
    → b.protect_exec ≡ true
    → sram_add_export k b ≡ none
    → k.check_protect_exec b ≡ some e
    → IsOwned s
    → ((walk k cur (b ∷ blocks) s).0 ≡ err e) × ((walk k cur (b ∷ blocks) s).1.files ≡ 1)
unfolding walk sram_add_partition sram_free_partitions
walk_leak k cur b blocks s e at special pool exported protect made refused o =
    let x : ltb b.start cur ≡ false = ground arith in
    let st = step_refused k b s e special pool exported protect made refused in
    let more : (with_file b s).files ≡ files_of s.partitions + 1 = simp exported (omega arith) in
    rw (x, ap (λ (r : Option Errno × Sram). r.0) st, walk)
      (
        refl,
        ap (λ (r : Option Errno × Sram). (sram_free_partitions r.1).files) st
            ∙ ap (remove_files s.partitions) more
            ∙ remove_files-all s.partitions 1,
      )
