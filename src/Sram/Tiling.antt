-- ===== src/Sram/Tiling.antt =====
-- sram/sram.c, sram_reserve_regions: where the chunks of the general pool lie.
use ldd.Common.{
  ℕ, ◌+◌, ◌-◌, ◌%◌, ◌^◌, ◌≤◌, ◌<◌, ◌≡◌, refl, sym, subst, ap, ◌∙◌, ◌&&◌, Option, none, some, List,
  [], ◌∷◌, ◌++◌, arith, append_assoc, append-nil, ltb, leb, ◌==◌, if◌then◌else◌, Bool-cases,
  Option-cases, ==_iff, inl, inr, Ret, Errno, ok,
}
use ldd.Sram.{Block, Sram, Kernel, settle, step, walk, is_special, sram_add_partition}

-- How often an offset is covered: by one piece, by the blocks, by the chunks.
abbrev pub inside : ℕ → ℕ → ℕ → ℕ
inside start size x = if leb start x && ltb x (start + size) then 1 else 0

abbrev pub in_blocks : List Block → ℕ → ℕ
in_blocks [] x = 0
in_blocks (b ∷ blocks) x = inside b.start b.size x + in_blocks blocks x

abbrev pub in_chunks : List (ℕ × ℕ) → ℕ → ℕ
in_chunks [] x = 0
in_chunks ((start, size) ∷ chunks) x = inside start size x + in_chunks chunks x

-- Blocks whose ends are `u32` numbers, below `size`.
abbrev pub AllBelow : ℕ → List Block → Type 0
AllBelow size [] = Unit {0}
AllBelow size (b ∷ blocks) = (b.start + b.size ≤ size) × AllBelow size blocks

-- Where the walk ends.
abbrev pub end_of : ℕ → List Block → ℕ
end_of cur [] = cur
end_of cur (b ∷ blocks) = end_of (b.start + b.size) blocks

-- The chunks that a walk adds, and what they cover together with the blocks.
pub record Tiles (cur end : ℕ) (blocks : List Block) (s t : Sram) : Type 0 where
  pub added : List (ℕ × ℕ)
  pub chunks : t.chunks ≡ s.chunks ++ added
  pub forward : cur ≤ end
  pub reach : AllBelow end blocks
  pub once :
      (x : ℕ) → in_blocks blocks x + in_chunks added x ≡ (if leb cur x && ltb x end then 1 else 0)

no_wrap :
    (start size limit : ℕ)
    → start + size ≤ limit
    → limit < 2 ^ 32
    → (start + size) % 2 ^ 32 ≡ start + size
no_wrap start size limit h k = omega arith

block-once :
    (cur start size end rest x : ℕ)
    → cur ≡ start
    → start + size ≤ end
    → rest ≡ (if leb (start + size) x && ltb x end then 1 else 0)
    → inside start size x + rest ≡ (if leb cur x && ltb x end then 1 else 0)
block-once cur start size end rest x e h r = ground arith

chunk-once :
    (cur start size end a b x : ℕ)
    → cur < start
    → start + size ≤ end
    → a + b ≡ (if leb (start + size) x && ltb x end then 1 else 0)
    → inside start size x + a + (inside cur (start - cur) x + b)
      ≡ (if leb cur x && ltb x end then 1 else 0)
chunk-once cur start size end a b x e h r = ground arith

add_assoc : (a b c : ℕ) → a + b + c ≡ a + (b + c)
add_assoc a b c = omega arith

settle-chunks : (e p : Option Errno) (b : Block) (s : Sram) → (settle e p b s).1.chunks ≡ s.chunks
settle-chunks (some e) p b s = refl
settle-chunks none (some e) b s = refl
settle-chunks none none b s = refl

step-chunks : (k : Kernel) (b : Block) (s : Sram) → (step k b s).1.chunks ≡ s.chunks
unfolding sram_add_partition
step-chunks k b s = elim (Bool-cases (is_special b)) [
  | inl e ↦ simp e (settle-chunks _ _ b s)
  | inr e ↦ simp e
]

-- A walk that succeeds from an offset has tiled the region from there on: every offset up to the end
-- of the last block lies in exactly one of the blocks and the chunks that were added, and no other
-- offset in any.
pub walk-Tiles :
    (k : Kernel) (size cur : ℕ) (blocks : List Block) (s t : Sram)
    → size < 2 ^ 32
    → AllBelow size blocks
    → walk k cur blocks s ≡ (ok 0, t)
    → Tiles cur (end_of cur blocks) blocks s t
unfolding walk
walk-Tiles k size cur [] s t h below e =
    let same : s ≡ t = ap (λ (x : Ret × Sram). x.1) e in
    subst (Tiles cur cur [] s) same (record {
      added = [];
      chunks = sym (append-nil s.chunks);
      forward = omega arith;
      reach = tt;
      once = λ x. ground arith;
    })
walk-Tiles k size cur (b ∷ blocks) s t h (fit, below) e =
    let next = no_wrap b.start b.size size fit h in
    let kept = step-chunks k b s in
    elim (Bool-cases (ltb b.start cur)) [
      | inl o ↦ let never = simp o at e in cc
      | inr o ↦ elim (Option-cases (step k b s).0) [
        | inr (x, p) ↦ let never = (rw (o, p, walk) at e) in cc
        | inl p ↦ elim (Bool-cases (b.start == cur)) [
          | inl q ↦
              let e' = (rw (o, p, q, next, walk) at e) in
              let ih = walk-Tiles k size (b.start + b.size) blocks (step k b s).1 t h below e' in
              let at : cur ≡ b.start = sym ((==_iff b.start cur).0 q) in
              let forward = ih.forward in
              record {
                added = ih.added;
                chunks = ih.chunks ∙ ap (λ c. c ++ ih.added) kept;
                forward = omega arith;
                reach = (forward, ih.reach);
                once = λ x.
                    add_assoc (inside b.start b.size x) (in_blocks blocks x) (in_chunks ih.added x)
                    ∙ block-once cur b.start b.size (end_of (b.start + b.size) blocks) _ x at
                        forward (ih.once x);
              }
          | inr q ↦ elim (Option-cases (k.gen_pool_add_chunk cur (b.start - cur))) [
            | inr (x, a) ↦ let never = (rw (o, p, q, a, walk) at e) in cc
            | inl a ↦
                let e' = (rw (o, p, q, a, next, walk) at e) in
                let piece : List (ℕ × ℕ) = (cur, b.start - cur) ∷ [] in
                let with_piece : Sram = record (step k b s).1 {
                  chunks = (step k b s).1.chunks ++ piece;
                } in
                let ih = walk-Tiles k size (b.start + b.size) blocks with_piece t h below e' in
                let before : cur < b.start = ground arith in
                let forward = ih.forward in
                record {
                  added = (cur, b.start - cur) ∷ ih.added;
                  chunks =
                      ih.chunks
                      ∙ ap (λ c. (c ++ piece) ++ ih.added) kept
                      ∙ append_assoc s.chunks piece ih.added;
                  forward = omega arith;
                  reach = (forward, ih.reach);
                  once = λ x.
                      chunk-once cur b.start b.size (end_of (b.start + b.size) blocks)
                        (in_blocks blocks x) (in_chunks ih.added x) x before forward (ih.once x);
                }
          ]
        ]
      ]
    ]
