-- ===== src/Sram/Region.antt =====
-- sram/sram.c, sram_reserve_regions: the whole region, with the blocks as the device tree lists them.
use ldd.Common.{
  ℕ, ◌+◌, ◌-◌, ◌^◌, ◌≤◌, ◌<◌, ◌≡◌, refl, sym, subst, ap, ap₂, ◌∙◌, Bool, true, false, not, ◌&&◌,
  ◌||◌, Option, none, some, List, [], ◌∷◌, ◌++◌, arith, ltb, leb, if◌then◌else◌, Bool-cases,
  Option-cases, ◌⊎◌, inl, inr, Errno, ok,
}
use mathlib.Core.List.{Permᴰ}
use mathlib.Core.List.Permᴰ
use ldd.Sram.{
  Block, Sram, Kernel, Child, walk, is_special, any_special, labelled, block_of, reserve,
  sram_reserve_regions, sram_reserve_after,
}
use ldd.Sram.Tiling.{inside, in_blocks, in_chunks, AllBelow, end_of, walk-Tiles}

-- A resource of a child does not end before it starts (an empty one ends one before).
abbrev pub AllOrdered : List Child → Type 0
AllOrdered [] = Unit {0}
AllOrdered (c ∷ children) =
    ((start end : ℕ) → c.address ≡ some (start, end) → start ≤ end + 1) × AllOrdered children

pub labelled-inv : (o : Option Errno) (l : Bool) (b c : Block) → labelled o l b ≡ inr c → b ≡ c
labelled-inv (some e) l b c h = cc
labelled-inv none true b c h = cc
labelled-inv none false b c h = cc

block_of-below :
    (first last : ℕ) (c : Child) (b : Block)
    → ((start end : ℕ) → c.address ≡ some (start, end) → start ≤ end + 1)
    → block_of first last c ≡ inr b
    → b.start + b.size ≤ last + 1 - first
unfolding block_of
block_of-below first last c b h e = elim (Option-cases c.address) [
  | inl n ↦ let never = (rw (n, block_of) at e) in cc
  | inr ((start, end), a) ↦
      let ordered = h start end a in
      let e' = (rw (a, block_of) at e) in
      let x : Block = record {
        start = start - first;
        size = end + 1 - start;
        exported = c.exported;
        pool = c.pool;
        protect_exec = c.protect_exec;
      } in
      elim (Bool-cases (ltb start first || ltb last end)) [
        | inl o ↦ let never = simp o at e' in cc
        | inr o ↦
            let same : x ≡ b = elim (Bool-cases (is_special x)) [
              | inl k ↦ labelled-inv c.label_error c.label_ok x b (simp (o, k) at e')
              | inr k ↦ let found = simp (o, k) at e' in cc
            ] in
            subst (λ (y : Block). y.start + y.size ≤ last + 1 - first) same (ground arith)
      ]
]

pub reserved-inj : {xs ys : List Block} → ◌≡◌ {A = Errno ⊎ List Block} (inr xs) (inr ys) → xs ≡ ys
reserved-inj e = cc

pub Result-cases :
    {A : Type 0} (o : Errno ⊎ A) → ((e : Errno) × (o ≡ inl e)) ⊎ ((a : A) × (o ≡ inr a))
Result-cases (inl e) = inl (e, refl)
Result-cases (inr a) = inr (a, refl)

swap_add : (a b c : ℕ) → a + (b + c) ≡ b + (a + c)
swap_add a b c = omega arith

reserve-below :
    (first last : ℕ) (children : List Child) (blocks : List Block)
    → AllOrdered children
    → reserve first last children ≡ inr blocks
    → AllBelow (last + 1 - first) blocks
unfolding reserve
reserve-below first last [] blocks h e =
    let same : [] ≡ blocks = cc in subst (AllBelow (last + 1 - first)) same tt
reserve-below first last (c ∷ children) blocks (h, hs) e =
    elim (Result-cases (block_of first last c)) [
      | inl (x, p) ↦ let never = (rw (p, reserve) at e) in cc
      | inr (b, p) ↦ elim (Result-cases (reserve first last children)) [
        | inl (x, q) ↦ let never = (rw (p, q, reserve) at e) in cc
        | inr (rest, q) ↦
            let same : b ∷ rest ≡ blocks = reserved-inj (rw (p, q, reserve) at e) in
            subst (AllBelow (last + 1 - first)) same
              (block_of-below first last c b h p, reserve-below first last children rest hs q)
      ]
    ]

-- Sorting changes neither what the blocks cover nor their bound.
in_blocks-Permᴰ : (xs ys : List Block) → Permᴰ xs ys → (x : ℕ) → in_blocks xs x ≡ in_blocks ys x
in_blocks-Permᴰ [] [] Permᴰ.nil x = refl
in_blocks-Permᴰ (a ∷ l) (b ∷ m) (Permᴰ.cons e p) x =
    ap₂ ◌+◌ (ap (λ (c : Block). inside c.start c.size x) e) (in_blocks-Permᴰ l m p x)
in_blocks-Permᴰ (a ∷ b ∷ l) (a' ∷ b' ∷ m) (Permᴰ.swap e f) x =
    swap_add (inside a.start a.size x) (inside b.start b.size x) (in_blocks l x)
    ∙ ap₂ (λ (c d : Block). inside c.start c.size x + (inside d.start d.size x + in_blocks l x)) f e
in_blocks-Permᴰ xs zs (Permᴰ.trans p q) x = in_blocks-Permᴰ xs _ p x ∙ in_blocks-Permᴰ _ zs q x

AllBelow-Permᴰ : (size : ℕ) (xs ys : List Block) → Permᴰ xs ys → AllBelow size xs → AllBelow size ys
AllBelow-Permᴰ size [] [] Permᴰ.nil h = h
AllBelow-Permᴰ size (a ∷ l) (b ∷ m) (Permᴰ.cons e p) (h, hs) =
    (subst (λ (c : Block). c.start + c.size ≤ size) e h, AllBelow-Permᴰ size l m p hs)
AllBelow-Permᴰ size (a ∷ b ∷ l) (a' ∷ b' ∷ m) (Permᴰ.swap e f) (h, (h', hs)) = (
  subst (λ (c : Block). c.start + c.size ≤ size) f h',
  (subst (λ (c : Block). c.start + c.size ≤ size) e h, hs),
)
AllBelow-Permᴰ size xs zs (Permᴰ.trans p q) h =
    AllBelow-Permᴰ size _ zs q (AllBelow-Permᴰ size xs _ p h)

AllBelow-append :
    (size : ℕ) (xs : List Block) (b : Block)
    → AllBelow size xs
    → b.start + b.size ≤ size
    → AllBelow size (xs ++ (b ∷ []))
AllBelow-append size [] b h k = (k, tt)
AllBelow-append size (x ∷ xs) b (h, hs) k = (h, AllBelow-append size xs b hs k)

AllBelow-last :
    (size : ℕ) (xs : List Block) (b : Block)
    → AllBelow size (xs ++ (b ∷ []))
    → b.start + b.size ≤ size
AllBelow-last size [] b (h, hs) = h
AllBelow-last size (x ∷ xs) b (h, hs) = AllBelow-last size xs b hs

end_of-le :
    (size cur : ℕ) (blocks : List Block)
    → cur ≤ size
    → AllBelow size blocks
    → end_of cur blocks ≤ size
end_of-le size cur [] h hs = h
end_of-le size cur (b ∷ blocks) h (k, ks) = end_of-le size (b.start + b.size) blocks k ks

in_blocks-marker :
    (xs : List Block) (b : Block) (x : ℕ)
    → b.size ≡ 0
    → in_blocks (xs ++ (b ∷ [])) x ≡ in_blocks xs x
in_blocks-marker [] b x h = ground arith
in_blocks-marker (y ∷ xs) b x h = ap (λ n. inside y.start y.size x + n) (in_blocks-marker xs b x h)

limit :
    (x end size : ℕ)
    → end ≡ size
    → ◌≡◌ {A = ℕ} (if leb 0 x && ltb x end then 1 else 0) (if ltb x size then 1 else 0)
limit x end size e = ground arith

-- The region is divided: the blocks of the children and the chunks added to the pool.
pub record Divided (size : ℕ) (blocks : List Block) (s t : Sram) : Type 0 where
  pub added : List (ℕ × ℕ)
  pub chunks : t.chunks ≡ s.chunks ++ added
  pub once : (x : ℕ) → in_blocks blocks x + in_chunks added x ≡ (if ltb x size then 1 else 0)

-- When the regions of a device have been reserved with success, every byte of the region lies in
-- exactly one of the reserved blocks and the chunks that the general pool was given, and neither goes
-- beyond the region; `list_sort` may permute as it likes, and the region has fewer than 2^32 bytes.
pub sram_reserve_regions-Divided :
    (list_sort : (Block → Block → Bool) → List Block → List Block)
    (permutes : (gt : Block → Block → Bool) (xs : List Block) → Permᴰ (list_sort gt xs) xs)
    (k : Kernel) (first last : ℕ) (children : List Child) (mem_ok table_ok : Bool) (s t : Sram)
    → last + 1 - first < 2 ^ 32
    → AllOrdered children
    → sram_reserve_regions list_sort k first last children mem_ok table_ok s ≡ (ok 0, t)
    → (blocks : List Block) × (reserve first last children ≡ inr blocks)
      × Divided (last + 1 - first) blocks s t
unfolding sram_reserve_regions
sram_reserve_regions-Divided list_sort permutes k first last children false table_ok s t h o e = cc
sram_reserve_regions-Divided list_sort permutes k first last children true table_ok s t h o e =
    elim (Result-cases (reserve first last children)) [
      | inl (x, p) ↦ let never = (rw (p, sram_reserve_regions) at e) in cc
      | inr (blocks, p) ↦ elim (Bool-cases (any_special blocks && not table_ok)) [
        | inl q ↦ let never = (rw (p, q, sram_reserve_regions) at e) in cc
        | inr q ↦ (
          blocks,
          p,
          divided blocks (reserve-below first last children blocks o p)
              (rw (p, q, sram_reserve_regions) at e),
        )
      ]
    ]
  where
    divided :
        (blocks : List Block)
        → AllBelow (last + 1 - first) blocks
        → walk k 0
            (list_sort sram_reserve_after (
              blocks
              ++ (record {
                start = last + 1 - first;
                size = 0;
                exported = false;
                pool = false;
                protect_exec = false;
              }
                  ∷ [])))
            s
          ≡ (ok 0, t)
        → Divided (last + 1 - first) blocks s t
    divided blocks below e =
        let size = last + 1 - first in
        let marker : Block = record {
          start = size;
          size = 0;
          exported = false;
          pool = false;
          protect_exec = false;
        } in
        let listed = blocks ++ (marker ∷ []) in
        let sorted = list_sort sram_reserve_after listed in
        let p = permutes sram_reserve_after listed in
        let below' =
          AllBelow-Permᴰ size listed sorted (Permᴰ.symm p)
            (AllBelow-append size blocks marker below (omega arith)) in
        let tiles = walk-Tiles k size 0 sorted s t h below' e in
        let up =
          AllBelow-last (end_of 0 sorted) blocks marker
            (AllBelow-Permᴰ (end_of 0 sorted) sorted listed p tiles.reach) in
        let down = end_of-le size 0 sorted (omega arith) below' in
        let at : end_of 0 sorted ≡ size = omega arith in
        record {
          added = tiles.added;
          chunks = tiles.chunks;
          once = λ x.
              ap (λ n. n + in_chunks tiles.added x)
                (sym (in_blocks-Permᴰ sorted listed p x ∙ in_blocks-marker blocks marker x refl))
              ∙ tiles.once x
              ∙ limit x (end_of 0 sorted) size at;
        }
