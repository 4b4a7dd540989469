-- ===== src/Sram/Probe/Plain.antt =====
-- sram/sram.c: the regions of children of which none asks for both an export and protected execution.
use ldd.Common.{
  ℕ, ◌+◌, ◌-◌, ◌≡◌, refl, subst, Bool, true, false, not, ◌&&◌, ◌||◌, List, [], ◌∷◌, ◌++◌,
  Bool-cases, ltb, Option-cases, ◌⊎◌, inl, inr, Ret, Errno, ok, err, enomem,
}
use mathlib.Core.List.{Permᴰ}
use mathlib.Core.List.Permᴰ
use ldd.Sram.{
  Block, Sram, Kernel, Child, is_special, any_special, block_of, reserve, sram_reserve_regions,
  sram_reserve_after,
}
use ldd.Sram.Region.{labelled-inv, Result-cases, reserved-inj}
use ldd.Sram.Files.{IsOwned, NoBoth, walk-Files}
use ldd.Sram.Probe.{no_regions}

-- No child asks for both an export and protected execution.
abbrev pub NeitherBoth : List Child → Type 0
NeitherBoth [] = Unit {0}
NeitherBoth (c ∷ children) = ((c.exported && c.protect_exec) ≡ false) × NeitherBoth children

-- How a reservation ends: with owned files, or with none.
unfoldable pub Region : Ret × Sram → Type 0
Region r = (r.0 ≡ ok 0) × IsOwned r.1 ⊎ ((e : Errno) × (r.0 ≡ err e) × (r.1.files ≡ 0))

block_of-plain :
    (first last : ℕ) (c : Child) (b : Block)
    → (c.exported && c.protect_exec) ≡ false
    → block_of first last c ≡ inr b
    → (b.exported && b.protect_exec) ≡ false
unfolding block_of
block_of-plain first last c b h e = elim (Option-cases c.address) [
  | inl n ↦ let never = (rw (n, block_of) at e) in cc
  | inr ((start, end), a) ↦
      let e' = (rw (a, block_of) at e) in
      let x : Block = record {
        start = start - first;
        size = end + 1 - start;
        exported = c.exported;
        pool = c.pool;
        protect_exec = c.protect_exec;
      } in
      elim (Bool-cases (ltb start first || ltb last end)) [
        | inl o ↦ let never = simp o at e' in cc
        | inr o ↦
            let same : x ≡ b = elim (Bool-cases (is_special x)) [
              | inl k ↦ labelled-inv c.label_error c.label_ok x b (simp (o, k) at e')
              | inr k ↦ let found = simp (o, k) at e' in cc
            ] in
            subst (λ (y : Block). (y.exported && y.protect_exec) ≡ false) same h
      ]
]

reserve-NoBoth :
    (first last : ℕ) (children : List Child) (blocks : List Block)
    → NeitherBoth children
    → reserve first last children ≡ inr blocks
    → NoBoth blocks
unfolding reserve
reserve-NoBoth first last [] blocks h e = let same : [] ≡ blocks = cc in subst NoBoth same tt
reserve-NoBoth first last (c ∷ children) blocks (h, hs) e =
    elim (Result-cases (block_of first last c)) [
      | inl (x, p) ↦ let never = (rw (p, reserve) at e) in cc
      | inr (b, p) ↦ elim (Result-cases (reserve first last children)) [
        | inl (x, q) ↦ let never = (rw (p, q, reserve) at e) in cc
        | inr (rest, q) ↦
            subst NoBoth (reserved-inj (rw (p, q, reserve) at e))
              (block_of-plain first last c b h p, reserve-NoBoth first last children rest hs q)
      ]
    ]

NoBoth-Permᴰ : (xs ys : List Block) → Permᴰ xs ys → NoBoth xs → NoBoth ys
NoBoth-Permᴰ [] [] Permᴰ.nil h = h
NoBoth-Permᴰ (a ∷ l) (b ∷ m) (Permᴰ.cons e p) (h, hs) =
    (subst (λ (c : Block). (c.exported && c.protect_exec) ≡ false) e h, NoBoth-Permᴰ l m p hs)
NoBoth-Permᴰ (a ∷ b ∷ l) (a' ∷ b' ∷ m) (Permᴰ.swap e f) (h, (h', hs)) = (
  subst (λ (c : Block). (c.exported && c.protect_exec) ≡ false) f h',
  (subst (λ (c : Block). (c.exported && c.protect_exec) ≡ false) e h, hs),
)
NoBoth-Permᴰ xs zs (Permᴰ.trans p q) h = NoBoth-Permᴰ _ zs q (NoBoth-Permᴰ xs _ p h)

NoBoth-append :
    (xs : List Block) (b : Block)
    → NoBoth xs
    → (b.exported && b.protect_exec) ≡ false
    → NoBoth (xs ++ (b ∷ []))
NoBoth-append [] b h k = (k, tt)
NoBoth-append (x ∷ xs) b (h, hs) k = (h, NoBoth-append xs b hs k)

module _ (list_sort : (Block → Block → Bool) → List Block → List Block)
    (permutes : (gt : Block → Block → Bool) (xs : List Block) → Permᴰ (list_sort gt xs) xs)
    (k : Kernel) (first last : ℕ) (children : List Child) (table_ok : Bool) where
  pub regions-Region :
      (mem_ok : Bool)
      → NeitherBoth children
      → Region (sram_reserve_regions list_sort k first last children mem_ok table_ok no_regions)
  unfolding sram_reserve_regions Region
  regions-Region false h = inr (enomem, refl, refl)
  regions-Region true h = elim (Result-cases (reserve first last children)) [
    | inl (x, p) ↦ rw (p, sram_reserve_regions) (inr (x, refl, refl))
    | inr (blocks, p) ↦
        let marker : Block = record {
          start = last + 1 - first;
          size = 0;
          exported = false;
          pool = false;
          protect_exec = false;
        } in
        let listed = blocks ++ (marker ∷ []) in
        let plain =
          NoBoth-append blocks marker (reserve-NoBoth first last children blocks h p) refl in
        elim (Bool-cases (any_special blocks && not table_ok)) [
          | inl q ↦ rw (p, q, sram_reserve_regions) (inr (enomem, refl, refl))
          | inr q ↦
              rw (p, q, sram_reserve_regions)
                (walk-Files k 0 (list_sort sram_reserve_after listed) no_regions
                  (NoBoth-Permᴰ listed (list_sort sram_reserve_after listed)
                    (Permᴰ.symm (permutes sram_reserve_after listed)) plain)
                  refl)
        ]
  ]
